-- ===== src/AuditChain/Append.antt =====
-- HashChain.append of packages/audit-chain/src/hash-chain.ts, over the table and over what the
-- database does in each attempt.
pub mod Laws
pub mod Gate
pub mod Outcome
use vigil_apex_f.Common.{
  ℕ, zero, suc, ◌+◌, ◌-◌, ◌^◌, Bool, ◌||◌, Option, none, some, List, [], ◌∷◌, Text, codes, ltb,
  ◌==◌, if◌then◌else◌, any, ◌⊎◌, inl, inr,
}
use vigil_apex_f.AuditChain.Json.{Json, obj, end}
use vigil_apex_f.AuditChain.Platform.{Platform}
use vigil_apex_f.AuditChain.Canonical.{AuditEvent, body_hash, row_hash}
use vigil_apex_f.AuditChain.Store.{Row, Table, tail_row}

pub data AuditError : Type 0 where
  forbidden_field_char : Text → AuditError
  occurred_at_invalid : Text → AuditError
  seq_precision_ceiling : ℕ → AuditError
  -- the driver's error: no connection, a refused statement, a serialization failure
  database_error : AuditError
  -- AUDIT_APPEND_FAILED, with its cause
  append_failed : AuditError → AuditError
  -- `lastErr` before the first attempt
  unset : AuditError

-- What a function that may throw does: `err` leaves it, and everything that called it.
pub data Result {ℓ} (Value : Type ℓ) : Type ℓ where
  err : AuditError → Result Value
  ok : Value → Result Value

infixl 5 ◌>>=◌
abbrev pub ◌>>=◌ {ℓ κ} :
    {First : Type ℓ} {Last : Type κ} → Result First → (First → Result Last) → Result Last
thrower >>= rest = elim thrower [ err thrown ↦ err thrown | ok value ↦ rest value ]

-- /[|\0]/.test(value)
unfoldable pub has_forbidden : Text → Bool
has_forbidden = any (λ c. (c == b'|') || (c == 0))

-- BigInt(Number.MAX_SAFE_INTEGER)
abbrev pub seq_hard_cap : ℕ
seq_hard_cap = 2 ^ 53 - 1

pub record AppendInput : Type 0 where
  pub action : Text
  pub actor : Text
  pub subject_kind : Text
  pub subject_id : Text
  pub occurred_at : Option Text
  pub payload : Option Json

-- The fields once gated and normalised.
pub record Gated : Type 0 where
  pub action : Text
  pub actor : Text
  pub subject_kind : Text
  pub subject_id : Text
  pub occurred_at : Text
  pub payload : Json

-- What becomes of one attempt.
pub data Fate : Type 0 where
  -- no connection: the error leaves `append` at once
  unreachable : Fate
  commits : Fate
  -- an error, a serialization failure among them, and the transaction is rolled back
  rolled_back : Fate
  -- the row was committed, and the answer to COMMIT was lost
  answer_lost : Fate

pub record Attempt : Type 0 where
  pub id : Text
  pub fate : Fate
  -- what other writers commit before this attempt's transaction, with the ids of their rows
  pub others : List (Text × Gated)

abbrev pub or_else {ℓ} : {A : Type ℓ} → Option A → A → A
or_else none d = d
or_else (some a) d = a

abbrev pub next_seq : Option Row → ℕ
next_seq none = 1
next_seq (some r) = r.seq + 1

abbrev pub prev_of : Option Row → Option Text
prev_of none = none
prev_of (some r) = some r.body_hash

abbrev pub next :
    Table × (Result Row ⊎ AuditError)
    → (AuditError → Table → Table × Result Row)
    → Table × Result Row
next (t, inl result) again = (t, result)
next (t, inr e) again = again e t

abbrev pub kept : Table → Result (Row × Table) → Table
kept t (ok (r, t')) = t'
kept t (err e) = t

-- One round of the loop: `inl` leaves `append`, `inr` is the error for the next round.
pub finish : Fate → Table → Result (Row × Table) → Table × (Result Row ⊎ AuditError)
finish unreachable t outcome = (t, inl (err database_error))
finish commits t (ok (r, t')) = (t', inl (ok r))
finish rolled_back t (ok (r, t')) = (t, inr database_error)
finish answer_lost t (ok (r, t')) = (t', inr database_error)
finish _ t (err e) = (t, inr e)

module _ (p : Platform) where
  unfoldable pub gate_audit_field : Text → Text → Result Text
  unfolding has_forbidden
  gate_audit_field name value =
      if has_forbidden value then err (forbidden_field_char name) else ok (p.nfc value)

  gate_occurred_at : Text → Option ℕ → Result Text
  gate_occurred_at raw none = err (occurred_at_invalid raw)
  gate_occurred_at raw (some ms) = ok (p.to_iso ms)

  -- The checks before the first attempt, in the order of the source. `now` is the text of
  -- `new Date().toISOString()`.
  unfoldable pub prepare : Text → AppendInput → Result Gated
  unfolding gate_occurred_at
  prepare now input = do
    actor ← gate_audit_field (codes "actor") input.actor
    subject_id ← gate_audit_field (codes "subject_id") input.subject_id
    action ← gate_audit_field (codes "action") input.action
    subject_kind ← gate_audit_field (codes "subject_kind") input.subject_kind
    let raw = or_else input.occurred_at now
    occurred_at ← gate_occurred_at raw (p.parse_date raw)
    ok (record {
      action = action;
      actor = actor;
      subject_kind = subject_kind;
      subject_id = subject_id;
      occurred_at = occurred_at;
      payload = or_else input.payload (obj end);
    })

  unfoldable pub event_at : ℕ → Gated → AuditEvent
  event_at seq g = record {
    seq = seq;
    action = g.action;
    actor = g.actor;
    subject_kind = g.subject_kind;
    subject_id = g.subject_id;
    occurred_at = g.occurred_at;
    payload = g.payload;
  }

  -- The event that `append` returns, with its hashes: the row before the column types have acted.
  unfoldable pub row_after : Option Row → Text → Gated → Row
  unfolding event_at
  row_after last id g =
      let seq = next_seq last in
      let prev = prev_of last in
      record {
        id = id;
        seq = seq;
        action = g.action;
        actor = g.actor;
        subject_kind = g.subject_kind;
        subject_id = g.subject_id;
        occurred_at = g.occurred_at;
        payload = g.payload;
        prev_hash = prev;
        body_hash = row_hash p prev (body_hash p (event_at seq g));
      }

  -- INSERT INTO audit.actions: what the columns keep of it.
  unfoldable pub stored : Row → Row
  stored r = record r { occurred_at = p.timestamptz r.occurred_at; payload = p.jsonb r.payload }

  -- The body of the transaction: read the tail, check the ceiling, insert.
  unfoldable pub insert_next : Table → Text → Gated → Result (Row × Table)
  unfolding row_after stored
  insert_next t id g =
      let r = row_after (tail_row t) id g in
      if ltb seq_hard_cap r.seq then err (seq_precision_ceiling r.seq) else ok (r, stored r ∷ t)

  unfoldable pub commit_others : List (Text × Gated) → Table → Table
  commit_others [] t = t
  commit_others ((id, g) ∷ rest) t = commit_others rest (kept t (insert_next t id g))

  unfoldable pub attempt : Attempt → Gated → Table → Table × (Result Row ⊎ AuditError)
  unfolding finish
  attempt a g t = let t1 = commit_others a.others t in finish a.fate t1 (insert_next t1 a.id g)

  -- `for (let attempt = 0; attempt < 3; attempt++)`, on the rounds left.
  unfoldable pub append_loop :
      ℕ → ℕ → (ℕ → Attempt) → Gated → AuditError → Table → Table × Result Row
  append_loop zero i env g last t = (t, err (append_failed last))
  append_loop (suc k) i env g last t = next (attempt (env i) g t) (append_loop k (i + 1) env g)

  unfoldable pub append : Text → (ℕ → Attempt) → AppendInput → Table → Table × Result Row
  unfolding append_loop
  append now env input t = elim (prepare now input) [
    | err e ↦ (t, err e)
    | ok g ↦ append_loop 3 0 env g unset t
  ]
