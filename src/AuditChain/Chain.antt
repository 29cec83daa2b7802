-- ===== src/AuditChain/Chain.antt =====
-- When a table is a hash chain: what packages/audit-chain/src/hash-chain.ts keeps of `audit.actions`.
use vigil_apex_f.Common.{suc, ◌≤◌, ◌≡◌, refl, Option, none, some, [], ◌∷◌, Text, arith, length}
use vigil_apex_f.AuditChain.Platform.{Platform, IsPlain}
use vigil_apex_f.AuditChain.Canonical.{AuditEvent, body_hash, row_hash}
use vigil_apex_f.AuditChain.Store.{Row, Table, event_of, later, tail_row}
use vigil_apex_f.AuditChain.Append.{seq_hard_cap, next_seq, prev_of}

abbrev pub last_hash : Table → Option Text
last_hash [] = none
last_hash (r ∷ t) = some r.body_hash

-- No field before the payload holds the separator of the canonical line.
pub record IsPlainEvent (e : AuditEvent) : Type 0 where
  pub action_plain : IsPlain e.action
  pub actor_plain : IsPlain e.actor
  pub subject_kind_plain : IsPlain e.subject_kind
  pub subject_id_plain : IsPlain e.subject_id
  pub occurred_at_plain : IsPlain e.occurred_at

module _ (p : Platform) where
  -- A row that continues the table below it.
  pub record IsLinked (t : Table) (r : Row) : Type 0 where
    pub seq_next : r.seq ≡ suc (length t)
    pub seq_safe : r.seq ≤ seq_hard_cap
    pub prev_linked : r.prev_hash ≡ last_hash t
    pub hashed : r.body_hash ≡ row_hash p (last_hash t) (body_hash p (event_of r))
    pub plain : IsPlainEvent (event_of r)

  abbrev pub IsChain : Table → Type 0
  IsChain [] = Unit
  IsChain (r ∷ t) = IsLinked t r × IsChain t

  tail_row-cons : (r : Row) (t : Table) → tail_row (r ∷ t) ≡ some (later r (tail_row t))
  unfolding tail_row
  tail_row-cons r t = refl

  -- The row with the largest seq is the latest one.
  pub IsChain-tail_row : (r : Row) (t : Table) → IsChain (r ∷ t) → tail_row (r ∷ t) ≡ some r
  IsChain-tail_row r [] h = unfold tail_row in refl
  IsChain-tail_row r (q ∷ t) (h, c) =
      rw (tail_row-cons r (q ∷ t), IsChain-tail_row q t c)
        (ground (arith, h.seq_next, c.0.seq_next))

  pub IsChain-next_seq : (t : Table) → IsChain t → next_seq (tail_row t) ≡ suc (length t)
  IsChain-next_seq [] h = unfold tail_row in refl
  IsChain-next_seq (r ∷ t) (h, c) = rw (IsChain-tail_row r t (h, c)) (omega (arith, h.seq_next))

  pub IsChain-prev_of : (t : Table) → IsChain t → prev_of (tail_row t) ≡ last_hash t
  IsChain-prev_of [] h = unfold tail_row in refl
  IsChain-prev_of (r ∷ t) h = rw (IsChain-tail_row r t h) refl
