-- ===== src/AuditChain/Store.antt =====
-- The table `audit.actions`, as packages/audit-chain/src/hash-chain.ts queries it. A table is the
-- list of its rows, the latest insertion first; no query depends on that order.
pub mod Ranges
use vigil_apex_f.Common.{
  ℕ, ◌&&◌, Option, none, some, List, [], ◌∷◌, Text, ltb, leb, ◌==◌, if◌then◌else◌, keep,
}
use vigil_apex_f.AuditChain.Json.{Json}
use vigil_apex_f.AuditChain.Canonical.{AuditEvent}

pub record Row : Type 0 where
  pub id : Text
  pub seq : ℕ
  pub action : Text
  pub actor : Text
  pub subject_kind : Text
  pub subject_id : Text
  pub occurred_at : Text
  pub payload : Json
  pub prev_hash : Option Text
  pub body_hash : Text

abbrev pub Table : Type 0
Table = List Row

-- The event that `verify` rebuilds from a row.
abbrev pub event_of : Row → AuditEvent
event_of r = record {
  seq = r.seq;
  action = r.action;
  actor = r.actor;
  subject_kind = r.subject_kind;
  subject_id = r.subject_id;
  occurred_at = r.occurred_at;
  payload = r.payload;
}

-- SELECT … ORDER BY seq DESC LIMIT 1
abbrev pub later : Row → Option Row → Row
later r none = r
later r (some q) = if ltb r.seq q.seq then q else r

unfoldable pub tail_row : Table → Option Row
tail_row [] = none
tail_row (r ∷ t) = some (later r (tail_row t))

pub record Tail : Type 0 where
  pub seq : ℕ
  pub body_hash : Text

-- HashChain.tail
abbrev pub tail_of : Option Row → Option Tail
tail_of none = none
tail_of (some r) = some (record { seq = r.seq; body_hash = r.body_hash })

unfoldable pub tail : Table → Option Tail
tail t = tail_of (tail_row t)

-- HashChain.bodyHashAt; seq is unique in the table
unfoldable pub body_hash_at : ℕ → Table → Option Text
body_hash_at n [] = none
body_hash_at n (r ∷ t) = if r.seq == n then some r.body_hash else body_hash_at n t

-- ORDER BY seq ASC
unfoldable pub insert_row : Row → List Row → List Row
insert_row r [] = r ∷ []
insert_row r (q ∷ rows) = if ltb q.seq r.seq then q ∷ insert_row r rows else r ∷ q ∷ rows

unfoldable pub sort_rows : List Row → List Row
sort_rows [] = []
sort_rows (r ∷ rows) = insert_row r (sort_rows rows)

-- SELECT … WHERE seq BETWEEN lo AND hi ORDER BY seq ASC
unfoldable pub select_range : ℕ → ℕ → Table → List Row
select_range lo hi t = sort_rows (keep (λ r. leb lo r.seq && leb r.seq hi) t)
