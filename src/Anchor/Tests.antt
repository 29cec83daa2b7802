-- ===== src/Anchor/Tests.antt =====
-- The theorems about the anchor worker at a concrete log.
use vigil_apex_f.Common.{
  ℕ, subst, ◌≡◌, refl, inl, inr, max, true, false, ◌&&◌, none, some, [], ◌∷◌, Text, codes, arith,
  leb, text_eq, Bool-cases, to_lower,
}
use vigil_apex_f.AuditChain.Json.{obj, end}
use vigil_apex_f.AuditChain.Store.{Row, Table, tail, tail_row, select_range, sort_rows, insert_row}
use vigil_apex_f.Chaincode.{hex64, zeros}
use vigil_apex_f.Ledger.Merkle.{compute_merkle_root, climb, next_layer}
use vigil_apex_f.Anchor.{
  VigilAnchor, World, Moment, anchor_ticks, anchor_tick, anchor_range, commit, contract_commit,
}
use vigil_apex_f.Anchor.Mirror.{HasRoots, Mirrors, Sees, IsGood, anchor_ticks-reach}
use vigil_apex_f.Anchor.HighSig.{HighSigEvent, Writes, Lane}

abbrev hash : Text
hash = codes "abababababababababababababababababababababababababababababababab"

abbrev join : Text → Text → Text
join left right = hash

abbrev row : ℕ → Row
row seq = record {
  id = codes "a";
  seq = seq;
  action = codes "vote.cast";
  actor = codes "member-3";
  subject_kind = codes "proposal";
  subject_id = codes "p7";
  occurred_at = codes "2026-05-16";
  payload = obj end;
  prev_hash = none;
  body_hash = hash;
}

abbrev log : Table
log = row 1 ∷ []

log_root :
    (from to : ℕ) (root : Text)
    → compute_merkle_root join hash from to log ≡ some root
    → hash ≡ root
unfolding compute_merkle_root climb select_range sort_rows insert_row
log_root from to root e = elim (Bool-cases (leb from 1 && leb 1 to)) [
  | inl inside ↦ let here : some hash ≡ some root = rw inside at e in cc here
  | inr outside ↦ let here : some hash ≡ some root = rw outside at e in cc here
]

log-HasRoots : HasRoots join hash log
unfolding hex64 text_eq
log-HasRoots = record {
  hex_root =
      λ from to root e. subst (λ r. hex64 (to_lower r) ≡ true) (log_root from to root e) refl;
  root_not_zero = λ from to root e.
      subst (λ r. text_eq (to_lower r) (zeros 64) ≡ false) (log_root from to root e) refl;
}

abbrev moment : Moment
moment = record {
  log = log;
  net = record { gas_high = false; sent = some (codes "tx") };
  insert_ok = true;
}

moment-Sees : Sees join hash 1 moment
unfolding tail tail_row
moment-Sees = record {
  tail_hash = hash;
  tail_at = refl;
  tail_safe = omega arith;
  has_roots = log-HasRoots;
  inserted = refl;
}

moment-IsGood : IsGood join hash moment
moment-IsGood = record {
  insert_good = refl;
  gas_low = refl;
  tx_hash = codes "tx";
  broadcast = refl;
}

abbrev nothing : World
nothing = record { contract = record { commitments = []; last_to_seq = 0 }; rows = [] }

nothing-Mirrors : Mirrors nothing
nothing-Mirrors = record { cursors_agree = refl; covered = refl }

anchor_ticks-reach_example :
    (w : World) × (anchor_ticks join hash (moment ∷ []) nothing ≡ some w)
    × Mirrors w
    × (w.contract.last_to_seq ≡ max 0 1)
anchor_ticks-reach_example =
    anchor_ticks-reach join hash 1 (moment ∷ []) nothing ((moment-Sees, moment-IsGood), tt)
      nothing-Mirrors (omega arith)

abbrev contract : VigilAnchor
contract = record {
  commitments = record { from_seq = 1; to_seq = 1; root_hash = hash } ∷ [];
  last_to_seq = 1;
}

abbrev ahead : World
ahead = record {
  contract = contract;
  rows = record { seq_from = 1; seq_to = 2; root_hash = hash; polygon_tx_hash = codes "tx" } ∷ [];
}

-- The INSERT of the first tick is lost, and the log has grown at the second one.
abbrev lost : Moment
lost = record moment { insert_ok = false }

abbrev grown : Moment
grown = record moment { log = row 2 ∷ row 1 ∷ [] }

lost-ahead : anchor_ticks join hash (lost ∷ grown ∷ []) nothing ≡ some ahead
unfolding anchor_ticks anchor_tick anchor_range compute_merkle_root climb next_layer select_range
    sort_rows insert_row tail tail_row commit contract_commit hex64 text_eq
lost-ahead = refl

abbrev lane : Lane
lane = record { contract = contract; anchored = []; public_rows = [] }

abbrev event : HighSigEvent × Writes
event = (
  record { event_id = codes "e"; timestamp_ms = some 1747380000123; record_hash = hash },
  record {
    net = record { gas_high = false; sent = some (codes "tx") };
    set_ok = true;
    record_ok = true;
  },
)
