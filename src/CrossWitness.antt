-- ===== src/CrossWitness.antt =====
-- apps/audit-verifier/src/cross-witness.ts: the comparison of the audit table with the commitments on
-- Fabric, in one sweep and in windows. A seq is the number that its decimal text stands for; the
-- bridge is its function `listCommitments`.
pub mod Split
pub mod Windows
mod Tests
use vigil_apex_f.Common.{
  ℕ, zero, suc, ◌+◌, ◌-◌, Bool, true, false, not, Option, none, some, List, [], ◌∷◌, ◌++◌, map,
  Text, ltb, leb, ◌==◌, if◌then◌else◌, keep, any, length,
}
use vigil_apex_f.AuditChain.Store.{Row, Table, select_range}
use vigil_apex_f.Reconcile.{
  ActionsRow, FabricWitnessRow, Missing, Divergent, fill_fabric, compare_fabric,
}

pub record CrossWitnessReport : Type 0 where
  pub checked : ℕ
  pub missing_from_fabric : List ℕ
  pub missing_from_postgres : List ℕ
  pub divergent_seqs : List Divergent

pub data CrossWitness : Type 0 where
  reported : CrossWitnessReport → CrossWitness
  -- the two errors that are thrown
  range_invalid : CrossWitness
  range_too_wide : CrossWitness

-- CROSS_WITNESS_MAX_RANGE
abbrev pub max_range : ℕ
max_range = 500000

-- What the query returns of a row.
abbrev pub action_of : Row → ActionsRow
action_of r = record { seq = r.seq; body_hash = r.body_hash }

abbrev pub insert_seq : ℕ → List ℕ → List ℕ
insert_seq n [] = n ∷ []
insert_seq n (m ∷ ms) = let later = insert_seq n ms in if ltb m n then m ∷ later else n ∷ m ∷ ms

abbrev pub sort_seqs : List ℕ → List ℕ
sort_seqs [] = []
sort_seqs (n ∷ ns) = insert_seq n (sort_seqs ns)

abbrev pub join : CrossWitnessReport → CrossWitnessReport → CrossWitnessReport
join a b = record {
  checked = a.checked + b.checked;
  missing_from_fabric = a.missing_from_fabric ++ b.missing_from_fabric;
  missing_from_postgres = a.missing_from_postgres ++ b.missing_from_postgres;
  divergent_seqs = a.divergent_seqs ++ b.divergent_seqs;
}

abbrev pub no_report : CrossWitnessReport
no_report = record {
  checked = 0;
  missing_from_fabric = [];
  missing_from_postgres = [];
  divergent_seqs = [];
}

-- An error of a window leaves the loop.
abbrev pub and_window :
    CrossWitness
    → CrossWitnessReport
    → (CrossWitnessReport → Option CrossWitness)
    → Option CrossWitness
and_window (reported partial) sums again = again (join sums partial)
and_window range_invalid sums again = some range_invalid
and_window range_too_wide sums again = some range_too_wide

-- `cursor + MAX_RANGE - 1n < range.to ? cursor + MAX_RANGE - 1n : range.to`
abbrev pub window_to : ℕ → ℕ → ℕ
window_to cursor to = if ltb (cursor + max_range - 1) to then cursor + max_range - 1 else to

module _ (list_commitments : ℕ → ℕ → List FabricWitnessRow) (t : Table) where
  -- The two queries and the two scans; the forward scan is the loop of the reconciler.
  unfoldable pub sweep : ℕ → ℕ → CrossWitnessReport
  sweep from to =
      let rows = map action_of (select_range from to t) in
      let fabric = fill_fabric [] (list_commitments from to) in
      let (missing, divergent) = compare_fabric fabric rows in
      record {
        checked = length rows;
        missing_from_fabric = map (λ entry. entry.seq) missing;
        missing_from_postgres =
            sort_seqs
              (keep (λ n. not (any (λ r. r.seq == n) rows)) (map (λ entry. entry.0) fabric));
        divergent_seqs = divergent;
      }

  unfoldable pub verify_cross_witness : ℕ → ℕ → CrossWitness
  verify_cross_witness from to =
      if ltb to from
      then range_invalid
      else if ltb max_range (to + 1 - from)
      then range_too_wide
      else reported (sweep from to)

  -- `while (cursor <= range.to)`; `none` when the fuel runs out.
  unfoldable pub window_loop : ℕ → ℕ → ℕ → CrossWitnessReport → Option CrossWitness
  window_loop zero cursor to sums = none
  window_loop (suc fuel) cursor to sums =
      let again =
        λ (more : CrossWitnessReport). window_loop fuel (window_to cursor to + 1) to more in
      if leb cursor to
      then and_window (verify_cross_witness cursor (window_to cursor to)) sums again
      else some (reported sums)

  -- Each window moves the cursor past at least one seq, so `to + 2` rounds are enough.
  unfoldable pub verify_cross_witness_windowed : ℕ → ℕ → Option CrossWitness
  verify_cross_witness_windowed from to =
      if ltb to from then some range_invalid else window_loop (to + 2) from to no_report
