-- ===== src/CrossWitness/Tests.antt =====
-- The windowed sweep over the log of the audit chain's demonstration and a ledger of one commitment.
use vigil_apex_f.Common.{ℕ, List, [], ◌∷◌, codes, leb, ◌&&◌, if◌then◌else◌}
use vigil_apex_f.Reconcile.{FabricWitnessRow}

abbrev commitment : FabricWitnessRow
commitment = record { seq = 2; body_hash = codes "AB" }

-- A ledger that holds one commitment, of seq 2.
abbrev list_commitments : ℕ → ℕ → List FabricWitnessRow
list_commitments lo hi = if leb lo 2 && leb 2 hi then commitment ∷ [] else []
