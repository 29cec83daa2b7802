-- ===== src/Chaincode/Sweep.antt =====
-- ListCommitments of chaincode/audit-witness/src/contract.ts on a world state that the contract filled.
use vigil_apex_f.Common.{
  ℕ, ◌≤◌, ◌≡◌, ◌≢◌, true, false, some, List, [], map, Text, All, Any, map_get,
}
use vigil_apex_f.AuditChain.Json.{text_lt}
use vigil_apex_f.Chaincode.{Commitment, Fabric, key, big_int, collect}
use vigil_apex_f.Chaincode.Keys.{IsSeq}
use vigil_apex_f.Chaincode.Spec.{IsFabric, Ledger, Represents}

-- What Fabric documents of a range query: the entries whose key is neither below the start nor at or
-- above the end.
pub record IsRanged {State : Type 0} (f : Fabric State) : Type 0 where
  pub inside :
      (lo hi : Text) (s : State)
      → All
          (λ e.
            (text_lt e.0 lo ≡ false)
            × (text_lt e.0 hi ≡ true)
            × (f.get_state s e.0 ≡ e.1)
            × (e.1 ≢ []))
          (f.get_state_by_range lo hi s)
  pub complete :
      (lo hi k : Text) (s : State)
      → text_lt k lo ≡ false
      → text_lt k hi ≡ true
      → f.get_state s k ≢ []
      → Any (λ e. e ≡ (k, f.get_state s k)) (f.get_state_by_range lo hi s)

-- The entries of the map are under the numbers of their seqs.
abbrev pub Keyed : Ledger → Type 0
Keyed = All (λ e. IsSeq e.1.seq × (big_int e.1.seq ≡ e.0))

module _ {State : Type 0} (f : Fabric State) where
  -- The channel holds the contract's keys only, and under each the entry of the map.
  pub record IsFilled (s : State) (m : Ledger) : Type 0 where
    pub represents : Represents f s m
    pub own_keys : (k : Text) → f.get_state s k ≢ [] → (seq : Text) × IsSeq seq × (k ≡ key seq)
    pub keyed : Keyed m

-- Exactly the entries of the map from one number to another.
pub record IsExact (m : Ledger) (from to : ℕ) (cs : List Commitment) : Type 0 where
  pub each_held :
      All
        (λ c. (map_get (big_int c.seq) m ≡ some c) × (from ≤ big_int c.seq) × (big_int c.seq ≤ to))
        cs
  pub none_left_out :
      (seq : Text) (c : Commitment)
      → IsSeq seq
      → map_get (big_int seq) m ≡ some c
      → from ≤ big_int seq
      → big_int seq ≤ to
      → Any (λ d. d ≡ c) cs

module _ {State : Type 0} (f : Fabric State) (laws : IsFabric f) where
  abbrev Entry : Text → Text → State → Text × Text → Type 0
  Entry lo hi s e =
      (text_lt e.0 lo ≡ false) × (text_lt e.0 hi ≡ true) × (f.get_state s e.0 ≡ e.1) × (e.1 ≢ [])

  abbrev Held : Ledger → ℕ → ℕ → Commitment → Type 0
  Held m from to c =
      (map_get (big_int c.seq) m ≡ some c) × (from ≤ big_int c.seq) × (big_int c.seq ≤ to)

  record Collected (m : Ledger) (from to : ℕ) (es : List (Text × Text)) : Type 0 where
    out : List Commitment
    computed : collect to (map (λ e. f.parse e.1) es) ≡ some out
    held : All (Held m from to) out
    kept :
        (e : Text × Text) (c : Commitment)
        → Any (λ x. x ≡ e) es
        → f.parse e.1 ≡ some c
        → Any (λ d. d ≡ c) out
