-- ===== src/Anchor/Behind.antt =====
-- The commit loop of apps/worker-anchor/src/index.ts when its rows are ahead of the contract.
use vigil_apex_f.Common.{
  ℕ, ◌+◌, ◌-◌, ◌^◌, ◌≤◌, ◌<◌, ◌≡◌, ◌≢◌, refl, inl, inr, Bool, true, false, Option, none, some, List,
  [], ◌∷◌, Text, arith, length, ltb, text_eq, to_lower, Bool-cases,
}
use vigil_apex_f.Chaincode.{hex64, zeros}
use vigil_apex_f.Ledger.{Commitment}
use vigil_apex_f.Anchor.{
  VigilAnchor, is_contiguous, contract_commit, executed, Network, send, commit, last_anchored_to,
  World,
}

-- The contract has a commitment, and a range from a seq does not continue it.
pub record Refuses (a : VigilAnchor) (from : ℕ) : Type 0 where
  pub begun : 0 < length a.commitments
  pub apart : from ≢ a.last_to_seq + 1

Refuses-contiguous :
    (cs : List Commitment) (last from : ℕ)
    → 0 < length cs
    → from ≢ last + 1
    → is_contiguous cs last from ≡ false
Refuses-contiguous [] last from begun apart = absurd (omega (arith, begun))
Refuses-contiguous (c ∷ cs) last from begun apart = ground (arith, apart)

contract_commit-Refuses :
    (is_committer : Bool) (from to : ℕ) (root : Text) (a : VigilAnchor)
    → Refuses a from
    → executed a (contract_commit is_committer from to root a) ≡ a
unfolding contract_commit
contract_commit-Refuses false from to root a h = refl
contract_commit-Refuses true from to root a h = elim (Bool-cases (ltb to from)) [
  | inl off ↦ rw off refl
  | inr fits ↦ elim (Bool-cases (text_eq root (zeros 64))) [
    | inl off ↦ rw (fits, off) refl
    | inr some_root ↦ elim (Bool-cases (ltb 1000000 (to + 1 - from))) [
      | inl off ↦ rw (fits, some_root, off) refl
      | inr narrow ↦
          rw
            (
              fits,
              some_root,
              narrow,
              Refuses-contiguous a.commitments a.last_to_seq from h.begun h.apart,
            )
            refl
    ]
  ]
]

send-Refuses :
    (sent : Option Text) (from to : ℕ) (root : Text) (a : VigilAnchor)
    → Refuses a from
    → (send sent from to root a).0 ≡ a
send-Refuses none from to root a h = refl
send-Refuses (some tx_hash) from to root a h =
    contract_commit-Refuses true from to (to_lower root) a h

-- Whatever the network does, the contract stays as it is.
pub commit-Refuses :
    (net : Network) (from to : ℕ) (root : Text) (a : VigilAnchor)
    → Refuses a from
    → (commit net from to root a).0 ≡ a
unfolding commit
commit-Refuses net from to root a h = elim (Bool-cases (ltb from 1)) [
  | inl off ↦ rw off refl
  | inr positive ↦ elim (Bool-cases (ltb to from)) [
    | inl off ↦ rw (positive, off) refl
    | inr fits ↦ elim (Bool-cases (ltb (2 ^ 53 - 1) to)) [
      | inl off ↦ rw (positive, fits, off) refl
      | inr safe ↦ elim (Bool-cases (hex64 (to_lower root))) [
        | inr off ↦ rw (positive, fits, safe, off) refl
        | inl hex ↦ elim (Bool-cases net.gas_high) [
          | inl off ↦ rw (positive, fits, safe, hex, off) refl
          | inr cheap ↦
              rw (positive, fits, safe, hex, cheap) (send-Refuses net.sent from to root a h)
        ]
      ]
    ]
  ]
]

-- The rows reach past what the contract has.
pub record IsPast (w : World) : Type 0 where
  pub begun : 0 < length w.contract.commitments
  pub past : w.contract.last_to_seq < last_anchored_to w.rows

-- A tick from there leaves the contract and never takes a row away.
abbrev Kept : World → World → Type 0
Kept w w' = (w'.contract ≡ w.contract) × (last_anchored_to w.rows ≤ last_anchored_to w'.rows)
