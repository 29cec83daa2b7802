-- ===== src/Anchor.antt =====
-- apps/worker-anchor/src/index.ts, the commit loop, with PolygonAnchor.commit of
-- packages/audit-chain/src/polygon-anchor.ts and commit of contracts/contracts/VIGILAnchor.sol.
pub mod HighSig
pub mod Mirror
pub mod Behind
mod Tests
use vigil_apex_f.Common.{
  ℕ, ◌+◌, ◌-◌, ◌^◌, min, max, Bool, true, false, not, ◌⊎◌, inl, inr, Option, none, some, List, [],
  ◌∷◌, ◌++◌, Text, ltb, leb, ◌==◌, if◌then◌else◌, text_eq, to_lower,
}
use vigil_apex_f.AuditChain.Store.{Table, Tail, tail}
use vigil_apex_f.Chaincode.{hex64, zeros}
use vigil_apex_f.Ledger.{Commitment}
use vigil_apex_f.Ledger.Merkle.{compute_merkle_root}

-- The contract's storage; the commitments stand in the order of their ids.
pub record VigilAnchor : Type 0 where
  pub commitments : List Commitment
  pub last_to_seq : ℕ

pub data Revert : Type 0 where
  not_committer invalid_range empty_root range_too_large non_contiguous : Revert

abbrev pub max_range_per_commit : ℕ
max_range_per_commit = 1000000

abbrev pub is_contiguous : List Commitment → ℕ → ℕ → Bool
is_contiguous [] last from = from == 1
is_contiguous (c ∷ cs) last from = from == last + 1

-- commit(fromSeq, toSeq, rootHash) of the contract; a revert leaves the storage as it is.
unfoldable pub contract_commit : Bool → ℕ → ℕ → Text → VigilAnchor → Revert ⊎ VigilAnchor
contract_commit is_committer from to root a =
    if is_committer
    then if ltb to from
      then inl invalid_range
      else if text_eq root (zeros 64)
      then inl empty_root
      else if ltb max_range_per_commit (to + 1 - from)
      then inl range_too_large
      else if is_contiguous a.commitments a.last_to_seq from
      then inr (record {
        commitments =
            a.commitments ++ (record { from_seq = from; to_seq = to; root_hash = root } ∷ []);
        last_to_seq = to;
      })
      else inl non_contiguous
    else inl not_committer

-- The contract after a transaction that was sent.
abbrev pub executed : VigilAnchor → Revert ⊎ VigilAnchor → VigilAnchor
executed a (inl revert) = a
executed a (inr after) = after

pub data CommitError : Type 0 where
  bad_from_seq bad_seq_range precision_ceiling bad_root_hash gas_price_high commit_failed :
      CommitError

-- What a call of PolygonAnchor.commit meets: the price of gas, and whether the signer broadcasts the
-- transaction and answers with its hash. The signer does not wait for a receipt.
pub record Network : Type 0 where
  pub gas_high : Bool
  pub sent : Option Text

abbrev pub send : Option Text → ℕ → ℕ → Text → VigilAnchor → VigilAnchor × (CommitError ⊎ Text)
send none from to root a = (a, inl commit_failed)
send (some tx_hash) from to root a =
    (executed a (contract_commit true from to (to_lower root) a), inr tx_hash)

-- PolygonAnchor.commit, with what it does to the contract.
unfoldable pub commit : Network → ℕ → ℕ → Text → VigilAnchor → VigilAnchor × (CommitError ⊎ Text)
commit net from to root a =
    if ltb from 1
    then (a, inl bad_from_seq)
    else if ltb to from
    then (a, inl bad_seq_range)
    else if ltb (2 ^ 53 - 1) to
    then (a, inl precision_ceiling)
    else if not (hex64 (to_lower root))
    then (a, inl bad_root_hash)
    else if net.gas_high
    then (a, inl gas_price_high)
    else send net.sent from to root a

-- A row of audit.anchor_commitment.
pub record AnchorRow : Type 0 where
  pub seq_from : ℕ
  pub seq_to : ℕ
  pub root_hash : Text
  pub polygon_tx_hash : Text

-- SELECT MAX(seq_to), with 0 for no row
abbrev pub last_anchored_to : List AnchorRow → ℕ
last_anchored_to [] = 0
last_anchored_to (r ∷ rows) = max r.seq_to (last_anchored_to rows)

abbrev pub max_anchor_batch_seqs : ℕ
max_anchor_batch_seqs = 100000

pub record World : Type 0 where
  pub contract : VigilAnchor
  pub rows : List AnchorRow

-- What a tick meets: the log, the network, and whether its INSERT succeeds.
pub record Moment : Type 0 where
  pub log : Table
  pub net : Network
  pub insert_ok : Bool

-- What a tick comes to.
pub data Ticked : Type 0 where
  no_events up_to_date anchored : Ticked
  commit_error : CommitError → Ticked
  insert_error : Ticked

abbrev pub after_commit :
    ℕ → ℕ → Text → Bool → List AnchorRow → VigilAnchor × (CommitError ⊎ Text) → World × Ticked
after_commit from to root insert_ok rows (a, inl error) =
    (record { contract = a; rows = rows }, commit_error error)
after_commit from to root insert_ok rows (a, inr tx_hash) =
    if insert_ok
    then (
      record {
        contract = a;
        rows =
            record { seq_from = from; seq_to = to; root_hash = root; polygon_tx_hash = tx_hash }
            ∷ rows;
      },
      anchored,
    )
    else (record { contract = a; rows = rows }, insert_error)

module _ (node : Text → Text → Text) (empty : Text) where
  -- From the range on; `none` is a tree that is never climbed.
  unfoldable pub anchor_range : Moment → ℕ → ℕ → World → Option (World × Ticked)
  anchor_range m from to w = elim (compute_merkle_root node empty from to m.log) [
    | none ↦ none
    | some root ↦
        some (after_commit from to root m.insert_ok w.rows (commit m.net from to root w.contract))
  ]

  abbrev pub anchor_after : Moment → Option Tail → World → Option (World × Ticked)
  anchor_after m none w = some (w, no_events)
  anchor_after m (some tail) w =
      let last = last_anchored_to w.rows in
      if leb tail.seq last
      then some (w, up_to_date)
      else anchor_range m (last + 1) (min tail.seq (last + 1 + max_anchor_batch_seqs - 1)) w

  -- One round of the loop.
  unfoldable pub anchor_tick : Moment → World → Option (World × Ticked)
  anchor_tick m w = anchor_after m (tail m.log) w

  unfoldable pub anchor_ticks : List Moment → World → Option World
  anchor_ticks [] w = some w
  anchor_ticks (m ∷ ms) w = elim (anchor_tick m w) [
    | none ↦ none
    | some (w', ticked) ↦ anchor_ticks ms w'
  ]

-- The check at boot: the last seq of the contract against the last one of the rows.
abbrev pub last_of : List Commitment → ℕ
last_of [] = 0
last_of (c ∷ []) = c.to_seq
last_of (c ∷ d ∷ cs) = last_of (d ∷ cs)

unfoldable pub cursor_reconciled : World → Bool
cursor_reconciled w = last_of w.contract.commitments == last_anchored_to w.rows
