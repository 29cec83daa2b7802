-- ===== src/Anchor/HighSig.antt =====
-- apps/worker-anchor/src/high-sig-loop.ts: the fast lane, which commits single events to the same
-- contract.
pub mod Batch
use vigil_apex_f.Common.{
  ℕ, zero, ◌+◌, ◌-◌, ◌/◌, ◌^◌, ◌≤◌, ◌<◌, ◌≡◌, ◌≢◌, sym, ap, subst, ◌∙◌, ◌⊎◌, inl, inr, Bool, true,
  false, not, ◌&&◌, ◌||◌, Option, none, some, List, [], ◌∷◌, Text, ltb, leb, ◌==◌, to_lower, All,
  if◌then◌else◌, Bool-cases,
}
use vigil_apex_f.Chaincode.{hex64}
use vigil_apex_f.Anchor.{VigilAnchor, CommitError, bad_from_seq, Network, send, commit}
use vigil_apex_f.Anchor.Behind.{Refuses}

pub record HighSigEvent : Type 0 where
  pub event_id : Text
  -- new Date(ev.timestamp_utc).getTime(); none is NaN
  pub timestamp_ms : Option ℕ
  pub record_hash : Text

-- What an event meets: the network, and the two writes after the commit.
pub record Writes : Type 0 where
  pub net : Network
  pub set_ok : Bool
  pub record_ok : Bool

-- The contract, the events with their transactions, and the rows of audit.public_anchor.
pub record Lane : Type 0 where
  pub contract : VigilAnchor
  pub anchored : List (Text × Text)
  pub public_rows : List (Text × Text)

pub record HighSigBatchResult : Type 0 where
  pub succeeded : ℕ
  pub failed : ℕ
  pub attempted : ℕ
  pub bailed_out : Bool

abbrev pub max_consecutive_batch_failures : ℕ
max_consecutive_batch_failures = 5

abbrev pub commit_at : Network → Option ℕ → Text → VigilAnchor → VigilAnchor × (CommitError ⊎ Text)
commit_at net none hash a = (a, inl bad_from_seq)
commit_at net (some ms) hash a = commit net (ms / 1000) (ms / 1000) hash a

-- setAnchorTx, which may throw, then record, whose error is caught.
abbrev pub after_anchor : Text → Writes → Lane → VigilAnchor × (CommitError ⊎ Text) → Lane × Bool
after_anchor event_id w lane (a, inl error) = (record lane { contract = a }, false)
after_anchor event_id w lane (a, inr tx_hash) =
    if w.set_ok
    then (
      record {
        contract = a;
        anchored = (event_id, tx_hash) ∷ lane.anchored;
        public_rows =
            if w.record_ok then (event_id, tx_hash) ∷ lane.public_rows else lane.public_rows;
      },
      true,
    )
    else (record lane { contract = a }, false)

-- The `try` of one event, and whether it came to the end.
unfoldable pub anchor_event : HighSigEvent → Writes → Lane → Lane × Bool
anchor_event ev w lane =
    after_anchor ev.event_id w lane (commit_at w.net ev.timestamp_ms ev.record_hash lane.contract)

abbrev pub batch_result : ℕ → ℕ → Bool → HighSigBatchResult
batch_result succeeded failed bailed_out = record {
  succeeded = succeeded;
  failed = failed;
  attempted = succeeded + failed;
  bailed_out = bailed_out;
}

-- The loop over the pending events, from the counts so far.
unfoldable pub batch_loop :
    List (HighSigEvent × Writes) → ℕ → ℕ → ℕ → Lane → Lane × HighSigBatchResult
batch_loop [] succeeded failed consecutive lane = (lane, batch_result succeeded failed false)
batch_loop ((ev, w) ∷ pending) succeeded failed consecutive lane =
    let (lane', done) = anchor_event ev w lane in
    elim done [
      | true ↦ batch_loop pending (succeeded + 1) failed 0 lane'
      | false ↦ elim (leb max_consecutive_batch_failures (consecutive + 1)) [
        | true ↦ (lane', batch_result succeeded (failed + 1) true)
        | false ↦ batch_loop pending succeeded (failed + 1) (consecutive + 1) lane'
      ]
    ]

unfoldable pub process_high_sig_batch :
    List (HighSigEvent × Writes) → Lane → Lane × HighSigBatchResult
process_high_sig_batch pending lane = batch_loop pending 0 0 0 lane

-- `backoff.onError()` or `backoff.onSuccess()` after a batch.
unfoldable pub counts_as_error : HighSigBatchResult → Bool
counts_as_error r = r.bailed_out || (ltb 0 r.attempted && ltb r.succeeded r.failed)

-- An event whose writes and whose transaction go out, and whose second does not continue the contract.
pub record IsSent (a : VigilAnchor) (e : HighSigEvent × Writes) : Type 0 where
  pub ms : ℕ
  pub timestamped : e.0.timestamp_ms ≡ some ms
  pub refused : Refuses a (ms / 1000)
  pub positive : 1 ≤ ms / 1000
  pub safe : ms / 1000 ≤ 2 ^ 53 - 1
  pub hash_hex : hex64 (to_lower e.0.record_hash) ≡ true
  pub gas_low : e.1.net.gas_high ≡ false
  pub tx_hash : Text
  pub broadcast : e.1.net.sent ≡ some tx_hash
  pub set_good : e.1.set_ok ≡ true
