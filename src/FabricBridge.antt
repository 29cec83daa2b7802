-- ===== src/FabricBridge.antt =====
-- apps/worker-fabric-bridge/src/index.ts: the handler that witnesses a row of the log, and
-- packages/fabric-bridge/src/client.ts: submitCommitment. The gateway hands on the contract's error.
mod Tests
pub mod Witnessed
pub mod Acked
use vigil_apex_f.Common.{
  ℕ, ◌^◌, ◌&&◌, Option, none, some, List, [], ◌∷◌, Text, codes, ltb, if◌then◌else◌, to_lower,
  map_set, map_get,
}
use vigil_apex_f.Chaincode.{
  Fabric, TxTimestamp, Recorded, recorded, already, invalid_seq, invalid_hash, divergence, corrupt,
  hex64, big_int, record_commitment,
}

pub data SubmitOutcome : Type 0 where
  -- the id of the transaction
  recorded_tx : Text → SubmitOutcome
  duplicate_tx : Text → SubmitOutcome
  -- the hash on the ledger and the new one
  diverged : Text → Text → SubmitOutcome

pub data Submitted : Type 0 where
  outcome : SubmitOutcome → Submitted
  thrown : Recorded → Submitted

-- What submitCommitment makes of the contract's answer; the regular expression takes the two hashes
-- out of the message of a divergence.
unfoldable pub submitted : Recorded → Submitted
submitted (recorded c) = outcome (recorded_tx (codes "see-events"))
submitted already = outcome (recorded_tx (codes "see-events"))
submitted invalid_seq = thrown invalid_seq
submitted invalid_hash = thrown invalid_hash
submitted (divergence existing new) =
    if hex64 existing && hex64 new
    then outcome (diverged existing new)
    else thrown (divergence existing new)
submitted corrupt = thrown corrupt

-- A row of audit.fabric_witness, without its time.
pub record WitnessRow : Type 0 where
  pub body_hash : Text
  pub fabric_tx_id : Text

abbrev pub Rows : Type 0
Rows = List (ℕ × WitnessRow)

pub data Handled : Type 0 where
  ack : Handled
  -- the seq, the hash in Postgres and the one on Fabric
  dead_letter : Text → Text → Text → Handled
  -- the handler threw
  failed : Handled

-- ON CONFLICT (seq) DO NOTHING, with what the table holds at the seq
abbrev pub insert : ℕ → WitnessRow → Option WitnessRow → Rows → Rows
insert seq row none rows = map_set seq row rows
insert seq row (some prior) rows = rows

-- The INSERT: a seq that is no bigint throws.
unfoldable pub record_witness : Text → Text → Text → Rows → Rows × Handled
record_witness seq body_hash tx rows =
    let row : WitnessRow = record { body_hash = to_lower body_hash; fabric_tx_id = tx } in
    if ltb (big_int seq) (2 ^ 63)
    then (insert (big_int seq) row (map_get (big_int seq) rows) rows, ack)
    else (rows, failed)

unfoldable pub after_submit : Text → Text → Rows → Submitted → Rows × Handled
after_submit seq body_hash rows (outcome (recorded_tx tx)) = record_witness seq body_hash tx rows
after_submit seq body_hash rows (outcome (duplicate_tx tx)) =
    record_witness seq body_hash (codes "duplicate") rows
after_submit seq body_hash rows (outcome (diverged existing new)) =
    (rows, dead_letter seq body_hash existing)
after_submit seq body_hash rows (thrown error) = (rows, failed)

-- A message of STREAMS.AUDIT_PUBLISH, and the time of the transaction that it leads to.
pub record Message : Type 0 where
  pub timestamp : TxTimestamp
  pub seq : Text
  pub body_hash : Text

module _ {State : Type 0} (f : Fabric State) where
  unfoldable pub submit_commitment : TxTimestamp → Text → Text → State → State × Submitted
  submit_commitment ts seq body_hash s =
      let (s', r) = record_commitment f ts seq (to_lower body_hash) s in (s', submitted r)

  unfoldable pub handle : Message → State → Rows → State × (Rows × Handled)
  handle m s rows =
      let (s', r) = submit_commitment m.timestamp m.seq m.body_hash s in
      (s', after_submit m.seq m.body_hash rows r)

  -- The messages in the order in which they are handled, a message that comes again included.
  unfoldable pub handle_all : List Message → State → Rows → State × Rows
  handle_all [] s rows = (s, rows)
  handle_all (m ∷ ms) s rows =
      let (s', (rows', handled)) = handle m s rows in handle_all ms s' rows'
