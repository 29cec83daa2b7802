-- ===== src/Chaincode/Spec.antt =====
-- What the witness contract promises: a map from numbers to commitments whose first entry stands.
use vigil_apex_f.Common.{
  ℕ, ◌≡◌, ◌≢◌, Option, none, some, List, [], ◌∷◌, Text, text_eq, to_lower, map_set, map_get,
  if◌then◌else◌,
}
use vigil_apex_f.Chaincode.{
  Commitment, Fabric, TxTimestamp, Recorded, recorded, already, invalid_seq, invalid_hash,
  divergence, Reading, found, absent, bad_seq, seq_re, hex64, key, big_int, recorded_at,
  record_commitment,
}
use vigil_apex_f.Chaincode.Keys.{IsSeq}

-- The documented behaviour of the world state and of JSON.
pub record IsFabric {State : Type 0} (f : Fabric State) : Type 0 where
  pub get_put_same : (k v : Text) (s : State) → f.get_state (f.put_state k v s) k ≡ v
  pub get_put_other :
      (k j v : Text) (s : State) → k ≢ j → f.get_state (f.put_state k v s) j ≡ f.get_state s j
  pub parse_stringify : (c : Commitment) → f.parse (f.stringify c) ≡ some c
  pub stringify_some : (c : Commitment) → f.stringify c ≢ []

abbrev pub Ledger : Type 0
Ledger = List (ℕ × Commitment)

abbrev pub first_wins : Commitment → Option Commitment → Ledger → Ledger × Recorded
first_wins c none m = (map_set (big_int c.seq) c m, recorded c)
first_wins c (some prior) m = (
  m,
  if text_eq prior.body_hash c.body_hash then already else divergence prior.body_hash c.body_hash,
)

-- RecordCommitment as the map sees it; `at` is the time of the transaction.
unfoldable pub spec_record : Text → Text → Text → Ledger → Ledger × Recorded
spec_record at seq body_hash m =
    let c : Commitment = record { seq = seq; body_hash = to_lower body_hash; recorded_at = at } in
    if seq_re seq
    then if hex64 (to_lower body_hash)
      then first_wins c (map_get (big_int seq) m) m
      else (m, invalid_hash)
    else (m, invalid_seq)

abbrev pub reading : Option Commitment → Reading
reading none = absent
reading (some c) = found c

-- GetCommitment as the map sees it.
unfoldable pub spec_get : Text → Ledger → Reading
spec_get seq m = if seq_re seq then reading (map_get (big_int seq) m) else bad_seq

-- A call of RecordCommitment.
pub record Call : Type 0 where
  pub timestamp : TxTimestamp
  pub seq : Text
  pub body_hash : Text

module _ {State : Type 0} (f : Fabric State) where
  unfoldable pub run : List Call → State → State × List Recorded
  run [] s = (s, [])
  run (c ∷ cs) s =
      let (s', r) = record_commitment f c.timestamp c.seq c.body_hash s in
      let (end, rs) = run cs s' in (end, r ∷ rs)

  unfoldable pub spec_run : List Call → Ledger → Ledger × List Recorded
  spec_run [] m = (m, [])
  spec_run (c ∷ cs) m =
      let (m', r) = spec_record (recorded_at f c.timestamp) c.seq c.body_hash m in
      let (end, rs) = spec_run cs m' in (end, r ∷ rs)

  abbrev pub bytes : Option Commitment → Text
  bytes none = []
  bytes (some c) = f.stringify c

  -- The world state holds the entries of the map and nothing else under the contract's keys.
  unfoldable pub Represents : State → Ledger → Type 0
  Represents s m =
      (seq : Text) → IsSeq seq → f.get_state s (key seq) ≡ bytes (map_get (big_int seq) m)
