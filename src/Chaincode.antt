-- ===== src/Chaincode.antt =====
-- chaincode/audit-witness/src/contract.ts: the witness contract over the world state of a channel.
-- Fabric orders the transactions, so that each one sees the state that the one before it left.
pub mod Keys
pub mod Decimal
pub mod Spec
pub mod Refines
pub mod Sweep
pub mod Filled
pub mod Demo
mod Tests
use vigil_apex_f.Common.{
  ℕ, zero, suc, ◌+◌, ◌-◌, ◌*◌, ◌/◌, Bool, true, false, ◌&&◌, ◌||◌, Option, none, some, List, [],
  ◌∷◌, ◌++◌, Text, codes, ltb, leb, if◌then◌else◌, text_eq, to_lower, length, map,
}
use vigil_apex_f.AuditChain.Canonical.{decimal}

pub record Commitment : Type 0 where
  pub seq : Text
  pub body_hash : Text
  pub recorded_at : Text

-- The stub of fabric-contract-api, and JSON and Date of the language. A missing key reads as no bytes.
pub record Fabric (State : Type 0) : Type 0 where
  pub get_state : State → Text → Text
  pub put_state : Text → Text → State → State
  pub get_state_by_range : Text → Text → State → List (Text × Text)
  pub stringify : Commitment → Text
  pub parse : Text → Option Commitment
  pub to_iso : ℕ → Text

pub record TxTimestamp : Type 0 where
  pub seconds : ℕ
  pub nanos : ℕ

abbrev pub all_codes : (ℕ → Bool) → Text → Bool
all_codes test [] = true
all_codes test (c ∷ t) = test c && all_codes test t

abbrev pub is_digit : ℕ → Bool
is_digit c = leb b'0' c && leb c b'9'

abbrev pub is_hex : ℕ → Bool
is_hex c = is_digit c || (leb b'a' c && leb c b'f')

-- SEQ_RE.test(seq) and HEX64.test(hash)
unfoldable pub seq_re : Text → Bool
seq_re seq = (leb 1 (length seq) && leb (length seq) 19) && all_codes is_digit seq

unfoldable pub hex64 : Text → Bool
hex64 hash = (leb 64 (length hash) && leb (length hash) 64) && all_codes is_hex hash

abbrev pub zeros : ℕ → Text
zeros zero = []
zeros (suc n) = b'0' ∷ zeros n

-- `commit:${seq.padStart(20, '0')}`
unfoldable pub key : Text → Text
key seq = codes "commit:" ++ (zeros (20 - length seq) ++ seq)

-- BigInt(text) of digits, from what stands before them
abbrev pub value_from : ℕ → Text → ℕ
value_from n [] = n
value_from n (c ∷ t) = value_from (n * 10 + (c - b'0')) t

abbrev pub big_int : Text → ℕ
big_int = value_from 0

abbrev pub list_commitments_max_range : ℕ
list_commitments_max_range = 500000

-- What a transaction comes to: the first two return, the others throw.
pub data Recorded : Type 0 where
  -- with the event CommitmentRecorded
  recorded : Commitment → Recorded
  already : Recorded
  invalid_seq : Recorded
  invalid_hash : Recorded
  -- the hash on the ledger and the new one
  divergence : Text → Text → Recorded
  -- JSON.parse threw
  corrupt : Recorded

pub data Listing : Type 0 where
  listed : List Commitment → Listing
  not_numeric : Listing
  range_invalid : Listing
  range_too_wide : Listing
  corrupt_entry : Listing

pub data Reading : Type 0 where
  found : Commitment → Reading
  absent : Reading
  bad_seq : Reading
  bad_entry : Reading

abbrev pub parsed : Option Commitment → Reading
parsed none = bad_entry
parsed (some c) = found c

-- The comparison with a record that is there.
abbrev pub compare_prior : Text → Option Commitment → Recorded
compare_prior lower none = corrupt
compare_prior lower (some prior) =
    if text_eq prior.body_hash lower then already else divergence prior.body_hash lower

-- The loop over the iterator: a text that does not parse throws.
abbrev pub collect : ℕ → List (Option Commitment) → Option (List Commitment)
collect to [] = some []
collect to (none ∷ rest) = none
collect to (some c ∷ rest) = elim (collect to rest) [
  | none ↦ none
  | some out ↦ some (if leb (big_int c.seq) to then c ∷ out else out)
]

abbrev pub listing : Option (List Commitment) → Listing
listing none = corrupt_entry
listing (some out) = listed out

module _ {State : Type 0} (f : Fabric State) where
  unfoldable pub recorded_at : TxTimestamp → Text
  recorded_at ts = f.to_iso (ts.seconds * 1000 + ts.nanos / 1000000)

  -- What follows the two tests, on the bytes that the key holds.
  unfoldable pub record_at : TxTimestamp → Text → Text → Text → State → State × Recorded
  record_at ts seq lower [] s =
      let c : Commitment = record { seq = seq; body_hash = lower; recorded_at = recorded_at ts } in
      (f.put_state (key seq) (f.stringify c) s, recorded c)
  record_at ts seq lower (b ∷ existing) s = (s, compare_prior lower (f.parse (b ∷ existing)))

  unfoldable pub record_commitment : TxTimestamp → Text → Text → State → State × Recorded
  record_commitment ts seq body_hash s =
      let lower = to_lower body_hash in
      if seq_re seq
      then if hex64 lower
        then record_at ts seq lower (f.get_state s (key seq)) s
        else (s, invalid_hash)
      else (s, invalid_seq)

  abbrev pub read_raw : Text → Reading
  read_raw [] = absent
  read_raw (b ∷ raw) = parsed (f.parse (b ∷ raw))

  unfoldable pub get_commitment : Text → State → Reading
  get_commitment seq s = if seq_re seq then read_raw (f.get_state s (key seq)) else bad_seq

  -- The iteration of a range, to its upper end.
  unfoldable pub sweep : Text → ℕ → State → Option (List Commitment)
  sweep from to s =
      collect to (
        map (λ entry. f.parse entry.1) (f.get_state_by_range (key from) (key (decimal (to + 1))) s))

  unfoldable pub list_commitments : Text → Text → State → Listing
  list_commitments from to s =
      if seq_re from && seq_re to
      then if ltb (big_int to) (big_int from)
        then range_invalid
        else if ltb list_commitments_max_range (big_int to + 1 - big_int from)
        then range_too_wide
        else listing (sweep from (big_int to) s)
      else not_numeric
