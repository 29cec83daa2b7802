-- ===== src/AuditChain/Offline.antt =====
-- packages/audit-chain/src/offline-verify.ts: the verifier that reads an exported table.
pub mod Parity
pub mod Cascade
pub mod Csv
pub mod Rows
use vigil_apex_f.Common.{
  ℕ, ◌+◌, ◌-◌, Bool, true, false, Option, none, some, List, [], ◌∷◌, ◌++◌, Text, codes, ◌==◌,
  if◌then◌else◌, text_eq,
}
use vigil_apex_f.AuditChain.Platform.{Platform}
use vigil_apex_f.AuditChain.Canonical.{decimal, body_hash, row_hash}
use vigil_apex_f.AuditChain.Store.{Row, event_of}
use vigil_apex_f.AuditChain.Verify.{hash_eq}

pub data DivergenceField : Type 0 where
  body_hash_field prev_hash_field seq_gap : DivergenceField

pub record Divergence : Type 0 where
  pub seq : ℕ
  pub field : DivergenceField
  pub expected : Text
  pub actual : Text

pub data Status : Type 0 where
  all_well chain_break : Status

pub record VerifyResult : Type 0 where
  pub status : Status
  pub rows_verified : ℕ
  pub divergences : List Divergence
  -- `break_`
  pub first_break : Option Divergence

-- The variables of the loop.
pub record Scan : Type 0 where
  pub prev : Option Text
  pub seq_expected : ℕ
  pub verified : ℕ
  pub divergences : List Divergence

-- `prev ?? '<null>'`
abbrev pub or_null : Option Text → Text
or_null none = codes "<null>"
or_null (some h) = h

-- `if (bad) divergences.push(d)`
abbrev pub push_unless : Bool → Divergence → List Divergence → List Divergence
push_unless good d ds = if good then ds else ds ++ d ∷ []

abbrev pub first : List Divergence → Option Divergence
first [] = none
first (d ∷ ds) = some d

-- `rows.length > 0 ? rows[0].seq : 1`
abbrev pub first_seq : List Row → ℕ
first_seq [] = 1
first_seq (r ∷ rows) = r.seq

abbrev pub status_of : List Divergence → Status
status_of [] = all_well
status_of (d ∷ ds) = chain_break

module _ (p : Platform) where
  -- One row. A gap re-anchors the expected seq; the rolling hash is the recomputed one.
  unfoldable pub scan_row : Scan → Row → Scan
  scan_row s row =
      let rh = row_hash p s.prev (body_hash p (event_of row)) in
      let hash_ok = text_eq rh row.body_hash in
      record {
        prev = some rh;
        seq_expected = row.seq + 1;
        verified = if hash_ok then s.verified + 1 else s.verified;
        divergences =
            push_unless (hash_eq row.prev_hash s.prev)
              (record {
                seq = row.seq;
                field = prev_hash_field;
                expected = or_null s.prev;
                actual = or_null row.prev_hash;
              })
              (push_unless hash_ok
                (record {
                  seq = row.seq;
                  field = body_hash_field;
                  expected = rh;
                  actual = row.body_hash;
                })
                (push_unless (row.seq == s.seq_expected)
                  (record {
                    seq = row.seq;
                    field = seq_gap;
                    expected = decimal s.seq_expected;
                    actual = decimal row.seq;
                  })
                  s.divergences));
      }

  unfoldable pub scan_rows : Scan → List Row → Scan
  scan_rows s [] = s
  scan_rows s (row ∷ rows) = scan_rows (scan_row s row) rows

  unfoldable pub verify_offline : List Row → VerifyResult
  verify_offline rows =
      let s =
        scan_rows
          (record { prev = none; seq_expected = first_seq rows; verified = 0; divergences = [] })
          rows in
      record {
        status = status_of s.divergences;
        rows_verified = s.verified;
        divergences = s.divergences;
        first_break = first s.divergences;
      }
