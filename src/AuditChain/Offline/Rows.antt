-- ===== src/AuditChain/Offline/Rows.antt =====
-- parseRows of packages/audit-chain/src/offline-verify.ts. `number` is `Number(text)` and `json` is
-- JSON.parse, which throws or gives a value.
use vigil_apex_f.Common.{
  ℕ, ◌+◌, ◌≡◌, ◌≢◌, refl, Option, none, some, List, [], ◌∷◌, Text, codes, All, text_eq, length,
  if◌then◌else◌,
}
use vigil_apex_f.AuditChain.Json.{Json}
use vigil_apex_f.AuditChain.Canonical.{decimal}
use vigil_apex_f.AuditChain.Store.{Row}
use vigil_apex_f.AuditChain.Offline.Csv.{parse_csv, print_rows, fields_of, parse_csv-print_rows}

pub data RowsError : Type 0 where
  csv_empty : RowsError
  -- the column whose name differs
  header_differs : ℕ → RowsError
  -- the row and how many fields it has
  field_count : ℕ → ℕ → RowsError
  payload_invalid : ℕ → RowsError

pub data Parsed {ℓ} (A : Type ℓ) : Type ℓ where
  parsed : A → Parsed A
  failed : RowsError → Parsed A

-- EXPECTED_COLUMNS after the first
abbrev pub later_columns : List Text
later_columns =
    codes "seq"
    ∷ codes "action"
    ∷ codes "actor"
    ∷ codes "subject_kind"
    ∷ codes "subject_id"
    ∷ codes "occurred_at"
    ∷ codes "payload"
    ∷ codes "prev_hash"
    ∷ codes "body_hash"
    ∷ []

abbrev pub expected_columns : List Text
expected_columns = codes "id" ∷ later_columns

-- The first column of the header that is missing or has another name.
unfoldable pub header_break : ℕ → List Text → List Text → Option ℕ
header_break i [] header = none
header_break i (name ∷ names) [] = some i
header_break i (name ∷ names) (h ∷ header) =
    let rest = header_break (i + 1) names header in if text_eq h name then rest else some i

-- r[8] === '' ? null : r[8]
abbrev pub hash_or_null : Text → Option Text
hash_or_null [] = none
hash_or_null (c ∷ t) = some (c ∷ t)

abbrev pub with_payload : ℕ → Option Json → (Json → Row) → Parsed (List Row) → Parsed (List Row)
with_payload i none row rest = failed (payload_invalid i)
with_payload i (some v) row (failed e) = failed e
with_payload i (some v) row (parsed rows) = parsed (row v ∷ rows)

-- `if (r.length === 1 && r[0] === '') continue`
abbrev pub one_field : ℕ → Text → Parsed (List Row) → Parsed (List Row)
one_field i [] rest = rest
one_field i (c ∷ t) rest = failed (field_count i 1)

module _ (number : Text → ℕ) (json : Text → Option Json) where
  -- The body of the loop for row `i`; `rest` is what the later rows give.
  abbrev pub parse_row : ℕ → List Text → Parsed (List Row) → Parsed (List Row)
  parse_row i (field ∷ []) rest = one_field i field rest
  parse_row i (id ∷ seq ∷ action ∷ actor ∷ kind ∷ subject ∷ occurred ∷ payload ∷ prev ∷ body ∷ [])
        rest =
      with_payload i (json payload)
        (λ v. record {
          id = id;
          seq = number seq;
          action = action;
          actor = actor;
          subject_kind = kind;
          subject_id = subject;
          occurred_at = occurred;
          payload = v;
          prev_hash = hash_or_null prev;
          body_hash = body;
        })
        rest
  parse_row i fields rest = failed (field_count i (length fields))

  unfoldable pub parse_each : ℕ → List (List Text) → Parsed (List Row)
  parse_each i [] = parsed []
  parse_each i (r ∷ rows) = parse_row i r (parse_each (i + 1) rows)

  abbrev pub with_header : Option ℕ → Parsed (List Row) → Parsed (List Row)
  with_header none rows = rows
  with_header (some i) rows = failed (header_differs i)

  abbrev pub with_rows : List (List Text) → Parsed (List Row)
  with_rows [] = failed csv_empty
  with_rows (header ∷ rows) =
      with_header (header_break 0 expected_columns header) (parse_each 1 rows)

  unfoldable pub parse_rows : Text → Parsed (List Row)
  parse_rows text = with_rows (parse_csv text)

header_break-expected_columns : header_break 0 expected_columns expected_columns ≡ none
unfolding header_break text_eq
header_break-expected_columns = refl

-- The export of a table, with every field in quotes.
abbrev pub empty_or : Option Text → Text
empty_or none = []
empty_or (some h) = h

module _ (stringify : Json → Text) where
  abbrev pub export_row : Row → Text × List Text
  export_row r = (
    r.id,
    decimal r.seq
        ∷ r.action
        ∷ r.actor
        ∷ r.subject_kind
        ∷ r.subject_id
        ∷ r.occurred_at
        ∷ stringify r.payload
        ∷ empty_or r.prev_hash
        ∷ r.body_hash
        ∷ [],
  )

  abbrev pub export_rows : List Row → List (Text × List Text)
  export_rows [] = []
  export_rows (r ∷ rows) = export_row r ∷ export_rows rows

  abbrev pub export : List Row → Text
  export rows = print_rows ((codes "id", later_columns) ∷ export_rows rows)

  module _ (number : Text → ℕ) (json : Text → Option Json) where
    hash_or_null-empty_or : (o : Option Text) → o ≢ some [] → hash_or_null (empty_or o) ≡ o
    hash_or_null-empty_or none h = refl
    hash_or_null-empty_or (some []) h = absurd (h refl)
    hash_or_null-empty_or (some (c ∷ t)) h = refl

    -- `Number` reads the printed seq of the row back, and JSON.parse its printed payload, and its
    -- previous hash is not the empty text.
    pub record IsExportable (r : Row) : Type 0 where
      pub seq_read : number (decimal r.seq) ≡ r.seq
      pub payload_read : json (stringify r.payload) ≡ some r.payload
      pub prev_shown : r.prev_hash ≢ some []

    parse_each-export_rows :
        (i : ℕ) (rows : List Row)
        → All IsExportable rows
        → parse_each number json i (fields_of (export_rows rows)) ≡ parsed rows
    unfolding parse_each
    parse_each-export_rows i [] h = refl
    parse_each-export_rows i (r ∷ rows) (h, hs) =
        rw
          (
            parse_each-export_rows (i + 1) rows hs,
            h.payload_read,
            h.seq_read,
            hash_or_null-empty_or r.prev_hash h.prev_shown,
          )
          refl

    -- Round trip: the rows of an export are read back as they were, when `Number` reads back their
    -- printed seqs and JSON.parse their printed payloads, and no previous hash is the empty text.
    pub parse_rows-export :
        (rows : List Row)
        → All IsExportable rows
        → parse_rows number json (export rows) ≡ parsed rows
    unfolding parse_rows
    parse_rows-export rows h =
        rw
          (
            parse_csv-print_rows ((codes "id", later_columns) ∷ export_rows rows),
            header_break-expected_columns,
          )
          (parse_each-export_rows 1 rows h)
