-- ===== src/AuditChain/Offline/Csv.antt =====
-- parseCsv of packages/audit-chain/src/offline-verify.ts, and a printer that quotes every field.
use vigil_apex_f.Common.{
  ℕ, ◌≡◌, refl, sym, ap, ◌∙◌, Bool, true, false, ◌&&◌, ◌||◌, not, List, [], ◌∷◌, ◌++◌, append_assoc,
  append-nil, Text, ◌==◌, ==_iff, if◌then◌else◌, arith, Bool-cases, inl, inr,
}

-- The variables of the loop.
pub record Reader : Type 0 where
  pub rows : List (List Text)
  pub row : List Text
  pub field : Text
  pub in_quotes : Bool

abbrev pub add_code : ℕ → Reader → Reader
add_code c s = record s { field = s.field ++ c ∷ [] }

abbrev pub end_field : Reader → Reader
end_field s = record s { row = s.row ++ s.field ∷ []; field = [] }

abbrev pub end_row : Reader → Reader
end_row s = record s { rows = s.rows ++ (s.row ++ s.field ∷ []) ∷ []; row = []; field = [] }

-- The body of the loop for one code unit, a doubled quote aside.
abbrev pub read_code : ℕ → Reader → Reader
read_code c s =
    if s.in_quotes
    then (if c == b'"' then record s { in_quotes = false } else add_code c s)
    else if c == b'"'
    then record s { in_quotes = true }
    else if c == b','
    then end_field s
    else if c == 10
    then end_row s
    else if c == 13
    then s
    else add_code c s

-- The loop over the code units; two quotes inside quotes are one, and are skipped together.
unfoldable pub read : Text → Reader → Reader
read [] s = s
read (c ∷ []) s = read_code c s
read (c ∷ d ∷ text) s = elim (s.in_quotes && (c == b'"') && (d == b'"')) [
  | true ↦ read text (add_code b'"' s)
  | false ↦ read (d ∷ text) (read_code c s)
]

abbrev pub is_empty {ℓ} : {A : Type ℓ} → List A → Bool
is_empty [] = true
is_empty (x ∷ xs) = false

-- `if (field.length > 0 || row.length > 0)`
abbrev pub close : Reader → List (List Text)
close s =
    if not (is_empty s.field) || not (is_empty s.row)
    then s.rows ++ (s.row ++ s.field ∷ []) ∷ []
    else s.rows

unfoldable pub parse_csv : Text → List (List Text)
parse_csv text = close (read text (record { rows = []; row = []; field = []; in_quotes = false }))

-- The printer, in front of a rest.
abbrev pub escape : Text → Text → Text
escape [] rest = rest
escape (c ∷ text) rest =
    let later = escape text rest in if c == b'"' then b'"' ∷ b'"' ∷ later else c ∷ later

abbrev pub print_field : Text → Text → Text
print_field text rest = b'"' ∷ escape text (b'"' ∷ rest)

abbrev pub print_fields : Text → List Text → Text → Text
print_fields f [] rest = print_field f (10 ∷ rest)
print_fields f (g ∷ fs) rest = print_field f (b',' ∷ print_fields g fs rest)

abbrev pub print_rows : List (Text × List Text) → Text
print_rows [] = []
print_rows ((f, fs) ∷ rows) = print_fields f fs (print_rows rows)

abbrev pub fields_of : List (Text × List Text) → List (List Text)
fields_of [] = []
fields_of ((f, fs) ∷ rows) = (f ∷ fs) ∷ fields_of rows

abbrev at_start : List (List Text) → List Text → Text → Reader
at_start rows row field = record { rows = rows; row = row; field = field; in_quotes = false }

abbrev inside : List (List Text) → List Text → Text → Reader
inside rows row field = record { rows = rows; row = row; field = field; in_quotes = true }

read-plain :
    (c : ℕ) (text : Text) (s : Reader)
    → s.in_quotes && (c == b'"') ≡ false
    → read (c ∷ text) s ≡ read text (read_code c s)
unfolding read
read-plain c [] s h = refl
read-plain c (d ∷ text) s h =
    let off : s.in_quotes && (c == b'"') && (d == b'"') ≡ false = ground (arith, h) in
    rw (off, read) refl

module _ (rows : List (List Text)) (row : List Text) where
  read-double :
      (text field : Text)
      → read (b'"' ∷ b'"' ∷ text) (inside rows row field)
        ≡ read text (inside rows row (field ++ b'"' ∷ []))
  unfolding read
  read-double text field = refl

  -- The closing quote, which no quote follows.
  read-close :
      (d : ℕ) (text field : Text)
      → (d == b'"') ≡ false
      → read (b'"' ∷ d ∷ text) (inside rows row field) ≡ read (d ∷ text) (at_start rows row field)
  unfolding read
  read-close d text field apart = rw (apart, read) refl

  read-escape :
      (f field : Text) (d : ℕ) (text : Text)
      → (d == b'"') ≡ false
      → read (escape f (b'"' ∷ d ∷ text)) (inside rows row field)
        ≡ read (d ∷ text) (at_start rows row (field ++ f))
  read-escape [] field d text apart =
      read-close d text field apart
      ∙ ap (λ g. read (d ∷ text) (at_start rows row g)) (sym (append-nil field))
  read-escape (c ∷ f) field d text apart =
      let later = read-escape f (field ++ c ∷ []) d text apart in
      let joined : (field ++ c ∷ []) ++ f ≡ field ++ c ∷ f = append_assoc field (c ∷ []) f in
      elim (Bool-cases (c == b'"')) [
        | inl quote ↦
            let same = (==_iff c b'"').0 quote in
            rw quote (read-double (escape f (b'"' ∷ d ∷ text)) field ∙ cc (later, joined, same))
        | inr plain ↦
            let added : read_code c (inside rows row field) ≡ inside rows row (field ++ c ∷ []) =
              rw plain refl in
            rw plain (
              read-plain c (escape f (b'"' ∷ d ∷ text)) (inside rows row field) plain
              ∙ cc (added, later, joined))
      ]

  read-print_field :
      (f : Text) (d : ℕ) (text : Text)
      → (d == b'"') ≡ false
      → read (print_field f (d ∷ text)) (at_start rows row [])
        ≡ read (d ∷ text) (at_start rows row f)
  read-print_field f d text apart =
      read-plain b'"' (escape f (b'"' ∷ d ∷ text)) (at_start rows row []) refl
      ∙ read-escape f [] d text apart

read-print_fields :
    (rows : List (List Text)) (row : List Text) (f : Text) (fs : List Text) (text : Text)
    → read (print_fields f fs text) (at_start rows row [])
      ≡ read text (at_start (rows ++ (row ++ f ∷ fs) ∷ []) [] [])
read-print_fields rows row f [] text =
    read-print_field rows row f 10 text refl ∙ read-plain 10 text (at_start rows row f) refl
read-print_fields rows row f (g ∷ fs) text =
    let joined : (row ++ f ∷ []) ++ g ∷ fs ≡ row ++ f ∷ g ∷ fs =
      append_assoc row (f ∷ []) (g ∷ fs) in
    read-print_field rows row f b',' (print_fields g fs text) refl
    ∙ read-plain b',' (print_fields g fs text) (at_start rows row f) refl
    ∙ read-print_fields rows (row ++ f ∷ []) g fs text
    ∙ cc joined

read-print_rows :
    (done : List (List Text)) (rows : List (Text × List Text))
    → read (print_rows rows) (at_start done [] []) ≡ at_start (done ++ fields_of rows) [] []
read-print_rows done [] = unfold read in cc (append-nil done)
read-print_rows done ((f, fs) ∷ rows) =
    let joined : (done ++ (f ∷ fs) ∷ []) ++ fields_of rows ≡ done ++ (f ∷ fs) ∷ fields_of rows =
      append_assoc done ((f ∷ fs) ∷ []) (fields_of rows) in
    read-print_fields done [] f fs (print_rows rows)
    ∙ read-print_rows (done ++ (f ∷ fs) ∷ []) rows
    ∙ cc joined

-- Round trip: rows of one field or more, printed with every field in quotes and the quotes in it
-- doubled, are read back, whatever separators, line ends or quotes the fields hold.
pub parse_csv-print_rows :
    (rows : List (Text × List Text)) → parse_csv (print_rows rows) ≡ fields_of rows
unfolding parse_csv
parse_csv-print_rows rows = rw (read-print_rows [] rows) refl
