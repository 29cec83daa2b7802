-- ===== src/Ceremony/Pattern.antt =====
-- parsePatternId of packages/shared/src/routing/recipient-body.ts.
use vigil_apex_f.Common.{
  ℕ, ◌+◌, ◌-◌, ◌/◌, ◌%◌, ◌<◌, ◌≡◌, refl, ap, true, ◌&&◌, Option, none, some, List, [], ◌∷◌, Text,
  leb, ◌==◌, if◌then◌else◌, get_elem?, arith,
}
use vigil_apex_f.Chaincode.{is_digit, big_int}
use vigil_apex_f.Routing.{
  PatternCategoryLetter, letter_a, letter_b, letter_c, letter_d, letter_e, letter_f, letter_g,
  letter_h, letter_i, letter_j, letter_k, letter_l, letter_m, letter_n, letter_o, letter_p,
}

abbrev pub letters : List PatternCategoryLetter
letters =
    letter_a ∷ letter_b ∷ letter_c ∷ letter_d ∷ letter_e ∷ letter_f ∷ letter_g ∷ letter_h ∷ letter_i
    ∷ letter_j ∷ letter_k ∷ letter_l ∷ letter_m ∷ letter_n ∷ letter_o ∷ letter_p ∷ []

abbrev pub letter_code : PatternCategoryLetter → ℕ
letter_code letter_a = b'A'
letter_code letter_b = b'B'
letter_code letter_c = b'C'
letter_code letter_d = b'D'
letter_code letter_e = b'E'
letter_code letter_f = b'F'
letter_code letter_g = b'G'
letter_code letter_h = b'H'
letter_code letter_i = b'I'
letter_code letter_j = b'J'
letter_code letter_k = b'K'
letter_code letter_l = b'L'
letter_code letter_m = b'M'
letter_code letter_n = b'N'
letter_code letter_o = b'O'
letter_code letter_p = b'P'

abbrev pub letter_text : PatternCategoryLetter → Text
letter_text letter = letter_code letter ∷ []

-- The character class [A-P].
abbrev pub letter_of : ℕ → Option PatternCategoryLetter
letter_of c = if leb b'A' c then get_elem? letters (c - b'A') else none

pub record PatternCategoryFromIdResult : Type 0 where
  pub category : PatternCategoryLetter
  pub index : ℕ

abbrev pub with_category : ℕ → Option PatternCategoryLetter → Option PatternCategoryFromIdResult
with_category n none = none
with_category n (some letter) = some (record { category = letter; index = n })

-- /^P-([A-P])-(\d{3})$/
unfoldable pub parse_pattern_id : Text → Option PatternCategoryFromIdResult
parse_pattern_id (p ∷ d ∷ letter ∷ e ∷ x ∷ y ∷ z ∷ []) =
    if ((p == b'P') && ((d == b'-') && (e == b'-'))) && (is_digit x && (is_digit y && is_digit z))
    then with_category (big_int (x ∷ y ∷ z ∷ [])) (letter_of letter)
    else none
parse_pattern_id _ = none

-- The id of a pattern, with its number in three digits.
abbrev pub pattern_id : PatternCategoryLetter → ℕ → Text
pattern_id letter n =
    b'P'
    ∷ b'-'
    ∷ letter_code letter
    ∷ b'-'
    ∷ (b'0' + n / 100)
    ∷ (b'0' + n / 10 % 10)
    ∷ (b'0' + n % 10)
    ∷ []

letter_of-letter_code :
    (letter : PatternCategoryLetter) → letter_of (letter_code letter) ≡ some letter
letter_of-letter_code letter_a = refl
letter_of-letter_code letter_b = refl
letter_of-letter_code letter_c = refl
letter_of-letter_code letter_d = refl
letter_of-letter_code letter_e = refl
letter_of-letter_code letter_f = refl
letter_of-letter_code letter_g = refl
letter_of-letter_code letter_h = refl
letter_of-letter_code letter_i = refl
letter_of-letter_code letter_j = refl
letter_of-letter_code letter_k = refl
letter_of-letter_code letter_l = refl
letter_of-letter_code letter_m = refl
letter_of-letter_code letter_n = refl
letter_of-letter_code letter_o = refl
letter_of-letter_code letter_p = refl

-- The id of a pattern below a thousand is read as its category and its number.
pub parse_pattern_id-pattern_id :
    (letter : PatternCategoryLetter) (n : ℕ)
    → n < 1000
    → parse_pattern_id (pattern_id letter n) ≡ some (record { category = letter; index = n })
unfolding parse_pattern_id
parse_pattern_id-pattern_id letter n h =
    let first : is_digit (b'0' + n / 100) ≡ true = ground (arith, h) in
    let second : is_digit (b'0' + n / 10 % 10) ≡ true = ground (arith, h) in
    let third : is_digit (b'0' + n % 10) ≡ true = ground (arith, h) in
    rw (first, second, third, letter_of-letter_code letter)
      (ap (λ k. some (record { category = letter; index = k })) (omega arith))
