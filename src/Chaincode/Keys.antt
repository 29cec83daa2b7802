-- ===== src/Chaincode/Keys.antt =====
-- The keys of chaincode/audit-witness/src/contract.ts: their order is that of the numbers.
use vigil_apex_f.Common.{
  ℕ, zero, suc, ◌+◌, ◌-◌, ◌*◌, ◌≤◌, ◌<◌, ◌^◌, ◌≡◌, ◌≢◌, ◌↔◌, refl, sym, ap, subst, ◌∙◌, ◌⊎◌, inl,
  inr, true, false, [], ◌∷◌, ◌++◌, Text, codes, arith, length, length-append,
}
use vigil_apex_f.AuditChain.Json.{text_lt}
use vigil_apex_f.Chaincode.{all_codes, is_digit, seq_re, zeros, key, value_from, big_int}

-- The three ways in which two texts of digits compare, as texts and as numbers.
pub data Order (a b : Text) (m n : ℕ) : Type 0 where
  below : text_lt a b ≡ true → text_lt b a ≡ false → m < n → Order a b m n
  same : a ≡ b → m ≡ n → Order a b m n
  above : text_lt b a ≡ true → text_lt a b ≡ false → n < m → Order a b m n

text_lt_refl : (a : Text) → text_lt a a ≡ false
unfolding text_lt
text_lt_refl [] = refl
text_lt_refl (c ∷ a) = ground (arith, text_lt_refl a)

text_lt-apart : (a b : Text) → text_lt a b ≡ true → a ≢ b
text_lt-apart a b p e =
    let q : text_lt b b ≡ true = subst (λ x. text_lt x b ≡ true) e p in
    ground (arith, q, text_lt_refl b)

digit-cons :
    (c : ℕ) (a : Text)
    → all_codes is_digit (c ∷ a) ≡ true
    → (b'0' ≤ c) × (c ≤ b'9') × (all_codes is_digit a ≡ true)
digit-cons c a h = ground (arith, h)

-- A smaller number before the digits stays smaller.
value_from_mono :
    (m n : ℕ) (a b : Text)
    → m < n
    → length a ≡ length b
    → all_codes is_digit a ≡ true
    → all_codes is_digit b ≡ true
    → value_from m a < value_from n b
value_from_mono m n [] [] h e da db = h
value_from_mono m n [] (d ∷ b) h e da db = absurd (omega (arith, e))
value_from_mono m n (c ∷ a) [] h e da db = absurd (omega (arith, e))
value_from_mono m n (c ∷ a) (d ∷ b) h e da db =
    let (low, high, ra) = digit-cons c a da in
    let (low', high', rb) = digit-cons d b db in
    value_from_mono (m * 10 + (c - b'0')) (n * 10 + (d - b'0')) a b
      (omega (arith, h, low, high, low', high')) (omega (arith, e)) ra rb

cons-Order :
    (c d n : ℕ) (a b : Text)
    → length a ≡ length b
    → all_codes is_digit (c ∷ a) ≡ true
    → all_codes is_digit (d ∷ b) ≡ true
    → (c < d) ⊎ ((c ≡ d) ⊎ (d < c))
    → ((k : ℕ) → Order a b (value_from k a) (value_from k b))
    → Order (c ∷ a) (d ∷ b) (value_from n (c ∷ a)) (value_from n (d ∷ b))
unfolding text_lt
cons-Order c d n a b e da db (inl lt) rest =
    let (low, high, ra) = digit-cons c a da in
    let (low', high', rb) = digit-cons d b db in
    below (ground (arith, lt)) (ground (arith, lt)) (
      value_from_mono (n * 10 + (c - b'0')) (n * 10 + (d - b'0')) a b (omega (arith, lt, low, low'))
        e ra rb)
cons-Order c d n a b e da db (inr (inl eq)) rest = elim (rest (n * 10 + (c - b'0'))) [
  | below p q r ↦ below (ground (arith, eq, p)) (ground (arith, eq, q)) (ground (arith, eq, r))
  | same p q ↦ same (cc (eq, p)) (ground (arith, eq, q))
  | above p q r ↦ above (ground (arith, eq, p)) (ground (arith, eq, q)) (ground (arith, eq, r))
]
cons-Order c d n a b e da db (inr (inr gt)) rest =
    let (low, high, ra) = digit-cons c a da in
    let (low', high', rb) = digit-cons d b db in
    above (ground (arith, gt)) (ground (arith, gt)) (
      value_from_mono (n * 10 + (d - b'0')) (n * 10 + (c - b'0')) b a (omega (arith, gt, low, low'))
        (sym e) rb ra)

-- Texts of digits of one length are in the order of their numbers.
pub digits-Order :
    (n : ℕ) (a b : Text)
    → length a ≡ length b
    → all_codes is_digit a ≡ true
    → all_codes is_digit b ≡ true
    → Order a b (value_from n a) (value_from n b)
digits-Order n [] [] e da db = same refl refl
digits-Order n [] (d ∷ b) e da db = absurd (omega (arith, e))
digits-Order n (c ∷ a) [] e da db = absurd (omega (arith, e))
digits-Order n (c ∷ a) (d ∷ b) e da db =
    cons-Order c d n a b (omega (arith, e)) da db (omega arith)
      (λ k. digits-Order k a b (omega (arith, e)) (digit-cons c a da).2 (digit-cons d b db).2)

-- A text of at most twenty digits.
pub record IsSeq (seq : Text) : Type 0 where
  pub short : length seq ≤ 20
  pub digits_only : all_codes is_digit seq ≡ true

pub seq_re-IsSeq : (seq : Text) → seq_re seq ≡ true → IsSeq seq
unfolding seq_re
seq_re-IsSeq seq h = record { short = ground (arith, h); digits_only = ground (arith, h) }

zeros-digits :
    (n : ℕ) (seq : Text)
    → all_codes is_digit seq ≡ true
    → all_codes is_digit (zeros n ++ seq) ≡ true
zeros-digits zero seq h = h
zeros-digits (suc n) seq h = zeros-digits n seq h

zeros-big_int : (n : ℕ) (seq : Text) → big_int (zeros n ++ seq) ≡ big_int seq
zeros-big_int zero seq = refl
zeros-big_int (suc n) seq = zeros-big_int n seq

length-zeros : (n : ℕ) → length (zeros n) ≡ n
length-zeros zero = refl
length-zeros (suc n) = omega (arith, length-zeros n)

length-pad : (seq : Text) → IsSeq seq → length (zeros (20 - length seq) ++ seq) ≡ 20
length-pad seq h =
    omega
      (arith, length-append (zeros (20 - length seq)) seq, length-zeros (20 - length seq), h.short)

-- The keys of two seqs compare as their numbers do.
pub key-Order : (a b : Text) → IsSeq a → IsSeq b → Order (key a) (key b) (big_int a) (big_int b)
unfolding key text_lt
key-Order a b ha hb =
    let m = 20 - length a in
    let n = 20 - length b in
    elim (digits-Order 0 (zeros m ++ a) (zeros n ++ b) (length-pad a ha ∙ sym (length-pad b hb))
      (zeros-digits m a ha.digits_only) (zeros-digits n b hb.digits_only)) [
        | below p q r ↦ below p q (ground (arith, r, zeros-big_int m a, zeros-big_int n b))
        | same p q ↦
            same (ap (λ t. codes "commit:" ++ t) p)
              (sym (zeros-big_int m a) ∙ q ∙ zeros-big_int n b)
        | above p q r ↦ above p q (ground (arith, r, zeros-big_int m a, zeros-big_int n b))
      ]

-- Seqs have one key exactly when they are one number.
pub key_iff : (a b : Text) → IsSeq a → IsSeq b → (key a ≡ key b) ↔ (big_int a ≡ big_int b)
key_iff a b ha hb = elim (key-Order a b ha hb) [
  | below p q r ↦
      (λ e. absurd (text_lt-apart (key a) (key b) p e), λ e. absurd (omega (arith, e, r)))
  | same p q ↦ (λ e. q, λ e. p)
  | above p q r ↦
      (λ e. absurd (text_lt-apart (key b) (key a) p (sym e)), λ e. absurd (omega (arith, e, r)))
]

-- The keys are in the order of the numbers.
pub key_lt_iff :
    (a b : Text) → IsSeq a → IsSeq b → (text_lt (key a) (key b) ≡ true) ↔ (big_int a < big_int b)
key_lt_iff a b ha hb = elim (key-Order a b ha hb) [
  | below p q r ↦ (λ e. r, λ e. p)
  | same p q ↦ (λ e. absurd (text_lt-apart (key a) (key b) e p), λ e. absurd (omega (arith, e, q)))
  | above p q r ↦ (λ e. cc (e, q), λ e. absurd (omega (arith, e, r)))
]

pub key_ge_iff :
    (a b : Text) → IsSeq a → IsSeq b → (text_lt (key a) (key b) ≡ false) ↔ (big_int b ≤ big_int a)
key_ge_iff a b ha hb = elim (key-Order a b ha hb) [
  | below p q r ↦ (λ e. cc (p, e), λ e. absurd (omega (arith, e, r)))
  | same p q ↦
      (λ e. omega (arith, q), λ e. subst (λ x. text_lt (key a) x ≡ false) p (text_lt_refl (key a)))
  | above p q r ↦ (λ e. omega (arith, r), λ e. q)
]

value_from-bound :
    (m j : ℕ) (a : Text)
    → m < 10 ^ j
    → all_codes is_digit a ≡ true
    → value_from m a < 10 ^ (j + length a)
value_from-bound m j [] h d = subst (λ k. m < 10 ^ k) (omega arith) h
value_from-bound m j (c ∷ a) h d =
    let (low, high, rest) = digit-cons c a d in
    let step : m * 10 + (c - b'0') < 10 ^ suc j = omega (arith, h, low, high) in
    subst (λ k. value_from (m * 10 + (c - b'0')) a < 10 ^ k) (omega arith)
      (value_from-bound (m * 10 + (c - b'0')) (suc j) a step rest)

-- A seq that the expression accepts is below `10 ^ 19`.
pub big_int-bound : (seq : Text) → seq_re seq ≡ true → big_int seq < 10 ^ 19
unfolding seq_re
big_int-bound seq h =
    let k = 19 - length seq in
    let short : length seq ≤ 19 = ground (arith, h) in
    let whole : 0 + length (zeros k ++ seq) ≡ 19 =
      omega (arith, length-append (zeros k) seq, length-zeros k, short) in
    subst (λ n. n < 10 ^ 19) (zeros-big_int k seq)
      (subst (λ n. big_int (zeros k ++ seq) < 10 ^ n) whole
        (value_from-bound 0 0 (zeros k ++ seq) (omega arith)
          (zeros-digits k seq (ground (arith, h)))))
