-- ===== src/Chaincode/Decimal.antt =====
-- `String(n)` of a natural number: its digits, its value and its length, for the end key of
-- chaincode/audit-witness/src/contract.ts.
use vigil_apex_f.Common.{
  ℕ, zero, suc, ◌+◌, ◌/◌, ◌%◌, ◌^◌, ◌≤◌, ◌<◌, ◌≡◌, refl, ap, ◌∙◌, inl, inr, true, [], ◌∷◌, Text,
  arith, length, Bool-cases, lt→ltb, ltb,
}
use vigil_apex_f.AuditChain.Canonical.{digits, decimal}
use vigil_apex_f.Chaincode.{all_codes, is_digit, value_from, big_int}
use vigil_apex_f.Chaincode.Keys.{IsSeq}

-- What `digits` puts before a text, when the fuel is above the number.
digits-digit :
    (f n : ℕ) (out : Text)
    → n < f
    → all_codes is_digit out ≡ true
    → all_codes is_digit (digits f n out) ≡ true
unfolding digits
digits-digit zero n out h d = absurd (omega (arith, h))
digits-digit (suc f) n out h d = elim (Bool-cases (ltb n 10)) [
  | inl small ↦ rw small (ground (arith, small, d))
  | inr big ↦
      rw big (
        digits-digit f (n / 10) ((b'0' + n % 10) ∷ out) (ground (arith, big, h))
          (ground (arith, d)))
]

digits-value : (f n : ℕ) (out : Text) → n < f → big_int (digits f n out) ≡ value_from n out
unfolding digits
digits-value zero n out h = absurd (omega (arith, h))
digits-value (suc f) n out h = elim (Bool-cases (ltb n 10)) [
  | inl small ↦ rw small (ap (λ k. value_from k out) (omega arith))
  | inr big ↦ rw big (
      digits-value f (n / 10) ((b'0' + n % 10) ∷ out) (ground (arith, big, h))
      ∙ ap (λ k. value_from k out) (omega arith))
]

digits-length :
    (f n k : ℕ) (out : Text) → n < f → n < 10 ^ suc k → length (digits f n out) ≤ suc k + length out
unfolding digits
digits-length zero n k out h b = absurd (omega (arith, h))
digits-length (suc f) n zero out h b = rw (lt→ltb n 10 b) (omega arith)
digits-length (suc f) n (suc k) out h b = elim (Bool-cases (ltb n 10)) [
  | inl small ↦ rw small (omega arith)
  | inr big ↦ rw big (
      let rest =
        digits-length f (n / 10) k ((b'0' + n % 10) ∷ out) (ground (arith, big, h))
          (omega (arith, b)) in
      omega (arith, rest))
]

pub big_int-decimal : (n : ℕ) → big_int (decimal n) ≡ n
unfolding decimal
big_int-decimal n = digits-value (suc n) n [] (omega arith)

-- A number below `10 ^ 20` prints as a text that a key holds.
pub decimal-IsSeq : (n : ℕ) → n < 10 ^ 20 → IsSeq (decimal n)
unfolding decimal
decimal-IsSeq n h = record {
  short = digits-length (suc n) n 19 [] (omega arith) h;
  digits_only = digits-digit (suc n) n [] (omega arith) refl;
}
