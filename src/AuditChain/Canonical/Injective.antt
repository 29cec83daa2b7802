-- ===== src/AuditChain/Canonical/Injective.antt =====
-- What the canonical line says of the event: what the gate on `|` is for.
use vigil_apex_f.Common.{
  ℕ, zero, suc, ◌+◌, ◌-◌, ◌*◌, ◌/◌, ◌%◌, ◌<◌, ◌≡◌, refl, sym, ap, ◌∙◌, Bool-cases, inl, inr, [],
  ◌∷◌, ◌++◌, Text, arith, ltb,
}
use vigil_apex_f.AuditChain.Platform.{Platform, Laws, IsPlain}
use vigil_apex_f.AuditChain.Canonical.{AuditEvent, digits, decimal, join, stable_json, canonicalise}
use vigil_apex_f.AuditChain.Chain.{IsPlainEvent}

-- The number that a text of digits spells, after `n`.
value : ℕ → Text → ℕ
value n [] = n
value n (c ∷ s) = value (n * 10 + (c - b'0')) s

value-digits : (f n : ℕ) (out : Text) → n < f → value 0 (digits f n out) ≡ value n out
unfolding digits value
value-digits zero n out h = absurd (omega arith)
value-digits (suc f) n out h = elim (Bool-cases (ltb n 10)) [
  | inl last ↦ rw last (ap (λ k. value k out) (omega arith))
  | inr more ↦ rw more (
      value-digits f (n / 10) ((b'0' + n % 10) ∷ out) (ground (arith, more))
      ∙ ap (λ k. value k out) (omega arith))
]

decimal-injective : (m n : ℕ) → decimal m ≡ decimal n → m ≡ n
unfolding decimal value
decimal-injective m n h =
    sym (value-digits (suc m) m [] (omega arith))
    ∙ ap (value 0) h
    ∙ value-digits (suc n) n [] (omega arith)

IsPlain-digits : (f n : ℕ) (out : Text) → IsPlain out → IsPlain (digits f n out)
unfolding digits
IsPlain-digits zero n out h = h
IsPlain-digits (suc f) n out h = elim (Bool-cases (ltb n 10)) [
  | inl last ↦ rw last (ground (arith, last), h)
  | inr more ↦ rw more (IsPlain-digits f (n / 10) ((b'0' + n % 10) ∷ out) (omega arith, h))
]

pub IsPlain-decimal : (n : ℕ) → IsPlain (decimal n)
unfolding decimal
IsPlain-decimal n = IsPlain-digits (suc n) n [] tt

-- The first separator of a line ends its first field.
split_field :
    (s t r u : Text) → IsPlain s → IsPlain t → s ++ b'|' ∷ r ≡ t ++ b'|' ∷ u → (s ≡ t) × (r ≡ u)
split_field [] [] r u hs ht e = (refl, cc)
split_field [] (d ∷ t) r u hs ht e = absurd (ht.0 (ground (arith, e)))
split_field (c ∷ s) [] r u hs ht e = absurd (hs.0 (ground (arith, e)))
split_field (c ∷ s) (d ∷ t) r u hs ht e =
    let (e0, e1) = split_field s t r u hs.1 ht.1 (cc) in (cc, e1)

-- Two events have one line in the log's sense.
pub record SameFields (p : Platform) (e f : AuditEvent) : Type 0 where
  pub same_seq : e.seq ≡ f.seq
  pub same_action : e.action ≡ f.action
  pub same_actor : p.nfc e.actor ≡ p.nfc f.actor
  pub same_subject_kind : e.subject_kind ≡ f.subject_kind
  pub same_subject_id : e.subject_id ≡ f.subject_id
  pub same_occurred_at : e.occurred_at ≡ f.occurred_at
  pub same_payload : p.nfc (stable_json p e.payload) ≡ p.nfc (stable_json p f.payload)

-- On a platform with the stated laws, two events whose fields before the payload hold no `|` have the
-- same canonical line only if they agree in their seq, action, normalised actor, subject and instant, and in the normalised text of
-- their sorted payloads.
pub canonicalise-injective :
    (p : Platform)
    → Laws p
    → (e f : AuditEvent) → IsPlainEvent e
    → IsPlainEvent f
    → canonicalise p e ≡ canonicalise p f
    → SameFields p e f
unfolding canonicalise join
canonicalise-injective p laws e f he hf h0 =
    let (e1, h1) = split_field _ _ _ _ (IsPlain-decimal e.seq) (IsPlain-decimal f.seq) h0 in
    let (e2, h2) = split_field _ _ _ _ he.action_plain hf.action_plain h1 in
    let (e3, h3) =
      split_field _ _ _ _ (laws.nfc_plain e.actor he.actor_plain)
        (laws.nfc_plain f.actor hf.actor_plain) h2 in
    let (e4, h4) = split_field _ _ _ _ he.subject_kind_plain hf.subject_kind_plain h3 in
    let (e5, h5) = split_field _ _ _ _ he.subject_id_plain hf.subject_id_plain h4 in
    let (e6, h6) = split_field _ _ _ _ he.occurred_at_plain hf.occurred_at_plain h5 in
    record {
      same_seq = decimal-injective e.seq f.seq e1;
      same_action = e2;
      same_actor = e3;
      same_subject_kind = e4;
      same_subject_id = e5;
      same_occurred_at = e6;
      same_payload = h6;
    }
