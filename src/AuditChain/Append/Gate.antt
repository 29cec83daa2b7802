-- ===== src/AuditChain/Append/Gate.antt =====
-- The gate before the first attempt of HashChain.append.
use vigil_apex_f.Common.{
  ℕ, ◌≡◌, refl, subst, Bool-cases, inl, inr, false, Option, none, some, [], ◌∷◌, Text, arith,
}
use vigil_apex_f.AuditChain.Json.{obj, end}
use vigil_apex_f.AuditChain.Platform.{Platform, Laws, IsPlain}
use vigil_apex_f.AuditChain.Append.{
  Result, ok, err, ◌>>=◌, AppendInput, Gated, or_else, event_at, prepare, gate_audit_field,
  gate_occurred_at, has_forbidden,
}
use vigil_apex_f.AuditChain.Append.Laws.{IsGated}

-- A chain that returned: the value its first step gave to the rest.
record Passed {ℓ κ} {First : Type ℓ} {Last : Type κ} (first : Result First)
    (rest : First → Result Last) (last : Last) : Type (ℓ ⊔ κ) where
  value : First
  first_returned : first ≡ ok value
  rest_returned : rest value ≡ ok last

>>=-Passed {ℓ κ} :
    {First : Type ℓ} {Last : Type κ} (first : Result First) (rest : First → Result Last)
    {last : Last}
    → (first >>= rest) ≡ ok last
    → Passed first rest last
>>=-Passed (err thrown) rest returned = cc
>>=-Passed (ok value) rest returned = record {
  value = value;
  first_returned = refl;
  rest_returned = returned;
}

pub ok-injective {ℓ} : {A : Type ℓ} {a b : A} → ok a ≡ ok b → a ≡ b
ok-injective h = cc

not-has_forbidden-IsPlain : (v : Text) → has_forbidden v ≡ false → IsPlain v
unfolding has_forbidden
not-has_forbidden-IsPlain [] h = tt
not-has_forbidden-IsPlain (c ∷ v) h =
    (ground (arith, h), not-has_forbidden-IsPlain v (ground (arith, h)))

module _ (p : Platform) (laws : Laws p) where
  gate-IsPlain : (name v : Text) {w : Text} → gate_audit_field p name v ≡ ok w → IsPlain w
  unfolding gate_audit_field
  gate-IsPlain name v h = elim (Bool-cases (has_forbidden v)) [
    | inl bad ↦ cc (rw bad at h)
    | inr good ↦
        subst IsPlain (ground (arith, good, h))
          (laws.nfc_plain v (not-has_forbidden-IsPlain v good))
  ]

  gate_occurred_at-instant :
      (raw : Text) (o : Option ℕ) {w : Text}
      → gate_occurred_at p raw o ≡ ok w
      → IsPlain w × (p.timestamptz w ≡ w)
  unfolding gate_occurred_at
  gate_occurred_at-instant raw none h = cc
  gate_occurred_at-instant raw (some ms) {w} h =
      let e : p.to_iso ms ≡ w = ground arith in
      (
        subst IsPlain e (laws.iso_plain ms),
        subst (λ w. p.timestamptz w ≡ w) e (laws.timestamptz_iso ms),
      )

  pub prepare-IsGated :
      (now : Text) (input : AppendInput) {g : Gated} → prepare p now input ≡ ok g → IsGated p g
  unfolding prepare event_at
  prepare-IsGated now input h0 =
      let actor = >>=-Passed (gate_audit_field p _ input.actor) _ h0 in
      let subject_id = >>=-Passed (gate_audit_field p _ input.subject_id) _ actor.rest_returned in
      let action = >>=-Passed (gate_audit_field p _ input.action) _ subject_id.rest_returned in
      let kind = >>=-Passed (gate_audit_field p _ input.subject_kind) _ action.rest_returned in
      let occurred =
        >>=-Passed
          (gate_occurred_at p (or_else input.occurred_at now)
            (p.parse_date (or_else input.occurred_at now)))
          _ kind.rest_returned in
      let (occ_plain, occ_kept) =
        gate_occurred_at-instant (or_else input.occurred_at now)
          (p.parse_date (or_else input.occurred_at now)) occurred.first_returned in
      let g0 : Gated = record {
        action = action.value;
        actor = actor.value;
        subject_kind = kind.value;
        subject_id = subject_id.value;
        occurred_at = occurred.value;
        payload = or_else input.payload (obj end);
      } in
      subst (IsGated p) (ok-injective {a = g0} occurred.rest_returned) (record {
        plain = record {
          action_plain = gate-IsPlain _ _ action.first_returned;
          actor_plain = gate-IsPlain _ _ actor.first_returned;
          subject_kind_plain = gate-IsPlain _ _ kind.first_returned;
          subject_id_plain = gate-IsPlain _ _ subject_id.first_returned;
          occurred_at_plain = occ_plain;
        };
        instant = occ_kept;
      })
