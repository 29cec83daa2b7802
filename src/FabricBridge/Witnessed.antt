-- ===== src/FabricBridge/Witnessed.antt =====
-- The rows of audit.fabric_witness against the world state of the channel.
use vigil_apex_f.Common.{
  ℕ, ◌^◌, ◌≡◌, ◌≢◌, refl, sym, ap, ◌∙◌, subst, Option, none, some, List, [], ◌∷◌, Text, arith, inl,
  inr, ◌==◌, ==_iff, Bool-cases, ltb, ◌&&◌, text_eq, text_eq_iff, to_lower, lower_code, map_set,
  map_get, map_get-map_set_same, map_get-map_set_other,
}
use vigil_apex_f.Chaincode.{
  Commitment, Fabric, Recorded, recorded, already, invalid_seq, invalid_hash, divergence, corrupt,
  seq_re, hex64, big_int, recorded_at,
}
use vigil_apex_f.Chaincode.Spec.{IsFabric, Ledger, Represents, spec_record, first_wins}
use vigil_apex_f.Chaincode.Refines.{Simulates, record_commitment-Simulates, spec_record-kept}
use vigil_apex_f.FabricBridge.{
  submitted, WitnessRow, Rows, insert, record_witness, after_submit, Message, submit_commitment,
  handle, handle_all,
}

-- The map has a commitment to the hash at the number.
abbrev pub Holds : ℕ → Text → Ledger → Type 0
Holds n hash m = (c : Commitment) × (map_get n m ≡ some c) × (c.body_hash ≡ hash)

-- Each row's hash is the one that the map has at its seq.
abbrev pub AreWitnessed : Rows → Ledger → Type 0
AreWitnessed rows m =
    (n : ℕ) (row : WitnessRow) → map_get n rows ≡ some row → Holds n row.body_hash m

lower_code-lower_code : (c : ℕ) → lower_code (lower_code c) ≡ lower_code c
lower_code-lower_code c = ground arith

pub to_lower-to_lower : (t : Text) → to_lower (to_lower t) ≡ to_lower t
to_lower-to_lower [] = refl
to_lower-to_lower (c ∷ t) = rw (lower_code-lower_code c, to_lower-to_lower t) refl

-- The answers on which the contract returns.
unfoldable pub IsAccepted : Recorded → Type 0
IsAccepted (recorded c) = Unit
IsAccepted already = Unit
IsAccepted invalid_seq = ⊥
IsAccepted invalid_hash = ⊥
IsAccepted (divergence existing new) = ⊥
IsAccepted corrupt = ⊥

first_wins-Holds :
    (c : Commitment) (o : Option Commitment) (m : Ledger)
    → map_get (big_int c.seq) m ≡ o
    → IsAccepted (first_wins c o m).1
    → Holds (big_int c.seq) c.body_hash (first_wins c o m).0
unfolding IsAccepted
first_wins-Holds c none m e ok = (c, map_get-map_set_same (big_int c.seq) c m, refl)
first_wins-Holds c (some prior) m e ok = elim (Bool-cases (text_eq prior.body_hash c.body_hash)) [
  | inl same ↦ (prior, e, (text_eq_iff prior.body_hash c.body_hash).0 same)
  | inr other ↦ absurd (rw other at ok)
]

spec_record-Holds :
    (at seq hash : Text) (m : Ledger)
    → IsAccepted (spec_record at seq hash m).1
    → Holds (big_int seq) (to_lower hash) (spec_record at seq hash m).0
unfolding spec_record IsAccepted
spec_record-Holds at seq hash m ok = elim (Bool-cases (seq_re seq)) [
  | inr off ↦ absurd (rw off at ok)
  | inl on ↦ elim (Bool-cases (hex64 (to_lower hash))) [
    | inr off ↦ absurd (rw (on, off) at ok)
    | inl hex ↦
        rw (on, hex)
          (first_wins-Holds (record { seq = seq; body_hash = to_lower hash; recorded_at = at })
            (map_get (big_int seq) m) m refl (rw (on, hex) at ok))
  ]
]

insert-AreWitnessed :
    (n : ℕ) (row : WitnessRow) (o : Option WitnessRow) (rows : Rows) (m : Ledger)
    → Holds n row.body_hash m
    → AreWitnessed rows m
    → AreWitnessed (insert n row o rows) m
insert-AreWitnessed n row (some prior) rows m h all k other e = all k other e
insert-AreWitnessed n row none rows m h all k other e = elim (Bool-cases (n == k)) [
  | inl on ↦
      let here = (==_iff n k).0 on in
      let new =
        ap (λ k. map_get k (map_set n row rows)) (sym here) ∙ map_get-map_set_same n row rows in
      let same : row ≡ other = cc (e, new) in
      subst (λ k. Holds k other.body_hash m) here (subst (λ r. Holds n r.body_hash m) same h)
  | inr off ↦
      let apart : n ≢ k = λ here. cc ((==_iff n k).1 here, off) in
      all k other (sym (map_get-map_set_other k n row rows apart) ∙ e)
]

record_witness-AreWitnessed :
    (seq hash tx : Text) (rows : Rows) (m : Ledger)
    → Holds (big_int seq) (to_lower hash) m
    → AreWitnessed rows m
    → AreWitnessed (record_witness seq hash tx rows).0 m
unfolding record_witness
record_witness-AreWitnessed seq hash tx rows m h all =
    elim (Bool-cases (ltb (big_int seq) (2 ^ 63))) [
      | inl on ↦ rw on (
          insert-AreWitnessed (big_int seq)
            (record { body_hash = to_lower hash; fabric_tx_id = tx }) (map_get (big_int seq) rows)
            rows m h all)
      | inr off ↦ rw off all
    ]

after_submit-AreWitnessed :
    (r : Recorded) (seq hash : Text) (rows : Rows) (m : Ledger)
    → (IsAccepted r → Holds (big_int seq) (to_lower hash) m)
    → AreWitnessed rows m
    → AreWitnessed (after_submit seq hash rows (submitted r)).0 m
unfolding after_submit submitted IsAccepted
after_submit-AreWitnessed (recorded c) seq hash rows m h all =
    record_witness-AreWitnessed seq hash _ rows m (h tt) all
after_submit-AreWitnessed already seq hash rows m h all =
    record_witness-AreWitnessed seq hash _ rows m (h tt) all
after_submit-AreWitnessed invalid_seq seq hash rows m h all = all
after_submit-AreWitnessed invalid_hash seq hash rows m h all = all
after_submit-AreWitnessed (divergence existing new) seq hash rows m h all =
    elim (Bool-cases (hex64 existing && hex64 new)) [ inl on ↦ rw on all | inr off ↦ rw off all ]
after_submit-AreWitnessed corrupt seq hash rows m h all = all

AreWitnessed-spec_record :
    (at seq hash : Text) (rows : Rows) (m : Ledger)
    → AreWitnessed rows m
    → AreWitnessed rows (spec_record at seq hash m).0
AreWitnessed-spec_record at seq hash rows m all n row e =
    let (c, there, same) = all n row e in (c, spec_record-kept at seq hash n c m there, same)

module _ {State : Type 0} (f : Fabric State) (laws : IsFabric f) where
  handle-AreWitnessed :
      (msg : Message) (s : State) (rows : Rows) (m : Ledger)
      → Represents f s m
      → AreWitnessed rows m
      → (m' : Ledger) × Represents f (handle f msg s rows).0 m'
        × AreWitnessed (handle f msg s rows).1.0 m'
  unfolding handle submit_commitment Simulates
  handle-AreWitnessed msg s rows m rep all =
      let at = recorded_at f msg.timestamp in
      let lower = to_lower msg.body_hash in
      let (answer, rep') = record_commitment-Simulates f laws msg.timestamp msg.seq lower s m rep in
      let m' = (spec_record at msg.seq lower m).0 in
      (
        m',
        rep',
        after_submit-AreWitnessed _ msg.seq msg.body_hash rows m'
            (λ ok.
              subst (λ h. Holds (big_int msg.seq) h m') (to_lower-to_lower msg.body_hash)
                (spec_record-Holds at msg.seq lower m (subst IsAccepted answer ok)))
            (AreWitnessed-spec_record at msg.seq lower rows m all),
      )

  -- If the world state represents a map in which each row of the witness table has its hash, then it
  -- does so after any messages, however they are ordered and repeated.
  pub handle_all-AreWitnessed :
      (ms : List Message) (s : State) (rows : Rows) (m : Ledger)
      → Represents f s m
      → AreWitnessed rows m
      → (m' : Ledger) × Represents f (handle_all f ms s rows).0 m'
        × AreWitnessed (handle_all f ms s rows).1 m'
  unfolding handle_all
  handle_all-AreWitnessed [] s rows m rep all = (m, rep, all)
  handle_all-AreWitnessed (msg ∷ ms) s rows m rep all =
      let (m', rep', all') = handle-AreWitnessed msg s rows m rep all in
      handle_all-AreWitnessed ms _ _ m' rep' all'
