-- ===== src/Chaincode/Refines.antt =====
-- The transactions of chaincode/audit-witness/src/contract.ts against the map of Chaincode.Spec.
use vigil_apex_f.Common.{
  ℕ, ◌≡◌, ◌≢◌, refl, sym, ap, ◌∙◌, ◌⊎◌, inl, inr, Option, none, some, List, [], ◌∷◌, Text, arith,
  Bool-cases, to_lower, map_set, map_get, map_get-map_set_same, map_get-map_set_other,
}
use vigil_apex_f.Chaincode.{
  Commitment, Fabric, TxTimestamp, Recorded, found, seq_re, hex64, key, big_int, recorded_at,
  record_at, record_commitment, read_raw, get_commitment,
}
use vigil_apex_f.Chaincode.Keys.{IsSeq, seq_re-IsSeq, key_iff}
use vigil_apex_f.Chaincode.Spec.{
  IsFabric, Ledger, first_wins, spec_record, spec_get, reading, Call, run, spec_run, bytes,
  Represents,
}

module _ {State : Type 0} (f : Fabric State) (laws : IsFabric f) where
  Represents-put :
      (s : State) (m : Ledger) (seq : Text) (c : Commitment)
      → IsSeq seq
      → Represents f s m
      → Represents f (f.put_state (key seq) (f.stringify c) s) (map_set (big_int seq) c m)
  unfolding Represents
  Represents-put s m seq c q h x qx =
      let after = f.put_state (key seq) (f.stringify c) s in
      let same : ((big_int seq ≡ big_int x) ⊎ (big_int seq ≢ big_int x)) = ground arith in
      elim same [
        | inl e ↦
            ap (f.get_state after) (sym ((key_iff seq x q qx).1 e))
            ∙ laws.get_put_same (key seq) (f.stringify c) s
            ∙ ap (bytes f) (
                sym (map_get-map_set_same (big_int seq) c m)
                ∙ ap (λ k. map_get k (map_set (big_int seq) c m)) e)
        | inr n ↦
            laws.get_put_other (key seq) (key x) (f.stringify c) s
              (λ k. n ((key_iff seq x q qx).0 k))
            ∙ h x qx
            ∙ ap (bytes f) (sym (map_get-map_set_other (big_int x) (big_int seq) c m n))
      ]

  -- One step of the contract against one step of the map.
  unfoldable pub Simulates : State × Recorded → Ledger × Recorded → Type 0
  Simulates a b = (a.1 ≡ b.1) × Represents f a.0 b.0

  record_at-prior :
      (ts : TxTimestamp) (seq lower raw : Text) (s : State) (m : Ledger) (prior c : Commitment)
      → raw ≡ f.stringify prior
      → c.body_hash ≡ lower
      → Represents f s m
      → Simulates (record_at f ts seq lower raw s) (first_wins c (some prior) m)
  unfolding Simulates record_at
  record_at-prior ts seq lower [] s m prior c e b h = absurd (laws.stringify_some prior (sym e))
  record_at-prior ts seq lower (x ∷ raw) s m prior c e b h =
      let back : f.parse (x ∷ raw) ≡ some prior = ap f.parse e ∙ laws.parse_stringify prior in
      (rw (back, b) refl, h)

  record_at-first :
      (ts : TxTimestamp) (seq lower : Text) (s : State) (m : Ledger) (o : Option Commitment)
      → map_get (big_int seq) m ≡ o
      → IsSeq seq
      → Represents f s m
      → Simulates
          (record_at f ts seq lower (f.get_state s (key seq)) s)
          (first_wins (record { seq = seq; body_hash = lower; recorded_at = recorded_at f ts }) o m)
  unfolding Simulates record_at Represents
  record_at-first ts seq lower s m none e q h =
      let c : Commitment = record {
        seq = seq;
        body_hash = lower;
        recorded_at = recorded_at f ts;
      } in
      rw (h seq q, e) (refl, Represents-put s m seq c q h)
  record_at-first ts seq lower s m (some prior) e q h =
      record_at-prior ts seq lower (f.get_state s (key seq)) s m prior
        (record { seq = seq; body_hash = lower; recorded_at = recorded_at f ts })
        (h seq q ∙ ap (bytes f) e) refl h

  pub record_commitment-Simulates :
      (ts : TxTimestamp) (seq body_hash : Text) (s : State) (m : Ledger)
      → Represents f s m
      → Simulates
          (record_commitment f ts seq body_hash s)
          (spec_record (recorded_at f ts) seq body_hash m)
  unfolding record_commitment spec_record Simulates
  record_commitment-Simulates ts seq body_hash s m h = elim (Bool-cases (seq_re seq)) [
    | inr off ↦ rw off (refl, h)
    | inl on ↦ elim (Bool-cases (hex64 (to_lower body_hash))) [
      | inr off ↦ rw (on, off) (refl, h)
      | inl hex ↦
          rw (on, hex)
            (record_at-first ts seq (to_lower body_hash) s m (map_get (big_int seq) m) refl
              (seq_re-IsSeq seq on) h)
    ]
  ]

  -- Every run of the contract, from a world state that represents the map, gives the answers that the
  -- map gives, and ends in a world state that represents the map at the end of the same run.
  pub run-refines :
      (calls : List Call) (s : State) (m : Ledger)
      → Represents f s m
      → ((run f calls s).1 ≡ (spec_run f calls m).1)
        × Represents f (run f calls s).0 (spec_run f calls m).0
  unfolding run spec_run Simulates
  run-refines [] s m h = (refl, h)
  run-refines (c ∷ cs) s m h =
      let (same, next) = record_commitment-Simulates c.timestamp c.seq c.body_hash s m h in
      let (answers, rep) = run-refines cs _ _ next in (cc (same, answers), rep)

  read_raw-prior :
      (raw : Text) (prior : Commitment) → raw ≡ f.stringify prior → read_raw f raw ≡ found prior
  read_raw-prior [] prior e = absurd (laws.stringify_some prior (sym e))
  read_raw-prior (x ∷ raw) prior e =
      let back : f.parse (x ∷ raw) ≡ some prior = ap f.parse e ∙ laws.parse_stringify prior in
      rw back refl

  read_raw-bytes : (o : Option Commitment) → read_raw f (bytes f o) ≡ reading o
  read_raw-bytes none = refl
  read_raw-bytes (some c) = read_raw-prior (f.stringify c) c refl

  pub get_commitment-spec_get :
      (seq : Text) (s : State) (m : Ledger)
      → Represents f s m
      → get_commitment f seq s ≡ spec_get seq m
  unfolding get_commitment spec_get Represents
  get_commitment-spec_get seq s m h = elim (Bool-cases (seq_re seq)) [
    | inr off ↦ rw off refl
    | inl on ↦ rw (on, h seq (seq_re-IsSeq seq on)) (read_raw-bytes (map_get (big_int seq) m))
  ]

map_get-kept :
    (n : ℕ) (c prior : Commitment) (o : Option Commitment) (m : Ledger)
    → map_get (big_int c.seq) m ≡ o
    → map_get n m ≡ some prior
    → map_get n (first_wins c o m).0 ≡ some prior
map_get-kept n c prior (some q) m e h = h
map_get-kept n c prior none m e h =
    let apart : big_int c.seq ≢ n = λ same. cc (sym e ∙ ap (λ k. map_get k m) same ∙ h) in
    map_get-map_set_other n (big_int c.seq) c m apart ∙ h

-- An entry of the map stays as it is.
pub spec_record-kept :
    (at seq body_hash : Text) (n : ℕ) (prior : Commitment) (m : Ledger)
    → map_get n m ≡ some prior
    → map_get n (spec_record at seq body_hash m).0 ≡ some prior
unfolding spec_record
spec_record-kept at seq body_hash n prior m h = elim (Bool-cases (seq_re seq)) [
  | inr off ↦ rw off h
  | inl on ↦ elim (Bool-cases (hex64 (to_lower body_hash))) [
    | inr off ↦ rw (on, off) h
    | inl hex ↦
        rw (on, hex)
          (map_get-kept n (record { seq = seq; body_hash = to_lower body_hash; recorded_at = at })
            prior (map_get (big_int seq) m) m refl h)
  ]
]

spec_run-kept :
    {State : Type 0} (f : Fabric State) (calls : List Call) (n : ℕ) (prior : Commitment)
    (m : Ledger)
    → map_get n m ≡ some prior
    → map_get n (spec_run f calls m).0 ≡ some prior
unfolding spec_run
spec_run-kept f [] n prior m h = h
spec_run-kept f (c ∷ cs) n prior m h =
    spec_run-kept f cs n prior _
      (spec_record-kept (recorded_at f c.timestamp) c.seq c.body_hash n prior m h)

reading-found : (o : Option Commitment) (c : Commitment) → reading o ≡ found c → o ≡ some c
reading-found none c e = cc e
reading-found (some d) c e = cc e

spec_get-kept :
    {State : Type 0} (f : Fabric State) (calls : List Call) (seq : Text) (c : Commitment)
    (m : Ledger)
    → spec_get seq m ≡ found c
    → spec_get seq (spec_run f calls m).0 ≡ found c
unfolding spec_get
spec_get-kept f calls seq c m h = elim (Bool-cases (seq_re seq)) [
  | inr off ↦ cc (rw off at h)
  | inl on ↦
      rw on (ap reading (spec_run-kept f calls (big_int seq) c m (reading-found _ c (rw on at h))))
]

-- A commitment that can be read from a world state which represents a map is read the same after any
-- run from there, whatever its calls.
pub run-append_only :
    {State : Type 0} (f : Fabric State) (calls : List Call) (s : State) (m : Ledger) (seq : Text)
    (c : Commitment)
    → IsFabric f
    → Represents f s m
    → get_commitment f seq s ≡ found c
    → get_commitment f seq (run f calls s).0 ≡ found c
run-append_only f calls s m seq c laws h e =
    let before : spec_get seq m ≡ found c = sym (get_commitment-spec_get f laws seq s m h) ∙ e in
    get_commitment-spec_get f laws seq _ _ (run-refines f laws calls s m h).1
    ∙ spec_get-kept f calls seq c m before
