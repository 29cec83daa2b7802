-- ===== src/Chaincode/Filled.antt =====
-- A channel that only the contract of chaincode/audit-witness/src/contract.ts writes.
use vigil_apex_f.Common.{
  ◌≡◌, ◌≢◌, refl, sym, ◌∙◌, inl, inr, Option, none, some, List, [], ◌∷◌, Text, Bool-cases, to_lower,
  text_eq, text_eq_iff, map_set, map_get, ◌==◌,
}
use vigil_apex_f.Chaincode.{
  Commitment, Fabric, TxTimestamp, seq_re, hex64, key, big_int, recorded_at, record_at,
  record_commitment,
}
use vigil_apex_f.Chaincode.Keys.{IsSeq, seq_re-IsSeq}
use vigil_apex_f.Chaincode.Spec.{
  IsFabric, Ledger, first_wins, spec_record, Call, run, spec_run, Represents,
}
use vigil_apex_f.Chaincode.Refines.{run-refines}
use vigil_apex_f.Chaincode.Sweep.{Keyed, IsFilled}

map_set-Keyed :
    (c : Commitment) (m : Ledger) → IsSeq c.seq → Keyed m → Keyed (map_set (big_int c.seq) c m)
map_set-Keyed c [] q h = ((q, refl), tt)
map_set-Keyed c ((j, d) ∷ m) q (h, hs) = elim (Bool-cases (j == big_int c.seq)) [
  | inl on ↦ rw on ((q, refl), hs)
  | inr off ↦ rw off (h, map_set-Keyed c m q hs)
]

first_wins-Keyed :
    (c : Commitment) (o : Option Commitment) (m : Ledger)
    → IsSeq c.seq
    → Keyed m
    → Keyed (first_wins c o m).0
first_wins-Keyed c none m q h = map_set-Keyed c m q h
first_wins-Keyed c (some prior) m q h = h

spec_record-Keyed :
    (at seq body_hash : Text) (m : Ledger) → Keyed m → Keyed (spec_record at seq body_hash m).0
unfolding spec_record
spec_record-Keyed at seq body_hash m h = elim (Bool-cases (seq_re seq)) [
  | inr off ↦ rw off h
  | inl on ↦ elim (Bool-cases (hex64 (to_lower body_hash))) [
    | inr off ↦ rw (on, off) h
    | inl hex ↦
        rw (on, hex)
          (first_wins-Keyed (record { seq = seq; body_hash = to_lower body_hash; recorded_at = at })
            (map_get (big_int seq) m) m (seq_re-IsSeq seq on) h)
  ]
]

module _ {State : Type 0} (f : Fabric State) (laws : IsFabric f) where
  OwnKeys : State → Type 0
  OwnKeys s = (k : Text) → f.get_state s k ≢ [] → (seq : Text) × IsSeq seq × (k ≡ key seq)

  put_state-OwnKeys :
      (seq v : Text) (s : State) → IsSeq seq → OwnKeys s → OwnKeys (f.put_state (key seq) v s)
  unfolding OwnKeys
  put_state-OwnKeys seq v s q h k there = elim (Bool-cases (text_eq (key seq) k)) [
    | inl on ↦ (seq, q, sym ((text_eq_iff (key seq) k).0 on))
    | inr off ↦
        let apart : key seq ≢ k = λ e. cc (off, (text_eq_iff (key seq) k).1 e) in
        h k (λ gone. there (laws.get_put_other (key seq) k v s apart ∙ gone))
  ]

  record_at-OwnKeys :
      (ts : TxTimestamp) (seq lower raw : Text) (s : State)
      → IsSeq seq
      → OwnKeys s
      → OwnKeys (record_at f ts seq lower raw s).0
  unfolding record_at
  record_at-OwnKeys ts seq lower [] s q h = put_state-OwnKeys seq _ s q h
  record_at-OwnKeys ts seq lower (b ∷ raw) s q h = h

  record_commitment-OwnKeys :
      (ts : TxTimestamp) (seq body_hash : Text) (s : State)
      → OwnKeys s
      → OwnKeys (record_commitment f ts seq body_hash s).0
  unfolding record_commitment
  record_commitment-OwnKeys ts seq body_hash s h = elim (Bool-cases (seq_re seq)) [
    | inr off ↦ rw off h
    | inl on ↦ elim (Bool-cases (hex64 (to_lower body_hash))) [
      | inr off ↦ rw (on, off) h
      | inl hex ↦
          rw (on, hex)
            (record_at-OwnKeys ts seq (to_lower body_hash) (f.get_state s (key seq)) s
              (seq_re-IsSeq seq on) h)
    ]
  ]

  run-OwnKeys : (calls : List Call) (s : State) → OwnKeys s → OwnKeys (run f calls s).0
  unfolding run
  run-OwnKeys [] s h = h
  run-OwnKeys (c ∷ cs) s h =
      run-OwnKeys cs _ (record_commitment-OwnKeys c.timestamp c.seq c.body_hash s h)

  spec_run-Keyed : (calls : List Call) (m : Ledger) → Keyed m → Keyed (spec_run f calls m).0
  unfolding spec_run
  spec_run-Keyed [] m h = h
  spec_run-Keyed (c ∷ cs) m h =
      spec_run-Keyed cs _ (spec_record-Keyed (recorded_at f c.timestamp) c.seq c.body_hash m h)

  -- Whatever is called on an empty channel, it holds the contract's keys only, and under each of them
  -- the entry of the map that the same calls fill.
  pub run-IsFilled :
      (calls : List Call) (s : State)
      → ((k : Text) → f.get_state s k ≡ [])
      → IsFilled f (run f calls s).0 (spec_run f calls []).0
  unfolding OwnKeys Represents
  run-IsFilled calls s empty = record {
    represents = (run-refines f laws calls s [] (λ seq q. empty (key seq))).1;
    own_keys = run-OwnKeys calls s (λ k there. absurd (there (empty k)));
    keyed = spec_run-Keyed calls [] tt;
  }
