-- ===== src/AuditChain/Verify/Sound.antt =====
-- What HashChain.verify accepts, whatever the table holds.
use vigil_apex_f.Common.{
  ℕ, zero, suc, ◌+◌, ◌-◌, ◌≤◌, ◌<◌, ◌≡◌, refl, sym, ap, ◌∙◌, ◌⊎◌, subst, Bool-cases, inl, inr,
  Option, none, some, List, [], ◌∷◌, ◌++◌, append-nil, Text, arith, length, All, leb, ltb, min,
  length-append,
}
use vigil_apex_f.AuditChain.Platform.{Platform}
use vigil_apex_f.AuditChain.Store.{Row, Table, select_range}
use vigil_apex_f.AuditChain.Store.Ranges.{
  InRange, InRange-empty, InRange-select_range, select_range-split,
}
use vigil_apex_f.AuditChain.Verify.{
  Sweep, Verdict, ok, broken, check_rows, after_batch, or_max, verify_loop, verify,
}
use vigil_apex_f.AuditChain.Verify.Links.{
  Links, end_hash, sweep_after, check_rows-eq-ok, Links-append, Links-length-le, Links-lt,
}

All-append_right {ℓ κ} :
    {A : Type ℓ} (P : A → Type κ) (xs ys : List A) → All P (xs ++ ys) → All P ys
All-append_right P [] ys h = h
All-append_right P (x ∷ xs) ys h = All-append_right P xs ys h.1

InRange-nil :
    (lo hi k : ℕ) (rows : List Row)
    → InRange lo hi rows
    → All (λ r. r.seq < k) rows
    → k ≤ lo
    → rows ≡ []
InRange-nil lo hi k [] h g le = refl
InRange-nil lo hi k (r ∷ rows) (hr, h) (gr, g) le = absurd (omega (arith, hr.0, gr))

InRange-le : (lo hi : ℕ) (rows : List Row) → InRange lo hi rows → All (λ r. r.seq ≤ hi) rows
InRange-le lo hi [] h = tt
InRange-le lo hi (r ∷ rows) (hr, h) = (hr.1, InRange-le lo hi rows h)

after_batch-eq-ok :
    (k b : ℕ) (s : Sweep) (v : Verdict Sweep) (again : Sweep → Option (Verdict ℕ)) {n : ℕ}
    → after_batch k b s v again ≡ some (ok n)
    → ((k ≡ 0) × (n ≡ s.verified))
      ⊎ ((s' : Sweep) × (v ≡ ok s')
          × (((k < b) × (n ≡ s'.verified)) ⊎ ((b ≤ k) × (again s' ≡ some (ok n)))))
after_batch-eq-ok zero b s v again h = inl (refl, ground arith)
after_batch-eq-ok (suc k) b s (broken e) again h = ground arith
after_batch-eq-ok (suc k) b s (ok s') again h = elim (Bool-cases (ltb (suc k) b)) [
  | inl short ↦ inr (s', refl, inl (ground (arith, short), ground (arith, rw short at h)))
  | inr full ↦ inr (s', refl, inr (ground (arith, full), rw full at h))
]

module _ (p : Platform) (t : Table) where
  -- The rows of the seqs from `seq_expected` on, `n - verified` of them, are linked.
  pub record Swept (s : Sweep) (n : ℕ) : Type 0 where
    pub upto : ℕ
    pub linked : Links p s.prev s.seq_expected (select_range s.seq_expected upto t)
    pub counted : n ≡ s.verified + length (select_range s.seq_expected upto t)
    pub ends : s.seq_expected + length (select_range s.seq_expected upto t) ≡ upto + 1

  -- Linked rows of a range are all the rows up to the last of them.
  trim :
      (prev : Option Text) (c hi k : ℕ)
      → c + length (select_range c hi t) ≡ k + 1
      → k ≤ hi
      → Links p prev c (select_range c hi t)
      → select_range c k t ≡ select_range c hi t
  trim prev c hi k e le l =
      let split = select_range-split c k hi t (omega (arith, e)) le in
      let below = Links-lt p prev c (select_range c hi t) l in
      let rest : select_range (k + 1) hi t ≡ [] =
        InRange-nil (k + 1) hi (c + length (select_range c hi t)) (select_range (k + 1) hi t)
          (InRange-select_range (k + 1) hi t)
          (All-append_right _ (select_range c k t) _ (subst (All _) split below))
          (omega (arith, e)) in
      sym (split ∙ ap (λ rows. select_range c k t ++ rows) rest ∙ append-nil _)

  Swept-trim :
      (s : Sweep) (hi : ℕ)
      → 1 ≤ s.seq_expected
      → s.seq_expected ≤ hi + 1
      → Links p s.prev s.seq_expected (select_range s.seq_expected hi t)
      → Swept s (s.verified + length (select_range s.seq_expected hi t))
  Swept-trim s hi one le l =
      let c = s.seq_expected in
      let len = length (select_range c hi t) in
      let bound : c + len ≤ hi + 1 =
        Links-length-le p s.prev c hi (select_range c hi t) l
          (InRange-le c hi (select_range c hi t) (InRange-select_range c hi t)) le in
      let e = trim s.prev c hi (c + len - 1) (omega (arith, one)) (omega (arith, one, bound)) l in
      record {
        upto = c + len - 1;
        linked = subst (Links p s.prev c) (sym e) l;
        counted = omega (arith, ap length e);
        ends = omega (arith, ap length e, one);
      }

  -- A full batch, and what the later batches sweep, make one range.
  Swept-join :
      (s : Sweep) (hi n : ℕ)
      → s.seq_expected + length (select_range s.seq_expected hi t) ≡ hi + 1
      → Links p s.prev s.seq_expected (select_range s.seq_expected hi t)
      → Swept (sweep_after p s (select_range s.seq_expected hi t)) n
      → Swept s n
  Swept-join s hi n full l w =
      let c = s.seq_expected in
      let rows = select_range c hi t in
      let later : Links p (end_hash s.prev rows) (c + length rows)
          (select_range (hi + 1) w.upto t) =
        subst (λ k. Links p (end_hash s.prev rows) (c + length rows) (select_range k w.upto t)) full
          w.linked in
      let e =
        select_range-split c hi w.upto t (omega (arith, full)) (omega (arith, w.ends, full)) in
      let count : length (select_range c w.upto t)
          ≡ length rows + length (select_range (c + length rows) w.upto t) =
        ap length e
        ∙ length-append rows _
        ∙ ap (λ k. length rows + length (select_range k w.upto t)) (sym full) in
      record {
        upto = w.upto;
        linked = subst (Links p s.prev c) (sym e) ((Links-append p s.prev c rows _).1 (l, later));
        counted = omega (arith, w.counted, count);
        ends = omega (arith, w.ends, count);
      }

  Swept-none : (s : Sweep) {n : ℕ} → 1 ≤ s.seq_expected → n ≡ s.verified → Swept s n
  Swept-none s one e =
      let c = s.seq_expected in
      let empty : select_range c (c - 1) t ≡ [] =
        InRange-empty c (c - 1) _ (InRange-select_range c (c - 1) t) (omega (arith, one)) in
      record {
        upto = c - 1;
        linked = subst (Links p s.prev c) (sym empty) tt;
        counted = omega (arith, e, ap length empty);
        ends = omega (arith, one, ap length empty);
      }

  -- One batch that is not the end of the sweep, or is.
  Swept-batch :
      (upper b : ℕ) (s s' : Sweep) (n : ℕ)
      → 1 ≤ b
      → 1 ≤ s.seq_expected
      → s.seq_expected ≤ upper
      → let hi = min upper (s.seq_expected + b - 1) in
        let rows = select_range s.seq_expected hi t in
        check_rows p s rows ≡ ok s'
        → ((length rows < b) × (n ≡ s'.verified))
          ⊎ ((b ≤ length rows) × ((s'.seq_expected ≡ hi + 1) → Swept s' n))
        → Swept s n
  Swept-batch upper b s s' n one low le checked after =
      let hi = min upper (s.seq_expected + b - 1) in
      let rows = select_range s.seq_expected hi t in
      let (l, e) = check_rows-eq-ok p rows s s' checked in
      let bound : s.seq_expected + length rows ≤ hi + 1 =
        Links-length-le p s.prev s.seq_expected hi rows l
          (InRange-le s.seq_expected hi rows (InRange-select_range s.seq_expected hi t))
          (omega (arith, low, le, one)) in
      elim after [
        | inl (short, same) ↦
            subst (Swept s) (ap (λ q. q.verified) (sym e) ∙ sym same)
              (Swept-trim s hi low (omega (arith, low, le, one)) l)
        | inr (full, again) ↦
            let exact : s.seq_expected + length rows ≡ hi + 1 = omega (arith, bound, full, one) in
            Swept-join s hi n exact l
              (subst (λ q. Swept q n) e (again (ap (λ q. q.seq_expected) e ∙ exact)))
      ]

  verify_loop-Swept :
      (fuel c upper b : ℕ) (s : Sweep) {n : ℕ}
      → 1 ≤ b
      → 1 ≤ c
      → s.seq_expected ≡ c
      → verify_loop p fuel c upper b s t ≡ some (ok n)
      → Swept s n
  unfolding verify_loop
  verify_loop-Swept zero c upper b s one low e h = cc
  verify_loop-Swept (suc fuel) c upper b s {n} one low e h0 =
      let low' : 1 ≤ s.seq_expected = omega (arith, low, e) in
      let h = subst (λ k. verify_loop p (suc fuel) k upper b s t ≡ some (ok n)) (sym e) h0 in
      elim (Bool-cases (leb s.seq_expected upper)) [
        | inr past ↦ Swept-none s low' (ground (arith, rw past at h))
        | inl inside ↦ elim (after_batch-eq-ok _ b s _ _ (rw inside at h)) [
          | inl (empty, same) ↦ Swept-none s low' same
          | inr (s', checked, inl short) ↦
              Swept-batch upper b s s' n one low' (ground (arith, inside)) checked (inl short)
          | inr (s', checked, inr (full, again)) ↦
              Swept-batch upper b s s' n one low' (ground (arith, inside)) checked
                (inr (full, λ e'. verify_loop-Swept fuel _ upper b s' one (omega arith) e' again))
        ]
      ]

-- Whatever the table holds: when a sweep from seq 1 accepts `n` rows, the rows of the seqs 1 to n
-- are there, each is hashed over the one before it, and each names that one's hash.
pub verify_sound :
    (p : Platform) (t : Table) (to : Option ℕ) (batch_size n : ℕ)
    → 1 ≤ batch_size
    → verify p 1 to batch_size t ≡ some (ok n)
    → Links p none 1 (select_range 1 n t) × (length (select_range 1 n t) ≡ n)
unfolding verify
verify_sound p t to b n one h =
    let w =
      verify_loop-Swept p t (or_max to + 2) 1 (or_max to) b
        (record { prev = none; seq_expected = 1; verified = 0 }) one (omega arith) refl h in
    let e : w.upto ≡ n = omega (arith, w.counted, w.ends) in
    (
      subst (λ k. Links p none 1 (select_range 1 k t)) e w.linked,
      omega (arith, w.counted, ap (λ k. length (select_range 1 k t)) e),
    )
