-- ===== src/Ledger/Each.antt =====
-- LedgerVerifier.verifyAll, against the checks of the single commitments.
use vigil_apex_f.Common.{
  ℕ, ◌+◌, ◌≡◌, ◌↔◌, refl, ap, ◌∙◌, Option, none, some, List, [], ◌∷◌, arith, length,
}
use vigil_apex_f.AuditChain.Platform.{Platform}
use vigil_apex_f.AuditChain.Store.{Table}
use vigil_apex_f.Ledger.{
  Commitment, Check, passed, refused, Report, and_check, verify_commitment, verify_each, verify_all,
}

module _ (p : Platform) (t : Table) where
  -- The counts of the commitments, one by one.
  abbrev pub Counts : List Commitment → List ℕ → Type 0
  Counts [] [] = Unit
  Counts [] (n ∷ ns) = ⊥
  Counts (c ∷ cs) [] = ⊥
  Counts (c ∷ cs) (n ∷ ns) = (verify_commitment p c t ≡ some (passed n)) × Counts cs ns

  abbrev pub sum : List ℕ → ℕ
  sum [] = 0
  sum (n ∷ ns) = n + sum ns

  abbrev plus : Report → ℕ → Report
  plus r n = record { verified = r.verified + n; commitments_checked = r.commitments_checked + 1 }

  -- The list was accepted, and `r` grew to `s`.
  abbrev Grows : Report → Report → List Commitment → Type 0
  Grows r s cs =
      (ns : List ℕ) × Counts cs ns
      × (s.verified ≡ r.verified + sum ns)
      × (s.commitments_checked ≡ r.commitments_checked + length cs)

  cons-Grows :
      (r s : Report) (c : Commitment) (cs : List Commitment) (o : Option (Check ℕ))
      → verify_commitment p c t ≡ o
      → ((n : ℕ) → verify_each p (plus r n) cs t ≡ some (passed s) → Grows (plus r n) s cs)
      → and_check o (λ n. verify_each p (plus r n) cs t) ≡ some (passed s)
      → Grows r s (c ∷ cs)
  cons-Grows r s c cs none q rest h = cc h
  cons-Grows r s c cs (some (refused x)) q rest h = cc h
  cons-Grows r s c cs (some (passed n)) q rest h =
      let (ns, counts, v, k) = rest n h in (n ∷ ns, (q, counts), omega (arith, v), omega (arith, k))

  verify_each-Grows :
      (r s : Report) (cs : List Commitment) → verify_each p r cs t ≡ some (passed s) → Grows r s cs
  unfolding verify_each
  verify_each-Grows r s [] e =
      let same : r ≡ s = cc e in
      (
        [],
        tt,
        omega (arith, ap (λ x. x.verified) same),
        omega (arith, ap (λ x. x.commitments_checked) same),
      )
  verify_each-Grows r s (c ∷ cs) e =
      cons-Grows r s c cs (verify_commitment p c t) refl (λ n. verify_each-Grows (plus r n) s cs) e

  Counts-verify_each :
      (r : Report) (cs : List Commitment) (ns : List ℕ)
      → Counts cs ns
      → verify_each p r cs t
        ≡ some (
            passed (record {
              verified = r.verified + sum ns;
              commitments_checked = r.commitments_checked + length cs;
            }))
  unfolding verify_each
  Counts-verify_each r [] [] h = ground arith
  Counts-verify_each r [] (n ∷ ns) h = elim h [ ]
  Counts-verify_each r (c ∷ cs) [] h = elim h [ ]
  Counts-verify_each r (c ∷ cs) (n ∷ ns) (q, h) =
      let more : r.verified + n + sum ns ≡ r.verified + (n + sum ns) = omega arith in
      let longer : r.commitments_checked + 1 + length cs ≡ r.commitments_checked + length (c ∷ cs) =
        omega arith in
      rw q (Counts-verify_each (plus r n) cs ns h ∙ cc (more, longer))

  -- verifyAll returns a report exactly when every commitment passes by itself; the report then adds up
  -- the counts of all of them.
  pub verify_all_iff :
      (cs : List Commitment) (s : Report)
      → (verify_all p cs t ≡ some (passed s)) ↔ (
          (ns : List ℕ) × Counts cs ns
          × (s.verified ≡ sum ns)
          × (s.commitments_checked ≡ length cs))
  unfolding verify_all
  verify_all_iff cs s =
      let start : Report = record { verified = 0; commitments_checked = 0 } in
      (
        λ e.
            let (ns, counts, v, k) = verify_each-Grows start s cs e in
            (ns, counts, omega (arith, v), omega (arith, k)),
        λ (ns, counts, v, k).
            let v' : s.verified ≡ 0 + sum ns = omega (arith, v) in
            let k' : s.commitments_checked ≡ 0 + length cs = omega (arith, k) in
            Counts-verify_each start cs ns counts ∙ cc (v', k'),
      )
