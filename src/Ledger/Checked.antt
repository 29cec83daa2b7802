-- ===== src/Ledger/Checked.antt =====
-- LedgerVerifier.verifyCommitment: what an accepted commitment says of the table.
use vigil_apex_f.Common.{
  ℕ, ◌+◌, ◌≡◌, ◌≤◌, refl, sym, ap, ◌∙◌, subst, ◌⊎◌, inl, inr, Option, none, some, List, [], ◌∷◌,
  ◌++◌, Text, ◌==◌, ==_iff, arith, length, to_lower, text_eq, text_eq_iff, Bool-cases,
}
use vigil_apex_f.AuditChain.Platform.{Platform, Laws, Collision}
use vigil_apex_f.AuditChain.Canonical.{body_hash, row_hash, hash_or_zeros}
use vigil_apex_f.AuditChain.Chain.{IsChain}
use vigil_apex_f.AuditChain.Store.{Row, event_of, Table, body_hash_at, select_range}
use vigil_apex_f.AuditChain.Verify.{Verdict, ok, broken, verify}
use vigil_apex_f.AuditChain.Verify.Links.{Links, end_hash}
use vigil_apex_f.AuditChain.Verify.Sound.{verify_sound}
use vigil_apex_f.AuditChain.Verify.Complete.{verify_complete}
use vigil_apex_f.AuditChain.Verify.Binding.{verify-binding, SameLines}
use vigil_apex_f.Ledger.{
  Commitment, passed, and_check, lift_verdict, check_count, compare_tail, verify_commitment,
}
use vigil_apex_f.Ledger.Tail.{body_hash_at-end_hash}

-- The sweep accepted the whole range, and the hash at its end is the anchored one.
pub record IsAnchored (p : Platform) (c : Commitment) (t : Table) (n : ℕ) : Type 0 where
  pub swept : verify p c.from_seq (some c.to_seq) 1000 t ≡ some (ok n)
  pub counted : n + c.from_seq ≡ c.to_seq + 1
  pub local : Text
  pub found : body_hash_at c.to_seq t ≡ some local
  pub matches : to_lower local ≡ to_lower c.root_hash

compare_tail-eq-passed :
    (c : Commitment) (m n : ℕ) (o : Option Text)
    → compare_tail c m o ≡ passed n
    → (m ≡ n) × ((h : Text) × (o ≡ some h) × (to_lower h ≡ to_lower c.root_hash))
compare_tail-eq-passed c m n none e = cc e
compare_tail-eq-passed c m n (some h) e =
    elim (Bool-cases (text_eq (to_lower h) (to_lower c.root_hash))) [
      | inl same ↦
          (cc (rw same at e), (h, refl, (text_eq_iff (to_lower h) (to_lower c.root_hash)).0 same))
      | inr apart ↦ cc (rw apart at e)
    ]

verdict-IsAnchored :
    (p : Platform) (c : Commitment) (t : Table) (n : ℕ) (v : Option (Verdict ℕ))
    → verify p c.from_seq (some c.to_seq) 1000 t ≡ v
    → and_check (lift_verdict v) (λ m. some (check_count c t m)) ≡ some (passed n)
    → IsAnchored p c t n
verdict-IsAnchored p c t n none q e = cc e
verdict-IsAnchored p c t n (some (broken b)) q e = cc e
verdict-IsAnchored p c t n (some (ok m)) q e = elim (Bool-cases (m + c.from_seq == c.to_seq + 1)) [
  | inr off ↦ cc (rw off at e)
  | inl on ↦
      let (same, (h, found, matches)) =
        compare_tail-eq-passed c m n (body_hash_at c.to_seq t) (cc (rw on at e)) in
      record {
        swept = cc (q, same);
        counted = omega (arith, same, (==_iff (m + c.from_seq) (c.to_seq + 1)).0 on);
        local = h;
        found = found;
        matches = matches;
      }
]

pub verify_commitment-IsAnchored :
    (p : Platform) (c : Commitment) (t : Table) (n : ℕ)
    → verify_commitment p c t ≡ some (passed n)
    → IsAnchored p c t n
unfolding verify_commitment
verify_commitment-IsAnchored p c t n e =
    verdict-IsAnchored p c t n (verify p c.from_seq (some c.to_seq) 1000 t) refl e

-- On an intact chain a commitment of a prefix passes, when its root is the hash at its last seq up to
-- the case of letters, and all its rows count as verified.
pub verify_commitment_complete :
    (p : Platform) (t : Table) (to : ℕ) (root local : Text)
    → IsChain p t
    → to ≤ length t
    → body_hash_at to t ≡ some local
    → to_lower local ≡ to_lower root
    → verify_commitment p (record { from_seq = 1; to_seq = to; root_hash = root }) t
      ≡ some (passed to)
unfolding verify_commitment
verify_commitment_complete p t to root local c within found same =
    let swept : verify p 1 (some to) 1000 t ≡ some (ok to) =
      verify_complete p t (some to) 1000 c (omega arith)
      ∙ ap (λ n. some (ok n)) (omega (arith, within)) in
    rw
      (
        swept,
        (==_iff (to + 1) (to + 1)).1 refl,
        found,
        (text_eq_iff (to_lower local) (to_lower root)).1 same,
      )
      refl

module _ (p : Platform) (laws : Laws p)
    (lower : (s : Text) → to_lower (p.sha256 s) ≡ p.sha256 s) where
  row_hash_lower :
      (prev : Option Text) (body : Text) → to_lower (row_hash p prev body) ≡ row_hash p prev body
  unfolding row_hash
  row_hash_lower prev body = lower (hash_or_zeros p prev ++ (b'|' ∷ body))

  Links-lower :
      (prev : Option Text) (k : ℕ) (rows : List Row) (h : Text)
      → ((g : Text) → prev ≡ some g → to_lower g ≡ g)
      → Links p prev k rows
      → end_hash prev rows ≡ some h
      → to_lower h ≡ h
  Links-lower prev k [] h low l e = low h e
  Links-lower prev k (r ∷ rows) h low l e =
      Links-lower (some r.body_hash) (k + 1) rows h
        (λ g q.
          let own : row_hash p prev (body_hash p (event_of r)) ≡ g = l.0.hash_fits ∙ cc q in
          subst (λ g. to_lower g ≡ g) own (row_hash_lower prev (body_hash p (event_of r))))
        l.1 e

  -- The hash at the end of the range, when it was accepted from the first row.
  end_hash-IsAnchored :
      (c : Commitment) (t : Table) (n : ℕ)
      → c.from_seq ≡ 1
      → 1 ≤ c.to_seq
      → (a : IsAnchored p c t n)
      → (verify p 1 (some c.to_seq) 1000 t ≡ some (ok n))
        × (end_hash none (select_range 1 n t) ≡ some a.local)
        × (to_lower a.local ≡ a.local)
  end_hash-IsAnchored c t n one some_row a =
      let swept = subst (λ f. verify p f (some c.to_seq) 1000 t ≡ some (ok n)) one a.swept in
      let (linked, counted) = verify_sound p t (some c.to_seq) 1000 n (omega arith) swept in
      let whole : c.to_seq ≡ n = omega (arith, a.counted, one) in
      let ends =
        body_hash_at-end_hash p n a.local t (omega (arith, whole, some_row)) linked counted
          (subst (λ k. body_hash_at k t ≡ some a.local) whole a.found) in
      (swept, ends, Links-lower none 1 (select_range 1 n t) a.local (λ g q. cc q) linked ends)

  -- On a platform with the stated laws, whose digests are in lower case: two tables that pass the check
  -- of one commitment, of a row or more from the first one, hold the same canonical lines in its range,
  -- or two texts with one digest are at hand.
  pub verify_commitment-binding :
      (c : Commitment) (t u : Table) (n m : ℕ)
      → c.from_seq ≡ 1
      → 1 ≤ c.to_seq
      → verify_commitment p c t ≡ some (passed n)
      → verify_commitment p c u ≡ some (passed m)
      → SameLines p (select_range 1 n t) (select_range 1 n u) ⊎ Collision p
  verify_commitment-binding c t u n m one some_row ht hu =
      let a = verify_commitment-IsAnchored p c t n ht in
      let b = verify_commitment-IsAnchored p c u m hu in
      let (swept, ends, low) = end_hash-IsAnchored c t n one some_row a in
      let (swept', ends', low') = end_hash-IsAnchored c u m one some_row b in
      let same : m ≡ n = omega (arith, a.counted, b.counted) in
      let hash : a.local ≡ b.local = sym low ∙ a.matches ∙ sym b.matches ∙ low' in
      verify-binding p laws t u (some c.to_seq) (some c.to_seq) 1000 1000 n (omega arith)
        (omega arith) swept
        (subst (λ k. verify p 1 (some c.to_seq) 1000 u ≡ some (ok k)) same swept')
        (ends
          ∙ ap some hash
          ∙ sym (subst (λ k. end_hash none (select_range 1 k u) ≡ some b.local) same ends'))
