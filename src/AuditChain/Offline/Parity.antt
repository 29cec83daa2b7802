-- ===== src/AuditChain/Offline/Parity.antt =====
-- The offline verifier against the loop of HashChain.verify.
use vigil_apex_f.Common.{
  ℕ, ◌+◌, ◌≡◌, ◌≢◌, ◌↔◌, refl, ap, subst, true, false, none, some, List, [], ◌∷◌, ◌++◌, arith,
  length, text_eq_iff, ◌==◌, Bool,
}
use vigil_apex_f.AuditChain.Platform.{Platform}
use vigil_apex_f.AuditChain.Canonical.{body_hash, row_hash}
use vigil_apex_f.AuditChain.Store.{Row, event_of}
use vigil_apex_f.AuditChain.Verify.{Sweep, ok, check_rows, hash_eq}
use vigil_apex_f.AuditChain.Verify.Links.{
  Links, Fits, hash_eq_iff, check_rows-eq-ok, check_rows_ok, sweep_after,
}
use vigil_apex_f.AuditChain.Offline.{
  Divergence, Scan, scan_row, scan_rows, verify_offline, first_seq, all_well, status_of,
  push_unless,
}

snoc-ne-nil : (d : Divergence) (ds : List Divergence) → ds ++ d ∷ [] ≢ []
snoc-ne-nil d [] h = cc
snoc-ne-nil d (x ∷ ds) h = cc

push_unless-nil :
    (good : Bool) (d : Divergence) (ds : List Divergence)
    → push_unless good d ds ≡ []
    → (good ≡ true) × (ds ≡ [])
push_unless-nil true d ds h = (refl, h)
push_unless-nil false d ds h = absurd (snoc-ne-nil d ds h)

status_of-all_well : (ds : List Divergence) → status_of ds ≡ all_well → ds ≡ []
status_of-all_well [] h = refl
status_of-all_well (d ∷ ds) h = cc

module _ (p : Platform) where
  -- A row adds no divergence only if it fits.
  scan_row-nil :
      (s : Scan) (r : Row)
      → (scan_row p s r).divergences ≡ []
      → Fits p s.prev s.seq_expected r × (s.divergences ≡ [])
  unfolding scan_row
  scan_row-nil s r h =
      let (prev_ok, h1) = push_unless-nil (hash_eq r.prev_hash s.prev) _ _ h in
      let (hash_ok, h2) = push_unless-nil _ _ _ h1 in
      let (seq_ok, h3) = push_unless-nil (r.seq == s.seq_expected) _ _ h2 in
      (
        record {
          seq_fits = ground (arith, seq_ok);
          hash_fits = (text_eq_iff _ _).0 hash_ok;
          prev_fits = (hash_eq_iff _ _).0 prev_ok;
        },
        h3,
      )

  abbrev scan_after : Scan → Row → Scan
  scan_after s r = record {
    prev = some r.body_hash;
    seq_expected = s.seq_expected + 1;
    verified = s.verified + 1;
    divergences = s.divergences;
  }

  scan_row-Fits :
      (s : Scan) (r : Row) → Fits p s.prev s.seq_expected r → scan_row p s r ≡ scan_after s r
  unfolding scan_row
  scan_row-Fits s r f =
      let hash_ok =
        (text_eq_iff (row_hash p s.prev (body_hash p (event_of r))) r.body_hash).1 f.hash_fits in
      let prev_ok = (hash_eq_iff r.prev_hash s.prev).1 f.prev_fits in
      ground (arith, hash_ok, prev_ok, f.seq_fits, f.hash_fits)

  scan_rows-nil :
      (rows : List Row) (s : Scan)
      → (scan_rows p s rows).divergences ≡ []
      → Links p s.prev s.seq_expected rows × (s.divergences ≡ [])
  unfolding scan_rows
  scan_rows-nil [] s h = (tt, h)
  scan_rows-nil (r ∷ rows) s h =
      let (l, none_here) = scan_rows-nil rows (scan_row p s r) h in
      let (f, none_before) = scan_row-nil s r none_here in
      let l' = subst (λ q. Links p q.prev q.seq_expected rows) (scan_row-Fits s r f) l in
      ((f, l'), none_before)

  scan_rows-Links :
      (rows : List Row) (s : Scan)
      → Links p s.prev s.seq_expected rows
      → ((scan_rows p s rows).divergences ≡ s.divergences)
        × ((scan_rows p s rows).verified ≡ s.verified + length rows)
  unfolding scan_rows
  scan_rows-Links [] s l = (refl, omega arith)
  scan_rows-Links (r ∷ rows) s (f, l) =
      let (d, v) = scan_rows-Links rows (scan_after s r) l in
      rw (scan_row-Fits s r f, scan_rows) (d, omega (arith, v))

  abbrev start : ℕ → Sweep
  start seq = record { prev = none; seq_expected = seq; verified = 0 }

  -- The offline verifier reports no divergence exactly for the rows that the loop of
  -- HashChain.verify accepts from the seq of the first one, and has then verified all of them.
  pub verify_offline_iff :
      (rows : List Row)
      → (((verify_offline p rows).status ≡ all_well) ↔ (
          check_rows p (start (first_seq rows)) rows
          ≡ ok (sweep_after p (start (first_seq rows)) rows)))
        × ((verify_offline p rows).status ≡ all_well
            → (verify_offline p rows).rows_verified ≡ length rows)
  unfolding verify_offline
  verify_offline_iff rows =
      let s0 : Scan = record {
        prev = none;
        seq_expected = first_seq rows;
        verified = 0;
        divergences = [];
      } in
      let links = λ (h : status_of (scan_rows p s0 rows).divergences ≡ all_well).
        (scan_rows-nil rows s0 (status_of-all_well _ h)).0 in
      (
        (
          λ h. check_rows_ok p rows (start (first_seq rows)) (links h),
          λ h.
              let l = (check_rows-eq-ok p rows (start (first_seq rows)) _ h).0 in
              ap status_of (scan_rows-Links rows s0 l).0,
        ),
        λ h. omega (arith, (scan_rows-Links rows s0 (links h)).1),
      )
