-- ===== src/AuditChain/Offline/Cascade.antt =====
-- What the offline verifier reports after a row whose hash it did not find: the rolling hash is the
-- recomputed one.
use vigil_apex_f.Common.{
  ℕ, ◌+◌, ◌≡◌, ◌≢◌, ◌⊎◌, refl, sym, ap, ◌∙◌, some, List, [], ◌∷◌, Text, text_eq, text_eq_iff,
  Bool-cases, inl, inr,
}
use vigil_apex_f.AuditChain.Platform.{Platform, Laws, Collision}
use vigil_apex_f.AuditChain.Canonical.{body_hash, row_hash, hash_or_zeros}
use vigil_apex_f.AuditChain.Store.{Row, event_of}
use vigil_apex_f.AuditChain.Verify.Links.{Links, Fits}
use vigil_apex_f.AuditChain.Verify.Binding.{row_hash_cases}
use vigil_apex_f.AuditChain.Offline.{Scan, scan_row, scan_rows}

module _ (p : Platform) (laws : Laws p) where
  -- A row that was hashed over `a` does not agree with a scan that has come to `b`.
  scan_row-apart :
      (s : Scan) (r : Row) (a b : Text) (seq : ℕ)
      → s.prev ≡ some b
      → Fits p (some a) seq r
      → a ≢ b
      → ((scan_row p s r).verified ≡ s.verified)
          × ((c : Text) × ((scan_row p s r).prev ≡ some c) × (r.body_hash ≢ c))
        ⊎ Collision p
  unfolding scan_row
  scan_row-apart s r a b seq e f ne =
      let rh = row_hash p s.prev (body_hash p (event_of r)) in
      elim (Bool-cases (text_eq rh r.body_hash)) [
        | inr apart ↦
            inl (rw apart refl, (rh, refl, λ same. cc ((text_eq_iff rh r.body_hash).1 (sym same))))
        | inl agree ↦
            elim (row_hash_cases p laws s.prev (some a) r r
              ((text_eq_iff rh r.body_hash).0 agree ∙ sym f.hash_fits)) [
                | inr hit ↦ inr hit
                | inl (e0, _) ↦ absurd (ne (sym e0 ∙ ap (hash_or_zeros p) e))
              ]
      ]

  -- On a platform with the stated laws: cut an untouched chain after a row, and let the scan come to the rest with another hash than
  -- that row's: it verifies no row of the rest, or a collision of SHA-256 is at hand.
  pub scan_rows-cascade :
      (rows : List Row) (s : Scan) (a b : Text) (seq : ℕ)
      → s.prev ≡ some b
      → Links p (some a) seq rows
      → a ≢ b
      → ((scan_rows p s rows).verified ≡ s.verified) ⊎ Collision p
  unfolding scan_rows
  scan_rows-cascade [] s a b seq e l ne = inl refl
  scan_rows-cascade (r ∷ rows) s a b seq e (f, l) ne = elim (scan_row-apart s r a b seq e f ne) [
    | inr hit ↦ inr hit
    | inl (same, (c, e', ne')) ↦
        elim (scan_rows-cascade rows (scan_row p s r) r.body_hash c (seq + 1) e' l ne') [
          | inr hit ↦ inr hit
          | inl later ↦ inl (later ∙ same)
        ]
  ]
