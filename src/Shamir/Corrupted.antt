-- ===== src/Shamir/Corrupted.antt =====
-- shamirCombine with a share whose bytes after the coordinate are others.
use vigil_apex_f.Common.{
  ℕ, zero, suc, ◌+◌, ◌-◌, ◌<◌, ◌≡◌, ◌≢◌, refl, sym, ap, ◌∙◌, subst, arith, List, [], ◌∷◌, ◌++◌, map,
  length,
}
use vigil_apex_f.Shamir.{
  xor, lookup, gf_mul, combined, coordinate, coefficient, interpolate, secret_bytes, shamir_combine,
  check_shares, share_length,
}
use vigil_apex_f.Shamir.Checked.{check_shares-swap, check_shares-nonzero, check_shares-length}
use vigil_apex_f.Shamir.Sized.{IsSized, shamir_combine-parts, shamir_combine-returns}
use vigil_apex_f.Shamir.Interpolate.{AreBytes, AreNonzero, >>=-combined, interpolate-recovers}

lookup_ext :
    (ys zs : List ℕ)
    → length ys ≡ length zs
    → ((k : ℕ) → k < length ys → lookup ys k ≡ lookup zs k)
    → ys ≡ zs
unfolding lookup
lookup_ext [] [] e same = refl
lookup_ext [] (z ∷ zs) e same = absurd (omega (arith, e))
lookup_ext (y ∷ ys) [] e same = absurd (omega (arith, e))
lookup_ext (y ∷ ys) (z ∷ zs) e same =
    let head : y ≡ z = same 0 (omega arith) in
    let tail = lookup_ext ys zs (omega (arith, e)) (λ k h. same (suc k) (omega (arith, h))) in
    cc (head, tail)

coordinates-swap :
    (before after : List (List ℕ)) (x : ℕ) (ys zs : List ℕ)
    → map coordinate (before ++ (x ∷ ys) ∷ after) ≡ map coordinate (before ++ (x ∷ zs) ∷ after)
unfolding lookup
coordinates-swap [] after x ys zs = refl
coordinates-swap (s ∷ before) after x ys zs =
    ap (λ xs. coordinate s ∷ xs) (coordinates-swap before after x ys zs)

secret_bytes-step :
    (shares : List (List ℕ)) (idx n : ℕ) (secret : List ℕ)
    → secret_bytes shares idx (suc n) ≡ combined secret
    → (b : ℕ) × (bs : List ℕ) × (interpolate (map coordinate shares) idx 0 shares 0 ≡ combined b)
      × (secret_bytes shares (idx + 1) n ≡ combined bs)
      × (secret ≡ b ∷ bs)
unfolding secret_bytes
secret_bytes-step shares idx n secret e =
    let (b, eb, rest) = >>=-combined (interpolate _ idx 0 _ 0) _ secret e in
    let (bs, ebs, whole) = >>=-combined (secret_bytes shares (idx + 1) n) _ secret rest in
    (b, bs, eb, ebs, cc whole)

-- The bytes of the secret from one index on tell the bytes of each share from there on.
secret_bytes-recovers :
    (before after : List (List ℕ)) (x : ℕ) (ys zs : List ℕ) (idx n : ℕ) (secret : List ℕ)
    → AreNonzero (map coordinate (before ++ (x ∷ ys) ∷ after))
    → AreBytes (x ∷ ys)
    → AreBytes (x ∷ zs)
    → secret_bytes (before ++ (x ∷ ys) ∷ after) idx n ≡ combined secret
    → secret_bytes (before ++ (x ∷ zs) ∷ after) idx n ≡ combined secret
    → (k : ℕ) → k < n
    → lookup (x ∷ ys) (idx + k) ≡ lookup (x ∷ zs) (idx + k)
secret_bytes-recovers before after x ys zs idx zero secret nonzero hy hz ey ez k h =
    absurd (omega (arith, h))
secret_bytes-recovers before after x ys zs idx (suc n) secret nonzero hy hz ey ez zero h =
    let (b, bs, eb, _, whole) = secret_bytes-step _ idx n secret ey in
    let (c, cs, ec, _, again) = secret_bytes-step _ idx n secret ez in
    let same : c ≡ b = cc (whole, again) in
    let swap = coordinates-swap before after x ys zs in
    let shares = before ++ (x ∷ zs) ∷ after in
    let ez' = subst (λ xs. interpolate xs idx 0 shares 0 ≡ combined c) (sym swap) ec in
    let ez'' =
      subst
        (λ r. interpolate (map coordinate (before ++ (x ∷ ys) ∷ after)) idx 0 shares 0 ≡ combined r)
        same ez' in
    subst (λ i. lookup (x ∷ ys) i ≡ lookup (x ∷ zs) i) (omega arith)
      (interpolate-recovers _ idx 0 before after x ys zs 0 b nonzero hy hz eb ez'')
secret_bytes-recovers before after x ys zs idx (suc n) secret nonzero hy hz ey ez (suc k) h =
    let (b, bs, _, eb, whole) = secret_bytes-step _ idx n secret ey in
    let (c, cs, _, ec, again) = secret_bytes-step _ idx n secret ez in
    let same : cs ≡ bs = cc (whole, again) in
    let rest =
      secret_bytes-recovers before after x ys zs (idx + 1) n bs nonzero hy hz eb
        (subst (λ l. secret_bytes (before ++ (x ∷ zs) ∷ after) (idx + 1) n ≡ combined l) same ec) k
        (omega (arith, h)) in
    subst (λ i. lookup (x ∷ ys) i ≡ lookup (x ∷ zs) i) (omega arith) rest

-- What the coordinates alone decide.
interpolate-returns :
    (xs : List ℕ) (idx i : ℕ) (ss ts : List (List ℕ)) (a b r : ℕ)
    → map coordinate ss ≡ map coordinate ts
    → interpolate xs idx i ss a ≡ combined r
    → (q : ℕ) × (interpolate xs idx i ts b ≡ combined q)
unfolding interpolate
interpolate-returns xs idx i [] [] a b r same e = (b, refl)
interpolate-returns xs idx i [] (t ∷ ts) a b r same e = cc same
interpolate-returns xs idx i (s ∷ ss) [] a b r same e = cc same
interpolate-returns xs idx i (s ∷ ss) (t ∷ ts) a b r same e =
    let head : coordinate t ≡ coordinate s = cc same in
    let tail : map coordinate ss ≡ map coordinate ts = cc same in
    let (c, ec, rest) = >>=-combined (coefficient xs i (coordinate s)) _ r e in
    let (q, eq) =
      interpolate-returns xs idx (i + 1) ss ts _ (xor b (gf_mul (lookup t idx) c)) r tail rest in
    (q, rw (head, ec) eq)

secret_bytes-returns :
    (ss ts : List (List ℕ)) (idx n : ℕ) (secret : List ℕ)
    → map coordinate ss ≡ map coordinate ts
    → secret_bytes ss idx n ≡ combined secret
    → (other : List ℕ) × (secret_bytes ts idx n ≡ combined other)
unfolding secret_bytes
secret_bytes-returns ss ts idx zero secret same e = ([], refl)
secret_bytes-returns ss ts idx (suc n) secret same e =
    let (b, bs, eb, ebs, _) = secret_bytes-step ss idx n secret e in
    let (c, ec) = interpolate-returns _ idx 0 ss ts 0 0 b same eb in
    let (cs, ecs) = secret_bytes-returns ss ts (idx + 1) n bs same ebs in
    let ec' = subst (λ xs. interpolate xs idx 0 ts 0 ≡ combined c) same ec in
    (c ∷ cs, rw (ec', ecs) refl)

lengths-swap :
    (before after : List (List ℕ)) (ys zs : List ℕ)
    → length ys ≡ length zs
    → (length (before ++ ys ∷ after) ≡ length (before ++ zs ∷ after))
      × (share_length (before ++ ys ∷ after) ≡ share_length (before ++ zs ∷ after))
lengths-swap [] after ys zs e = (refl, e)
lengths-swap (s ∷ before) after ys zs e =
    (ap (λ n. suc n) ((lengths-swap before after ys zs e).0), refl)

shares-recovered :
    (before after : List (List ℕ)) (x : ℕ) (ys zs : List ℕ) (n : ℕ) (secret : List ℕ)
    → AreNonzero (map coordinate (before ++ (x ∷ ys) ∷ after))
    → AreBytes (x ∷ ys)
    → AreBytes (x ∷ zs)
    → length ys ≡ length zs
    → length ys ≡ n
    → secret_bytes (before ++ (x ∷ ys) ∷ after) 1 n ≡ combined secret
    → secret_bytes (before ++ (x ∷ zs) ∷ after) 1 n ≡ combined secret
    → ys ≡ zs
unfolding lookup
shares-recovered before after x ys zs n secret nonzero hy hz lengths whole ey ez =
    lookup_ext ys zs lengths (λ k h.
      let bytes =
        secret_bytes-recovers before after x ys zs 1 n secret nonzero hy hz ey ez k
          (omega (arith, whole, h)) in
      let next : 1 + k ≡ suc k = omega arith in
      subst (λ i. lookup (x ∷ ys) i ≡ lookup (x ∷ zs) i) next bytes)

-- If some shares combine to a secret, and the bytes after the coordinate of one of them are
-- replaced by as many other bytes that are not the same, then the shares combine all the same,
-- without an error, and to a secret that is another one.
pub shamir_combine-corrupted :
    (before after : List (List ℕ)) (x : ℕ) (ys zs secret : List ℕ)
    → AreBytes (x ∷ ys)
    → AreBytes (x ∷ zs)
    → length ys ≡ length zs
    → ys ≢ zs
    → shamir_combine (before ++ (x ∷ ys) ∷ after) ≡ combined secret
    → (other : List ℕ) × (shamir_combine (before ++ (x ∷ zs) ∷ after) ≡ combined other)
      × (other ≢ secret)
shamir_combine-corrupted before after x ys zs secret hy hz lengths differ e =
    let ss = before ++ (x ∷ ys) ∷ after in
    let ts = before ++ (x ∷ zs) ∷ after in
    let (sized, seen, checked, bytes) = shamir_combine-parts ss secret e in
    let (count, len) = lengths-swap before after (x ∷ ys) (x ∷ zs) (omega (arith, lengths)) in
    let (other, returned) =
      secret_bytes-returns ss ts 1 (share_length ss - 1) secret
        (coordinates-swap before after x ys zs) bytes in
    let whole = check_shares-length (share_length ss) [] before after (x ∷ ys) seen checked in
    let swapped = check_shares-swap (share_length ss) [] before after x ys zs lengths in
    let sized' : IsSized ts = (
      omega (arith, sized.0, count),
      omega (arith, sized.1, count),
      omega (arith, sized.2, len),
      omega (arith, sized.3, len),
    ) in
    let checked' = subst (λ n. check_shares n [] ts ≡ combined seen) len (sym swapped ∙ checked) in
    let bytes' = subst (λ n. secret_bytes ts 1 (n - 1) ≡ combined other) len returned in
    (
      other,
      shamir_combine-returns ts other sized' seen checked' bytes',
      λ same. differ (
          shares-recovered before after x ys zs (share_length ss - 1) secret
            (check_shares-nonzero (share_length ss) [] ss seen checked) hy hz lengths
            (omega (arith, whole)) bytes
            (subst (λ r. secret_bytes ts 1 (share_length ss - 1) ≡ combined r) same returned)),
    )
