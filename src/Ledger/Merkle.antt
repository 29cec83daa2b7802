-- ===== src/Ledger/Merkle.antt =====
-- computeMerkleRootForRange of apps/worker-anchor/src/index.ts. A buffer is the hexadecimal text of
-- its bytes; `node` gives the digest of two buffers joined, and `empty` is the digest of no bytes.
use vigil_apex_f.Common.{
  ℕ, zero, suc, ◌≤◌, ◌≡◌, refl, Option, none, some, List, [], ◌∷◌, Text, map, arith, length,
}
use vigil_apex_f.AuditChain.Store.{Table, select_range}

module _ (node : Text → Text → Text) (empty : Text) where
  -- One pass of the inner loop; an odd layer doubles its last node.
  unfoldable pub next_layer : List Text → List Text
  next_layer [] = []
  next_layer (left ∷ []) = node left left ∷ []
  next_layer (left ∷ right ∷ rest) = node left right ∷ next_layer rest

  -- `while (layer.length > 1)`, then `layer[0]`; `none` when the fuel runs out.
  unfoldable pub climb : ℕ → List Text → Option Text
  climb zero layer = none
  climb (suc fuel) [] = none
  climb (suc fuel) (root ∷ []) = some root
  climb (suc fuel) (left ∷ right ∷ rest) = climb fuel (next_layer (left ∷ right ∷ rest))

  abbrev pub root_of : List Text → Option Text
  root_of [] = some empty
  root_of (leaf ∷ leaves) = climb (length (leaf ∷ leaves)) (leaf ∷ leaves)

  unfoldable pub compute_merkle_root : ℕ → ℕ → Table → Option Text
  compute_merkle_root from_seq to_seq t =
      root_of (map (λ r. r.body_hash) (select_range from_seq to_seq t))

  length-next_layer : (layer : List Text) → length (next_layer layer) ≤ length layer
  unfolding next_layer
  length-next_layer [] = omega arith
  length-next_layer (left ∷ []) = omega arith
  length-next_layer (left ∷ right ∷ rest) = omega (arith, length-next_layer rest)

  -- The root of one leaf is that leaf, and that of more leaves is the digest of two nodes.
  abbrev pub IsRoot : List Text → Text → Type 0
  IsRoot [] h = h ≡ empty
  IsRoot (x ∷ []) h = h ≡ x
  IsRoot (x ∷ y ∷ rest) h = (left : Text) × (right : Text) × (h ≡ node left right)

  climb-IsRoot :
      (fuel : ℕ) (x : Text) (rest : List Text)
      → length (x ∷ rest) ≤ fuel
      → (h : Text) × (climb fuel (x ∷ rest) ≡ some h) × IsRoot (x ∷ rest) h
  unfolding climb next_layer
  climb-IsRoot zero x rest le = absurd (omega (arith, le))
  climb-IsRoot (suc fuel) x [] le = (x, refl, refl)
  climb-IsRoot (suc fuel) x (y ∷ []) le =
      let (h, e, root) = climb-IsRoot fuel (node x y) [] (omega (arith, le)) in (h, e, (x, y, root))
  climb-IsRoot (suc fuel) x (y ∷ z ∷ []) le =
      climb-IsRoot fuel (node x y) (node z z ∷ []) (omega (arith, le))
  climb-IsRoot (suc fuel) x (y ∷ z ∷ w ∷ rest) le =
      climb-IsRoot fuel (node x y) (node z w ∷ next_layer rest)
        (omega (arith, le, length-next_layer rest))

  abbrev pub leaves : ℕ → ℕ → Table → List Text
  leaves from_seq to_seq t = map (λ r. r.body_hash) (select_range from_seq to_seq t)

  -- The loop over the layers ends, whatever the range holds: the root is the digest of no bytes for no
  -- row, the row's own hash for one row, and for more rows the digest of two nodes.
  pub compute_merkle_root-IsRoot :
      (from_seq to_seq : ℕ) (t : Table)
      → (h : Text) × (compute_merkle_root from_seq to_seq t ≡ some h)
        × IsRoot (leaves from_seq to_seq t) h
  unfolding compute_merkle_root
  compute_merkle_root-IsRoot from_seq to_seq t = go (leaves from_seq to_seq t)
    where
      go : (xs : List Text) → (h : Text) × (root_of xs ≡ some h) × IsRoot xs h
      go [] = (empty, refl, refl)
      go (x ∷ rest) = climb-IsRoot (length (x ∷ rest)) x rest (omega arith)
