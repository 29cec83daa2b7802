-- ===== src/Common/Maps.antt =====
-- A JavaScript Map with numeric keys, as its entries in the order of their insertion; the letters of
-- hexadecimal texts in lower case; existence in a list.
use Prim.Native.Nat.{ℕ, ◌+◌}
use mathlib.Core.Path.{◌≡◌}
use mathlib.Core.Logic.{◌⊎◌, ◌≢◌}
use mathlib.Core.Bool.{◌&&◌}
use mathlib.Core.List.{List, [], ◌∷◌, map}
use mathlib.Core.Option.{Option, none, some}
use native.Mathlib.Omega.{arith}
use vigil_apex_f.Common.Tests.{◌==◌, leb, if◌then◌else◌}
use vigil_apex_f.Common.Texts.{Text}

-- text.toLowerCase() on the letters A to Z; the texts are hexadecimal.
abbrev pub lower_code : ℕ → ℕ
lower_code c = if leb b'A' c && leb c b'Z' then c + 32 else c

abbrev pub to_lower : Text → Text
to_lower = map lower_code

module _ {ℓ} {A : Type ℓ} where
  -- m.set(key, value): an entry that is there keeps its place.
  abbrev pub map_set : ℕ → A → List (ℕ × A) → List (ℕ × A)
  map_set key value [] = (key, value) ∷ []
  map_set key value ((k, v) ∷ m) =
      let rest = map_set key value m in if k == key then (key, value) ∷ m else (k, v) ∷ rest

  -- m.get(key)
  abbrev pub map_get : ℕ → List (ℕ × A) → Option A
  map_get key [] = none
  map_get key ((k, v) ∷ m) = let rest = map_get key m in if k == key then some v else rest

  pub map_get-map_set_same :
      (key : ℕ) (value : A) (m : List (ℕ × A)) → map_get key (map_set key value m) ≡ some value
  map_get-map_set_same key value [] = ground arith
  map_get-map_set_same key value ((k, v) ∷ m) = ground (arith, map_get-map_set_same key value m)

  pub map_get-map_set_other :
      (n key : ℕ) (value : A) (m : List (ℕ × A))
      → key ≢ n
      → map_get n (map_set key value m) ≡ map_get n m
  map_get-map_set_other n key value [] off = ground (arith, off)
  map_get-map_set_other n key value ((k, v) ∷ m) off =
      ground (arith, off, map_get-map_set_other n key value m off)

module _ {ℓ} {A : Type ℓ} (P : A → Type 0) where
  -- Some member has the property.
  abbrev pub Any : List A → Type 0
  Any [] = ⊥
  Any (x ∷ xs) = P x ⊎ Any xs
