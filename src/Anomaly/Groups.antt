-- ===== src/Anomaly/Groups.antt =====
-- Sets and Maps with text keys in the order of insertion, and String.prototype.includes.
use vigil_apex_f.Common.{
  Bool, true, false, ◌&&◌, ◌||◌, List, [], ◌∷◌, ◌++◌, Text, ◌==◌, if◌then◌else◌, any, text_eq,
}

-- A Set filled from a list: the first of equal texts stays.
abbrev pub add_new : List Text → List Text → List Text
add_new seen [] = seen
add_new seen (t ∷ ts) = add_new (if any (text_eq t) seen then seen else seen ++ (t ∷ [])) ts

unfoldable pub distinct : List Text → List Text
distinct ts = add_new [] ts

-- `map.get(key) ?? []` with a push, and `map.set(key, list)`.
abbrev pub push_at {ℓ} : {A : Type ℓ} → Text → A → List (Text × List A) → List (Text × List A)
push_at key a [] = (key, a ∷ []) ∷ []
push_at key a ((k, list) ∷ m) =
    let rest = push_at key a m in
    if text_eq k key then (k, list ++ (a ∷ [])) ∷ m else (k, list) ∷ rest

abbrev pub starts_with : Text → Text → Bool
starts_with [] t = true
starts_with (c ∷ s) [] = false
starts_with (c ∷ s) (d ∷ t) = (c == d) && starts_with s t

-- text.includes(part)
unfoldable pub includes : Text → Text → Bool
includes part [] = starts_with part []
includes part (c ∷ t) = starts_with part (c ∷ t) || includes part t
