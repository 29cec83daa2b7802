-- ===== src/AuditChain/Json.antt =====
-- JSON values, and `sortKeys` of packages/audit-chain/src/canonical.ts.
pub mod Order
use vigil_apex_f.Common.{
  ℕ, ◌+◌, ◌-◌, ◌*◌, ◌^◌, ◌≡◌, Bool, true, false, ◌&&◌, ◌||◌, Option, none, some, List, [], ◌∷◌,
  Text, ltb, leb, ◌==◌, if◌then◌else◌, text_eq,
}

-- A number is kept as the text that JSON.stringify prints. An object's fields stand in the order in
-- which its own keys are enumerated.
mutual
  pub data Json : Type 0 where
    null : Json
    bool : Bool → Json
    num : Text → Json
    str : Text → Json
    arr : Items → Json
    obj : Fields → Json

  pub data Items : Type 0 where
    nil : Items
    cons : Json → Items → Items

  pub data Fields : Type 0 where
    end : Fields
    field : Text → Json → Fields → Fields

-- `s < t` of the language, by code units: the order of `Array.prototype.sort`.
unfoldable pub text_lt : Text → Text → Bool
text_lt s [] = false
text_lt [] (d ∷ t) = true
text_lt (c ∷ s) (d ∷ t) = ltb c d || ((c == d) && text_lt s t)

-- The array index that a key spells (`"0"`, `"17"`, no leading zero), if it does.
digits_value : ℕ → Text → Option ℕ
digits_value n [] = some n
digits_value n (c ∷ s) =
    if leb b'0' c && leb c b'9' then digits_value (n * 10 + (c - b'0')) s else none

bounded_index : Option ℕ → Option ℕ
bounded_index none = none
bounded_index (some n) = if ltb n (2 ^ 32 - 1) then some n else none

index_of : Text → Option ℕ
unfolding digits_value bounded_index
index_of [] = none
index_of (c ∷ []) = bounded_index (digits_value 0 (c ∷ []))
index_of (c ∷ d ∷ s) = if c == b'0' then none else bounded_index (digits_value 0 (c ∷ d ∷ s))

-- The own keys of an object are enumerated with the indices first, ascending, then the other keys
-- in the order in which they were added.
precedes_index : Option ℕ → Option ℕ → Bool
precedes_index none _ = false
precedes_index (some m) none = true
precedes_index (some m) (some n) = ltb m n

-- `out[k] = v` at a new key.
assign : Text → Json → Fields → Fields
unfolding precedes_index index_of
assign k v end = field k v end
assign k v (field j w fs) =
    if precedes_index (index_of k) (index_of j)
    then field k v (field j w fs)
    else field j w (assign k v fs)

assign_all : Fields → Fields → Fields
unfolding assign
assign_all out end = out
assign_all out (field k v fs) = assign_all (assign k v out) fs

-- One round of the insertion sort that stands for `Object.keys(value).sort()`.
pub insert_key : Text → Json → Fields → Fields
unfolding text_lt
insert_key k v end = field k v end
insert_key k v (field j w fs) =
    if text_lt j k then field j w (insert_key k v fs) else field k v (field j w fs)

unfoldable mutual
  unfolding assign_all insert_key

  pub sort_keys : Json → Json
  sort_keys null = null
  sort_keys (bool b) = bool b
  sort_keys (num n) = num n
  sort_keys (str s) = str s
  sort_keys (arr xs) = arr (sort_items xs)
  sort_keys (obj fs) = obj (assign_all end (sort_fields fs))

  pub sort_items : Items → Items
  sort_items nil = nil
  sort_items (cons x xs) = cons (sort_keys x) (sort_items xs)

  -- The values sorted in turn, and their keys in order.
  pub sort_fields : Fields → Fields
  sort_fields end = end
  sort_fields (field k v fs) = insert_key k (sort_keys v) (sort_fields fs)

-- Two values that differ at most in the order of the keys of their objects, the keys that change
-- places being different.
mutual
  pub data SameJson : Json → Json → Type 0 where
    same_refl : (v : Json) → SameJson v v
    same_arr : {xs ys : Items} → SameItems xs ys → SameJson (arr xs) (arr ys)
    same_obj : {fs gs : Fields} → SameFields fs gs → SameJson (obj fs) (obj gs)

  pub data SameItems : Items → Items → Type 0 where
    same_nil : SameItems nil nil
    same_cons :
        {v w : Json} {xs ys : Items}
        → SameJson v w
        → SameItems xs ys
        → SameItems (cons v xs) (cons w ys)

  pub data SameFields : Fields → Fields → Type 0 where
    same_end : SameFields end end
    same_field :
        {k : Text} {v w : Json} {fs gs : Fields}
        → SameJson v w
        → SameFields fs gs
        → SameFields (field k v fs) (field k w gs)
    same_swap :
        (j k : Text) (v w : Json) (fs : Fields)
        → text_eq j k ≡ false
        → SameFields (field j v (field k w fs)) (field k w (field j v fs))
    same_trans : {fs gs hs : Fields} → SameFields fs gs → SameFields gs hs → SameFields fs hs
