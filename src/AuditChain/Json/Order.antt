-- ===== src/AuditChain/Json/Order.antt =====
-- `sortKeys` and the order of the keys of an object.
use vigil_apex_f.Common.{◌≡◌, refl, ap, ◌∙◌, true, false, [], ◌∷◌, Text, text_eq, arith}
use vigil_apex_f.AuditChain.Json.{
  Json, arr, obj, Fields, end, field, Items, text_lt, insert_key, assign_all, sort_keys, sort_items,
  sort_fields, SameJson, same_refl, same_arr, same_obj, SameItems, same_nil, same_cons, SameFields,
  same_end, same_field, same_swap, same_trans,
}

text_lt_asym : (s t : Text) → text_lt s t ≡ true → text_lt t s ≡ false
unfolding text_lt
text_lt_asym [] [] h = refl
text_lt_asym [] (d ∷ t) h = refl
text_lt_asym (c ∷ s) [] h = ground arith
text_lt_asym (c ∷ s) (d ∷ t) h = ground (arith, text_lt_asym s t)

text_lt_total : (s t : Text) → text_eq s t ≡ false → text_lt s t ≡ false → text_lt t s ≡ true
unfolding text_lt text_eq
text_lt_total [] [] e h = ground arith
text_lt_total [] (d ∷ t) e h = ground arith
text_lt_total (c ∷ s) [] e h = refl
text_lt_total (c ∷ s) (d ∷ t) e h = ground (arith, text_lt_total s t)

text_lt_cotrans : (i j k : Text) → text_lt i j ≡ false → text_lt i k ≡ true → text_lt j k ≡ true
unfolding text_lt
text_lt_cotrans i j [] n h = ground arith
text_lt_cotrans i [] (c ∷ k) n h = refl
text_lt_cotrans [] (b ∷ j) (c ∷ k) n h = ground arith
text_lt_cotrans (a ∷ i) (b ∷ j) (c ∷ k) n h = ground (arith, text_lt_cotrans i j k)

-- Two insertions at different keys commute.
insert_key_comm :
    (j k : Text) (v w : Json) (fs : Fields)
    → text_eq j k ≡ false
    → insert_key j v (insert_key k w fs) ≡ insert_key k w (insert_key j v fs)
unfolding insert_key
insert_key_comm j k v w end e = ground (arith, text_lt_asym j k, text_lt_total j k)
insert_key_comm j k v w (field i u fs) e = ground (
  arith,
  text_lt_asym j k,
  text_lt_total j k,
  text_lt_cotrans i j k,
  text_lt_cotrans i k j,
  text_lt_asym k j,
  insert_key_comm j k v w fs,
)

mutual
  unfolding sort_keys

  same-sort_keys : {v w : Json} → SameJson v w → sort_keys v ≡ sort_keys w
  same-sort_keys (same_refl v) = refl
  same-sort_keys (same_arr h) = ap arr (same-sort_items h)
  same-sort_keys (same_obj h) = ap (λ fs. obj (assign_all end fs)) (same-sort_fields h)

  same-sort_items : {xs ys : Items} → SameItems xs ys → sort_items xs ≡ sort_items ys
  same-sort_items same_nil = refl
  same-sort_items (same_cons h t) = cc (same-sort_keys h, same-sort_items t)

  same-sort_fields : {fs gs : Fields} → SameFields fs gs → sort_fields fs ≡ sort_fields gs
  same-sort_fields same_end = refl
  same-sort_fields (same_field {k} h t) = cc (same-sort_keys h, same-sort_fields t)
  same-sort_fields (same_swap j k v w fs e) =
      insert_key_comm j k (sort_keys v) (sort_keys w) (sort_fields fs) e
  same-sort_fields (same_trans h k) = same-sort_fields h ∙ same-sort_fields k

-- Two payloads that differ at most in the order of the keys of their objects, at any depth, have
-- the same sorted form.
pub SameJson-sort_keys : {v w : Json} → SameJson v w → sort_keys v ≡ sort_keys w
SameJson-sort_keys h = same-sort_keys h
