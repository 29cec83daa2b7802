-- ===== src/Routing/Best.antt =====
-- The first of the sorted alternatives of routeWithCaseLoadAwareness.
use vigil_apex_f.Common.{
  ◌≤◌, ◌≡◌, refl, sym, subst, inl, inr, List, [], ◌∷◌, All, Any, ltb, ltb→lt, arith, Bool-cases,
}
use vigil_apex_f.Routing.{Alternative, insert_alternative, sort_alternatives}

abbrev pub IsLeast : Alternative → List Alternative → Type 0
IsLeast a = All (λ b. a.backlog_days ≤ b.backlog_days)

-- The sorted list is empty with the list, or starts with a least member of it.
abbrev pub Sorted : List Alternative → List Alternative → Type 0
Sorted xs [] = xs ≡ []
Sorted xs (a ∷ rest) = Any (λ b. b ≡ a) xs × IsLeast a xs

IsLeast-lower :
    (a b : Alternative) (xs : List Alternative)
    → a.backlog_days ≤ b.backlog_days
    → IsLeast b xs
    → IsLeast a xs
IsLeast-lower a b [] le h = tt
IsLeast-lower a b (x ∷ xs) le (h, hs) = (omega (arith, le, h), IsLeast-lower a b xs le hs)

insert_alternative-Sorted :
    (a : Alternative) (xs ys : List Alternative)
    → Sorted xs ys
    → Sorted (a ∷ xs) (insert_alternative a ys)
insert_alternative-Sorted a xs [] h = (inl refl, (omega arith, subst (IsLeast a) (sym h) tt))
insert_alternative-Sorted a xs (b ∷ ys) (there, least) =
    elim (Bool-cases (ltb b.backlog_days a.backlog_days)) [
      | inl below ↦
          rw below (inr there, (omega (arith, ltb→lt b.backlog_days a.backlog_days below), least))
      | inr above ↦
          let le : a.backlog_days ≤ b.backlog_days = ground (arith, above) in
          rw above (inl refl, (omega arith, IsLeast-lower a b xs le least))
    ]

pub sort_alternatives-Sorted : (xs : List Alternative) → Sorted xs (sort_alternatives xs)
sort_alternatives-Sorted [] = refl
sort_alternatives-Sorted (a ∷ xs) =
    insert_alternative-Sorted a xs (sort_alternatives xs) (sort_alternatives-Sorted xs)
