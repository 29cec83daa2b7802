-- ===== src/Routing/Reroute.antt =====
-- When the router leaves the default body, and for which one.
use vigil_apex_f.Common.{
  ℕ, ◌+◌, ◌*◌, ◌≤◌, ◌<◌, ◌≡◌, refl, sym, subst, ◌⊎◌, inl, inr, true, false, Option, none, some,
  List, [], ◌∷◌, All, leb, ltb, leb→le, ltb→lt, arith, Bool-cases,
}
use vigil_apex_f.Routing.{
  PatternCategoryLetter, Severity, RecipientBody, RecipientBacklogProfile, Alternative, Profiles,
  CaseLoadAwareRecipientResult, recommend_recipient_body, mandate_compatibility, alternatives,
  sort_alternatives, choose, by_load, route_with_case_load_awareness,
}
use vigil_apex_f.Routing.Best.{Sorted, sort_alternatives-Sorted}
use vigil_apex_f.Routing.Candidate.{IsCandidate, alternatives-IsCandidate, IsLeast-candidate}

-- The finding went to a mandated body other than the default, whose backlog is over its threshold; the
-- backlog of that body is at least 30% lower, and no candidate has a lower one.
pub record IsRerouted (letter : PatternCategoryLetter) (profiles : Profiles)
    (r : CaseLoadAwareRecipientResult) : Type 0 where
  pub adjusted : r.adjusted_for_load ≡ true
  pub profile : RecipientBacklogProfile
  pub known : profiles r.default_body ≡ some profile
  pub over : profile.reroute_threshold_days < profile.estimated_backlog_days
  pub days : ℕ
  pub candidate : IsCandidate r.default_body profiles (mandate_compatibility letter) r.body days
  pub better : 10 * days ≤ 7 * profile.estimated_backlog_days
  pub least :
      (body : RecipientBody) (d : ℕ)
      → IsCandidate r.default_body profiles (mandate_compatibility letter) body d
      → days ≤ d

-- The finding stays with the default body: the backlog of that is not known or within the threshold,
-- or every candidate's backlog is more than 70% of it.
pub record IsKept (letter : PatternCategoryLetter) (profiles : Profiles)
    (r : CaseLoadAwareRecipientResult) : Type 0 where
  pub unadjusted : r.adjusted_for_load ≡ false
  pub same : r.body ≡ r.default_body
  pub reason :
      (profile : RecipientBacklogProfile)
      → profiles r.default_body ≡ some profile
      → (profile.estimated_backlog_days ≤ profile.reroute_threshold_days)
        ⊎ ((body : RecipientBody) (d : ℕ)
            → IsCandidate r.default_body profiles (mandate_compatibility letter) body d
            → 7 * profile.estimated_backlog_days < 10 * d)

module _ (letter : PatternCategoryLetter) (default : RecipientBody) (profiles : Profiles) where
  abbrev IsRouted : CaseLoadAwareRecipientResult → Type 0
  IsRouted r =
      (r.default_body ≡ default) × (IsKept letter profiles r ⊎ IsRerouted letter profiles r)

  abbrev found : List Alternative
  found = alternatives default profiles (mandate_compatibility letter)

  choose-IsRouted :
      (p : RecipientBacklogProfile) (ys : List Alternative)
      → profiles default ≡ some p
      → p.reroute_threshold_days < p.estimated_backlog_days
      → Sorted found ys
      → IsRouted (choose default p ys)
  choose-IsRouted p [] known over none_found = (
    refl,
    inl (record {
      unadjusted = refl;
      same = refl;
      reason = λ q e. inr (λ body d c. absurd (
          IsLeast-candidate default profiles (λ n. ⊥) (mandate_compatibility letter)
            (subst (All (λ a. ⊥)) (sym none_found) tt) body d c));
    }),
  )
  choose-IsRouted p (a ∷ ys) known over (there, least) =
      let backlog = p.estimated_backlog_days in
      let lowest =
        IsLeast-candidate default profiles (λ n. a.backlog_days ≤ n) (mandate_compatibility letter)
          least in
      elim (Bool-cases (ltb (10 * backlog) (3 * backlog + 10 * a.backlog_days))) [
        | inl poor ↦
            let more : 7 * backlog < 10 * a.backlog_days =
              omega (arith, ltb→lt (10 * backlog) (3 * backlog + 10 * a.backlog_days) poor) in
            rw poor (
              refl,
              inl (record {
                unadjusted = refl;
                same = refl;
                reason = λ q e. inr (λ body d c.
                    let same_profile : q.estimated_backlog_days ≡ backlog =
                      ground (arith, e, known) in
                    omega (arith, more, lowest body d c, same_profile));
              }),
            )
        | inr good ↦
            let enough : 10 * a.backlog_days ≤ 7 * backlog = ground (arith, good) in
            rw good (
              refl,
              inr (record {
                adjusted = refl;
                profile = p;
                known = known;
                over = over;
                days = a.backlog_days;
                candidate =
                    alternatives-IsCandidate default profiles (mandate_compatibility letter) a
                      there;
                better = enough;
                least = lowest;
              }),
            )
      ]

  by_load-IsRouted :
      (o : Option RecipientBacklogProfile)
      → profiles default ≡ o
      → IsRouted (by_load letter default profiles o)
  by_load-IsRouted none e =
      (refl, inl (record { unadjusted = refl; same = refl; reason = λ q h. cc (e, h) }))
  by_load-IsRouted (some p) e =
      elim (Bool-cases (leb p.estimated_backlog_days p.reroute_threshold_days)) [
        | inl within ↦
            let le = leb→le p.estimated_backlog_days p.reroute_threshold_days within in
            rw within (
              refl,
              inl (record {
                unadjusted = refl;
                same = refl;
                reason = λ q h.
                    let same : p ≡ q = cc (e, h) in
                    inl (subst (λ q. q.estimated_backlog_days ≤ q.reroute_threshold_days) same le);
              }),
            )
        | inr above ↦
            let over : p.reroute_threshold_days < p.estimated_backlog_days =
              ground (arith, above) in
            rw above
              (choose-IsRouted p (sort_alternatives found) e over (sort_alternatives-Sorted found))
      ]

-- A finding without the pre-disbursement flag keeps its default body, or goes to another body: to the
-- one with the least backlog among those that the mandate table has for its letter and that have a
-- profile, exactly when the default is over its threshold and that backlog is at least 30% lower.
pub route-IsRouted :
    (letter : PatternCategoryLetter) (severity : Severity) (profiles : Profiles)
    → let r = route_with_case_load_awareness letter severity false profiles in
      (r.default_body ≡ recommend_recipient_body letter severity false)
      × (IsKept letter profiles r ⊎ IsRerouted letter profiles r)
unfolding route_with_case_load_awareness
route-IsRouted letter severity profiles =
    let default = recommend_recipient_body letter severity false in
    by_load-IsRouted letter default profiles (profiles default) refl
