-- ===== src/Routing/Candidate.antt =====
-- The bodies that the router compares with the default one.
use vigil_apex_f.Common.{
  ℕ, ◌≡◌, refl, subst, ap, inl, inr, false, Option, none, some, List, [], ◌∷◌, All, Any, Bool-cases,
}
use vigil_apex_f.Routing.{
  RecipientBody, RecipientBacklogProfile, Alternative, Profiles, same_body, alternatives,
  with_profile,
}

-- A body of the list, other than the default, whose backlog is known to be `days`.
pub record IsCandidate (default : RecipientBody) (profiles : Profiles) (bodies : List RecipientBody)
    (body : RecipientBody) (days : ℕ) : Type 0 where
  pub mandated : Any (λ b. b ≡ body) bodies
  pub other : same_body body default ≡ false
  pub profile : RecipientBacklogProfile
  pub known : profiles body ≡ some profile
  pub days_same : profile.estimated_backlog_days ≡ days

module _ (default : RecipientBody) (profiles : Profiles) where
  later-IsCandidate :
      (b : RecipientBody) (bodies : List RecipientBody) (body : RecipientBody) (days : ℕ)
      → IsCandidate default profiles bodies body days
      → IsCandidate default profiles (b ∷ bodies) body days
  later-IsCandidate b bodies body days c = record {
    mandated = inr c.mandated;
    other = c.other;
    profile = c.profile;
    known = c.known;
    days_same = c.days_same;
  }

  with_profile-IsCandidate :
      (b : RecipientBody) (bodies : List RecipientBody) (a : Alternative)
      (o : Option RecipientBacklogProfile) (rest : List Alternative)
      → same_body b default ≡ false
      → profiles b ≡ o
      → (Any (λ x. x ≡ a) rest → IsCandidate default profiles bodies a.body a.backlog_days)
      → Any (λ x. x ≡ a) (with_profile b o rest)
      → IsCandidate default profiles (b ∷ bodies) a.body a.backlog_days
  with_profile-IsCandidate b bodies a none rest apart e later h =
      later-IsCandidate b bodies a.body a.backlog_days (later h)
  with_profile-IsCandidate b bodies a (some p) rest apart e later (inr h) =
      later-IsCandidate b bodies a.body a.backlog_days (later h)
  with_profile-IsCandidate b bodies a (some p) rest apart e later (inl same) =
      let body_same : b ≡ a.body = ap (λ x. x.body) same in
      record {
        mandated = inl body_same;
        other = subst (λ x. same_body x default ≡ false) body_same apart;
        profile = p;
        known = subst (λ x. profiles x ≡ some p) body_same e;
        days_same = ap (λ x. x.backlog_days) same;
      }

  pub alternatives-IsCandidate :
      (bodies : List RecipientBody) (a : Alternative)
      → Any (λ x. x ≡ a) (alternatives default profiles bodies)
      → IsCandidate default profiles bodies a.body a.backlog_days
  alternatives-IsCandidate [] a h = elim h [ ]
  alternatives-IsCandidate (b ∷ bodies) a h = elim (Bool-cases (same_body b default)) [
    | inl same ↦
        later-IsCandidate b bodies a.body a.backlog_days
          (alternatives-IsCandidate bodies a (rw same at h))
    | inr apart ↦
        with_profile-IsCandidate b bodies a (profiles b) (alternatives default profiles bodies)
          apart refl (alternatives-IsCandidate bodies a) (rw apart at h)
  ]

  -- A bound on all alternatives is a bound on every candidate.
  pub IsLeast-candidate :
      (P : ℕ → Type 0) (bodies : List RecipientBody)
      → All (λ a. P a.backlog_days) (alternatives default profiles bodies)
      → (body : RecipientBody) (days : ℕ) → IsCandidate default profiles bodies body days
      → P days
  IsLeast-candidate P [] h body days c = elim (c.mandated) [ ]
  IsLeast-candidate P (b ∷ bodies) h body days c = elim c.mandated [
    | inl here ↦
        let apart : same_body b default ≡ false = cc (here, c.other) in
        let known : profiles b ≡ some c.profile = cc (here, c.known) in
        subst P c.days_same (first apart known)
    | inr there ↦ IsLeast-candidate P bodies rest body days (record {
      mandated = there;
      other = c.other;
      profile = c.profile;
      known = c.known;
      days_same = c.days_same;
    })
  ]
    where
      first :
          same_body b default ≡ false
          → profiles b ≡ some c.profile
          → P c.profile.estimated_backlog_days
      first apart known = (rw (apart, known) at h).0

      tail_of :
          (o : Option RecipientBacklogProfile)
          → All (λ a. P a.backlog_days) (with_profile b o (alternatives default profiles bodies))
          → All (λ a. P a.backlog_days) (alternatives default profiles bodies)
      tail_of none x = x
      tail_of (some p) x = x.1

      rest : All (λ a. P a.backlog_days) (alternatives default profiles bodies)
      rest = elim (Bool-cases (same_body b default)) [
        | inl same ↦ rw same at h
        | inr apart ↦ tail_of (profiles b) (rw apart at h)
      ]
