-- ===== src/Routing.antt =====
-- packages/shared/src/routing: the institution that a finding goes to. Backlogs and thresholds are
-- whole days.
pub mod Best
pub mod Candidate
pub mod Reroute
mod Tests
use vigil_apex_f.Common.{
  ℕ, ◌+◌, ◌*◌, ◌≤◌, ◌<◌, ◌≡◌, Bool, true, false, ◌&&◌, Option, none, some, List, [], ◌∷◌, leb, ltb,
  ◌==◌, if◌then◌else◌,
}

pub data PatternCategoryLetter : Type 0 where
  letter_a letter_b letter_c letter_d letter_e letter_f letter_g letter_h letter_i letter_j letter_k
        letter_l letter_m letter_n letter_o letter_p :
      PatternCategoryLetter

pub data Severity : Type 0 where
  low medium high critical : Severity

pub data RecipientBody : Type 0 where
  conac cour_des_comptes minfi anif cdc other : RecipientBody

-- the set of the letters A, B, C and F
abbrev pub is_procurement_adjacent : PatternCategoryLetter → Bool
is_procurement_adjacent letter_a = true
is_procurement_adjacent letter_b = true
is_procurement_adjacent letter_c = true
is_procurement_adjacent letter_f = true
is_procurement_adjacent _ = false

abbrev pub is_critical : Severity → Bool
is_critical critical = true
is_critical _ = false

abbrev pub body_of_letter : PatternCategoryLetter → RecipientBody
body_of_letter letter_a = conac
body_of_letter letter_b = conac
body_of_letter letter_c = conac
body_of_letter letter_d = cour_des_comptes
body_of_letter letter_e = anif
body_of_letter letter_f = conac
body_of_letter letter_g = cour_des_comptes
body_of_letter letter_h = conac
body_of_letter letter_i = cour_des_comptes
body_of_letter letter_j = cour_des_comptes
body_of_letter letter_k = anif
body_of_letter letter_l = conac
body_of_letter letter_m = conac
body_of_letter letter_n = anif
body_of_letter letter_o = cour_des_comptes
body_of_letter letter_p = anif

-- `pre` is `preDisbursementFlag === true`.
unfoldable pub recommend_recipient_body : PatternCategoryLetter → Severity → Bool → RecipientBody
recommend_recipient_body letter severity pre =
    if pre
    then minfi
    else if is_procurement_adjacent letter && is_critical severity
    then cour_des_comptes
    else body_of_letter letter

pub record RecipientBacklogProfile : Type 0 where
  pub estimated_backlog_days : ℕ
  pub active_case_count : ℕ
  pub last_acknowledged_within_days : ℕ
  pub reroute_threshold_days : ℕ

pub record Alternative : Type 0 where
  pub body : RecipientBody
  pub backlog_days : ℕ

-- The rationale, with the numbers that its text shows.
pub data Rationale : Type 0 where
  pre_disbursement no_profile : Rationale
  within_threshold : ℕ → ℕ → Rationale
  no_alternative : ℕ → Rationale
  not_enough : ℕ → Alternative → Rationale
  rerouted : ℕ → ℕ → Alternative → Rationale

pub record CaseLoadAwareRecipientResult : Type 0 where
  pub body : RecipientBody
  pub adjusted_for_load : Bool
  pub default_body : RecipientBody
  pub rationale : Rationale
  pub default_backlog_days : Option ℕ
  pub chosen_backlog_days : Option ℕ
  pub considered_alternatives : List Alternative

-- MANDATE_COMPATIBILITY
abbrev pub mandate_compatibility : PatternCategoryLetter → List RecipientBody
mandate_compatibility letter_a = conac ∷ cour_des_comptes ∷ []
mandate_compatibility letter_b = conac ∷ anif ∷ []
mandate_compatibility letter_c = conac ∷ minfi ∷ []
mandate_compatibility letter_d = cour_des_comptes ∷ []
mandate_compatibility letter_e = anif ∷ []
mandate_compatibility letter_f = conac ∷ cour_des_comptes ∷ []
mandate_compatibility letter_g = cour_des_comptes ∷ []
mandate_compatibility letter_h = conac ∷ cour_des_comptes ∷ []
mandate_compatibility letter_i = cour_des_comptes ∷ conac ∷ []
mandate_compatibility letter_j = cour_des_comptes ∷ []
mandate_compatibility letter_k = anif ∷ []
mandate_compatibility letter_l = conac ∷ cour_des_comptes ∷ []
mandate_compatibility letter_m = conac ∷ []
mandate_compatibility letter_n = anif ∷ conac ∷ []
mandate_compatibility letter_o = cour_des_comptes ∷ []
mandate_compatibility letter_p = anif ∷ conac ∷ []

abbrev pub body_index : RecipientBody → ℕ
body_index conac = 0
body_index cour_des_comptes = 1
body_index minfi = 2
body_index anif = 3
body_index cdc = 4
body_index other = 5

-- `altBody === defaultBody`
abbrev pub same_body : RecipientBody → RecipientBody → Bool
same_body a b = body_index a == body_index b

abbrev pub make_unadjusted : RecipientBody → Rationale → CaseLoadAwareRecipientResult
make_unadjusted body rationale = record {
  body = body;
  adjusted_for_load = false;
  default_body = body;
  rationale = rationale;
  default_backlog_days = none;
  chosen_backlog_days = none;
  considered_alternatives = [];
}

abbrev pub Profiles : Type 0
Profiles = RecipientBody → Option RecipientBacklogProfile

abbrev pub with_profile :
    RecipientBody → Option RecipientBacklogProfile → List Alternative → List Alternative
with_profile body none rest = rest
with_profile body (some p) rest =
    record { body = body; backlog_days = p.estimated_backlog_days } ∷ rest

-- The loop over the compatible bodies.
abbrev pub alternatives : RecipientBody → Profiles → List RecipientBody → List Alternative
alternatives default profiles [] = []
alternatives default profiles (b ∷ bodies) =
    let rest = alternatives default profiles bodies in
    if same_body b default then rest else with_profile b (profiles b) rest

-- sort((a, b) => a.backlog_days - b.backlog_days), which is stable
abbrev pub insert_alternative : Alternative → List Alternative → List Alternative
insert_alternative a [] = a ∷ []
insert_alternative a (b ∷ rest) =
    let later = insert_alternative a rest in
    if ltb b.backlog_days a.backlog_days then b ∷ later else a ∷ b ∷ rest

abbrev pub sort_alternatives : List Alternative → List Alternative
sort_alternatives [] = []
sort_alternatives (a ∷ rest) = insert_alternative a (sort_alternatives rest)

-- From the sorted alternatives on. `improvement < 0.3` is `10 (backlog - chosen) < 3 backlog`, as an
-- inequality of integers.
abbrev pub choose :
    RecipientBody → RecipientBacklogProfile → List Alternative → CaseLoadAwareRecipientResult
choose default profile [] = record {
  body = default;
  adjusted_for_load = false;
  default_body = default;
  rationale = no_alternative profile.estimated_backlog_days;
  default_backlog_days = some profile.estimated_backlog_days;
  chosen_backlog_days = some profile.estimated_backlog_days;
  considered_alternatives = [];
}
choose default profile (chosen ∷ rest) =
    let backlog = profile.estimated_backlog_days in
    if ltb (10 * backlog) (3 * backlog + 10 * chosen.backlog_days)
    then record {
      body = default;
      adjusted_for_load = false;
      default_body = default;
      rationale = not_enough backlog chosen;
      default_backlog_days = some backlog;
      chosen_backlog_days = some backlog;
      considered_alternatives = chosen ∷ rest;
    }
    else record {
      body = chosen.body;
      adjusted_for_load = true;
      default_body = default;
      rationale = rerouted backlog profile.reroute_threshold_days chosen;
      default_backlog_days = some backlog;
      chosen_backlog_days = some chosen.backlog_days;
      considered_alternatives = chosen ∷ rest;
    }

abbrev pub by_load :
    PatternCategoryLetter
    → RecipientBody
    → Profiles
    → Option RecipientBacklogProfile
    → CaseLoadAwareRecipientResult
by_load letter default profiles none = make_unadjusted default no_profile
by_load letter default profiles (some profile) =
    if leb profile.estimated_backlog_days profile.reroute_threshold_days
    then record {
      body = default;
      adjusted_for_load = false;
      default_body = default;
      rationale = within_threshold profile.estimated_backlog_days profile.reroute_threshold_days;
      default_backlog_days = some profile.estimated_backlog_days;
      chosen_backlog_days = some profile.estimated_backlog_days;
      considered_alternatives = [];
    }
    else choose default profile
        (sort_alternatives (alternatives default profiles (mandate_compatibility letter)))

unfoldable pub route_with_case_load_awareness :
    PatternCategoryLetter → Severity → Bool → Profiles → CaseLoadAwareRecipientResult
route_with_case_load_awareness letter severity pre profiles =
    let default = recommend_recipient_body letter severity pre in
    if pre
    then make_unadjusted default pre_disbursement
    else by_load letter default profiles (profiles default)
