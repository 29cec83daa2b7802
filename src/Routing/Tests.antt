-- ===== src/Routing/Tests.antt =====
-- The router at concrete backlogs.
use vigil_apex_f.Common.{◌≡◌, ◌⊎◌, refl, some, none, false}
use vigil_apex_f.Routing.{
  letter_a, low, conac, cour_des_comptes, RecipientBacklogProfile, Profiles,
  recommend_recipient_body, route_with_case_load_awareness,
}
use vigil_apex_f.Routing.Reroute.{IsKept, IsRerouted, route-IsRouted}

abbrev profile : RecipientBacklogProfile
profile = record {
  estimated_backlog_days = 540;
  active_case_count = 40;
  last_acknowledged_within_days = 90;
  reroute_threshold_days = 180;
}

abbrev profiles : Profiles
profiles conac = some profile
profiles cour_des_comptes = some (record profile { estimated_backlog_days = 100 })
profiles _ = none

rerouted-body : (route_with_case_load_awareness letter_a low false profiles).body ≡ cour_des_comptes
unfolding route_with_case_load_awareness recommend_recipient_body
rerouted-body = refl

route-IsRouted_example :
    ((route_with_case_load_awareness letter_a low false profiles).default_body
      ≡ recommend_recipient_body letter_a low false)
    × (IsKept letter_a profiles (route_with_case_load_awareness letter_a low false profiles)
        ⊎ IsRerouted letter_a profiles (route_with_case_load_awareness letter_a low false profiles))
route-IsRouted_example = route-IsRouted letter_a low profiles
