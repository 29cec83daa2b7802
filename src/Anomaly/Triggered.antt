-- ===== src/Anomaly/Triggered.antt =====
-- Whose events an alert of packages/audit-log/src/anomaly.ts names.
use vigil_apex_f.Common.{
  ℕ, inl, inr, refl, Bool, ◌&&◌, ◌||◌, not, List, [], ◌∷◌, Text, codes, arith, length, any, ltb,
  All, All-append, Bool-cases,
}
use vigil_apex_f.Anomaly.{
  auth_burst_new_ip, config_change_without_pr, sensitive_entity_query, high, critical,
  AnomalyRuleResult, Events, all_actors, by, in_category, ip_of, fishing_target, fishing_actor,
  after_hours_actor, clearance_actor, abstention_actor, is_auth, burst_ip, auth_burst_actor,
  export_actor, view_actor, reviews, config_changes, sensitive_queries, yubikey_groups, yubikey,
  evaluate_anomalies,
}
use vigil_apex_f.Anomaly.Groups.{includes}
use vigil_apex_f.Anomaly.Own.{
  Own, IsTriggered, keep-All, Member, Member-self, keep-Own, alert-IsTriggered, skip-IsTriggered,
  for_actors-IsTriggered, Grouped, group_by-Grouped, sort_longest-Grouped,
}

module _ (now : Text) (utc_hours : Text → ℕ) (lower : Text → Text) (watchlist : List Text)
    (events : Events) where
  abbrev Sound : List AnomalyRuleResult → Type 0
  Sound = All (IsTriggered events)

  fishing_target-Sound :
      (actor : Text) (followed : Bool) (m : List (Text × Events))
      → Grouped (λ k. Own events actor) m
      → Sound (fishing_target now utc_hours lower watchlist actor followed m)
  fishing_target-Sound actor followed [] h = tt
  fishing_target-Sound actor followed ((k, list) ∷ m) (h, hs) =
      skip-IsTriggered now events _ _ actor _ list _ h (fishing_target-Sound actor followed m hs)

  fishing_actor-Sound :
      (actor : Text) → Sound (fishing_actor now utc_hours lower watchlist events actor)
  unfolding fishing_actor
  fishing_actor-Sound actor = fishing_target-Sound actor _ _ (
      group_by-Grouped (λ k. Own events actor) (λ e. e.target_resource) [] _ tt
        (keep-All (Own events actor) (Own events actor) _ (λ e h on. h) _
          (keep-Own events actor (by actor) (λ e h. h))))

  after_hours_actor-Sound :
      (actor : Text) → Sound (after_hours_actor now utc_hours lower watchlist events actor)
  unfolding after_hours_actor
  after_hours_actor-Sound actor =
      skip-IsTriggered now events _ _ actor _ _ []
        (keep-Own events actor _ (λ e h. ground (arith, h))) tt

  clearance_actor-Sound :
      (actor : Text) → Sound (clearance_actor now utc_hours lower watchlist events actor)
  unfolding clearance_actor
  clearance_actor-Sound actor =
      skip-IsTriggered now events _ _ actor _ _ []
        (keep-Own events actor _ (λ e h. ground (arith, h))) tt

  abstention_actor-Sound :
      (actor : Text) → Sound (abstention_actor now utc_hours lower watchlist events actor)
  unfolding abstention_actor
  abstention_actor-Sound actor =
      skip-IsTriggered now events _ _ actor _ _ []
        (keep-Own events actor _ (λ e h. ground (arith, h))) tt

  burst_ip-Sound :
      (actor : Text) (single : Bool) (m : List (Text × Events))
      → Grouped (λ k. Own events actor) m
      → Sound (burst_ip now utc_hours lower watchlist actor single m)
  burst_ip-Sound actor single [] h = tt
  burst_ip-Sound actor single ((k, list) ∷ m) (h, hs) =
      elim (Bool-cases (ltb (length list) 5 || single)) [
        | inl on ↦ rw on (burst_ip-Sound actor single m hs)
        | inr off ↦
            rw off (alert-IsTriggered now events auth_burst_new_ip actor critical list h, tt)
      ]

  auth_burst_actor-Sound :
      (actor : Text) → Sound (auth_burst_actor now utc_hours lower watchlist events actor)
  unfolding auth_burst_actor
  auth_burst_actor-Sound actor = burst_ip-Sound actor _ _ (
      sort_longest-Grouped (λ k. Own events actor) _
        (group_by-Grouped (λ k. Own events actor) ip_of [] _ tt
          (keep-Own events actor (is_auth actor) (λ e h. ground (arith, h)))))

  export_actor-Sound :
      (actor : Text) → Sound (export_actor now utc_hours lower watchlist events actor)
  unfolding export_actor
  export_actor-Sound actor =
      skip-IsTriggered now events _ _ actor _ _ []
        (keep-Own events actor _ (λ e h. ground (arith, h))) tt

  view_actor-Sound : (actor : Text) → Sound (view_actor now utc_hours lower watchlist events actor)
  unfolding view_actor
  view_actor-Sound actor =
      skip-IsTriggered now events _ _ actor _ _ []
        (keep-Own events actor _ (λ e h. ground (arith, h))) tt

  config_changes-Sound :
      (cs : Events)
      → All (Member events) cs
      → Sound (config_changes now utc_hours lower watchlist events cs)
  unfolding config_changes
  config_changes-Sound [] h = tt
  config_changes-Sound (c ∷ cs) (h, hs) =
      elim (Bool-cases (in_category (codes "F") c && not (any (reviews c) events))) [
        | inl on ↦ rw on (
          alert-IsTriggered now events config_change_without_pr c.actor_id high (c ∷ [])
              ((h, refl), tt),
          config_changes-Sound cs hs,
        )
        | inr off ↦ rw off (config_changes-Sound cs hs)
      ]

  sensitive_queries-Sound :
      (es : Events)
      → All (Member events) es
      → Sound (sensitive_queries now utc_hours lower watchlist es)
  unfolding sensitive_queries
  sensitive_queries-Sound [] h = tt
  sensitive_queries-Sound (e ∷ es) (h, hs) =
      elim (Bool-cases
        (in_category (codes "B") e && any (λ w. includes w (lower e.target_resource)) watchlist)) [
          | inl on ↦ rw on (
            alert-IsTriggered now events sensitive_entity_query e.actor_id high (e ∷ [])
                ((h, refl), tt),
            sensitive_queries-Sound es hs,
          )
          | inr off ↦ rw off (sensitive_queries-Sound es hs)
        ]

  yubikey_groups-Sound :
      (m : List (Text × Events))
      → Grouped (Own events) m
      → Sound (yubikey_groups now utc_hours lower watchlist m)
  yubikey_groups-Sound [] h = tt
  yubikey_groups-Sound ((actor, list) ∷ m) (h, hs) =
      skip-IsTriggered now events _ _ actor _ list _ h (yubikey_groups-Sound m hs)

  yubikey-Sound : Sound (yubikey now utc_hours lower watchlist events)
  unfolding yubikey
  yubikey-Sound = yubikey_groups-Sound _ (
      group_by-Grouped (Own events) (λ e. e.actor_id) [] _ tt
        (keep-All (Member events) (λ e. Own events e.actor_id e) _ (λ e m on. (m, refl)) events
          (Member-self events)))

  -- Every alert names only events of the window, and all of them are events of the actor it accuses.
  pub evaluate_anomalies-IsTriggered :
      All (IsTriggered events) (evaluate_anomalies now utc_hours lower watchlist events)
  unfolding evaluate_anomalies
  evaluate_anomalies-IsTriggered =
      let actors = all_actors events in
      let each = for_actors-IsTriggered now events in
      let join = All-append (IsTriggered events) in
      join _ _ (each _ fishing_actor-Sound actors) (
        join _ _ (each _ after_hours_actor-Sound actors) (
          join _ _ (each _ clearance_actor-Sound actors) (
            join _ _ (each _ abstention_actor-Sound actors) (
              join _ _ (each _ auth_burst_actor-Sound actors) (
                join _ _ (each _ export_actor-Sound actors) (
                  join _ _ (each _ view_actor-Sound actors) (
                    join _ _ (config_changes-Sound events (Member-self events)) (
                      join _ _ (sensitive_queries-Sound events (Member-self events))
                        yubikey-Sound))))))))
