-- ===== src/Anomaly.antt =====
-- packages/audit-log/src/anomaly.ts: the ten rules over a window of events. `utc_hours` is getUTCHours
-- of a timestamp, `lower` is toLowerCase, and `watchlist` the entities of the environment, lower-cased. The two summaries of an
-- alert are left out.
pub mod Groups
pub mod Own
pub mod Triggered
mod Tests
use vigil_apex_f.Common.{
  ℕ, zero, suc, ◌+◌, Bool, true, false, ◌&&◌, ◌||◌, not, Option, none, some, List, [], ◌∷◌, ◌++◌,
  map, Text, codes, length, keep, any, ltb, leb, ◌==◌, if◌then◌else◌, text_eq,
}
use vigil_apex_f.AuditChain.Json.{text_lt}
use vigil_apex_f.Anomaly.Groups.{distinct, push_at, includes}

pub record AnomalyEvent : Type 0 where
  pub event_id : Text
  pub event_type : Text
  pub category : Text
  pub timestamp_utc : Text
  pub actor_id : Text
  pub actor_role : Text
  pub actor_ip : Option Text
  pub target_resource : Text
  pub result_status : Text

pub data AnomalyKind : Type 0 where
  fishing_query_pattern after_hours_dossier_access analyst_clearance_uniform
        council_repeated_abstention auth_burst_new_ip export_volume_spike dossier_view_no_signature
        config_change_without_pr sensitive_entity_query yubikey_geographic_improbable :
      AnomalyKind

pub data AlertSeverity : Type 0 where
  info low medium high critical : AlertSeverity

pub record AnomalyRuleResult : Type 0 where
  pub kind : AnomalyKind
  pub actor_id : Text
  pub window_start : Text
  pub window_end : Text
  pub severity : AlertSeverity
  pub triggering_event_ids : List Text

abbrev pub Events : Type 0
Events = List AnomalyEvent

-- ALL_ACTORS
abbrev pub all_actors : Events → List Text
all_actors events = distinct (map (λ e. e.actor_id) events)

-- The ends of the timestamps in the order of their texts, from the first event's.
abbrev pub earliest : Text → Events → Text
earliest t [] = t
earliest t (e ∷ es) = earliest (if text_lt e.timestamp_utc t then e.timestamp_utc else t) es

abbrev pub latest : Text → Events → Text
latest t [] = t
latest t (e ∷ es) = latest (if text_lt t e.timestamp_utc then e.timestamp_utc else t) es

-- `bounds`; the rules call it on events that are there, and `now` is for none.
abbrev pub bounds : Text → Events → Text × Text
bounds now [] = (now, now)
bounds now (e ∷ es) = (earliest e.timestamp_utc es, latest e.timestamp_utc es)

abbrev pub alert : Text → AnomalyKind → Text → AlertSeverity → Events → AnomalyRuleResult
alert now kind actor severity events = record {
  kind = kind;
  actor_id = actor;
  window_start = (bounds now events).0;
  window_end = (bounds now events).1;
  severity = severity;
  triggering_event_ids = map (λ e. e.event_id) events;
}

abbrev pub by : Text → AnomalyEvent → Bool
by actor e = text_eq e.actor_id actor

abbrev pub is_type : Text → AnomalyEvent → Bool
is_type name e = text_eq e.event_type name

abbrev pub in_category : Text → AnomalyEvent → Bool
in_category name e = text_eq e.category name

-- The loop over the actors of a rule.
abbrev pub for_actors : (Text → List AnomalyRuleResult) → List Text → List AnomalyRuleResult
for_actors rule [] = []
for_actors rule (actor ∷ actors) = rule actor ++ for_actors rule actors

abbrev pub has_ip : AnomalyEvent → Bool
has_ip e = elim e.actor_ip [ none ↦ false | some ip ↦ true ]

abbrev pub ip_of : AnomalyEvent → Text
ip_of e = elim e.actor_ip [ none ↦ [] | some ip ↦ ip ]

-- A Map from a text of each event to its events, in the order of insertion.
abbrev pub group_by : (AnomalyEvent → Text) → List (Text × Events) → Events → List (Text × Events)
group_by key groups [] = groups
group_by key groups (e ∷ es) = group_by key (push_at (key e) e groups) es

abbrev pub is_decision : Text → AnomalyEvent → Bool
is_decision actor e =
    by actor e && (is_type (codes "analyst.cleared") e || is_type (codes "analyst.rejected") e)

abbrev pub is_abstention : Text → AnomalyEvent → Bool
is_abstention actor e = by actor e && is_type (codes "vote.abstained") e

abbrev pub is_auth : Text → AnomalyEvent → Bool
is_auth actor e = by actor e && (in_category (codes "A") e && has_ip e)

-- Array.prototype.sort, by the lengths from the longest; it is stable.
abbrev pub insert_longest : Text × Events → List (Text × Events) → List (Text × Events)
insert_longest g [] = g ∷ []
insert_longest g (h ∷ hs) =
    let rest = insert_longest g hs in if ltb (length g.1) (length h.1) then h ∷ rest else g ∷ h ∷ hs

abbrev pub sort_longest : List (Text × Events) → List (Text × Events)
sort_longest [] = []
sort_longest (g ∷ gs) = insert_longest g (sort_longest gs)

abbrev pub is_export : Text → AnomalyEvent → Bool
is_export actor e =
    by actor e
    && (is_type (codes "dossier.exported_pdf") e || is_type (codes "dossier.downloaded") e)

abbrev pub is_view : Text → AnomalyEvent → Bool
is_view actor e = by actor e && is_type (codes "dossier.opened") e

abbrev pub is_signature : Text → AnomalyEvent → Bool
is_signature actor e = by actor e && is_type (codes "signature.applied") e

abbrev pub reviews : AnomalyEvent → AnomalyEvent → Bool
reviews c e =
    in_category (codes "K") e
    && (is_type (codes "audit.query_executed") e
        && (includes c.target_resource e.target_resource
            && text_lt e.timestamp_utc c.timestamp_utc))

module _ (now : Text) (utc_hours : Text → ℕ) (lower : Text → Text) (watchlist : List Text) where
  -- One target of the fishing rule.
  abbrev pub fishing_target : Text → Bool → List (Text × Events) → List AnomalyRuleResult
  fishing_target actor followed [] = []
  fishing_target actor followed ((target, list) ∷ groups) =
      let rest = fishing_target actor followed groups in
      if ltb (length list) 3 || followed
      then rest
      else alert now fishing_query_pattern actor (if leb 6 (length list) then high else medium) list
        ∷ rest

  unfoldable pub fishing_actor : Events → Text → List AnomalyRuleResult
  fishing_actor events actor =
      let own = keep (by actor) events in
      let searches =
        keep (λ e. is_type (codes "search.entity") e || is_type (codes "search.fulltext") e) own in
      let dossier_access = keep (in_category (codes "C")) own in
      let decisions = keep (in_category (codes "D")) own in
      fishing_target actor (ltb 0 (length dossier_access) || ltb 0 (length decisions))
        (group_by (λ e. e.target_resource) [] searches)

  abbrev pub is_off_hours : Text → AnomalyEvent → Bool
  is_off_hours actor e =
      let h = utc_hours e.timestamp_utc in
      by actor e && (in_category (codes "C") e && (ltb h 7 || leb 17 h))

  unfoldable pub after_hours_actor : Events → Text → List AnomalyRuleResult
  after_hours_actor events actor =
      let off_hours = keep (is_off_hours actor) events in
      if ltb (length off_hours) 1
      then []
      else alert now after_hours_dossier_access actor
          (if leb 5 (length off_hours) then high else medium) off_hours
        ∷ []

  unfoldable pub clearance_actor : Events → Text → List AnomalyRuleResult
  clearance_actor events actor =
      let decisions = keep (is_decision actor) events in
      let cleared = length (keep (is_type (codes "analyst.cleared")) decisions) in
      if ltb (length decisions) 10 || not (cleared == length decisions)
      then []
      else alert now analyst_clearance_uniform actor high decisions ∷ []

  unfoldable pub abstention_actor : Events → Text → List AnomalyRuleResult
  abstention_actor events actor =
      let abstentions = keep (is_abstention actor) events in
      if ltb (length abstentions) 3
      then []
      else alert now council_repeated_abstention actor medium abstentions ∷ []

  -- The loop over the addresses, which ends at the first alert.
  abbrev pub burst_ip : Text → Bool → List (Text × Events) → List AnomalyRuleResult
  burst_ip actor single [] = []
  burst_ip actor single ((ip, list) ∷ groups) =
      let rest = burst_ip actor single groups in
      if ltb (length list) 5 || single
      then rest
      else alert now auth_burst_new_ip actor critical list ∷ []

  unfoldable pub auth_burst_actor : Events → Text → List AnomalyRuleResult
  auth_burst_actor events actor =
      let ip_freq = group_by ip_of [] (keep (is_auth actor) events) in
      burst_ip actor (length ip_freq == 1) (sort_longest ip_freq)

  unfoldable pub export_actor : Events → Text → List AnomalyRuleResult
  export_actor events actor =
      let exports = keep (is_export actor) events in
      if ltb (length exports) 10
      then []
      else alert now export_volume_spike actor critical exports ∷ []

  unfoldable pub view_actor : Events → Text → List AnomalyRuleResult
  view_actor events actor =
      let views = keep (is_view actor) events in
      let signs = keep (is_signature actor) events in
      if ltb (length views) 5 || ltb 0 (length signs)
      then []
      else alert now dossier_view_no_signature actor medium views ∷ []

  unfoldable pub config_changes : Events → Events → List AnomalyRuleResult
  config_changes events [] = []
  config_changes events (c ∷ cs) =
      let rest = config_changes events cs in
      if in_category (codes "F") c && not (any (reviews c) events)
      then alert now config_change_without_pr c.actor_id high (c ∷ []) ∷ rest
      else rest

  unfoldable pub sensitive_queries : Events → List AnomalyRuleResult
  sensitive_queries [] = []
  sensitive_queries (e ∷ es) =
      let rest = sensitive_queries es in
      if in_category (codes "B") e && any (λ w. includes w (lower e.target_resource)) watchlist
      then alert now sensitive_entity_query e.actor_id high (e ∷ []) ∷ rest
      else rest

  abbrev pub yubikey_groups : List (Text × Events) → List AnomalyRuleResult
  yubikey_groups [] = []
  yubikey_groups ((actor, list) ∷ groups) =
      let rest = yubikey_groups groups in
      if ltb (length (distinct (map ip_of list))) 3
      then rest
      else alert now yubikey_geographic_improbable actor critical list ∷ rest

  unfoldable pub yubikey : Events → List AnomalyRuleResult
  yubikey events =
      yubikey_groups
        (group_by (λ e. e.actor_id) [] (keep (λ e. in_category (codes "A") e && has_ip e) events))

  -- The rules in their order.
  unfoldable pub evaluate_anomalies : Events → List AnomalyRuleResult
  evaluate_anomalies events =
      let actors = all_actors events in
      for_actors (fishing_actor events) actors
      ++ (for_actors (after_hours_actor events) actors
          ++ (for_actors (clearance_actor events) actors
              ++ (for_actors (abstention_actor events) actors
                  ++ (for_actors (auth_burst_actor events) actors
                      ++ (for_actors (export_actor events) actors
                          ++ (for_actors (view_actor events) actors
                              ++ (config_changes events events
                                  ++ (sensitive_queries events ++ yubikey events))))))))
