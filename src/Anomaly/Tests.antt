-- ===== src/Anomaly/Tests.antt =====
-- The theorem about the alerts at a concrete window.
use vigil_apex_f.Common.{ℕ, ◌≡◌, refl, none, [], ◌∷◌, ◌++◌, Text, codes, length, All, zero, suc}
use vigil_apex_f.Common.{text_eq}
use vigil_apex_f.Anomaly.{
  AnomalyEvent, Events, evaluate_anomalies, fishing_actor, after_hours_actor, clearance_actor,
  abstention_actor, auth_burst_actor, export_actor, view_actor, config_changes, sensitive_queries,
  yubikey,
}
use vigil_apex_f.Anomaly.Groups.{distinct}
use vigil_apex_f.Anomaly.Own.{IsTriggered}
use vigil_apex_f.Anomaly.Triggered.{evaluate_anomalies-IsTriggered}

abbrev event : Text → AnomalyEvent
event id = record {
  event_id = id;
  event_type = codes "dossier.downloaded";
  category = codes "C";
  timestamp_utc = codes "2026-05-16T23:00:00.000Z";
  actor_id = codes "analyst-1";
  actor_role = codes "analyst";
  actor_ip = none;
  target_resource = codes "dossier/d1";
  result_status = codes "ok";
}

abbrev copies : ℕ → Events
copies zero = []
copies (suc n) = event (codes "e" ++ (n ∷ [])) ∷ copies n

abbrev late : Text → ℕ
late t = 23

-- The accesses after hours and the exports.
two_alerts : length (evaluate_anomalies [] late (λ t. t) [] (copies 10)) ≡ 2
unfolding evaluate_anomalies fishing_actor after_hours_actor clearance_actor abstention_actor
    auth_burst_actor export_actor view_actor config_changes sensitive_queries yubikey distinct
    text_eq
two_alerts = refl

evaluate_anomalies-IsTriggered_example :
    All (IsTriggered (copies 10)) (evaluate_anomalies [] late (λ t. t) [] (copies 10))
evaluate_anomalies-IsTriggered_example =
    evaluate_anomalies-IsTriggered [] late (λ t. t) [] (copies 10)
