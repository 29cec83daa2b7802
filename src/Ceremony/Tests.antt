-- ===== src/Ceremony/Tests.antt =====
-- The theorems about the ceremony at a concrete escalation.
use vigil_apex_f.Common.{ℕ, none, some, codes}
use vigil_apex_f.Routing.{high, cour_des_comptes}
use vigil_apex_f.Ceremony.{Finding, Queries, answered}

abbrev finding : Finding ℕ
finding = record {
  id = codes "f1";
  posterior = some 97;
  signal_count = some 6;
  recommended_recipient_body = some cour_des_comptes;
  primary_pattern_id = some (codes "P-C-002");
  severity = high;
}

abbrev queries : Queries ℕ
queries = record {
  proposal = answered (some (codes "f1"));
  finding = answered (some finding);
  routing_decision = answered none;
}
