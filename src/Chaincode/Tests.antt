-- ===== src/Chaincode/Tests.antt =====
-- The theorems about the witness contract at a concrete channel.
use vigil_apex_f.Common.{◌≡◌, refl, ◌∙◌, List, [], ◌∷◌, Text, codes}
use vigil_apex_f.Chaincode.{Commitment, found, key, seq_re, hex64, recorded_at, get_commitment}
use vigil_apex_f.Chaincode.Spec.{Call, Ledger, spec_record, spec_get, run, spec_run, Represents}
use vigil_apex_f.Chaincode.Refines.{run-refines, get_commitment-spec_get}
use vigil_apex_f.Chaincode.Sweep.{IsFilled}
use vigil_apex_f.Chaincode.Filled.{run-IsFilled}
use vigil_apex_f.Chaincode.Demo.{World, fabric, fabric-IsFabric, empty}

abbrev hash : Text
hash = codes "0123456789abcdef0123456789ABCDEF0123456789abcdef0123456789abcdef"

abbrev lower_hash : Text
lower_hash = codes "0123456789abcdef0123456789abcdef0123456789abcdef0123456789abcdef"

abbrev other_hash : Text
other_hash = codes "0000000000000000000000000000000000000000000000000000000000000000"

abbrev call : Text → Text → Call
call seq body_hash = record {
  timestamp = record { seconds = 5; nanos = 7000000 };
  seq = seq;
  body_hash = body_hash;
}

abbrev calls : List Call
calls =
    call (codes "9") hash
    ∷ call (codes "10") other_hash
    ∷ call (codes "009") lower_hash
    ∷ call (codes "9") other_hash
    ∷ []

abbrev channel : World
channel = (run fabric calls []).0

abbrev ledger : Ledger
ledger = (spec_run fabric calls []).0

empty-Represents : Represents fabric [] []
unfolding Represents
empty-Represents seq q = empty (key seq)

channel-IsFilled : IsFilled fabric channel ledger
channel-IsFilled = run-IsFilled fabric fabric-IsFabric calls [] empty

run-refines_example :
    ((run fabric calls []).1 ≡ (spec_run fabric calls []).1) × Represents fabric channel ledger
run-refines_example = run-refines fabric fabric-IsFabric calls [] [] empty-Represents

abbrev nine : Commitment
nine = record {
  seq = codes "9";
  body_hash = lower_hash;
  recorded_at = recorded_at fabric (record { seconds = 5; nanos = 7000000 });
}

ledger-nine : spec_get (codes "09") ledger ≡ found nine
unfolding spec_get spec_run spec_record seq_re hex64
ledger-nine = refl

channel-nine : get_commitment fabric (codes "09") channel ≡ found nine
channel-nine =
    get_commitment-spec_get fabric fabric-IsFabric (codes "09") channel ledger
      channel-IsFilled.represents
    ∙ ledger-nine
