-- ===== src/FabricBridge/Tests.antt =====
-- The handler of worker-fabric-bridge at concrete messages.
use vigil_apex_f.Common.{◌≡◌, refl, List, [], ◌∷◌, Text, codes}
use vigil_apex_f.Chaincode.{key, seq_re, hex64, record_commitment, record_at, recorded_at}
use vigil_apex_f.Chaincode.Spec.{Ledger, Represents}
use vigil_apex_f.Chaincode.Demo.{World, fabric, fabric-IsFabric, empty}
use vigil_apex_f.FabricBridge.{
  Rows, Message, ack, handle, handle_all, submit_commitment, submitted, after_submit,
  record_witness,
}
use vigil_apex_f.FabricBridge.Witnessed.{AreWitnessed, handle_all-AreWitnessed}

abbrev hash : Text
hash = codes "0123456789abcdef0123456789ABCDEF0123456789abcdef0123456789abcdef"

abbrev other_hash : Text
other_hash = codes "0000000000000000000000000000000000000000000000000000000000000000"

abbrev message : Text → Text → Message
message seq body_hash = record {
  timestamp = record { seconds = 5; nanos = 7000000 };
  seq = seq;
  body_hash = body_hash;
}

abbrev nine : Message
nine = message (codes "9") hash

abbrev nobody : Rows
nobody = []

abbrev channel : World
channel = []

abbrev ledger : Ledger
ledger = []

abbrev messages : List Message
messages = nine ∷ nine ∷ message (codes "9") other_hash ∷ message (codes "10") other_hash ∷ []

first_ack : (handle fabric nine channel nobody).1.1 ≡ ack
unfolding handle submit_commitment submitted after_submit record_witness record_commitment record_at
    fabric seq_re hex64 key recorded_at
first_ack = refl

channel-Represents : Represents fabric channel ledger
unfolding Represents
channel-Represents seq q = empty (key seq)

nobody-AreWitnessed : AreWitnessed nobody ledger
nobody-AreWitnessed n row e = cc e

handle_all-AreWitnessed_example :
    (m' : Ledger) × Represents fabric (handle_all fabric messages channel nobody).0 m'
    × AreWitnessed (handle_all fabric messages channel nobody).1 m'
handle_all-AreWitnessed_example =
    handle_all-AreWitnessed fabric fabric-IsFabric messages channel nobody ledger channel-Represents
      nobody-AreWitnessed
