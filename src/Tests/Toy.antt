-- ===== src/Tests/Toy.antt =====
-- A stand-in for the hash function: sixty-four digits of which the last depends on the text.
use mgds.Prelude.{
  List, Text, [], arith, false, lit, nat_eq, pos, refl, some, text_eq, true, zeros, ℕ, ◌++◌, ◌+◌,
  ◌==◌, ◌∷◌,
}
use Prim.Native.Nat.{◌%◌}
use mgds.Ledger.Tamper.{IsHex64}
use mgds.Json.{null}
use mgds.Campaign.Types.{Rate, Thresholds, Slot, Run}
use mgds.Campaign.Aggregate.{Checks}
use mgds.Trust.{Crypto, Authority}

pub sum : Text → ℕ
sum [] = 0
sum (c ∷ s) = c + sum s

unfoldable pub toy : Text → Text
unfolding sum
toy t = zeros 63 ++ (b'0' + sum t % 10) ∷ []

pub toy-IsHex64 : (t : Text) → IsHex64 (toy t)
unfolding toy
toy-IsHex64 t = (refl, ground arith)

abbrev pub hash_a : Text
hash_a = lit "sha256:" ++ zeros 64

abbrev pub one : Rate
one = record { top = 1; bottom = 1 }

abbrev pub evidence : List Text
evidence =
    lit "compile" ∷ lit "event-ledger" ∷ lit "player-build" ∷ lit "screenshot" ∷ lit "tests" ∷ []

abbrev pub perfect : Thresholds
perfect = record {
  seed_agreement = one;
  t0_pass_rate = one;
  orphan_processes = 0;
  unknown_workspace_states = 0;
}

-- a valid run of four hours for a slot
abbrev pub run_for : Slot → Text → Run
run_for slot run_id = record {
  slot_id = slot.slot_id;
  campaign_id = slot.campaign_id;
  task_id = slot.task_id;
  task_hash = slot.task_hash;
  budget_hash = slot.budget_hash;
  environment_hash = slot.environment_hash;
  required_evidence = slot.required_evidence;
  build_target = slot.build_target;
  host = slot.host;
  harness = slot.harness;
  seed = slot.seed;
  repetition = slot.repetition;
  run_id = some run_id;
  model = lit "model";
  evidence_hash = hash_a;
  verdict = lit "valid";
  workspace_state = lit "known-clean";
  orphan_processes = some (pos 0);
  private_affordances = some false;
  duration_minutes = 240;
  soak = some true;
  evaluator = record {
    id = lit "mgds.evaluator.t0@0.1.0";
    authority = lit "independent-evaluator";
    digest = hash_a;
  };
  evidence_attestation = record { algorithm = []; authority = []; payload = null; signature = [] };
}

abbrev pub lenient : Checks
lenient = record {
  plan_ok = λ plan. true;
  run_ok = λ run. true;
  attested = λ run. true;
  bundle_failures = λ run slot. [];
}

abbrev pub crypto : Crypto
crypto = record {
  sha256 = toy;
  sha256_bytes = toy;
  export_key = λ key. some key;
  verify_signature = λ signed key signature. signature == lit "signed";
}

abbrev pub authority : Authority
authority = record { algorithm = lit "Ed25519"; public_key = lit "key" }
