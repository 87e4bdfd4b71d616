-- ===== src/Tests/Campaign.antt =====
-- A campaign of one task, one host, two harnesses, one seed and one repetition, with a run in
-- each slot.
use mgds.Prelude.{
  Dict, List, Memᴰ, Text, [], false, get, is_hash, is_versioned, lit, matches_class, nat_eq,
  ne_of_beq, ok, print_ℕ, put, refl, some, text_eq, true, ◌++◌, ◌↔◌, ◌∷◌, ◌≡◌, ◌≢◌,
}
use mgds.Json.{canonical}
use mgds.Campaign.Types.{Slot, Plan, Run, Outcome, pass}
use mgds.Campaign.Plan.{Config, Task, build_campaign_plan}
use mgds.Campaign.Plan.Slots.{FromTask}
use mgds.Campaign.Plan.Built.{plan_slots_iff}
use mgds.Campaign.Aggregate.{
  accept, check_run, canonical_texts, valid_evaluator_identity, group_by, distinct, below,
  tally_runs, index_slots,
}
use mgds.Campaign.Report.{
  aggregate_campaign, count_orphans, count_unknown, count_agreeing, agreement_key, fairness_key,
  enforce_evaluator_fairness, enforce_soak_coverage,
}
use mgds.Campaign.Verdict.{Passed, pass-Passed}
use mgds.Campaign.Attested.{campaign_run_attestation_payload, verify_evidence_attestation}
use mgds.Trust.{Authority, is_signature, public_key_fingerprint}
use mgds.Operator.{sign_evaluator_run}
use mgds.Operator.Signing.{attestation_binds_run}
use mgds.Tests.Toy.{toy, hash_a, evidence, perfect, run_for, lenient, crypto, authority}

abbrev config : Config
config = record {
  id = lit "mgds.campaign.small@0.1.0";
  harnesses = lit "claude-code" ∷ lit "codex" ∷ [];
  hosts = lit "linux-x64" ∷ [];
  seeds = 7 ∷ [];
  repeat_runs = 1;
  soak_minutes = 60;
  thresholds = perfect;
}

abbrev task : Task
task = record {
  id = lit "mgds.task@0.1.0";
  hash = hash_a;
  budget_hash = hash_a;
  evidence = evidence;
  build_target = lit "desktop";
}

abbrev environments : Dict Text Text
environments = (lit "linux-x64", hash_a) ∷ []

abbrev slot_for : Text → Slot
slot_for harness = record {
  slot_id = lit "mgds.task@0.1.0::linux-x64::" ++ (harness ++ lit "::7::1");
  campaign_id = lit "mgds.campaign.small@0.1.0";
  task_id = lit "mgds.task@0.1.0";
  task_hash = hash_a;
  budget_hash = hash_a;
  environment_hash = hash_a;
  required_evidence = evidence;
  build_target = lit "desktop";
  host = lit "linux-x64";
  harness = harness;
  seed = 7;
  repetition = 1;
}

abbrev plan : Plan
plan = record {
  campaign_id = lit "mgds.campaign.small@0.1.0";
  thresholds = perfect;
  soak_minutes = 60;
  slots = slot_for (lit "claude-code") ∷ slot_for (lit "codex") ∷ [];
}

plan_built : build_campaign_plan config (task ∷ []) environments ≡ ok plan
unfolding build_campaign_plan get
plan_built = refl

plan_slots_iff_example :
    Memᴰ (slot_for (lit "codex")) plan.slots
    ↔ ((t : Task) × Memᴰ t (task ∷ []) × FromTask config environments t (slot_for (lit "codex")))
plan_slots_iff_example =
    plan_slots_iff config (task ∷ []) environments plan (slot_for (lit "codex")) plan_built

abbrev runs : List Run
runs =
    run_for (slot_for (lit "codex")) (lit "run_0000000000000001")
    ∷ run_for (slot_for (lit "claude-code")) (lit "run_0000000000000002")
    ∷ []

abbrev reported : Outcome
reported = record {
  campaign_id = lit "mgds.campaign.small@0.1.0";
  status = pass;
  metrics = record {
    expected_runs = 2;
    recorded_runs = 2;
    missing_runs = 0;
    valid_runs = 2;
    t0_pass_rate = record { top = 2; bottom = 2 };
    seed_agreement = record { top = 2; bottom = 2 };
    orphan_processes = 0;
    unknown_workspace_states = 0;
  };
  missing_slot_ids = [];
  failures = [];
}

passes : aggregate_campaign lenient plan runs ≡ some reported
unfolding aggregate_campaign accept check_run canonical_texts canonical is_hash matches_class
    is_versioned valid_evaluator_identity count_orphans count_unknown count_agreeing agreement_key
    fairness_key group_by distinct below enforce_evaluator_fairness enforce_soak_coverage get put
    tally_runs index_slots print_ℕ
passes = refl

pass-Passed_example : Passed lenient plan runs
pass-Passed_example = pass-Passed lenient plan runs reported passes refl

abbrev signed_run : Run
signed_run = record (run_for (slot_for (lit "codex")) (lit "run_0000000000000001")) {
  evidence_attestation = record {
    algorithm = lit "Ed25519";
    authority = lit "mgds.evaluator.t0@0.1.0";
    payload =
        campaign_run_attestation_payload
          (run_for (slot_for (lit "codex")) (lit "run_0000000000000001"));
    signature = lit "signed";
  };
}

abbrev authorities : Dict Text Authority
authorities = (lit "mgds.evaluator.t0@0.1.0", authority) ∷ []

abbrev trusted : Dict Text Text
trusted = (lit "mgds.evaluator.t0@0.1.0", lit "sha256:" ++ toy (lit "key")) ∷ []

signed_verifies : verify_evidence_attestation crypto authorities trusted signed_run ≡ true
unfolding verify_evidence_attestation get toy public_key_fingerprint
    campaign_run_attestation_payload canonical is_signature
signed_verifies = refl

abbrev sign : Text → Text → Text
sign text key = lit "signed"

-- the attestation of one run under the seed of another
abbrev copied_run : Run
copied_run = record signed_run { seed = 8 }

payloads_differ :
    canonical (campaign_run_attestation_payload copied_run)
    ≢ canonical (campaign_run_attestation_payload signed_run)
unfolding campaign_run_attestation_payload canonical print_ℕ
payloads_differ = ne_of_beq _ _ refl

attestation_binds_run_example :
    (verify_evidence_attestation crypto authorities trusted signed_run ≡ true)
    × (verify_evidence_attestation crypto authorities trusted copied_run ≡ false)
unfolding sign_evaluator_run get public_key_fingerprint is_signature toy
    campaign_run_attestation_payload
attestation_binds_run_example =
    attestation_binds_run crypto sign (lit "secret")
      (run_for (slot_for (lit "codex")) (lit "run_0000000000000001")) signed_run copied_run
      authorities trusted authority (lit "sha256:" ++ toy (lit "key")) authorities trusted refl refl
      refl refl (λ t. refl) (λ t. refl) refl refl payloads_differ
