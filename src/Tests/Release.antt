-- ===== src/Tests/Release.antt =====
-- A release of the whole campaign: ninety slots, each with a run.
use mgds.Prelude.{
  List, Text, [], flat_map, get, has, is_hash, is_versioned, lit, map, matches_class, nat_eq, none,
  not, pos, print_ℕ, put, refl, some, subst, sym, text_eq, text_lt, true, zeros, ℕ, ◌++◌, ◌∷◌, ◌≡◌,
}
use mgds.Json.{null, str, canonical}
use mgds.Campaign.Types.{Slot, Plan, Run, Outcome, pass}
use mgds.Campaign.Aggregate.{
  accept, check_run, canonical_texts, valid_evaluator_identity, group_by, distinct, below,
  tally_runs, index_slots,
}
use mgds.Campaign.Report.{
  aggregate_campaign, count_orphans, count_unknown, count_agreeing, agreement_key, fairness_key,
  enforce_evaluator_fairness, enforce_soak_coverage,
}
use mgds.Release.{
  expected_slots, required_hosts, required_harnesses, required_seeds, required_repetitions,
  slot_identity, expected_task, expected_campaign, valid_p2_plan, HostEvidence, is_preview,
  is_source_digest, valid_host_evidence,
}
use mgds.Release.Manifest.{Encoding, review_target_hash, release_subject_hash}
use mgds.Release.Gate.{
  valid_finding_counts, target_of, subject_of, gate_of, evaluate_p2_release_gate, result_passes,
  valid_review_signature, valid_release_signature,
}
use mgds.Release.Input.{GateInput, ready}
use mgds.Release.Ready.{Released}
use mgds.Release.Released.{RunOf, ready-Released, ready_has_every_run}
use mgds.Trust.{Crypto, is_signature, public_key_fingerprint}
use mgds.Tests.Toy.{hash_a, perfect, evidence, run_for, lenient, toy, authority}
use mgds.Tests.Toy

abbrev slot_at : Text → Text → ℕ → ℕ → Slot
slot_at host harness seed repetition = record {
  slot_id = slot_identity expected_task host harness seed repetition;
  campaign_id = expected_campaign;
  task_id = expected_task;
  task_hash = hash_a;
  budget_hash = hash_a;
  environment_hash = hash_a;
  required_evidence = evidence;
  build_target = lit "desktop";
  host = host;
  harness = harness;
  seed = seed;
  repetition = repetition;
}

abbrev grid : List Slot
unfolding flat_map
grid =
    flat_map
      (λ host.
        flat_map
          (λ harness.
            flat_map (λ seed. map (slot_at host harness seed) required_repetitions) required_seeds)
          required_harnesses)
      required_hosts

abbrev plan : Plan
plan = record {
  campaign_id = expected_campaign;
  thresholds = perfect;
  soak_minutes = 240;
  slots = grid;
}

plan_valid : valid_p2_plan plan ≡ true
unfolding valid_p2_plan get put print_ℕ grid canonical
plan_valid = refl

abbrev one_slot : Text
one_slot = slot_identity expected_task (lit "linux-x64") (lit "codex") 7331 5

in_grid : has expected_slots one_slot ≡ true
unfolding expected_slots print_ℕ
in_grid = refl

abbrev runs : List Run
runs =
    map
      (λ slot. run_for slot (
        lit "run_0000000000000000"
        ++ (slot.host ++ (slot.harness ++ (print_ℕ slot.seed ++ print_ℕ slot.repetition)))))
      grid

abbrev reported : Outcome
reported = record {
  campaign_id = expected_campaign;
  status = pass;
  metrics = record {
    expected_runs = 90;
    recorded_runs = 90;
    missing_runs = 0;
    valid_runs = 90;
    t0_pass_rate = record { top = 90; bottom = 90 };
    seed_agreement = record { top = 18; bottom = 18 };
    orphan_processes = 0;
    unknown_workspace_states = 0;
  };
  missing_slot_ids = [];
  failures = [];
}

campaign_passes : aggregate_campaign lenient plan runs ≡ some reported
unfolding grid aggregate_campaign accept check_run canonical_texts canonical is_hash matches_class
    is_versioned valid_evaluator_identity count_orphans count_unknown count_agreeing agreement_key
    fairness_key group_by distinct below enforce_evaluator_fairness enforce_soak_coverage get put
    tally_runs index_slots print_ℕ
campaign_passes = refl

-- a stand-in that does not look at the text
abbrev crypto : Crypto
crypto = record Toy.crypto { sha256 = λ t. zeros 64 }

abbrev pub encoding : Encoding
encoding = record {
  plan = λ p. str p.campaign_id;
  run = λ run. str run.slot_id;
  outcome = λ o. null;
  review = λ review. null;
  trust = λ trusted. null;
  locale_le = λ s t. not (text_lt t s);
}

abbrev evidence_of : Text → HostEvidence
evidence_of host = record {
  host = host;
  status = lit "pass";
  artifact_hash = hash_a;
  attestation_verified = true;
  repository = lit "gmackie/mgds";
  workflow_ref = lit "gmackie/mgds/.github/workflows/conformance.yml@refs/heads/main";
  source_digest = zeros 40;
  subject_digest = hash_a;
  verification_digest = hash_a;
}

abbrev fingerprint : Text
fingerprint = lit "sha256:" ++ toy (lit "key")

abbrev unsigned : GateInput
unsigned = record {
  candidate = record { status = lit "candidate"; version = lit "0.1.0-preview.1" };
  candidate_hash = hash_a;
  campaign_plan = plan;
  campaign_runs = runs;
  trusted_evaluator_fingerprints = [];
  verified_host_evidence = map evidence_of required_hosts;
  review = none;
  review_report_hash = hash_a;
  reviewer_authorities = (lit "reviewer", authority) ∷ [];
  trusted_reviewer_fingerprints = (lit "reviewer", fingerprint) ∷ [];
  signing = none;
  release_authorities = (lit "mgds-release-authority", authority) ∷ [];
  trusted_release_authority_fingerprint = fingerprint;
  release_source_digest = zeros 40;
  release_source_state = record {
    head_digest = zeros 40;
    clean = true;
    tracked_inputs_verified = true;
  };
}

abbrev unreviewed : GateInput
unreviewed = record unsigned {
  review = some (record {
    status = lit "approved";
    independent = true;
    findings = record {
      critical = some (pos 0);
      high = some (pos 0);
      medium = some (pos 2);
      low = some (pos 5);
    };
    report_hash = hash_a;
    target_hash = target_of crypto encoding unsigned (some reported);
    reviewer_id = lit "reviewer";
    reviewer_algorithm = lit "Ed25519";
    signature = lit "signed";
  });
}

abbrev release : GateInput
release = record unreviewed {
  signing = some (record {
    status = lit "signed";
    authority = some (lit "mgds-release-authority");
    algorithm = lit "Ed25519";
    subject_hash = subject_of crypto encoding unreviewed (some reported);
    signature = lit "signed";
  });
}

release_ready : (gate_of crypto encoding release (some reported)).status ≡ ready
unfolding grid canonical is_hash is_preview is_source_digest valid_host_evidence result_passes
    valid_p2_plan valid_review_signature valid_release_signature is_signature public_key_fingerprint
    toy get put print_ℕ valid_finding_counts review_target_hash release_subject_hash
release_ready = refl

evaluated : (evaluate_p2_release_gate crypto encoding lenient release).status ≡ ready
unfolding evaluate_p2_release_gate
evaluated =
    subst (λ r. (gate_of crypto encoding release r).status ≡ ready) (sym campaign_passes)
      release_ready

ready-Released_example : Released crypto encoding lenient release
ready-Released_example = ready-Released crypto encoding lenient release evaluated

ready_has_every_run_example : RunOf lenient runs one_slot
ready_has_every_run_example =
    ready_has_every_run crypto encoding lenient release one_slot evaluated in_grid
