-- ===== src/Release/Script.antt =====
-- scripts/check-p2-release.mjs, which seals and plans the campaign, checks the checkout, loads the
-- evidence, verifies the hosts and asks the gate; and `sourceBoundReleaseInputs` of
-- packages/release/src/source-checkout.mjs.
pub mod Backed
use mgds.Prelude.{
  Dict, List, Option, Result, Text, [], err, get, if◌then◌else◌, lit, map, nat_eq, none, ok, some,
  text_eq, ℕ, ◌*◌, ◌++◌, ◌>>◌, ◌∷◌,
}
use mgds.Json.{Value}
use mgds.Campaign.Types.{Plan, Run, Failure, Slot, evidence_problem}
use mgds.Campaign.Plan.{Config, Task, PlanError, build_campaign_plan}
use mgds.Campaign.Sealing.{Descriptor, Files, SealError, seal_campaign_inputs}
use mgds.Campaign.Aggregate.{Checks}
use mgds.Campaign.Attested.{verify_evidence_attestation}
use mgds.Evidence.Build.{Reader}
use mgds.Evidence.Check.{Problem, Bundle, verify_evidence_bundle}
use mgds.Evidence.Load.{LoadError, load_campaign_evidence}
use mgds.Release.{HostEvidence, is_source_digest}
use mgds.Release.Hosts.{Host, HostEntry, HostError, verify_host_evidence_entries}
use mgds.Release.Checkout.{CheckoutError, verify_release_checkout}
use mgds.Release.Manifest.{Encoding, Review}
use mgds.Release.Input.{
  Candidate, Gate, GateInput, GateStatus, Signing, SourceState, ready, blocked,
}
use mgds.Release.Gate.{evaluate_p2_release_gate}
use mgds.Release.Options.{
  ScriptError, ◌>>=◌, throw_as, found, sealing, planning, loading, hosting, or_else_this, option,
  parse_options,
}
use mgds.Release.World.{Campaign, World, Gathered, pending_review, pending_signing, unverified}
use mgds.Trust.{Crypto, Authority}

abbrev pub bundle_paths : Dict Text Text → List Text
bundle_paths [] = []
bundle_paths ((hash, path) ∷ index) = path ∷ bundle_paths index

unfoldable pub source_bound_release_inputs : Dict Text Text → Campaign → Dict Text Text → List Text
unfolding get
source_bound_release_inputs options campaign index =
    option options (lit "candidate")
    ∷ option options (lit "config")
    ∷ option options (lit "runs")
    ∷ option options (lit "evidence")
    ∷ option options (lit "hosts")
    ∷ option options (lit "evaluators")
    ∷ (map (λ (d : Descriptor). d.path) campaign.tasks
        ++ (campaign.environment_inputs ++ bundle_paths index))

-- what `verifyReleaseCheckout` throws is caught
abbrev pub or_unverified : Result CheckoutError SourceState → SourceState
or_unverified (ok state) = state
or_unverified (err x) = unverified

abbrev pub problem_failures : (Problem → Text) → Run → Option Problem → List Failure
problem_failures message run none = []
problem_failures message run (some problem) = evidence_problem run.slot_id (message problem) ∷ []

-- a digest over bytes that are there, and otherwise none
abbrev pub report_hash : (List ℕ → Text) → Option (List ℕ) → Text
report_hash hash none = []
report_hash hash (some []) = []
report_hash hash (some (b ∷ bytes)) = lit "sha256:" ++ hash (b ∷ bytes)

module _ (world : World) where
  abbrev pub release_source_digest : Text
  release_source_digest = or_else_this [] (world.environment (lit "MGDS_RELEASE_SOURCE_DIGEST"))

  -- `parseTrustMap`
  abbrev pub trusted : Text → Option Text → Result ScriptError (Dict Text Text)
  trusted name none = ok []
  trusted name (some []) = ok []
  trusted name (some (c ∷ text)) = found name (world.trust_map (c ∷ text))

  abbrev pub parse_trust_map : Text → Result ScriptError (Dict Text Text)
  parse_trust_map name = trusted name (world.environment name)

  unfoldable pub release_source_state : List Text → SourceState
  unfolding is_source_digest verify_release_checkout
  release_source_state paths =
      if is_source_digest release_source_digest
      then or_unverified (verify_release_checkout world.run_git release_source_digest paths)
      else unverified

  -- the hosts are verified where the checkout is clean
  unfoldable pub verified_hosts :
      SourceState → List HostEntry → Result HostError (List HostEvidence)
  unfolding verify_host_evidence_entries
  verified_hosts state entries =
      if state.clean
      then verify_host_evidence_entries world.host release_source_digest entries
      else ok []

  -- what the gate's campaign asks, with the loaded evidence
  unfoldable pub gate_checks : Dict Text Authority → Dict Text Text → Dict Text Bundle → Checks
  unfolding verify_evidence_attestation verify_evidence_bundle
  gate_checks authorities trust bundles = record {
    plan_ok = world.plan_ok;
    run_ok = world.run_ok;
    attested = verify_evidence_attestation world.crypto authorities trust;
    bundle_failures = λ run slot.
        problem_failures world.message run
          (verify_evidence_bundle world.reader bundles run (some slot));
  }

  -- `sealCampaignInputs` and `buildCampaignPlan`
  unfoldable pub campaign_plan : Campaign → Result ScriptError Plan
  unfolding seal_campaign_inputs build_campaign_plan
  campaign_plan campaign = do
    (tasks, environments) ← throw_as sealing (
        seal_campaign_inputs world.files world.in_order campaign.config campaign.tasks
          campaign.environment_inputs)
    throw_as planning (build_campaign_plan campaign.config tasks environments)

  abbrev pub base_checks : Checks
  base_checks = gate_checks [] [] []

  abbrev pub state_of : Dict Text Text → Campaign → Dict Text Text → SourceState
  state_of options campaign index =
      release_source_state (source_bound_release_inputs options campaign index)

  unfoldable pub gather : List Text → Result ScriptError Gathered
  unfolding campaign_plan load_campaign_evidence verified_hosts gate_checks
  gather args = do
    options ← parse_options args
    candidate_bytes ←
        found (lit "candidate") (world.candidate_bytes (option options (lit "candidate")))
    campaign ← found (lit "config") (world.campaign (option options (lit "config")))
    plan ← campaign_plan campaign
    runs ← found (lit "runs") (world.runs (option options (lit "runs")))
    index ← found (lit "evidence") (world.index (option options (lit "evidence")))
    entries ← found (lit "hosts") (world.hosts (option options (lit "hosts")))
    evaluators ← found (lit "evaluators") (world.authorities (option options (lit "evaluators")))
    bundles ← throw_as loading (
        load_campaign_evidence world.reader world.read_evidence_file base_checks world.index_ok plan
          runs index)
    items ← throw_as hosting (verified_hosts (state_of options campaign index) entries)
    candidate ← found (lit "candidate") (world.candidate candidate_bytes)
    evaluator_trust ← parse_trust_map (lit "MGDS_TRUSTED_EVALUATOR_FINGERPRINTS")
    reviewer_trust ← parse_trust_map (lit "MGDS_TRUSTED_REVIEWER_FINGERPRINTS")
    ok (record {
      options = options;
      candidate_bytes = candidate_bytes;
      candidate = candidate;
      campaign = campaign;
      plan = plan;
      runs = runs;
      index = index;
      entries = entries;
      evaluators = evaluators;
      bundles = bundles;
      items = items;
      evaluator_trust = evaluator_trust;
      reviewer_trust = reviewer_trust;
    })

  abbrev pub authorities_or_none : Text → Dict Text Authority
  authorities_or_none path = or_else_this [] (world.authorities path)

  abbrev pub input_of : Gathered → GateInput
  input_of g = record {
    candidate = g.candidate;
    candidate_hash = lit "sha256:" ++ world.crypto.sha256_bytes g.candidate_bytes;
    campaign_plan = g.plan;
    campaign_runs = g.runs;
    trusted_evaluator_fingerprints = g.evaluator_trust;
    verified_host_evidence = g.items;
    review = some (or_else_this pending_review (world.review (option g.options (lit "review"))));
    review_report_hash =
        report_hash world.crypto.sha256_bytes
          (world.read_evidence_file (option g.options (lit "review-report")) (16 * 1024 * 1024));
    reviewer_authorities = authorities_or_none (option g.options (lit "reviewers"));
    trusted_reviewer_fingerprints = g.reviewer_trust;
    signing =
        some (or_else_this pending_signing (world.signing (option g.options (lit "signing"))));
    release_authorities = authorities_or_none (option g.options (lit "release-authorities"));
    trusted_release_authority_fingerprint =
        or_else_this [] (world.environment (lit "MGDS_RELEASE_AUTHORITY_FINGERPRINT"));
    release_source_digest = release_source_digest;
    release_source_state = state_of g.options g.campaign g.index;
  }

  abbrev pub checks_of : Gathered → Checks
  checks_of g = gate_checks g.evaluators g.evaluator_trust g.bundles

  abbrev pub gate_of : Gathered → Gate
  gate_of g = evaluate_p2_release_gate world.crypto world.encoding (checks_of g) (input_of g)

  abbrev pub check_gathered : Result ScriptError Gathered → Result ScriptError Gate
  check_gathered (ok g) = ok (gate_of g)
  check_gathered (err x) = err x

  unfoldable pub check_p2_release : List Text → Result ScriptError Gate
  unfolding gather evaluate_p2_release_gate gate_checks
  check_p2_release args = check_gathered (gather args)

  abbrev pub code_of : GateStatus → ℕ
  code_of ready = 0
  code_of blocked = 1

  -- `process.exitCode`; an error that is not caught ends the process with 1
  abbrev pub exit_code : Result ScriptError Gate → ℕ
  exit_code (ok gate) = code_of gate.status
  exit_code (err x) = 1
