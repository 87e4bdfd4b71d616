-- ===== src/Tests/Sealing.antt =====
-- The inputs of a small campaign sealed, the evidence of one host verified, and a checkout of one input.
use mgds.Prelude.{
  Dict, List, Option, Text, [], arith, eqb, err, every, get, has, if◌then◌else◌, is_hash, length,
  lit, nat_eq, none, ok, refl, some, text_eq, true, zeros, ◌&&◌, ◌++◌, ◌==◌, ◌∷◌, ◌≡◌,
}
use mgds.Json.{Value, str, arr, obj, nil, cons, end, field, canonical}
use mgds.Campaign.Types.{Plan}
use mgds.Campaign.Plan.{Config, Task, build_campaign_plan}
use mgds.Campaign.Sealing.{Descriptor, Files, environments_of, seal_campaign_inputs}
use mgds.Campaign.Sealing.Planned.{sealed_inputs_planned}
use mgds.Campaign.Aggregate.{distinct}
use mgds.Release.{HostEvidence, valid_host_evidence, required_hosts}
use mgds.Release.Hosts.{HostEntry, Host, evidence_of, verify_host_evidence_entries}
use mgds.Release.Checkout.{verify_release_checkout, not_tracked}
use mgds.Release.Hosts.Accepted.{AllAttested, verified_hosts_accepted}
use mgds.Tests.Toy.{toy, perfect}

abbrev tagged : Text → Text
tagged t = lit "sha256:" ++ toy t

hash_shaped : (t : Text) → is_hash (tagged t) ≡ true
unfolding is_hash toy
hash_shaped t = ground arith

abbrev manifest : Value
manifest = obj (
    field (lit "id") (str (lit "mgds.task@0.1.0")) (
      field (lit "budgets") (obj end) (
        field (lit "evidence") (arr (cons (str (lit "compile")) nil)) (
          field (lit "terminal") (obj (field (lit "buildTarget") (str (lit "desktop")) end)) end))))

abbrev pub files : Files
files = record {
  read_file = λ path. some path;
  parse = λ bytes. if bytes == lit "tasks/one.json" then some manifest else none;
  hash_bytes = tagged;
  hash_text = tagged;
}

abbrev pub config : Config
config = record {
  id = lit "mgds.campaign.small@0.1.0";
  harnesses = lit "codex" ∷ [];
  hosts = lit "linux-x64" ∷ [];
  seeds = 7 ∷ [];
  repeat_runs = 1;
  soak_minutes = 60;
  thresholds = perfect;
}

abbrev pub descriptor : Descriptor
descriptor = record { id = lit "mgds.task@0.1.0"; path = lit "tasks/one.json" }

abbrev pub task : Task
task = record {
  id = lit "mgds.task@0.1.0";
  hash = tagged (lit "tasks/one.json");
  budget_hash = tagged (lit "{}");
  evidence = lit "compile" ∷ [];
  build_target = lit "desktop";
}

abbrev pub environments : Dict Text Text
environments =
    environments_of files ((lit "host.json", tagged (lit "host.json")) ∷ []) (lit "linux-x64" ∷ [])

seals :
    seal_campaign_inputs files (λ d. d) config (descriptor ∷ []) (lit "host.json" ∷ [])
    ≡ ok (task ∷ [], environments)
unfolding seal_campaign_inputs canonical
seals = refl

sealed_inputs_planned_example :
    (plan : Plan) × (build_campaign_plan config (task ∷ []) environments ≡ ok plan)
sealed_inputs_planned_example =
    sealed_inputs_planned files hash_shaped hash_shaped (λ d. d) config (descriptor ∷ [])
      (lit "host.json" ∷ []) (task ∷ []) environments (refl, tt) refl seals

abbrev passed : Value → Value
passed status = obj (field (lit "status") status end)

abbrev conformance : Value
conformance = obj (
    field (lit "host") (str (lit "linux-x64")) (
      field (lit "adapters")
        (obj (
          field (lit "fake") (passed (str (lit "pass"))) (
            field (lit "unity") (passed (str (lit "pass"))) (
              field (lit "gmacko") (passed (str (lit "pass")))
                (field (lit "broken") (passed (str (lit "fail"))) end)))))
        end))

abbrev pub runtime : Host
runtime = record {
  hash_bytes = toy;
  hash_text = toy;
  read_file = λ path. some path;
  parse = λ bytes. some conformance;
  stringify = λ v. lit "statement";
  run_gh_verify = λ path digest. some ((toy (lit "other") ∷ []) ∷ (toy path ∷ []) ∷ []);
}

abbrev pub entry : HostEntry
entry = record { artifact_path = lit "linux.json"; host = lit "linux-x64" }

abbrev pub items : List HostEvidence
items = evidence_of runtime (zeros 40) entry (toy (lit "linux.json")) ∷ []

verifies : verify_host_evidence_entries runtime (zeros 40) (entry ∷ []) ≡ ok items
unfolding verify_host_evidence_entries toy
verifies = refl

verified_hosts_accepted_example :
    AllAttested runtime (zeros 40) (entry ∷ []) items
    × (valid_host_evidence items (zeros 40) ≡ (
        eqb 1 3
        && eqb (length (distinct [] (lit "linux-x64" ∷ []))) 3
        && every (λ host. has (lit "linux-x64" ∷ []) host) required_hosts))
verified_hosts_accepted_example =
    verified_hosts_accepted runtime (zeros 40) hash_shaped hash_shaped (entry ∷ []) items verifies

-- what git prints for a clean checkout with one input
abbrev git : List Text → Option Text
git (command ∷ arguments) =
    if command == lit "rev-parse"
    then some (zeros 40 ++ lit "\n")
    else if command == lit "status"
    then some (lit "\n")
    else some (lit "100644 " ++ zeros 40 ++ lit " 0\trun.json\n")
git [] = none

checks_out :
    verify_release_checkout git (zeros 40) (lit "run.json" ∷ lit "run.json" ∷ [])
    ≡ ok (record { head_digest = zeros 40; clean = true; tracked_inputs_verified = true })
unfolding verify_release_checkout get
checks_out = refl

untracked : verify_release_checkout git (zeros 40) (lit "other.json" ∷ []) ≡ err not_tracked
unfolding verify_release_checkout get
untracked = refl
