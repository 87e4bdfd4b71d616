-- ===== src/Tests/Script.antt =====
-- A run of scripts/check-p2-release.mjs on a small campaign, from its options to what the gate is given.
use mgds.Prelude.{
  Dict, List, Option, Result, Text, [], drop, err, if◌then◌else◌, lit, map, nat_eq, none, ok, refl,
  some, text_eq, true, zeros, ◌++◌, ◌==◌, ◌↔◌, ◌∷◌, ◌≡◌,
}
use mgds.Campaign.Types.{Plan, Run}
use mgds.Campaign.Plan.{PlanError, build_campaign_plan}
use mgds.Campaign.Sealing.{environments_of, seal_campaign_inputs}
use mgds.Evidence.Load.{load_campaign_evidence, mark}
use mgds.Release.Hosts.Accepted.{AllAttested}
use mgds.Release.Input.{Candidate, ready}
use mgds.Release.Options.{
  ◌>>=◌, throw_as, found, parse_options, option_required, invalid_argument, required_options,
}
use mgds.Release.World.{World, Campaign, Gathered}
use mgds.Release.Script.{
  gather, gate_of, source_bound_release_inputs, release_source_state, state_of, verified_hosts,
  campaign_plan, check_p2_release, exit_code,
}
use mgds.Release.Script.Backed.{Backing, Tracked, gathered_is_backed}
use mgds.Json.{canonical}
use mgds.Tests.Toy.{toy, authority, crypto}
use mgds.Tests.Evidence.{reader_for}
use mgds.Tests.Evidence
use mgds.Tests.Sealing.{config, descriptor, files, runtime, entry, items, task, environments}
use mgds.Tests.Release.{encoding}

abbrev small : Campaign
small = record {
  config = config;
  tasks = descriptor ∷ [];
  environment_inputs = lit "host.json" ∷ [];
}

abbrev candidate : Candidate
candidate = record { status = lit "candidate"; version = lit "0.1.0-preview.1" }

-- each option has a file of its own name
abbrev args_of : List Text → List Text
args_of [] = []
args_of (name ∷ names) = (lit "--" ++ name) ∷ (name ++ lit ".json") ∷ args_of names

abbrev args : List Text
args = args_of required_options

missing_output :
    parse_options (lit "--candidate" ∷ lit "candidate.json" ∷ [])
    ≡ err (option_required (lit "config"))
unfolding parse_options
missing_output = refl

not_an_option :
    parse_options (lit "candidate" ∷ lit "candidate.json" ∷ [])
    ≡ err (invalid_argument (lit "candidate"))
unfolding parse_options
not_an_option = refl

abbrev listing : List Text → Text
listing [] = []
listing (path ∷ paths) =
    lit "100644 " ++ (zeros 40 ++ (lit " 0\t" ++ (path ++ (b'\n' ∷ listing paths))))

abbrev git : List Text → Option Text
git (command ∷ arguments) =
    if command == lit "rev-parse"
    then some (zeros 40)
    else if command == lit "status"
    then some []
    else some (listing (drop 3 arguments))
git [] = none

abbrev slot_id : Text
slot_id = lit "mgds.task@0.1.0::linux-x64::codex::7::1"

abbrev run : Run
run = record Evidence.run { slot_id = slot_id }

abbrev small_world : World
small_world = record {
  candidate_bytes = λ path. some path;
  candidate = λ bytes. some candidate;
  campaign = λ path. some small;
  runs = λ path. some (run ∷ []);
  index = λ path. some ((run.evidence_hash, lit "evidence/one.json") ∷ []);
  hosts = λ path. some (entry ∷ []);
  review = λ path. none;
  signing = λ path. none;
  authorities = λ path. some ((lit "authority", authority) ∷ []);
  environment = λ name. if name == lit "MGDS_RELEASE_SOURCE_DIGEST" then some (zeros 40) else none;
  trust_map = λ text. none;
  files = files;
  in_order = λ d. d;
  read_evidence_file = λ path limit. some (lit "bundle");
  run_git = git;
  host = runtime;
  reader = reader_for slot_id;
  crypto = crypto;
  encoding = encoding;
  plan_ok = λ plan. true;
  run_ok = λ run. true;
  index_ok = λ index. true;
  message = λ problem. lit "problem";
}

abbrev options : Dict Text Text
options = map (λ name. (name, name ++ lit ".json")) required_options

abbrev plan_or : Result PlanError Plan → Plan
plan_or (ok plan) = plan
plan_or (err x) = Evidence.plan

abbrev gathered : Gathered
unfolding build_campaign_plan environments_of
gathered = record {
  options = options;
  candidate_bytes = lit "candidate.json";
  candidate = candidate;
  campaign = small;
  plan = plan_or (build_campaign_plan config (task ∷ []) environments);
  runs = run ∷ [];
  index = (run.evidence_hash, lit "evidence/one.json") ∷ [];
  entries = entry ∷ [];
  evaluators = (lit "authority", authority) ∷ [];
  bundles = (run.evidence_hash, mark run) ∷ [];
  items = items;
  evaluator_trust = [];
  reviewer_trust = [];
}

gathers : gather small_world args ≡ ok gathered
unfolding gather ◌>>=◌ throw_as found parse_options campaign_plan seal_campaign_inputs
    build_campaign_plan toy canonical load_campaign_evidence verified_hosts release_source_state
    source_bound_release_inputs
gathers = refl

clean : (state_of small_world options small gathered.index).clean ≡ true
unfolding release_source_state source_bound_release_inputs gathered
clean = refl

gathered_is_backed_example :
    Backing small_world args gathered
    × Tracked small_world (source_bound_release_inputs options small gathered.index)
    × AllAttested runtime (zeros 40) (entry ∷ []) items
    × ((exit_code small_world (check_p2_release small_world args) ≡ 0)
        ↔ ((gate_of small_world gathered).status ≡ ready))
unfolding gathered
gathered_is_backed_example = gathered_is_backed small_world args gathered gathers clean
