-- ===== src/Campaign/Plan.antt =====
-- packages/campaign/src/index.mjs, `validateConfig` and `buildCampaignPlan`.
pub mod Slots
pub mod Built
use mgds.Prelude.{
  Bool, Dict, List, Option, Result, Text, [], eqb, err, every, false, flat_map, get, if◌then◌else◌,
  is_digit, is_hash, is_lower, is_unique, join, leb, length, lit, ltb, map, map_ok, nat_eq, none,
  not, ok, print_ℕ, some, suc, text_eq, true, zero, ℕ, ◌&&◌, ◌++◌, ◌||◌, ◌∷◌,
}
use mgds.Campaign.Types.{Rate, Thresholds, Slot, Plan}

pub record Config : Type 0 where
  pub id : Text
  pub harnesses : List Text
  pub hosts : List Text
  pub seeds : List ℕ
  pub repeat_runs : ℕ
  pub soak_minutes : ℕ
  pub thresholds : Thresholds

-- a sealed task
pub record Task : Type 0 where
  pub id : Text
  pub hash : Text
  pub budget_hash : Text
  pub evidence : List Text
  pub build_target : Text

pub data PlanError : Type 0 where
  id_required tasks_required tasks_not_unique task_incomplete : PlanError
  required not_unique out_of_range : Text → PlanError
  environment_required : Text → PlanError

abbrev pub is_empty : {A : Type 0} → List A → Bool
is_empty [] = true
is_empty (x ∷ xs) = false

-- `threshold >= 0 && threshold <= 1`
abbrev in_unit : Rate → Bool
in_unit rate = ltb 0 rate.bottom && leb rate.top rate.bottom

-- the first error that `validateConfig` throws
unfoldable pub config_error : Config → Option PlanError
config_error config =
    if is_empty config.id
    then some id_required
    else if is_empty config.harnesses
    then some (required (lit "harnesses"))
    else if not (is_unique config.harnesses)
    then some (not_unique (lit "harnesses"))
    else if is_empty config.hosts
    then some (required (lit "hosts"))
    else if not (is_unique config.hosts)
    then some (not_unique (lit "hosts"))
    else if is_empty config.seeds
    then some (required (lit "seeds"))
    else if not (is_unique config.seeds)
    then some (not_unique (lit "seeds"))
    else if ltb config.repeat_runs 1
    then some (out_of_range (lit "repeatRuns"))
    else if ltb config.soak_minutes 1 || ltb 1440 config.soak_minutes
    then some (out_of_range (lit "soakMinutes"))
    else if not (in_unit config.thresholds.seed_agreement)
    then some (out_of_range (lit "seedAgreement"))
    else if not (in_unit config.thresholds.t0_pass_rate)
    then some (out_of_range (lit "t0PassRate"))
    else none

-- /^[a-z][a-z0-9-]{1,63}$/
abbrev is_role : Text → Bool
is_role [] = false
is_role (c ∷ s) =
    is_lower c
    && leb 1 (length s)
    && leb (length s) 63
    && every (λ d. is_lower d || is_digit d || eqb d b'-') s

unfoldable pub valid_evidence_roles : List Text → Bool
valid_evidence_roles roles = not (is_empty roles) && every is_role roles && is_unique roles

unfoldable pub valid_task : Task → Bool
unfolding valid_evidence_roles is_hash
valid_task task =
    not (is_empty task.id)
    && is_hash task.hash
    && is_hash task.budget_hash
    && valid_evidence_roles task.evidence
    && not (is_empty task.build_target)

-- the numbers from `first`, `n` of them
abbrev pub numbers : ℕ → ℕ → List ℕ
numbers first zero = []
numbers first (suc n) = first ∷ numbers (suc first) n

abbrev pub slot_name : Text → Text → Text → ℕ → ℕ → Text
slot_name task host harness seed repetition =
    join (lit "::") (task ∷ host ∷ harness ∷ print_ℕ seed ∷ print_ℕ repetition ∷ [])

unfoldable pub make_slot : Config → Task → Text → Text → Text → ℕ → ℕ → Slot
unfolding print_ℕ
make_slot config task environment_hash host harness seed repetition = record {
  slot_id = slot_name task.id host harness seed repetition;
  campaign_id = config.id;
  task_id = task.id;
  task_hash = task.hash;
  budget_hash = task.budget_hash;
  environment_hash = environment_hash;
  required_evidence = task.evidence;
  build_target = task.build_target;
  host = host;
  harness = harness;
  seed = seed;
  repetition = repetition;
}

-- the three inner loops
unfoldable pub host_slots : Config → Task → Text → Text → List Slot
unfolding make_slot flat_map
host_slots config task environment_hash host =
    flat_map
      (λ harness.
        flat_map
          (λ seed.
            map (λ repetition. make_slot config task environment_hash host harness seed repetition)
              (numbers 1 config.repeat_runs))
          config.seeds)
      config.harnesses

abbrev pub then_rest :
    {B : Type 0} → Result PlanError (List B) → Result PlanError (List B) → Result PlanError (List B)
then_rest (err e) rest = err e
then_rest (ok ys) rest = map_ok (λ zs. ys ++ zs) rest

-- a loop that pushes what its rounds give, until one of them throws
unfoldable pub each :
    {A B : Type 0} → (A → Result PlanError (List B)) → List A → Result PlanError (List B)
each f [] = ok []
each f (x ∷ xs) = let rest = each f xs in then_rest (f x) rest

-- `environments?.[host]`, if it is a hash
abbrev pub sealed : Option Text → Option Text
sealed none = none
sealed (some hash) = if is_hash hash then some hash else none

abbrev pub when_sealed : Config → Task → Text → Option Text → Result PlanError (List Slot)
when_sealed config task host none = err (environment_required host)
when_sealed config task host (some hash) = ok (host_slots config task hash host)

abbrev pub task_slots : Config → Dict Text Text → Task → Result PlanError (List Slot)
task_slots config environments task =
    if valid_task task
    then each (λ host. when_sealed config task host (sealed (get environments host))) config.hosts
    else err task_incomplete

abbrev pub plan_of : Config → List Slot → Plan
plan_of config slots = record {
  campaign_id = config.id;
  thresholds = config.thresholds;
  soak_minutes = config.soak_minutes;
  slots = slots;
}

abbrev pub unless : {A : Type 0} → Option PlanError → Result PlanError A → Result PlanError A
unless none r = r
unless (some e) r = err e

unfoldable pub build_campaign_plan : Config → List Task → Dict Text Text → Result PlanError Plan
unfolding config_error each host_slots valid_task
build_campaign_plan config tasks environments = unless (config_error config) (
    if is_empty tasks
    then err tasks_required
    else if not (is_unique (map (λ task. task.id) tasks))
    then err tasks_not_unique
    else map_ok (plan_of config) (each (task_slots config environments) tasks))
