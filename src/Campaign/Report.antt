-- ===== src/Campaign/Report.antt =====
-- packages/campaign/src/index.mjs, `aggregateCampaign`: what is made of the accepted runs. The answer
-- is `none` where the schema of the plan is refused, which throws.
use mgds.Prelude.{
  Bool, Dict, List, Option, Text, [], any, collect, eqb, has, if◌then◌else◌, join, keep, leb,
  length, lit, map, nat_eq, none, not, print_ℕ, some, suc, text_eq, zero, ℕ, ◌&&◌, ◌++◌, ◌+◌, ◌==◌,
  ◌||◌, ◌∷◌,
}
use mgds.Campaign.Types.{
  Rate, Thresholds, Slot, Plan, Run, Failure, pass_rate_threshold, seed_agreement_threshold,
  orphan_threshold, workspace_threshold, fairness_mismatch, soak_not_met, Status, invalid,
  incomplete, pass, Outcome,
}
use mgds.Campaign.Aggregate.{
  Checks, Tally, below, distinct, group_by, index_slots, is_some_true, no_runs,
  non_negative_integer, tally_runs,
}

-- two names with the separator of slot identities between
abbrev pub pair_key : Text → Text → Text
pair_key host harness = host ++ (lit "::" ++ harness)

unfoldable pub agreement_key : Run → Text
unfolding print_ℕ
agreement_key run = join (lit "::") (run.task_id ∷ run.host ∷ run.harness ∷ print_ℕ run.seed ∷ [])

unfoldable pub fairness_key : Run → Text
unfolding print_ℕ
fairness_key run =
    join (lit "::") (run.task_id ∷ run.host ∷ print_ℕ run.seed ∷ print_ℕ run.repetition ∷ [])

abbrev evaluator_identity : Run → Text
evaluator_identity run = run.evaluator.id ++ b':' ∷ run.evaluator.digest

-- `enforceEvaluatorFairness`
abbrev fairness_tests : Dict Text (List Run) → List (Bool × Failure)
fairness_tests [] = []
fairness_tests ((key, group) ∷ groups) =
    (leb (length (distinct [] (map evaluator_identity group))) 1, fairness_mismatch key)
    ∷ fairness_tests groups

unfoldable pub enforce_evaluator_fairness : List Run → List Failure
enforce_evaluator_fairness runs = collect (fairness_tests (group_by fairness_key [] runs))

-- whether a run covers the soak of a host and a harness
abbrev pub covers : Plan → List Text → Text → Run → Bool
covers plan attested_slots key run =
    pair_key run.host run.harness == key
    && is_some_true run.soak
    && leb plan.soak_minutes run.duration_minutes
    && has attested_slots run.slot_id

abbrev pub soak_tests : Plan → List Run → List Text → List Text → List (Bool × Failure)
soak_tests plan runs attested_slots [] = []
soak_tests plan runs attested_slots (key ∷ keys) =
    (any (covers plan attested_slots key) runs, soak_not_met key)
    ∷ soak_tests plan runs attested_slots keys

unfoldable pub enforce_soak_coverage : Plan → List Run → List Text → List Failure
unfolding distinct
enforce_soak_coverage plan runs attested_slots = collect (
    soak_tests plan runs attested_slots
      (distinct [] (map (λ slot. pair_key slot.host slot.harness) plan.slots)))

abbrev pub count_valid : List Run → ℕ
count_valid runs = length (keep (λ run. run.verdict == lit "valid") runs)

unfoldable pub count_orphans : List Run → ℕ
count_orphans [] = 0
count_orphans (run ∷ runs) = non_negative_integer run.orphan_processes + count_orphans runs

unfoldable pub count_unknown : List Run → ℕ
count_unknown runs = length (keep (λ run. not (run.workspace_state == lit "known-clean")) runs)

-- the groups of one verdict
unfoldable pub count_agreeing : Dict Text (List Run) → ℕ
count_agreeing groups =
    length (keep (λ group. eqb (length (distinct [] (map (λ run. run.verdict) group.1))) 1) groups)

abbrev pub threshold_tests : Thresholds → List Run → List (Bool × Failure)
threshold_tests thresholds accepted =
    let groups = group_by agreement_key [] accepted in
    (
      eqb (length accepted) 0
          || not (below (count_valid accepted) (length accepted) thresholds.t0_pass_rate),
      pass_rate_threshold,
    )
    ∷ (
      eqb (length accepted) 0
          || not (below (count_agreeing groups) (length groups) thresholds.seed_agreement),
      seed_agreement_threshold,
    )
    ∷ (leb (count_orphans accepted) thresholds.orphan_processes, orphan_threshold)
    ∷ (leb (count_unknown accepted) thresholds.unknown_workspace_states, workspace_threshold)
    ∷ []

abbrev pub missing_ids : List Text → List Slot → List Text
missing_ids seen slots =
    map (λ slot. slot.slot_id) (keep (λ slot. not (has seen slot.slot_id)) slots)

abbrev pub soak_failures : Plan → Tally → List Text → List Failure
soak_failures plan tally [] = enforce_soak_coverage plan tally.accepted tally.attested_slots
soak_failures plan tally (id ∷ ids) = []

-- everything that is pushed to `failures`
abbrev pub all_failures : Plan → Tally → List Failure
all_failures plan tally =
    tally.failures
    ++ (collect (threshold_tests plan.thresholds tally.accepted)
        ++ (enforce_evaluator_fairness tally.accepted
            ++ soak_failures plan tally (missing_ids tally.seen plan.slots)))

abbrev pub status_of : List Failure → List Text → Status
status_of [] [] = pass
status_of [] (id ∷ ids) = incomplete
status_of (failure ∷ failures) ids = invalid

-- `ratio`, kept as a fraction
abbrev pub ratio : ℕ → ℕ → Rate
ratio numerator zero = record { top = 0; bottom = 1 }
ratio numerator (suc n) = record { top = numerator; bottom = suc n }

abbrev pub outcome : Plan → Tally → Outcome
outcome plan tally =
    let missing = missing_ids tally.seen plan.slots in
    let groups = group_by agreement_key [] tally.accepted in
    record {
      campaign_id = plan.campaign_id;
      status = status_of (all_failures plan tally) missing;
      metrics = record {
        expected_runs = length plan.slots;
        recorded_runs = length tally.accepted;
        missing_runs = length missing;
        valid_runs = count_valid tally.accepted;
        t0_pass_rate = ratio (count_valid tally.accepted) (length tally.accepted);
        seed_agreement = ratio (count_agreeing groups) (length groups);
        orphan_processes = count_orphans tally.accepted;
        unknown_workspace_states = count_unknown tally.accepted;
      };
      missing_slot_ids = missing;
      failures = all_failures plan tally;
    }

unfoldable pub aggregate_campaign : Checks → Plan → List Run → Option Outcome
unfolding tally_runs index_slots
aggregate_campaign checks plan runs =
    if checks.plan_ok plan
    then some (outcome plan (tally_runs checks (index_slots [] plan.slots) no_runs runs))
    else none
