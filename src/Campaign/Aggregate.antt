-- ===== src/Campaign/Aggregate.antt =====
-- packages/campaign/src/index.mjs, `aggregateCampaign`: the loop over the runs.
use mgds.Prelude.{
  Bool, Dict, List, Option, Text, [], collect, eqb, every, false, get, has, if◌then◌else◌, is_hash,
  is_id, is_versioned, leb, length, lit, ltb, matches_class, nat_eq, none, not, pos, put, some,
  text_eq, true, ℕ, ℤ, ◌&&◌, ◌*◌, ◌++◌, ◌==◌, ◌||◌, ◌∷◌,
}
use mgds.Json.{Items, nil, cons, str, arr, canonical}
use mgds.Campaign.Types.{
  Rate, Slot, Plan, Evaluator, Run, Failure, unexpected_slot, duplicate_slot, duplicate_run,
  run_schema_invalid, mismatch, invalid_field, invalid_attestation,
}

abbrev pub items : List Text → Items
items [] = nil
items (t ∷ ts) = cons (str t) (items ts)

-- `canonical` of a list of strings
unfoldable pub canonical_texts : List Text → Text
canonical_texts ts = canonical (arr (items ts))

abbrev pub is_some_true : Option Bool → Bool
is_some_true (some b) = b
is_some_true none = false

abbrev is_some_false : Option Bool → Bool
is_some_false (some b) = not b
is_some_false none = false

abbrev is_boolean : Option Bool → Bool
is_boolean (some b) = true
is_boolean none = false

-- `Number.isInteger(value) && value >= 0`
abbrev is_count : Option ℤ → Bool
is_count (some (pos n)) = true
is_count _ = false

abbrev pub non_negative_integer : Option ℤ → ℕ
non_negative_integer (some (pos n)) = n
non_negative_integer _ = 0

abbrev or_empty : Option Text → Text
or_empty none = []
or_empty (some t) = t

-- whether `trim` leaves nothing: only blanks
abbrev is_blank : Text → Bool
is_blank t =
    every
      (λ c.
        eqb c b' '
        || (leb 9 c && leb c 13)
        || eqb c 160
        || eqb c 5760
        || (leb 8192 c && leb c 8202)
        || eqb c 8232
        || eqb c 8233
        || eqb c 8239
        || eqb c 8287
        || eqb c 12288
        || eqb c 65279)
      t

unfoldable pub valid_evaluator_identity : Evaluator → Bool
unfolding is_versioned is_hash
valid_evaluator_identity evaluator =
    is_versioned (lit "mgds.evaluator.") evaluator.id
    && evaluator.authority == lit "independent-evaluator"
    && is_hash evaluator.digest

-- `new Map(plan.slots.map((slot) => [slot.slotId, slot]))`
unfoldable pub index_slots : Dict Text Slot → List Slot → Dict Text Slot
index_slots d [] = d
index_slots d (slot ∷ slots) = index_slots (put d slot.slot_id slot) slots

-- `new Set(values).size`: the distinct values
unfoldable pub distinct : List Text → List Text → List Text
distinct seen [] = seen
distinct seen (x ∷ xs) = distinct (if has seen x then seen else seen ++ x ∷ []) xs

abbrev or_no_runs : Option (List Run) → List Run
or_no_runs none = []
or_no_runs (some runs) = runs

unfoldable pub group_by : (Run → Text) → Dict Text (List Run) → List Run → Dict Text (List Run)
group_by key groups [] = groups
group_by key groups (run ∷ runs) =
    group_by key (put groups (key run) (or_no_runs (get groups (key run)) ++ run ∷ [])) runs

-- whether `ratio(top, bottom) < threshold`
unfoldable pub below : ℕ → ℕ → Rate → Bool
below top bottom rate =
    if eqb bottom 0 then ltb 0 rate.top else ltb (top * rate.bottom) (rate.top * bottom)

-- the variables of the loop over the runs
pub record Tally : Type 0 where
  pub seen : List Text
  pub seen_runs : List Text
  pub accepted : List Run
  pub attested_slots : List Text
  pub failures : List Failure

abbrev pub no_runs : Tally
no_runs = record { seen = []; seen_runs = []; accepted = []; attested_slots = []; failures = [] }

abbrev is_repeated : List Text → Option Text → Bool
is_repeated seen_runs none = false
is_repeated seen_runs (some id) = has seen_runs id

abbrev remember : List Text → Option Text → List Text
remember seen_runs none = seen_runs
remember seen_runs (some id) = if has seen_runs id then seen_runs else id ∷ seen_runs

-- what the verdict asks of others: the two schema validators, the signature check and the check
-- of a run's evidence bundle against its slot
pub record Checks : Type 0 where
  pub plan_ok : Plan → Bool
  pub run_ok : Run → Bool
  pub attested : Run → Bool
  pub bundle_failures : Run → Slot → List Failure

module _ (checks : Checks) where
  -- the tests of a run against its slot, in the order of the source
  abbrev pub run_tests : List Text → Run → Slot → List (Bool × Failure)
  run_tests seen_runs run slot =
      let id = run.slot_id in
      (checks.run_ok run, run_schema_invalid id)
      ∷ (not (is_repeated seen_runs run.run_id), duplicate_run (or_empty run.run_id))
      ∷ (run.campaign_id == slot.campaign_id, mismatch (lit "campaignId") id)
      ∷ (run.task_id == slot.task_id, mismatch (lit "taskId") id)
      ∷ (run.task_hash == slot.task_hash, mismatch (lit "task hash") id)
      ∷ (run.budget_hash == slot.budget_hash, mismatch (lit "budget hash") id)
      ∷ (run.environment_hash == slot.environment_hash, mismatch (lit "environment hash") id)
      ∷ (
        canonical_texts run.required_evidence == canonical_texts slot.required_evidence,
        mismatch (lit "required evidence") id,
      )
      ∷ (run.build_target == slot.build_target, mismatch (lit "build target") id)
      ∷ (run.host == slot.host, mismatch (lit "host") id)
      ∷ (run.harness == slot.harness, mismatch (lit "harness") id)
      ∷ (run.seed == slot.seed, mismatch (lit "seed") id)
      ∷ (run.repetition == slot.repetition, mismatch (lit "repetition") id)
      ∷ (is_some_false run.private_affordances, invalid_field (lit "private affordance") id)
      ∷ (is_hash run.evidence_hash, invalid_field (lit "evidence hash") id)
      ∷ (
        matches_class (lit "run_") is_id 16 (or_empty run.run_id),
        invalid_field (lit "run identity") id,
      )
      ∷ (
        not (is_blank run.model) && leb (length run.model) 120,
        invalid_field (lit "model provenance") id,
      )
      ∷ (
        has (lit "valid" ∷ lit "invalid" ∷ lit "inconclusive" ∷ []) run.verdict,
        invalid_field (lit "verdict") id,
      )
      ∷ (is_count run.orphan_processes, invalid_field (lit "orphan process count") id)
      ∷ (
        ltb 0 run.duration_minutes && leb run.duration_minutes 1440,
        invalid_field (lit "duration") id,
      )
      ∷ (is_boolean run.soak, invalid_field (lit "soak marker") id)
      ∷ (valid_evaluator_identity run.evaluator, invalid_field (lit "evaluator identity") id)
      ∷ (checks.attested run, invalid_attestation id)
      ∷ []

  unfoldable pub check_run : List Text → Run → Slot → List Failure
  check_run seen_runs run slot =
      collect (run_tests seen_runs run slot) ++ checks.bundle_failures run slot

  -- the rest of a round of the loop, once the slot is known and not seen before
  unfoldable pub accept : Tally → Run → Slot → Tally
  accept tally run slot = record {
    seen = run.slot_id ∷ tally.seen;
    seen_runs = remember tally.seen_runs run.run_id;
    accepted = tally.accepted ++ run ∷ [];
    attested_slots =
        if checks.attested run then run.slot_id ∷ tally.attested_slots else tally.attested_slots;
    failures = tally.failures ++ check_run tally.seen_runs run slot;
  }

  abbrev pub fail : Tally → Failure → Tally
  fail tally failure = record tally { failures = tally.failures ++ failure ∷ [] }

  abbrev pub visit : Tally → Run → Option Slot → Tally
  visit tally run none = fail tally (unexpected_slot run.slot_id)
  visit tally run (some slot) =
      if has tally.seen run.slot_id
      then fail tally (duplicate_slot run.slot_id)
      else accept tally run slot

  unfoldable pub tally_runs : Dict Text Slot → Tally → List Run → Tally
  tally_runs expected tally [] = tally
  tally_runs expected tally (run ∷ runs) =
      tally_runs expected (visit tally run (get expected run.slot_id)) runs
