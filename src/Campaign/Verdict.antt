-- ===== src/Campaign/Verdict.antt =====
-- When a campaign passes.
use mgds.Prelude.{
  All, All-imp, Bool-cases, List, Memᴰ, Text, [], ap, append-eq-nil_iff, collect, collect-nil, get,
  has, inl, inr, is_unique, leb→le, length, nat_eq, or_false, refl, some, some-inj, sym, text_eq,
  true, ℕ, ◌*◌, ◌∙◌, ◌∷◌, ◌≡◌, ◌≢◌, ◌≤◌, ◌⊎◌,
}
use mgds.Campaign.Types.{Slot, Plan, Run, Failure, pass, Outcome}
use mgds.Campaign.Aggregate.{Checks, Tally, no_runs, index_slots, tally_runs}
use mgds.Campaign.Report.{
  threshold_tests, enforce_evaluator_fairness, enforce_soak_coverage, missing_ids, all_failures,
  status_of, outcome, aggregate_campaign, count_valid, count_orphans, count_unknown,
}
use mgds.Campaign.Failures.{Matches, index_slots-Memᴰ}
use mgds.Campaign.Accounting.{
  slot_ids, Accounted, tally-Accounted, missing_none, rate_met, Soaks, soak-Soaks,
}

-- What a passed campaign has shown of its plan and its runs.
pub record Passed (checks : Checks) (plan : Plan) (runs : List Run) : Type 0 where
  pub placed :
      All
        (λ (run : Run).
          (slot : Slot) × Memᴰ slot plan.slots
          × (slot.slot_id ≡ run.slot_id)
          × Matches checks run slot)
        runs
  pub once : is_unique (slot_ids runs) ≡ true
  pub complete : All (λ (slot : Slot). has (slot_ids runs) slot.slot_id ≡ true) plan.slots
  pub rate :
      (length runs ≡ 0)
      ⊎ (plan.thresholds.t0_pass_rate.top * length runs
          ≤ count_valid runs * plan.thresholds.t0_pass_rate.bottom)
  pub orphans : count_orphans runs ≤ plan.thresholds.orphan_processes
  pub unknown : count_unknown runs ≤ plan.thresholds.unknown_workspace_states
  pub fair : enforce_evaluator_fairness runs ≡ []
  pub soaked : All (Soaks plan runs) plan.slots

status_of-pass :
    (failures : List Failure) (ids : List Text)
    → status_of failures ids ≡ pass
    → (failures ≡ []) × (ids ≡ [])
status_of-pass [] [] h = (refl, refl)
status_of-pass [] (id ∷ ids) h = cc
status_of-pass (f ∷ failures) ids h = cc

no_entry : (id : Text) (slot : Slot) → get {V = Slot} [] id ≢ some slot
unfolding get
no_entry id slot h = cc

module _ (checks : Checks) (plan : Plan) where
  -- what is left of the verdict once no failure was pushed and no slot is missing
  clean-Passed :
      (runs : List Run) (tally : Tally)
      → Accounted checks (index_slots [] plan.slots) runs no_runs tally
      → missing_ids tally.seen plan.slots ≡ []
      → collect (threshold_tests plan.thresholds tally.accepted) ≡ []
      → enforce_evaluator_fairness tally.accepted ≡ []
      → enforce_soak_coverage plan tally.accepted tally.attested_slots ≡ []
      → Passed checks plan runs
  clean-Passed runs tally a none_missing thresholds fair soak =
      let holds = λ (n : ℕ).
        collect-nil n (threshold_tests plan.thresholds runs) (rw a.accepted at thresholds) in
      record {
        placed = All-imp in_plan runs a.placed;
        once = a.once;
        complete =
            All-imp
              (λ (slot : Slot) s.
                rw (or_false (has (slot_ids runs) slot.slot_id)) at (a.seen slot.slot_id s))
              plan.slots (missing_none tally.seen plan.slots none_missing);
        rate =
            rate_met (length runs) (count_valid runs) (length runs) plan.thresholds.t0_pass_rate
              (holds 0);
        orphans = leb→le _ _ (holds 2);
        unknown = leb→le _ _ (holds 3);
        fair = rw a.accepted at fair;
        soaked = soak-Soaks plan runs tally.attested_slots (rw a.accepted at soak);
      }
    where
      in_plan :
          (run : Run)
          → ((slot : Slot) × (get (index_slots [] plan.slots) run.slot_id ≡ some slot)
              × Matches checks run slot)
          → (s : Slot) × Memᴰ s plan.slots × (s.slot_id ≡ run.slot_id) × Matches checks run s
      in_plan run (slot, found, fits) =
          elim (index_slots-Memᴰ [] plan.slots run.slot_id slot found) [
            | inl absent ↦ absurd (no_entry run.slot_id slot absent)
            | inr (there, e) ↦ (slot, there, e, fits)
          ]

-- the tally of a campaign that passed
passed_tally :
    (checks : Checks) (plan : Plan) (runs : List Run) (o : Outcome)
    → aggregate_campaign checks plan runs ≡ some o
    → o.status ≡ pass
    → let tally = tally_runs checks (index_slots [] plan.slots) no_runs runs in
      (outcome plan tally ≡ o)
      × (all_failures plan tally ≡ [])
      × (missing_ids tally.seen plan.slots ≡ [])
unfolding aggregate_campaign
passed_tally checks plan runs o h p = elim (Bool-cases (checks.plan_ok plan)) [
  | inr refused ↦ cc (rw refused at h)
  | inl fine ↦
      let tally = tally_runs checks (index_slots [] plan.slots) no_runs runs in
      let e : outcome plan tally ≡ o = some-inj (rw fine at h) in
      let (clean, none_missing) =
        status_of-pass (all_failures plan tally) (missing_ids tally.seen plan.slots)
          (ap (λ (x : Outcome). x.status) e ∙ p) in
      (e, clean, none_missing)
]

-- A campaign passes only if every run belongs to a slot of the plan, repeats what the slot says,
-- is attested and has evidence without a problem; no two runs share a slot and every slot has a
-- run; the rate of valid runs, the orphan processes and the unknown workspaces keep to the
-- thresholds; no fairness mismatch is found; and for each slot's host and harness some run that is
-- marked as a soak lasts the soak minutes.
pub pass-Passed :
    (checks : Checks) (plan : Plan) (runs : List Run) (o : Outcome)
    → aggregate_campaign checks plan runs ≡ some o
    → o.status ≡ pass
    → Passed checks plan runs
pass-Passed checks plan runs o h p =
    let tally = tally_runs checks (index_slots [] plan.slots) no_runs runs in
    let (_, clean, none_missing) = passed_tally checks plan runs o h p in
    let (looped, rest) = append-eq-nil_iff.0 clean in
    let (thresholds, rest2) = append-eq-nil_iff.0 rest in
    let (fair, soak) = append-eq-nil_iff.0 rest2 in
    clean-Passed checks plan runs tally
      (tally-Accounted checks (index_slots [] plan.slots) runs no_runs looped) none_missing
      thresholds fair (rw none_missing at soak)

-- the counts that a passed campaign reports are those of the runs
pub recorded_valid :
    (checks : Checks) (plan : Plan) (runs : List Run) (o : Outcome)
    → aggregate_campaign checks plan runs ≡ some o
    → o.status ≡ pass
    → (o.metrics.recorded_runs ≡ length runs) × (o.metrics.valid_runs ≡ count_valid runs)
recorded_valid checks plan runs o h p =
    let tally = tally_runs checks (index_slots [] plan.slots) no_runs runs in
    let (e, clean, _) = passed_tally checks plan runs o h p in
    let (looped, _) = append-eq-nil_iff.0 clean in
    let all = (tally-Accounted checks (index_slots [] plan.slots) runs no_runs looped).accepted in
    (
      sym (ap (λ (x : Outcome). x.metrics.recorded_runs) e) ∙ ap length all,
      sym (ap (λ (x : Outcome). x.metrics.valid_runs) e) ∙ ap count_valid all,
    )
