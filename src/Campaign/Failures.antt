-- ===== src/Campaign/Failures.antt =====
-- What it means for a campaign that no failure was pushed.
use mgds.Prelude.{
  Bool-cases, Dict, List, Memᴰ, Option, Text, [], ap, append-eq-nil_iff, beq_cases, collect-nil,
  eq_of_beq, false, get, get-put_ne, get-put_self, has, inl, inr, nat_eq, none, put, refl, some,
  some-inj, sym, text_eq, true, ℕ, ◌∙◌, ◌∷◌, ◌≡◌, ◌⊎◌,
}
use mgds.Campaign.Types.{Slot, Run, duplicate_slot, unexpected_slot}
use mgds.Campaign.Aggregate.{
  index_slots, Checks, Tally, canonical_texts, valid_evaluator_identity, check_run, run_tests,
  accept, visit, tally_runs,
}

-- A slot that the index gives stands in the plan under the identity it is found by.
pub index_slots-Memᴰ :
    (d : Dict Text Slot) (slots : List Slot) (id : Text) (slot : Slot)
    → get (index_slots d slots) id ≡ some slot
    → (get d id ≡ some slot) ⊎ (Memᴰ slot slots × (slot.slot_id ≡ id))
unfolding index_slots
index_slots-Memᴰ d [] id slot h = inl h
index_slots-Memᴰ d (s ∷ slots) id slot h =
    elim (index_slots-Memᴰ (put d s.slot_id s) slots id slot h) [
      | inr (there, e) ↦ inr (Memᴰ.tail there, e)
      | inl found ↦ elim (beq_cases s.slot_id id) [
        | inl same ↦
            let e : s ≡ slot = some-inj (sym (get-put_self d id s) ∙ (simp same at found)) in
            inr (Memᴰ.head (sym e), sym (ap (λ (x : Slot). x.slot_id) e) ∙ same)
        | inr other ↦ inl (sym (get-put_ne d s.slot_id id s other) ∙ found)
      ]
    ]

module _ (checks : Checks) where
  -- A run that fits a slot of the plan: what it repeats of the slot is what the plan says, it is
  -- attested, and its evidence bundle has no problem.
  pub record Matches (run : Run) (slot : Slot) : Type 0 where
    pub schema : checks.run_ok run ≡ true
    pub campaign : run.campaign_id ≡ slot.campaign_id
    pub task : (run.task_id ≡ slot.task_id) × (run.task_hash ≡ slot.task_hash)
    pub budget : run.budget_hash ≡ slot.budget_hash
    pub environment : run.environment_hash ≡ slot.environment_hash
    pub evidence : canonical_texts run.required_evidence ≡ canonical_texts slot.required_evidence
    pub target : run.build_target ≡ slot.build_target
    pub host : run.host ≡ slot.host
    pub harness : run.harness ≡ slot.harness
    pub seed : run.seed ≡ slot.seed
    pub repetition : run.repetition ≡ slot.repetition
    pub independent : valid_evaluator_identity run.evaluator ≡ true
    pub attested : checks.attested run ≡ true
    pub bundle : checks.bundle_failures run slot ≡ []

  check_run-Matches :
      (seen_runs : List Text) (run : Run) (slot : Slot)
      → check_run checks seen_runs run slot ≡ []
      → Matches run slot
  unfolding check_run
  check_run-Matches seen_runs run slot h =
      let (tests, bundle) = append-eq-nil_iff.0 h in
      let holds = λ (n : ℕ). collect-nil n (run_tests checks seen_runs run slot) tests in
      record {
        schema = holds 0;
        campaign = eq_of_beq run.campaign_id slot.campaign_id (holds 2);
        task = (
          eq_of_beq run.task_id slot.task_id (holds 3),
          eq_of_beq run.task_hash slot.task_hash (holds 4),
        );
        budget = eq_of_beq run.budget_hash slot.budget_hash (holds 5);
        environment = eq_of_beq run.environment_hash slot.environment_hash (holds 6);
        evidence =
            eq_of_beq (canonical_texts run.required_evidence)
              (canonical_texts slot.required_evidence) (holds 7);
        target = eq_of_beq run.build_target slot.build_target (holds 8);
        host = eq_of_beq run.host slot.host (holds 9);
        harness = eq_of_beq run.harness slot.harness (holds 10);
        seed = eq_of_beq run.seed slot.seed (holds 11);
        repetition = eq_of_beq run.repetition slot.repetition (holds 12);
        independent = holds 21;
        attested = holds 22;
        bundle = bundle;
      }

  -- A round that leaves no failure has found the slot, unseen, and accepted the run.
  pub visit_clean :
      (tally : Tally) (run : Run) (o : Option Slot)
      → (visit checks tally run o).failures ≡ []
      → (tally.failures ≡ [])
        × (has tally.seen run.slot_id ≡ false)
        × ((slot : Slot) × (o ≡ some slot)
            × Matches run slot
            × (visit checks tally run o ≡ accept checks tally run slot))
  unfolding accept
  visit_clean tally run none h =
      let (_, e) =
        (append-eq-nil_iff {p = tally.failures} {q = unexpected_slot run.slot_id ∷ []}).0 h in
      cc
  visit_clean tally run (some slot) h = elim (Bool-cases (has tally.seen run.slot_id)) [
    | inl seen ↦
        let (_, e) =
          (append-eq-nil_iff {p = tally.failures} {q = duplicate_slot run.slot_id ∷ []}).0
            (rw seen at h) in
        cc
    | inr fresh ↦
        let (before, clean) =
          (append-eq-nil_iff {p = tally.failures} {q = check_run checks tally.seen_runs run slot}).0
            (rw fresh at h) in
        (
          before,
          fresh,
          (slot, refl, check_run-Matches tally.seen_runs run slot clean, rw fresh refl),
        )
  ]

  pub tally_clean :
      (expected : Dict Text Slot) (runs : List Run) (tally : Tally)
      → (tally_runs checks expected tally runs).failures ≡ []
      → tally.failures ≡ []
  unfolding tally_runs
  tally_clean expected [] tally h = h
  tally_clean expected (run ∷ runs) tally h =
      (visit_clean tally run (get expected run.slot_id) (tally_clean expected runs _ h)).0
