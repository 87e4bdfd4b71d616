-- ===== src/Release/Released.antt =====
-- The gate is ready only for a release with every run of the grid.
use mgds.Prelude.{
  All, All-imp, Bool, Bool-cases, List, Memᴰ, Text, [], and-eq-true, and-eq-true_3,
  append-eq-nil_iff, arith, beq_cases, collect-nil, eq_of_beq, has, inl, inr, is_hash, keep, length,
  lit, nat_eq, refl, subst, sym, text_eq, true, ℕ, ◌==◌, ◌∙◌, ◌∷◌, ◌≡◌, ◌≤◌,
}
use mgds.Campaign.Types.{Slot, Run}
use mgds.Campaign.Aggregate.{Checks}
use mgds.Campaign.Report.{aggregate_campaign}
use mgds.Campaign.Failures.{Matches}
use mgds.Campaign.Accounting.{slot_ids}
use mgds.Campaign.Verdict.{pass-Passed, recorded_valid}
use mgds.Release.{expected_slots, is_preview, valid_p2_plan}
use mgds.Release.Grid.{valid_p2_plan-grid, plan_ids}
use mgds.Release.Manifest.{Review, Encoding}
use mgds.Release.Gate.{
  result_passes, opening_tests, target_of, subject_of, evaluate_p2_release_gate,
}
use mgds.Release.Input.{GateInput, ready, release_authority_untrusted, review_report_invalid}
use mgds.Release.Ready.{
  Released, Reviewed, report_test, pin_test, status_of-ready, result_passes-parts,
  host_blockers-nil, review_blockers-nil, signing_blockers-nil,
}
use mgds.Release.Hosted.{valid_host_evidence-Hosted}
use mgds.Release.Pinned.{SignedRelease}
use mgds.Trust.{Crypto}

-- The gate is ready only if the version is a preview candidate with a hash, the plan is the sealed
-- plan of the campaign, the campaign has passed with all its runs recorded and valid, the sources
-- are a clean checkout of the digest with verified tracked inputs, and every required host
-- has a passing artifact that the workflow attested for this source under its hash;
-- an independent reviewer, whose key has the fingerprint that is pinned under the reviewer's name,
-- has signed an approval without critical or high findings of this very report, which is not the
-- empty one, and of this release target; and the release authority, whose key has the pinned
-- fingerprint, has signed the subject that is made of all of these.
pub ready-Released :
    (crypto : Crypto) (encoding : Encoding) (checks : Checks) (i : GateInput)
    → (evaluate_p2_release_gate crypto encoding checks i).status ≡ ready
    → Released crypto encoding checks i
unfolding evaluate_p2_release_gate
ready-Released crypto encoding checks i h =
    let result = aggregate_campaign checks i.campaign_plan i.campaign_runs in
    let clean = status_of-ready _ h in
    let (opening, closing) = append-eq-nil_iff.0 clean in
    let holds = λ (n : ℕ). collect-nil n (opening_tests crypto i result) opening in
    let (planned, passes) =
      and-eq-true (valid_p2_plan i.campaign_plan) (result_passes result) (holds 1) in
    let (o, e, status, valid, recorded) = result_passes-parts result passes in
    let (hosts, rest) = append-eq-nil_iff.0 closing in
    let (report, rest2) = append-eq-nil_iff.0 rest in
    let (review, rest3) = append-eq-nil_iff.0 rest2 in
    let (trust, signing) = append-eq-nil_iff.0 rest3 in
    let (hashed, pinned) =
      and-eq-true (is_hash i.trusted_release_authority_fingerprint) _
        (collect-nil 0 ((pin_test crypto i, release_authority_untrusted) ∷ []) trust) in
    let (named, preview, candidate) =
      and-eq-true_3 (i.candidate.status == lit "candidate") (is_preview i.candidate.version)
        (is_hash i.candidate_hash) (holds 0) in
    let (tree, tracked) = and-eq-true _ i.release_source_state.tracked_inputs_verified (holds 3) in
    let (head, tidy) = and-eq-true _ i.release_source_state.clean tree in
    record {
      candidate = (eq_of_beq i.candidate.status (lit "candidate") named, preview, candidate);
      plan = planned;
      result = (o, e, status, valid, recorded);
      source = holds 2;
      checkout = (
        eq_of_beq i.release_source_state.head_digest i.release_source_digest head,
        tidy,
        tracked,
      );
      hosts =
          valid_host_evidence-Hosted i.verified_host_evidence i.release_source_digest
            (host_blockers-nil i.verified_host_evidence i.release_source_digest hosts);
      review =
          subst (λ r. (review : Review) × Reviewed crypto i (target_of crypto encoding i r) review)
            e
            (review_blockers-nil crypto i (target_of crypto encoding i result) i.review refl
              (collect-nil 0 ((report_test crypto i i.review, review_report_invalid) ∷ []) report)
              review);
      signed =
          subst (λ r. SignedRelease crypto i (subject_of crypto encoding i r)) e
            (signing_blockers-nil crypto i (subject_of crypto encoding i result) i.signing refl
              hashed pinned signing);
    }

-- If as many are kept as there are, each passes the test.
keep-short : {A : Type 0} (p : A → Bool) (xs : List A) → length (keep p xs) ≤ length xs
keep-short p [] = omega arith
keep-short p (x ∷ xs) = elim (Bool-cases (p x)) [
  | inl good ↦ rw good (omega (arith, keep-short p xs))
  | inr bad ↦ rw bad (omega (arith, keep-short p xs))
]

keep-All :
    {A : Type 0} (p : A → Bool) (xs : List A)
    → length (keep p xs) ≡ length xs
    → All (λ x. p x ≡ true) xs
keep-All p [] h = tt
keep-All p (x ∷ xs) h = elim (Bool-cases (p x)) [
  | inl good ↦ (good, keep-All p xs (omega (arith, rw good at h)))
  | inr bad ↦ absurd (omega (arith, keep-short p xs, rw bad at h))
]

-- A valid run that is attested, under a given slot identity.
abbrev pub RunOf : Checks → List Run → Text → Type 0
RunOf checks runs id =
    (run : Run) × Memᴰ run runs
    × (run.slot_id ≡ id)
    × (run.verdict ≡ lit "valid")
    × (checks.attested run ≡ true)

run_of :
    (checks : Checks) (runs : List Run) (id : Text)
    → has (slot_ids runs) id ≡ true
    → All (λ (run : Run). (run.verdict == lit "valid") ≡ true) runs
    → All (λ (run : Run). checks.attested run ≡ true) runs
    → RunOf checks runs id
run_of checks [] id h v a = cc
run_of checks (run ∷ runs) id h v a = elim (beq_cases run.slot_id id) [
  | inl here ↦ (run, Memᴰ.head refl, here, eq_of_beq run.verdict (lit "valid") v.0, a.0)
  | inr away ↦
      let (found, there, named, valid, attested) = run_of checks runs id (rw away at h) v.1 a.1 in
      (found, Memᴰ.tail there, named, valid, attested)
]

All-has :
    (slots : List Slot) (ids : List Text) (id : Text)
    → has (plan_ids slots) id ≡ true
    → All (λ (slot : Slot). has ids slot.slot_id ≡ true) slots
    → has ids id ≡ true
All-has [] ids id h a = cc
All-has (slot ∷ slots) ids id h a = elim (beq_cases slot.slot_id id) [
  | inl here ↦ rw here at a.0
  | inr away ↦ All-has slots ids id (rw away at h) a.1
]

-- Where the gate is ready, every required host, harness, seed and repetition has a run of the
-- golden task that is valid and attested.
pub ready_has_every_run :
    (crypto : Crypto) (encoding : Encoding) (checks : Checks) (i : GateInput) (id : Text)
    → (evaluate_p2_release_gate crypto encoding checks i).status ≡ ready
    → has expected_slots id ≡ true
    → RunOf checks i.campaign_runs id
ready_has_every_run crypto encoding checks i id h e =
    let released = ready-Released crypto encoding checks i h in
    let (o, made, passed, valid, recorded) = released.result in
    let p = pass-Passed checks i.campaign_plan i.campaign_runs o made passed in
    let (n, v) = recorded_valid checks i.campaign_plan i.campaign_runs o made passed in
    let planned = valid_p2_plan-grid i.campaign_plan id released.plan e in
    run_of checks i.campaign_runs id
      (All-has i.campaign_plan.slots (slot_ids i.campaign_runs) id planned p.complete)
      (keep-All (λ (run : Run). run.verdict == lit "valid") i.campaign_runs
        (sym v ∙ valid ∙ sym recorded ∙ n))
      (All-imp attested_of i.campaign_runs p.placed)
  where
    attested_of :
        (run : Run)
        → ((slot : Slot) × Memᴰ slot i.campaign_plan.slots
            × (slot.slot_id ≡ run.slot_id)
            × Matches checks run slot)
        → checks.attested run ≡ true
    attested_of run (slot, _, _, m) = m.attested
