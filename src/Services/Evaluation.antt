-- ===== src/Services/Evaluation.antt =====
-- packages/evaluator/src: `evaluateSubmission` of index.mjs, where a hidden check is a function of
-- the evidence, and `runT0` of t0.mjs.
use mgds.Prelude.{
  All, Bool, Bool-cases, List, Option, Result, Text, [], and-eq-true, beq_cases, eq_of_beq, err,
  every, if◌then◌else◌, inl, inr, lit, map, nat_eq, none, not, ok, ok-inj, refl, some, subst,
  text_eq, true, ◌++◌, ◌==◌, ◌↔◌, ◌∷◌, ◌≡◌,
}

pub record Item : Type 0 where
  pub authority : Text
  pub bytes : Text
  pub hash : Text

pub data EvaluationError : Type 0 where
  hash_mismatch : Text → EvaluationError
  identity_mismatch wrong_authority : EvaluationError

pub record Evaluation : Type 0 where
  pub is_ok : Bool
  pub evaluator_id : Text
  pub checks : List Bool

module _ (sha256 : Text → Text) where
  -- the condition under which `requireHash` does not throw
  abbrev pub has_hash : Text → Text → Bool
  has_hash bytes expected = lit "sha256:" ++ sha256 bytes == expected

  -- the first error of the loop over the evidence
  pub evidence_error : List Item → Option EvaluationError
  evidence_error [] = none
  evidence_error (item ∷ items) =
      let rest = evidence_error items in
      if not (item.authority == lit "evaluator")
      then some wrong_authority
      else if not (has_hash item.bytes item.hash)
      then some (hash_mismatch (lit "evidence"))
      else rest

  abbrev pub conclude :
      Text
      → List Item
      → List (List Item → Bool)
      → Option EvaluationError
      → Result EvaluationError Evaluation
  conclude evaluator_id evidence hidden_checks (some e) = err e
  conclude evaluator_id evidence hidden_checks none =
      let checks = map (λ check. check evidence) hidden_checks in
      ok (record {
        is_ok = every (λ passed. passed) checks;
        evaluator_id = evaluator_id;
        checks = checks;
      })

  unfoldable pub evaluate_submission :
      Text
      → Text
      → Text
      → Text
      → List Item
      → List (List Item → Bool)
      → Result EvaluationError Evaluation
  unfolding evidence_error
  evaluate_submission task_bytes expected_task_hash evaluator_id expected_evaluator_id evidence
        hidden_checks =
      if not (has_hash task_bytes expected_task_hash)
      then err (hash_mismatch (lit "task"))
      else if not (evaluator_id == expected_evaluator_id)
      then err identity_mismatch
      else conclude evaluator_id evidence hidden_checks (evidence_error evidence)

  abbrev pub Genuine : Item → Type 0
  Genuine item = (item.authority ≡ lit "evaluator") × (has_hash item.bytes item.hash ≡ true)

  evidence_error-none :
      (evidence : List Item) → evidence_error evidence ≡ none → All Genuine evidence
  unfolding evidence_error
  evidence_error-none [] h = tt
  evidence_error-none (item ∷ items) h = elim (beq_cases item.authority (lit "evaluator")) [
    | inr other ↦ cc (rw other at h)
    | inl same ↦ elim (Bool-cases (has_hash item.bytes item.hash)) [
      | inr bad ↦ cc (simp (same, bad) at h)
      | inl good ↦ ((same, good), evidence_error-none items (simp (same, good) at h))
    ]
  ]

  every_check-All :
      (evidence : List Item) (hidden_checks : List (List Item → Bool))
      → (every (λ passed. passed) (map (λ check. check evidence) hidden_checks) ≡ true)
        ↔ All (λ check. check evidence ≡ true) hidden_checks
  every_check-All evidence [] = (λ h. tt, λ h. refl)
  every_check-All evidence (check ∷ hidden_checks) =
      let (to, from) = every_check-All evidence hidden_checks in
      (
        λ h. let (a, b) = and-eq-true (check evidence) _ h in (a, to b),
        λ h. rw (h.0, from h.1) refl,
      )

  conclude-ok :
      (evaluator_id : Text) (evidence : List Item) (hidden_checks : List (List Item → Bool))
      (o : Option EvaluationError) (e : Evaluation)
      → conclude evaluator_id evidence hidden_checks o ≡ ok e
      → (o ≡ none) × ((e.is_ok ≡ true) ↔ All (λ check. check evidence ≡ true) hidden_checks)
  conclude-ok evaluator_id evidence hidden_checks (some x) e h = cc
  conclude-ok evaluator_id evidence hidden_checks none e h = (
    refl,
    subst
        (λ (r : Evaluation). (r.is_ok ≡ true) ↔ All (λ check. check evidence ≡ true) hidden_checks)
        (ok-inj h) (every_check-All evidence hidden_checks),
  )

  -- An evaluation is given only for a task and evidence with the stated hashes, evidence of the
  -- evaluator alone, and the expected evaluator; and it is positive just when every hidden check
  -- passes on that evidence.
  pub evaluation_binds :
      (task_bytes expected_task_hash evaluator_id expected_evaluator_id : Text)
      (evidence : List Item) (hidden_checks : List (List Item → Bool)) (e : Evaluation)
      → evaluate_submission task_bytes expected_task_hash evaluator_id expected_evaluator_id
          evidence hidden_checks
        ≡ ok e
      → (has_hash task_bytes expected_task_hash ≡ true)
        × (evaluator_id ≡ expected_evaluator_id)
        × All Genuine evidence
        × ((e.is_ok ≡ true) ↔ All (λ check. check evidence ≡ true) hidden_checks)
  unfolding evaluate_submission
  evaluation_binds task_bytes expected_task_hash evaluator_id expected_evaluator_id evidence
        hidden_checks e h =
      elim (Bool-cases (has_hash task_bytes expected_task_hash)) [
        | inr bad ↦ cc (rw bad at h)
        | inl good ↦ elim (Bool-cases (evaluator_id == expected_evaluator_id)) [
          | inr other ↦ cc (rw (good, other) at h)
          | inl same ↦
              let (clean, checked) =
                conclude-ok evaluator_id evidence hidden_checks (evidence_error evidence) e
                  (rw (good, same) at h) in
              (
                good,
                eq_of_beq evaluator_id expected_evaluator_id same,
                evidence_error-none evidence clean,
                checked,
              )
        ]
      ]

-- the fields of an adapter that `runT0` reads, with whether each is `true`
pub record Adapter : Type 0 where
  pub manifest : Bool
  pub bounds : Bool
  pub cancellation : Bool
  pub privacy : Bool
  pub evidence : Bool

pub clauses : Adapter → List (Text × Bool)
clauses adapter =
    (lit "T0-MANIFEST", adapter.manifest)
    ∷ (lit "T0-BOUNDS", adapter.bounds)
    ∷ (lit "T0-CANCEL", adapter.cancellation)
    ∷ (lit "T0-PRIVACY", adapter.privacy)
    ∷ (lit "T0-EVIDENCE", adapter.evidence)
    ∷ []

-- whether the status of `runT0` is `pass`
unfoldable pub run_t0 : Adapter → Bool
unfolding clauses
run_t0 adapter = every (λ clause. clause.1) (clauses adapter)
