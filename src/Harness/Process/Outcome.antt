-- ===== src/Harness/Process/Outcome.antt =====
-- How a bounded process ends.
use mgds.Prelude.{
  All, Bool-cases, List, Option, Text, [], ap, false, inl, inr, leb, length, none, refl, some, ℕ,
  ◌++◌, ◌+◌, ◌∙◌, ◌∷◌, ◌≡◌,
}
use mgds.Harness.Process.{
  Stream, stdout, stderr, Failure, output_budget_exceeded, time_budget_exceeded, Settled, Event,
  data_on, timeout_fires, force_fires, exits, errors, closes, State, started, terminate, push,
  counted, answer, step, run_events,
}
use mgds.Harness.Process.Calm.{
  written, first_excess, Goes, terminate-known, terminate-fresh, timed_out-armed, timed_out-off,
  force-fields, collect_chunk-fits, collect_chunk-over, calm,
}

-- the first thing to settle the promise has the say
push-settled :
    (stream : Stream) (chunk : List ℕ) (s : State) → (push stream chunk s).settled ≡ s.settled
push-settled stdout chunk s = refl
push-settled stderr chunk s = refl

terminate-settled : (failure : Failure) (s : State) → (terminate failure s).settled ≡ s.settled
terminate-settled failure s = elim (Bool-cases s.terminating) [
  | inl known ↦ ap (λ (t : State). t.settled) (terminate-known failure s known)
  | inr fresh ↦ ap (λ (t : State). t.settled) (terminate-fresh failure s fresh)
]

module _ (most : ℕ) where
  step-settled :
      (s : State) (event : Event) (first : Settled)
      → s.settled ≡ some first
      → (step most s event).settled ≡ some first
  unfolding step
  step-settled s (data_on stream chunk) first h =
      elim (Bool-cases (leb (s.output_bytes + length chunk) most)) [
        | inl fits ↦
            ap (λ (t : State). t.settled) (collect_chunk-fits most stream chunk s fits)
            ∙ push-settled stream chunk (counted chunk s)
            ∙ h
        | inr over ↦
            ap (λ (t : State). t.settled) (collect_chunk-over most stream chunk s over)
            ∙ terminate-settled output_budget_exceeded (counted chunk s)
            ∙ h
      ]
  step-settled s timeout_fires first h = elim (Bool-cases s.timeout_armed) [
    | inl on ↦
        ap (λ (t : State). t.settled) (timed_out-armed s on)
        ∙ terminate-settled time_budget_exceeded (record s { timeout_armed = false })
        ∙ h
    | inr off ↦ ap (λ (t : State). t.settled) (timed_out-off s off) ∙ h
  ]
  step-settled s force_fires first h =
      let (armed, sent, e) = force-fields s in ap (λ (t : State). t.settled) e ∙ h
  step-settled s exits first h = h
  step-settled s (errors message) first h = rw h refl
  step-settled s (closes exit_code signal elapsed) first h = rw h refl

  run_events-settled :
      (s : State) (events : List Event) (first : Settled)
      → s.settled ≡ some first
      → (run_events most s events).settled ≡ some first
  unfolding run_events
  run_events-settled s [] first h = h
  run_events-settled s (event ∷ events) first h =
      run_events-settled (step most s event) events first (step-settled s event first h)

  run_events-append :
      (s : State) (xs ys : List Event)
      → run_events most s (xs ++ ys) ≡ run_events most (run_events most s xs) ys
  unfolding run_events
  run_events-append s [] ys = refl
  run_events-append s (x ∷ xs) ys = run_events-append (step most s x) xs ys

  answer-same :
      (excess : Option Failure) (exit_code : Option ℕ) (signal : Option Text) (elapsed : ℕ)
      (a b c d : List ℕ)
      → (excess ≡ none → (a ≡ b) × (c ≡ d))
      → answer excess exit_code signal elapsed a c ≡ answer excess exit_code signal elapsed b d
  answer-same none exit_code signal elapsed a b c d h = let (ab, cd) = h refl in rw (ab, cd) refl
  answer-same (some failure) exit_code signal elapsed a b c d h = refl

  closed :
      (s : State) (exit_code : Option ℕ) (signal : Option Text) (elapsed : ℕ)
      → s.settled ≡ none
      → (step most s (closes exit_code signal elapsed)).settled
        ≡ some (answer s.failure exit_code signal elapsed s.stdout s.stderr)
  unfolding step
  closed s exit_code signal elapsed u = rw u refl

  -- A process that closes without an error is answered once and for all: if it went over its output
  -- budget or its time before it closed, with the first of the two that it did, and otherwise
  -- with its exit code and all that it wrote on either stream. Nothing that comes after changes it.
  pub process_outcome :
      (before after : List Event) (exit_code : Option ℕ) (signal : Option Text) (elapsed : ℕ)
      → All Goes before
      → (run_events most started (before ++ closes exit_code signal elapsed ∷ after)).settled
        ≡ some (
            answer
              (first_excess most 0 before)
              exit_code
              signal
              elapsed
              (written stdout before)
              (written stderr before))
  unfolding run_events step
  process_outcome before after exit_code signal elapsed g =
      let s = run_events most started before in
      let (u, f, w) = calm most started before refl refl refl refl g in
      let settled =
        closed s exit_code signal elapsed u
        ∙ ap (λ x. some (answer x exit_code signal elapsed s.stdout s.stderr)) f
        ∙ ap some (
            answer-same (first_excess most 0 before) exit_code signal elapsed s.stdout _ s.stderr _
              w) in
      ap (λ (t : State). t.settled)
        (run_events-append started before (closes exit_code signal elapsed ∷ after))
      ∙ run_events-settled (step most s (closes exit_code signal elapsed)) after _ settled
