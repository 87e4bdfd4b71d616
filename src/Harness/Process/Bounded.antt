-- ===== src/Harness/Process/Bounded.antt =====
-- What a bounded process keeps and sends.
use mgds.Prelude.{
  Bool, Bool-cases, List, [], arith, false, inl, inr, leb, leb→le, length, length-append, refl,
  subst, sym, true, ℕ, ◌++◌, ◌+◌, ◌∷◌, ◌≡◌, ◌≤◌,
}
use mgds.Harness.Process.{
  Stream, stdout, stderr, Signal, sigterm, sigkill, Failure, output_budget_exceeded,
  time_budget_exceeded, Event, data_on, timeout_fires, force_fires, exits, errors, closes, State,
  started, terminate, push, counted, force, step, run_events,
}
use mgds.Harness.Process.Calm.{
  terminate-known, terminate-fresh, timed_out-armed, timed_out-off, collect_chunk-fits,
  collect_chunk-over,
}

-- The signals so far: none while nothing went wrong, then one that asks, then at most one that kills.
pub data Sent : Bool → Bool → List Signal → Type 0 where
  nothing : Sent false false []
  asked : (armed : Bool) → Sent true armed (sigterm ∷ [])
  killed : Sent true false (sigterm ∷ sigkill ∷ [])

pub record Bounded (most : ℕ) (s : State) : Type 0 where
  pub counted : length s.stdout + length s.stderr ≤ s.output_bytes
  pub kept : length s.stdout + length s.stderr ≤ most
  pub signals : Sent s.terminating s.force_armed s.sent

disarm : {asking : Bool} {sent : List Signal} → Sent asking true sent → Sent asking false sent
disarm (asked armed) = asked false

add_kill :
    {asking : Bool} {sent : List Signal}
    → Sent asking true sent
    → Sent asking false (sent ++ sigkill ∷ [])
add_kill (asked armed) = killed

add_ask :
    {armed : Bool} {sent : List Signal}
    → Sent false armed sent
    → Sent true true (sent ++ sigterm ∷ [])
add_ask nothing = asked true

force-off : (s : State) → s.force_armed ≡ false → force s ≡ s
force-off s off = simp off refl

force-gone :
    (s : State)
    → s.force_armed ≡ true
    → s.exited ≡ true
    → force s ≡ record s { force_armed = false }
force-gone s on gone = simp (on, gone) refl

force-alive :
    (s : State)
    → s.force_armed ≡ true
    → s.exited ≡ false
    → force s ≡ record s { force_armed = false; sent = s.sent ++ sigkill ∷ [] }
force-alive s on alive = simp (on, alive) refl

module _ (most : ℕ) where
  terminate-Bounded :
      (failure : Failure) (s : State) → Bounded most s → Bounded most (terminate failure s)
  terminate-Bounded failure s b = elim (Bool-cases s.terminating) [
    | inl known ↦ subst (Bounded most) (sym (terminate-known failure s known)) b
    | inr fresh ↦ subst (Bounded most) (sym (terminate-fresh failure s fresh)) (record {
      counted = b.counted;
      kept = b.kept;
      signals = add_ask (subst (λ t. Sent t s.force_armed s.sent) fresh b.signals);
    })
  ]

  push-Bounded :
      (stream : Stream) (chunk : List ℕ) (s : State)
      → s.output_bytes + length chunk ≤ most
      → Bounded most s
      → Bounded most (push stream chunk (counted chunk s))
  push-Bounded stdout chunk s fits b =
      let more = length-append s.stdout chunk in
      record {
        counted = omega (arith, more, b.counted);
        kept = omega (arith, more, b.counted, fits);
        signals = b.signals;
      }
  push-Bounded stderr chunk s fits b =
      let more = length-append s.stderr chunk in
      record {
        counted = omega (arith, more, b.counted);
        kept = omega (arith, more, b.counted, fits);
        signals = b.signals;
      }

  counted-Bounded : (chunk : List ℕ) (s : State) → Bounded most s → Bounded most (counted chunk s)
  counted-Bounded chunk s b = record {
    counted = omega (arith, b.counted);
    kept = b.kept;
    signals = b.signals;
  }

  step-Bounded : (s : State) (event : Event) → Bounded most s → Bounded most (step most s event)
  unfolding step
  step-Bounded s (data_on stream chunk) b =
      elim (Bool-cases (leb (s.output_bytes + length chunk) most)) [
        | inl fits ↦
            subst (Bounded most) (sym (collect_chunk-fits most stream chunk s fits))
              (push-Bounded stream chunk s (leb→le _ _ fits) b)
        | inr over ↦
            subst (Bounded most) (sym (collect_chunk-over most stream chunk s over)) (
              terminate-Bounded output_budget_exceeded (counted chunk s)
                (counted-Bounded chunk s b))
      ]
  step-Bounded s timeout_fires b = elim (Bool-cases s.timeout_armed) [
    | inr off ↦ subst (Bounded most) (sym (timed_out-off s off)) b
    | inl on ↦ subst (Bounded most) (sym (timed_out-armed s on)) (
        terminate-Bounded time_budget_exceeded (record s { timeout_armed = false })
          (record { counted = b.counted; kept = b.kept; signals = b.signals }))
  ]
  step-Bounded s force_fires b = elim (Bool-cases s.force_armed) [
    | inr off ↦ subst (Bounded most) (sym (force-off s off)) b
    | inl on ↦
        let due = subst (λ a. Sent s.terminating a s.sent) on b.signals in
        elim (Bool-cases s.exited) [
          | inl gone ↦
              subst (Bounded most) (sym (force-gone s on gone))
                (record { counted = b.counted; kept = b.kept; signals = disarm due })
          | inr alive ↦
              subst (Bounded most) (sym (force-alive s on alive))
                (record { counted = b.counted; kept = b.kept; signals = add_kill due })
        ]
  ]
  step-Bounded s exits b = record { counted = b.counted; kept = b.kept; signals = b.signals }
  step-Bounded s (errors message) b = record {
    counted = b.counted;
    kept = b.kept;
    signals = b.signals;
  }
  step-Bounded s (closes exit_code signal elapsed) b = record {
    counted = b.counted;
    kept = b.kept;
    signals = b.signals;
  }

  run_events-Bounded :
      (s : State) (events : List Event) → Bounded most s → Bounded most (run_events most s events)
  unfolding run_events
  run_events-Bounded s [] b = b
  run_events-Bounded s (event ∷ events) b =
      run_events-Bounded (step most s event) events (step-Bounded s event b)

-- Whatever node delivers, and in whatever order, a bounded process never keeps more bytes of the two
-- streams together than its output budget, and it is sent at most one SIGTERM, which is there just when
-- it is being terminated, and behind it at most one SIGKILL.
pub process_stays-Bounded :
    (most : ℕ) (events : List Event) → Bounded most (run_events most started events)
process_stays-Bounded most events =
    run_events-Bounded most started events
      (record { counted = omega arith; kept = omega arith; signals = nothing })
