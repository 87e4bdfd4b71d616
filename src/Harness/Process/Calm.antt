-- ===== src/Harness/Process/Calm.antt =====
-- A bounded process up to its close.
use mgds.Prelude.{
  All, Bool, Bool-cases, List, Option, [], append-nil, append_assoc, false, if◌then◌else◌, inl, inr,
  leb, length, none, refl, some, subst, sym, true, ℕ, ◌++◌, ◌+◌, ◌∙◌, ◌∷◌, ◌≡◌,
}
use mgds.Harness.Process.{
  Stream, sigterm, sigkill, stdout, stderr, Signal, Failure, output_budget_exceeded,
  time_budget_exceeded, Event, data_on, timeout_fires, force_fires, exits, errors, closes, State,
  terminate, push, counted, collect_chunk, force, timed_out, step, run_events,
}

-- what the process wrote on a stream
abbrev pub written : Stream → List Event → List ℕ
written stream [] = []
written stdout (data_on stdout chunk ∷ events) = chunk ++ written stdout events
written stderr (data_on stderr chunk ∷ events) = chunk ++ written stderr events
written stream (event ∷ events) = written stream events

-- the first thing to go over a budget, after so many bytes
abbrev pub first_excess : ℕ → ℕ → List Event → Option Failure
first_excess most n [] = none
first_excess most n (data_on stream chunk ∷ events) =
    if leb (n + length chunk) most
    then first_excess most (n + length chunk) events
    else some output_budget_exceeded
first_excess most n (timeout_fires ∷ events) = some time_budget_exceeded
first_excess most n (event ∷ events) = first_excess most n events

-- an event of a process that goes on
abbrev pub Goes : Event → Type 0
Goes (errors message) = ⊥
Goes (closes exit_code signal elapsed) = ⊥
Goes event = Unit

-- the timer of a termination changes two fields at most
pub force-fields :
    (s : State)
    → (armed : Bool) × (sent : List Signal) × (force s
        ≡ record s { force_armed = armed; sent = sent })
force-fields s = elim (Bool-cases s.force_armed) [
  | inr off ↦ (s.force_armed, s.sent, rw off refl)
  | inl on ↦ elim (Bool-cases s.exited) [
    | inl gone ↦ (false, s.sent, rw (on, gone) refl)
    | inr alive ↦ (false, s.sent ++ sigkill ∷ [], rw (on, alive) refl)
  ]
]

pub terminate-known :
    (failure : Failure) (s : State) → s.terminating ≡ true → terminate failure s ≡ s
terminate-known failure s t = simp t refl

pub terminate-fresh :
    (failure : Failure) (s : State)
    → s.terminating ≡ false
    → terminate failure s ≡ record s {
      terminating = true;
      failure = some failure;
      force_armed = true;
      sent = s.sent ++ sigterm ∷ [];
    }
terminate-fresh failure s t = simp t refl

pub timed_out-armed :
    (s : State)
    → s.timeout_armed ≡ true
    → timed_out s ≡ terminate time_budget_exceeded (record s { timeout_armed = false })
timed_out-armed s a = simp a refl

pub timed_out-off : (s : State) → s.timeout_armed ≡ false → timed_out s ≡ s
timed_out-off s a = simp a refl

module _ (most : ℕ) where
  pub collect_chunk-fits :
      (stream : Stream) (chunk : List ℕ) (s : State)
      → leb (s.output_bytes + length chunk) most ≡ true
      → collect_chunk most stream chunk s ≡ push stream chunk (counted chunk s)
  collect_chunk-fits stream chunk s h = simp h refl

  pub collect_chunk-over :
      (stream : Stream) (chunk : List ℕ) (s : State)
      → leb (s.output_bytes + length chunk) most ≡ false
      → collect_chunk most stream chunk s ≡ terminate output_budget_exceeded (counted chunk s)
  collect_chunk-over stream chunk s h = simp h refl

  -- what a step leaves of a process whose failure is known
  abbrev Kept : State → State → Type 0
  Kept s t = (t.terminating ≡ true) × (t.settled ≡ none) × (t.failure ≡ s.failure)

  step-Kept :
      (s : State) (event : Event)
      → s.terminating ≡ true
      → s.settled ≡ none
      → Goes event
      → Kept s (step most s event)
  unfolding step
  step-Kept s (data_on stream chunk) t u g =
      elim (Bool-cases (leb (s.output_bytes + length chunk) most)) [
        | inl fits ↦ subst (Kept s) (sym (collect_chunk-fits stream chunk s fits)) (pushed stream)
        | inr over ↦
            subst (Kept s)
              (sym (
                collect_chunk-over stream chunk s over
                ∙ terminate-known output_budget_exceeded (counted chunk s) t))
              (t, u, refl)
      ]
    where
      pushed : (stream : Stream) → Kept s (push stream chunk (counted chunk s))
      pushed stdout = (t, u, refl)
      pushed stderr = (t, u, refl)
  step-Kept s timeout_fires t u g = elim (Bool-cases s.timeout_armed) [
    | inl on ↦
        subst (Kept s)
          (sym (
            timed_out-armed s on
            ∙ terminate-known time_budget_exceeded (record s { timeout_armed = false }) t))
          (t, u, refl)
    | inr off ↦ subst (Kept s) (sym (timed_out-off s off)) (t, u, refl)
  ]
  step-Kept s force_fires t u g =
      let (armed, sent, e) = force-fields s in subst (Kept s) (sym e) (t, u, refl)
  step-Kept s exits t u g = (t, u, refl)
  step-Kept s (errors message) t u g = absurd g
  step-Kept s (closes exit_code signal elapsed) t u g = absurd g

  -- a process whose failure is known keeps it
  doomed :
      (s : State) (events : List Event)
      → s.terminating ≡ true
      → s.settled ≡ none
      → All Goes events
      → ((run_events most s events).failure ≡ s.failure)
        × ((run_events most s events).settled ≡ none)
  unfolding run_events
  doomed s [] t u g = (refl, u)
  doomed s (event ∷ events) t u g =
      let (t1, u1, f1) = step-Kept s event t u g.0 in
      let (f2, u2) = doomed (step most s event) events t1 u1 g.1 in (f2 ∙ f1, u2)

  -- what a run of a process within its budgets comes to, given what goes over them first
  abbrev Calm : State → List Event → Option Failure → State → Type 0
  Calm s events excess t =
      (t.settled ≡ none)
      × (t.failure ≡ excess)
      × (excess ≡ none
          → (t.stdout ≡ s.stdout ++ written stdout events)
            × (t.stderr ≡ s.stderr ++ written stderr events))

  Calm-step :
      (s q : State) (event : Event) (events : List Event) (excess : Option Failure)
      → step most s event ≡ q
      → first_excess most s.output_bytes (event ∷ events) ≡ excess
      → Calm s (event ∷ events) excess (run_events most q events)
      → Calm s
          (event ∷ events)
          (first_excess most s.output_bytes (event ∷ events))
          (run_events most s (event ∷ events))
  unfolding run_events
  Calm-step s q event events excess e f h =
      subst (λ x. Calm s (event ∷ events) x (run_events most (step most s event) events)) (sym f)
        (subst (λ r. Calm s (event ∷ events) excess (run_events most r events)) (sym e) h)

  -- a run that goes over a budget in its first step
  over-Calm :
      (s q : State) (failure : Failure) (event : Event) (events : List Event)
      → s.settled ≡ none
      → All Goes events
      → q.settled ≡ s.settled
      → q.terminating ≡ true
      → q.failure ≡ some failure
      → Calm s (event ∷ events) (some failure) (run_events most q events)
  over-Calm s q failure event events u g same t f =
      let (f1, u1) = doomed q events t (same ∙ u) g in (u1, f1 ∙ f, λ e. cc)

  pub calm :
      (s : State) (events : List Event)
      → s.terminating ≡ false
      → s.failure ≡ none
      → s.timeout_armed ≡ true
      → s.settled ≡ none
      → All Goes events
      → Calm s events (first_excess most s.output_bytes events) (run_events most s events)
  unfolding run_events step
  calm s [] t f a u g = (u, f, λ e. (sym (append-nil s.stdout), sym (append-nil s.stderr)))
  calm s (data_on stdout chunk ∷ events) t f a u g =
      elim (Bool-cases (leb (s.output_bytes + length chunk) most)) [
        | inl fits ↦
            let (u1, f1, w) = calm (push stdout chunk (counted chunk s)) events t f a u g.1 in
            Calm-step s _ (data_on stdout chunk) events _ (collect_chunk-fits stdout chunk s fits)
              (simp fits refl)
              (
                u1,
                f1,
                λ e.
                    let (o, c) = w e in
                    (o ∙ append_assoc s.stdout chunk (written stdout events), c),
              )
        | inr over ↦
            Calm-step s _ (data_on stdout chunk) events _
              (collect_chunk-over stdout chunk s over
                ∙ terminate-fresh output_budget_exceeded (counted chunk s) t)
              (simp over refl)
              (over-Calm s _ output_budget_exceeded (data_on stdout chunk) events u g.1 refl refl
                refl)
      ]
  calm s (data_on stderr chunk ∷ events) t f a u g =
      elim (Bool-cases (leb (s.output_bytes + length chunk) most)) [
        | inl fits ↦
            let (u1, f1, w) = calm (push stderr chunk (counted chunk s)) events t f a u g.1 in
            Calm-step s _ (data_on stderr chunk) events _ (collect_chunk-fits stderr chunk s fits)
              (simp fits refl)
              (
                u1,
                f1,
                λ e.
                    let (o, c) = w e in
                    (o, c ∙ append_assoc s.stderr chunk (written stderr events)),
              )
        | inr over ↦
            Calm-step s _ (data_on stderr chunk) events _
              (collect_chunk-over stderr chunk s over
                ∙ terminate-fresh output_budget_exceeded (counted chunk s) t)
              (simp over refl)
              (over-Calm s _ output_budget_exceeded (data_on stderr chunk) events u g.1 refl refl
                refl)
      ]
  calm s (timeout_fires ∷ events) t f a u g =
      Calm-step s _ timeout_fires events _
        (timed_out-armed s a
          ∙ terminate-fresh time_budget_exceeded (record s { timeout_armed = false }) t)
        refl (over-Calm s _ time_budget_exceeded timeout_fires events u g.1 refl refl refl)
  calm s (force_fires ∷ events) t f a u g =
      let (armed, sent, e) = force-fields s in
      Calm-step s (record s { force_armed = armed; sent = sent }) force_fires events _ e refl
        (calm (record s { force_armed = armed; sent = sent }) events t f a u g.1)
  calm s (exits ∷ events) t f a u g = calm (record s { exited = true }) events t f a u g.1
  calm s (errors message ∷ events) t f a u g = absurd g.0
  calm s (closes exit_code signal elapsed ∷ events) t f a u g = absurd g.0
