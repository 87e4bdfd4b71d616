-- ===== src/JobController/Moves.antt =====
-- What a transition does to the stored job and to the record of its events.
use mgds.Prelude.{
  Bool-cases, List, Option, Text, [], arith, beq_of_ne, err, false, get, get-put_ne, get-put_self,
  if◌then◌else◌, inl, inr, length, lit, nat_eq, none, ok, pos, refl, some, text_eq, true, ℕ, ◌++◌,
  ◌+◌, ◌==◌, ◌∷◌, ◌≡◌, ◌≢◌, ◌⊎◌,
}
use mgds.Json.{Value, num}
use mgds.JobTrace.{
  JobState, queued, granted, running, checkpointed, cancelling, succeeded, failed, cancelled,
  timed_out, expired, name, is_legal_transition, Event, transition,
}
use mgds.JobController.{
  Job, Snapshot, attempts, or_kept, moved, move_event, transit, illegal_transition, is_job_id,
}
use mgds.JobController.Outcomes.{after_move}

-- The job has moved: the attempt counts the starts, and the last payload given is the checkpoint.
pub record Advanced (to : JobState) (payload : Option Value) (at : Text) (job after : Job)
    : Type 0 where
  pub id : after.id ≡ job.id
  pub names :
      (after.procedure_id ≡ job.procedure_id)
      × (after.project_scope ≡ job.project_scope)
      × (after.capability_id ≡ job.capability_id)
  pub times : (after.created_at ≡ job.created_at) × (after.updated_at ≡ at)
  pub state : after.state ≡ to
  pub attempt : after.attempt ≡ job.attempt + (if name to == lit "running" then 1 else 0)
  pub checkpoint :
      ((payload ≡ none) × (after.checkpoint ≡ job.checkpoint))
      ⊎ ((v : Value) × (payload ≡ some v) × (after.checkpoint ≡ some v))

-- What the call leaves in the store.
pub record Saved (id : Text) (to : JobState) (payload : Option Value) (at : Text) (job : Job)
    (es : List Event) (other : Text) (s t : Snapshot) (after : Job) : Type 0 where
  pub job_stored : get t.jobs id ≡ some after
  pub advanced : Advanced to payload at job after
  pub event :
      (e : Event) × (get t.events id ≡ some (es ++ e ∷ []))
      × (e.sequence ≡ num (pos (length es + 1)))
      × (e.kind ≡ transition (name job.state) (name to))
      × (e.at ≡ at)
      × (e.payload ≡ payload)
  pub others : (get t.jobs other ≡ get s.jobs other) × (get t.events other ≡ get s.events other)
  pub keys : (t.idempotency_keys ≡ s.idempotency_keys) × (t.procedure_ids ≡ s.procedure_ids)

attempts-counts :
    (to : JobState) (n : ℕ) → attempts to n ≡ n + (if name to == lit "running" then 1 else 0)
attempts-counts queued n = omega arith
attempts-counts granted n = omega arith
attempts-counts running n = omega arith
attempts-counts checkpointed n = omega arith
attempts-counts cancelling n = omega arith
attempts-counts succeeded n = omega arith
attempts-counts failed n = omega arith
attempts-counts cancelled n = omega arith
attempts-counts timed_out n = omega arith
attempts-counts expired n = omega arith

or_kept-given :
    (payload kept : Option Value)
    → ((payload ≡ none) × (or_kept payload kept ≡ kept))
      ⊎ ((v : Value) × (payload ≡ some v) × (or_kept payload kept ≡ some v))
or_kept-given none kept = inl (refl, refl)
or_kept-given (some v) kept = inr (v, refl, refl)

moved-Advanced :
    (job : Job) (to : JobState) (payload : Option Value) (at : Text)
    → Advanced to payload at job (moved job to payload at)
moved-Advanced job to payload at = record {
  id = refl;
  names = (refl, refl, refl);
  times = (refl, refl);
  state = refl;
  attempt = attempts-counts to job.attempt;
  checkpoint = or_kept-given payload job.checkpoint;
}

-- Of a stored job with events, a legal transition answers and stores the job in the new state, with
-- the times, the attempt and the checkpoint that follow, and records one more event with the next
-- number; an illegal one throws and leaves the store as it is. Jobs under other ids, their events
-- and the idempotency keys stay as they are.
pub transit_moves :
    (id : Text) (to : JobState) (payload : Option Value) (at : Text) (s : Snapshot) (job : Job)
    (es : List Event) (other : Text)
    → is_job_id id ≡ true
    → get s.jobs id ≡ some job
    → get s.events id ≡ some es
    → id ≢ other
    → ((is_legal_transition (name job.state) (name to) ≡ true)
        × ((after : Job) × (t : Snapshot) × (transit id to payload at s ≡ (ok after, t))
            × Saved id to payload at job es other s t after))
      ⊎ ((is_legal_transition (name job.state) (name to) ≡ false)
          × (transit id to payload at s ≡ (err (illegal_transition job.state to), s)))
unfolding transit
transit_moves id to payload at s job es other good found stored away =
    let differ = beq_of_ne id other away in
    elim (Bool-cases (is_legal_transition (name job.state) (name to))) [
      | inr illegal ↦ inr (illegal, rw (good, found, illegal) refl)
      | inl legal ↦ inl (
        legal,
        (
          moved job to payload at,
          after_move id to payload at job es s,
          rw (good, found, legal, stored) refl,
          record {
            job_stored = get-put_self s.jobs id (moved job to payload at);
            advanced = moved-Advanced job to payload at;
            event = (
              move_event (length es) job.state to payload at,
              get-put_self s.events id _,
              refl,
              refl,
              refl,
              refl,
            );
            others = (get-put_ne s.jobs id other _ differ, get-put_ne s.events id other _ differ);
            keys = (refl, refl);
          },
        ),
      )
    ]
