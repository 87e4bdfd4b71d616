-- ===== src/JobController/Outcomes.antt =====
-- What each call does, on every branch.
use mgds.Prelude.{
  Bool-cases, List, Option, Option-cases, Result, Result-cases, Text, [], err, get, inl, inr,
  length, nat_eq, none, ok, put, refl, some, text_eq, true, ◌++◌, ◌∷◌, ◌≡◌, ◌⊎◌,
}
use mgds.Json.{Value}
use mgds.JobTrace.{JobState, name, is_legal_transition, Event}
use mgds.JobController.{
  Procedure, Job, JobError, Snapshot, new_job, created, admit, submit, is_job_id, moved, move_event,
  transit, invalid_job_id, job_not_found, illegal_transition, events_missing,
}

abbrev pub submit_result :
    Text
    → Text
    → Procedure
    → Snapshot
    → Result JobError (Option (Option Job))
    → Result JobError (Option Job) × Snapshot
submit_result id at p s (err e) = (err e, s)
submit_result id at p s (ok (some earlier)) = (ok earlier, s)
submit_result id at p s (ok none) = (ok (some (new_job id at p)), created id at p s)

pub submit_by_admission :
    (id at : Text) (p : Procedure) (s : Snapshot)
    → submit id at p s ≡ submit_result id at p s (admit p.idempotency p s)
unfolding submit
submit_by_admission id at p s = elim (Result-cases (admit p.idempotency p s)) [
  | inl (o, e) ↦ elim (Option-cases o) [ inl n ↦ rw (e, n) refl | inr (j, n) ↦ rw (e, n) refl ]
  | inr (x, e) ↦ rw e refl
]

-- the snapshot that a move saves
abbrev pub after_move :
    Text → JobState → Option Value → Text → Job → List Event → Snapshot → Snapshot
after_move id to payload at job es s = record s {
  jobs = put s.jobs id (moved job to payload at);
  events = put s.events id (es ++ move_event (length es) job.state to payload at ∷ []);
}

-- A transition either throws and saves nothing, or the arrow from the job's state is legal and the
-- one thing that is saved is the moved job with one more event behind those it had.
pub transit_outcome :
    (id : Text) (to : JobState) (payload : Option Value) (at : Text) (s : Snapshot)
    → ((x : JobError) × (transit id to payload at s ≡ (err x, s)))
      ⊎ ((job : Job) × (es : List Event) × (get s.jobs id ≡ some job)
          × (get s.events id ≡ some es)
          × (is_legal_transition (name job.state) (name to) ≡ true)
          × (transit id to payload at s
              ≡ (ok (moved job to payload at), after_move id to payload at job es s)))
unfolding transit
transit_outcome id to payload at s = elim (Bool-cases (is_job_id id)) [
  | inr bad ↦ inl (invalid_job_id, rw bad refl)
  | inl good ↦ elim (Option-cases (get s.jobs id)) [
    | inl missing ↦ inl (job_not_found, rw (good, missing) refl)
    | inr (job, found) ↦ elim (Bool-cases (is_legal_transition (name job.state) (name to))) [
      | inr illegal ↦ inl (illegal_transition job.state to, rw (good, found, illegal) refl)
      | inl legal ↦ elim (Option-cases (get s.events id)) [
        | inl none_stored ↦ inl (events_missing, rw (good, found, legal, none_stored) refl)
        | inr (es, stored) ↦
            inr (job, es, found, stored, legal, rw (good, found, legal, stored) refl)
      ]
    ]
  ]
]
