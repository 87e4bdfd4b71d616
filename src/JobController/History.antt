-- ===== src/JobController/History.antt =====
-- Every stored job has a history of legal transitions that ends in its state, which the trace
-- check of scripts/job-trace.mjs accepts.
use mgds.Prelude.{
  List, Option, Result, Text, [], ap, arith, beq_cases, err, get, get-put_ne, get-put_self, inl,
  inr, length, nat_eq, none, ok, put, refl, some, some-inj, sym, text_eq, true, ℕ, ◌++◌, ◌∙◌, ◌∷◌,
  ◌≡◌,
}
use mgds.Json.{Value}
use mgds.JobTrace.{JobState, queued, name, is_legal_transition, Event}
use mgds.JobController.Outcomes.{submit_result, submit_by_admission, transit_outcome, after_move}
use mgds.JobController.{
  new_job, get_job, admit, moved, JobError, Procedure, Job, Snapshot, empty, submit_event, created,
  submit, attempts, move_event, transit, Call, submitting, moving, reading, step, run,
}

-- The events of a job that is in a state after a number of starts.
pub data History : List Event → JobState → ℕ → Type 0 where
  begun :
      {es : List Event} {s : JobState} {n : ℕ} (at : Text)
      → es ≡ submit_event at ∷ []
      → s ≡ queued
      → n ≡ 0
      → History es s n
  then :
      {es : List Event} {s : JobState} {n : ℕ} (fs : List Event) (from : JobState) (m : ℕ)
      (payload : Option Value) (at : Text)
      → History fs from m
      → is_legal_transition (name from) (name s) ≡ true
      → es ≡ fs ++ move_event (length fs) from s payload at ∷ []
      → n ≡ attempts s m
      → History es s n

-- what the invariant asks of the events that are stored for a job
pub data HasHistory (job : Job) (o : Option (List Event)) : Type 0 where
  recorded : (es : List Event) → o ≡ some es → History es job.state job.attempt → HasHistory job o

abbrev pub IsConsistent : Snapshot → Type 0
IsConsistent s =
    (id : Text) (job : Job)
    → get s.jobs id ≡ some job
    → HasHistory job (get s.events id) × (job.id ≡ id)

pub empty-IsConsistent : IsConsistent empty
unfolding get
empty-IsConsistent id job h = cc

-- Storing one job with its history keeps the invariant.
stored-IsConsistent :
    (s t : Snapshot) (id : Text) (new : Job) (es : List Event)
    → IsConsistent s
    → t.jobs ≡ put s.jobs id new
    → t.events ≡ put s.events id es
    → History es new.state new.attempt
    → new.id ≡ id
    → IsConsistent t
stored-IsConsistent s t id new es c hj he hist named j job h = elim (beq_cases id j) [
  | inl same ↦
      let e : new ≡ job =
        some-inj
          (sym (get-put_self s.jobs id new) ∙ ap (get (put s.jobs id new)) same ∙ rw hj at h) in
      rw (sym e) (recorded es (rw (he, sym same) (get-put_self s.events id es)) hist, named ∙ same)
  | inr other ↦
      rw (he, get-put_ne s.events id j es other)
        (c j job (rw (hj, get-put_ne s.jobs id j new other) at h))
]

result-IsConsistent :
    (id at : Text) (p : Procedure) (s : Snapshot) (r : Result JobError (Option (Option Job)))
    → IsConsistent s
    → IsConsistent (submit_result id at p s r).1
result-IsConsistent id at p s (err e) c = c
result-IsConsistent id at p s (ok (some earlier)) c = c
result-IsConsistent id at p s (ok none) c =
    stored-IsConsistent s (created id at p s) id (new_job id at p) (submit_event at ∷ []) c refl
      refl (begun at refl refl refl) refl

submit-IsConsistent :
    (id at : Text) (p : Procedure) (s : Snapshot)
    → IsConsistent s
    → IsConsistent (submit id at p s).1
submit-IsConsistent id at p s c =
    rw (submit_by_admission id at p s) (result-IsConsistent id at p s (admit p.idempotency p s) c)

-- the one history that a found job has
History-of :
    (job : Job) (o : Option (List Event)) (es : List Event)
    → HasHistory job o
    → o ≡ some es
    → History es job.state job.attempt
History-of job o es (recorded fs e h) q = let same : fs ≡ es = some-inj (sym e ∙ q) in rw same at h

transit-IsConsistent :
    (id : Text) (to : JobState) (payload : Option Value) (at : Text) (s : Snapshot)
    → IsConsistent s
    → IsConsistent (transit id to payload at s).1
transit-IsConsistent id to payload at s c = elim (transit_outcome id to payload at s) [
  | inl (x, e) ↦ rw e c
  | inr (job, es, found, stored, legal, e) ↦
      let (had, named) = c id job found in
      rw e (
        stored-IsConsistent s (after_move id to payload at job es s) id (moved job to payload at)
          (es ++ move_event (length es) job.state to payload at ∷ []) c refl refl
          (then es job.state job.attempt payload at (History-of job _ es had stored) legal refl
            refl)
          named)
]

pub get_job-state : (id : Text) (s : Snapshot) → (get_job id s).1 ≡ s
unfolding get_job
get_job-state id s = ground arith

step-IsConsistent : (s : Snapshot) (c : Call) → IsConsistent s → IsConsistent (step s c)
unfolding step
step-IsConsistent s (submitting id at p) c = submit-IsConsistent id at p s c
step-IsConsistent s (moving id to payload at) c = transit-IsConsistent id to payload at s c
step-IsConsistent s (reading id) c = rw (get_job-state id s) c

-- From any consistent snapshot, whatever is called and in whatever order, the snapshot stays consistent.
pub run-IsConsistent : (s : Snapshot) (cs : List Call) → IsConsistent s → IsConsistent (run s cs)
unfolding run
run-IsConsistent s [] c = c
run-IsConsistent s (x ∷ xs) c = run-IsConsistent (step s x) xs (step-IsConsistent s x c)
