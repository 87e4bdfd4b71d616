-- ===== src/JobController/Trace.antt =====
-- The trace check of scripts/job-trace.mjs accepts the events of every job that is ever stored.
use mgds.Prelude.{
  Bool-cases, List, Option, Result-cases, Text, [], arith, get, inl, inr, length, length-append,
  nat_eq, ok, pos, refl, some, text_eq, true, ℕ, ◌++◌, ◌+◌, ◌∷◌, ◌≡◌,
}
use mgds.Json.{num}
use mgds.JobTrace.{
  Idempotency, never, Event, trace_loop, trace_end, assert_job_trace, follows, kind_check,
  sequence_of, starts, JobState,
}
use mgds.JobController.{Job, empty, move_event, Call, run}
use mgds.JobController.History.{
  History, begun, then, HasHistory, recorded, empty-IsConsistent, run-IsConsistent,
}

trace_loop-cons :
    (p x : ℕ) (f : Event) (es : List Event) (r : ℕ × ℕ)
    → trace_loop p x (f ∷ es) ≡ ok r
    → (follows p f.sequence ≡ true)
      × (kind_check f.kind ≡ ok tt)
      × (trace_loop (sequence_of f.sequence) (x + starts f.kind) es ≡ ok r)
unfolding trace_loop
trace_loop-cons p x f es r h = elim (Bool-cases (follows p f.sequence)) [
  | inl above ↦ elim (Result-cases (kind_check f.kind)) [
    | inl (tt, good) ↦ (above, good, rw (above, good) at h)
    | inr (e, bad) ↦ cc (rw (above, bad) at h)
  ]
  | inr below ↦ cc (rw below at h)
]

-- the loop over one more event at the end
trace_loop-append :
    (p x : ℕ) (es : List Event) (n y : ℕ) (e : Event)
    → trace_loop p x es ≡ ok (n, y)
    → follows n e.sequence ≡ true
    → kind_check e.kind ≡ ok tt
    → trace_loop p x (es ++ e ∷ []) ≡ ok (sequence_of e.sequence, y + starts e.kind)
unfolding trace_loop
trace_loop-append p x [] n y e h f k =
    let q : p ≡ n = cc in let z : x ≡ y = cc in rw (q, z, f, k) refl
trace_loop-append p x (g ∷ es) n y e h f k =
    let (a, b, c) = trace_loop-cons p x g es (n, y) h in
    rw (a, b) (trace_loop-append (sequence_of g.sequence) (x + starts g.kind) es n y e c f k)

next_follows : (n : ℕ) → follows n (num (pos (n + 1))) ≡ true
next_follows n = ground arith

-- A history passes the loop, which ends at its length and has counted no execution.
History-trace :
    {es : List Event} {s : JobState} {n : ℕ}
    → History es s n
    → trace_loop 0 0 es ≡ ok (length es, 0)
History-trace (begun at e _ _) = rw e (unfold trace_loop in refl)
History-trace {s = s} (then fs from m payload at h legal e _) =
    let step = move_event (length fs) from s payload at in
    rw (e, length-append fs (step ∷ []))
      (trace_loop-append 0 0 fs (length fs) 0 step (History-trace h) (next_follows (length fs))
        (rw legal refl))

trace_end-zero : (i : Idempotency) (n : ℕ) → trace_end i (ok (n, 0)) ≡ ok tt
trace_end-zero never n = refl
trace_end-zero _ n = refl

stored-trace :
    (job : Job) (o : Option (List Event)) (i : Idempotency)
    → HasHistory job o
    → (es : List Event) × (o ≡ some es) × (assert_job_trace es i ≡ ok tt)
stored-trace job o i (recorded es e h) =
    (es, e, unfold assert_job_trace in rw (History-trace h) (trace_end-zero i (length es)))

-- After any calls on an empty store, every stored job carries its own id and has events, which the
-- trace check accepts whatever the idempotency of its procedure.
pub stored_jobs_have_legal_traces :
    (cs : List Call) (id : Text) (job : Job) (i : Idempotency)
    → get (run empty cs).jobs id ≡ some job
    → (job.id ≡ id)
      × ((es : List Event) × (get (run empty cs).events id ≡ some es)
          × (assert_job_trace es i ≡ ok tt))
stored_jobs_have_legal_traces cs id job i h =
    let (had, named) = run-IsConsistent empty cs empty-IsConsistent id job h in
    (named, stored-trace job _ i had)
