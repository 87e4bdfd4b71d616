-- ===== src/ReferenceService/Runs.antt =====
-- What the runs of a task do.
use mgds.Prelude.{
  List, Text, [], ap, err, false, get, get-put_self, lit, nat_eq, none, ok, refl, some, text_eq,
  true, ℕ, ◌∷◌, ◌≡◌, ◌≢◌,
}
use mgds.Json.{Value}
use mgds.Json.Access.{member, text_of}
use mgds.JobTrace.{
  name, is_legal_transition, Event, queued, running, granted, checkpointed, cancelling, succeeded,
  failed, cancelled, timed_out, expired, JobState,
}
use mgds.JobController.{
  Job, Snapshot, illegal_transition, submit, transit, is_job_id, new_job, created, moved,
  submit_event, attempts,
}
use mgds.JobController.Outcomes.{after_move}
use mgds.Artifacts.{Manifest, Disk, put_artifact}
use mgds.ReferenceService.{
  Service, job_error, adapter_error, Platform, Adapter, job_id_of, run_id_of, key_of, procedure_of,
  task_hash, begin_task, output_bytes, report_of, finish_task, run_task, or_empty_object, is_truthy,
}

-- a transition that may be taken
transit_taken :
    (id : Text) (to : JobState) (at : Text) (s : Snapshot) (job : Job) (es : List Event)
    → is_job_id id ≡ true
    → get s.jobs id ≡ some job
    → is_legal_transition (name job.state) (name to) ≡ true
    → get s.events id ≡ some es
    → transit id to none at s ≡ (ok (moved job to none at), after_move id to none at job es s)
unfolding transit
transit_taken id to at s job es named found legal stored = simp (named, found, legal, stored) refl

-- and one that is refused
transit_refused :
    (id : Text) (to : JobState) (at : Text) (s : Snapshot) (job : Job)
    → is_job_id id ≡ true
    → get s.jobs id ≡ some job
    → is_legal_transition (name job.state) (name to) ≡ false
    → transit id to none at s ≡ (err (illegal_transition job.state to), s)
unfolding transit
transit_refused id to at s job named found illegal = simp (named, found, illegal) refl

-- a snapshot in which a job stands in a state, behind a number of starts, under its key
pub record Holds (s : Snapshot) (id key : Text) (state : JobState) (attempt : ℕ) : Type 0 where
  pub job : Job
  pub events : List Event
  pub found : get s.jobs id ≡ some job
  pub stored : get s.events id ≡ some events
  pub in_state : job.state ≡ state
  pub attempted : job.attempt ≡ attempt
  pub named : job.id ≡ id
  pub keyed : get s.idempotency_keys key ≡ some id

moved-Holds :
    (s : Snapshot) (id key at : Text) (from to : JobState) (n : ℕ)
    → is_job_id id ≡ true
    → is_legal_transition (name from) (name to) ≡ true
    → (h : Holds s id key from n)
    → (transit id to none at s
        ≡ (ok (moved h.job to none at), after_move id to none at h.job h.events s))
      × Holds (after_move id to none at h.job h.events s) id key to (attempts to n)
moved-Holds s id key at from to n good legal h = (
  transit_taken id to at s h.job h.events good h.found (rw h.in_state legal) h.stored,
  record {
    job = moved h.job to none at;
    events = _;
    found = get-put_self s.jobs id (moved h.job to none at);
    stored = get-put_self s.events id _;
    in_state = refl;
    attempted = ap (attempts to) h.attempted;
    named = h.named;
    keyed = h.keyed;
  },
)

submit_fresh :
    (hash : Text) (task : Value) (at : Text) (s : Snapshot)
    → get s.idempotency_keys (key_of hash) ≡ none
    → submit (job_id_of hash) at (procedure_of hash task) s ≡ (
      ok (some (new_job (job_id_of hash) at (procedure_of hash task))),
      created (job_id_of hash) at (procedure_of hash task) s,
    )
unfolding submit
submit_fresh hash task at s fresh = simp fresh refl

submit_known :
    (hash : Text) (task : Value) (at : Text) (s : Snapshot)
    → get s.idempotency_keys (key_of hash) ≡ some (job_id_of hash)
    → submit (job_id_of hash) at (procedure_of hash task) s ≡ (ok (get s.jobs (job_id_of hash)), s)
unfolding submit
submit_known hash task at s known = simp known refl

created-Holds :
    (hash : Text) (task : Value) (at : Text) (s : Snapshot)
    → Holds
        (created (job_id_of hash) at (procedure_of hash task) s)
        (job_id_of hash)
        (key_of hash)
        queued
        0
created-Holds hash task at s = record {
  job = new_job (job_id_of hash) at (procedure_of hash task);
  events = submit_event at ∷ [];
  found = get-put_self s.jobs (job_id_of hash) _;
  stored = get-put_self s.events (job_id_of hash) _;
  in_state = refl;
  attempted = refl;
  named = refl;
  keyed = get-put_self s.idempotency_keys (key_of hash) (job_id_of hash);
}

only_queued :
    (state : JobState) → state ≢ queued → is_legal_transition (name state) (name granted) ≡ false
unfolding is_legal_transition
only_queued queued ne = absurd (ne refl)
only_queued granted ne = refl
only_queued running ne = refl
only_queued checkpointed ne = refl
only_queued cancelling ne = refl
only_queued succeeded ne = refl
only_queued failed ne = refl
only_queued cancelled ne = refl
only_queued timed_out ne = refl
only_queued expired ne = refl

module _ (platform : Platform) (adapter : Adapter) (clock : ℕ → Text) where
  -- the state in which a fresh task has begun to run
  pub record Begun (hash : Text) (task : Value) (s : Service) : Type 0 where
    pub snapshot : Snapshot
    pub job : Job
    pub begun :
        begin_task platform adapter clock hash task s ≡ (ok job, record s { snapshot = snapshot })
    pub named : job.id ≡ job_id_of hash
    pub holds : Holds snapshot (job_id_of hash) (key_of hash) running 1

  begin_fresh :
      (hash : Text) (task : Value) (s : Service)
      → is_job_id (job_id_of hash) ≡ true
      → get s.snapshot.idempotency_keys (key_of hash) ≡ none
      → Begun hash task s
  unfolding begin_task is_legal_transition
  begin_fresh hash task s good fresh =
      let h0 = created-Holds hash task (clock 0) s.snapshot in
      let (e1, h1) =
        moved-Holds _ (job_id_of hash) (key_of hash) (clock 1) queued granted 0 good refl h0 in
      let (e2, h2) =
        moved-Holds _ (job_id_of hash) (key_of hash) (clock 2) granted running _ good refl h1 in
      record {
        snapshot = _;
        job = new_job (job_id_of hash) (clock 0) (procedure_of hash task);
        begun = rw (submit_fresh hash task (clock 0) s.snapshot fresh, e1, e2) refl;
        named = refl;
        holds = h2;
      }

  -- A task whose key is new, which is not deferred, and whose adapter answers with an output that
  -- the artifact store takes, succeeds: its job stands in `succeeded` after one start, and the
  -- report under its run identity has the output and the manifest of the artifact.
  pub fresh_task_succeeds :
      (task output : Value) (s : Service) (m : Manifest) (disk : Disk)
      → is_job_id (job_id_of (task_hash platform adapter clock task)) ≡ true
      → get s.snapshot.idempotency_keys (key_of (task_hash platform adapter clock task)) ≡ none
      → is_truthy (member (lit "defer") task) ≡ false
      → adapter
          (text_of (member (lit "capabilityId") task))
          (or_empty_object (member (lit "input") task))
        ≡ ok output
      → put_artifact platform.sha256_bytes
          (lit "adapter-output.json")
          (lit "application/json")
          (output_bytes platform adapter clock output)
          s.disk
        ≡ (ok m, disk)
      → let hash = task_hash platform adapter clock task in
        (t : Service) × (run_task platform adapter clock task s ≡ (
          ok (record {
            run_id = run_id_of hash;
            job_id = job_id_of hash;
            state = succeeded;
            artifact_hash = some m.sha256;
          }),
          t,
        ))
        × Holds t.snapshot (job_id_of hash) (key_of hash) succeeded 1
        × (get t.runs (run_id_of hash) ≡ some (report_of platform adapter clock hash task m output))
        × (t.disk ≡ disk)
  unfolding run_task finish_task is_legal_transition
  fresh_task_succeeds task output s m disk good fresh now answered placed =
      let hash = task_hash platform adapter clock task in
      let b = begin_fresh hash task s good fresh in
      let (e, h) =
        moved-Holds b.snapshot (job_id_of hash) (key_of hash) (clock 3) running succeeded 1 good
          refl b.holds in
      (
        _,
        rw (b.begun, now, answered, placed, b.named, e) refl,
        h,
        get-put_self s.runs (run_id_of hash) (report_of platform adapter clock hash task m output),
        refl,
      )

  -- Where the adapter throws, the run throws that error, but the job that it began stays in
  -- `running`, and there is no report.
  pub failed_task_stays_running :
      (task : Value) (s : Service) (e : Text)
      → is_job_id (job_id_of (task_hash platform adapter clock task)) ≡ true
      → get s.snapshot.idempotency_keys (key_of (task_hash platform adapter clock task)) ≡ none
      → is_truthy (member (lit "defer") task) ≡ false
      → adapter
          (text_of (member (lit "capabilityId") task))
          (or_empty_object (member (lit "input") task))
        ≡ err e
      → let hash = task_hash platform adapter clock task in
        (t : Service) × (run_task platform adapter clock task s ≡ (err (adapter_error e), t))
        × Holds t.snapshot (job_id_of hash) (key_of hash) running 1
        × (t.runs ≡ s.runs)
        × (t.disk ≡ s.disk)
  unfolding run_task finish_task
  failed_task_stays_running task s e good fresh now thrown =
      let hash = task_hash platform adapter clock task in
      let b = begin_fresh hash task s good fresh in
      (record s { snapshot = b.snapshot }, rw (b.begun, now, thrown) refl, b.holds, refl, refl)

  -- A task that was run before, and whose job has left `queued`, is not answered again: the run
  -- throws the illegal transition to `granted` and changes nothing.
  pub repeated_task_throws :
      (task : Value) (s : Service) (state : JobState) (n : ℕ)
      → is_job_id (job_id_of (task_hash platform adapter clock task)) ≡ true
      → Holds s.snapshot
          (job_id_of (task_hash platform adapter clock task))
          (key_of (task_hash platform adapter clock task))
          state
          n
      → state ≢ queued
      → run_task platform adapter clock task s
        ≡ (err (job_error (illegal_transition state granted)), s)
  unfolding run_task begin_task
  repeated_task_throws task s state n good h ne =
      let hash = task_hash platform adapter clock task in
      rw
        (
          submit_known hash task (clock 0) s.snapshot h.keyed,
          h.found,
          h.named,
          transit_refused (job_id_of hash) granted (clock 1) s.snapshot h.job good h.found
              (rw h.in_state (only_queued state ne)),
          h.in_state,
        )
        refl
