-- ===== src/ReferenceService.antt =====
-- packages/controller/src/reference-service.mjs and the adapter of packages/adapter-testkit: tasks run
-- over the job controller and the artifact store. The report files are a map from run identities.
pub mod Runs
use mgds.Prelude.{
  Bool, Dict, Exec, List, Option, Result, Text, [], ensure, eqb, err, every, false, get,
  if◌then◌else◌, is_hex, length, lift, lit, load, nat_eq, none, not, ok, pos, pure, put, require,
  save, some, strip, take, text_eq, true, ℕ, ◌&&◌, ◌++◌, ◌==◌, ◌>>=◌, ◌>>◌, ◌∷◌,
}
use mgds.Json.{Value, Fields, null, bool, num, str, arr, obj, end, field, canonical}
use mgds.Json.Access.{field_of, member, text_of}
use mgds.JobTrace.{
  running, checkpointed, granted, cancelling, cancelled, succeeded, key_required, JobState,
}
use mgds.JobController.{Procedure, Job, Snapshot, JobError, submit, transit, get_job}
use mgds.Artifacts.{Manifest, Disk, ArtifactError, put_artifact}

pub record Report : Type 0 where
  pub run_id : Text
  pub job_id : Text
  pub state : JobState
  pub task_id : Option Value
  pub task_hash : Text
  pub artifact : Manifest
  pub result : Value
  pub completed_at : Text

-- the three directories of the service: `jobs`, `artifacts` and `runs`
pub record Service : Type 0 where
  pub snapshot : Snapshot
  pub disk : Disk
  pub runs : Dict Text Report

pub data ServiceError : Type 0 where
  job_error : JobError → ServiceError
  artifact_error : ArtifactError → ServiceError
  adapter_error : Text → ServiceError
  no_job invalid_request no_report : ServiceError

-- `hash` and `update` of node:crypto on strings and on bytes, and the bytes of a string
pub record Platform : Type 0 where
  pub sha256 : Text → Text
  pub sha256_bytes : List ℕ → Text
  pub utf8 : Text → List ℕ

abbrev pub relay :
    {A S E : Type 0}
    → (E → ServiceError)
    → (S → Service)
    → Result E A × S
    → Result ServiceError A × Service
relay wrap into (ok a, t) = (ok a, into t)
relay wrap into (err e, t) = (err (wrap e), into t)

-- a call of the job controller, and one of the artifact store
abbrev pub on_jobs : {A : Type 0} → Exec Snapshot JobError A → Exec Service ServiceError A
on_jobs m s = relay job_error (λ t. record s { snapshot = t }) (m s.snapshot)

abbrev pub on_disk : {A : Type 0} → Exec Disk ArtifactError A → Exec Service ServiceError A
on_disk m s = relay artifact_error (λ t. record s { disk = t }) (m s.disk)

-- `value ?? {}`
abbrev or_empty_object : Option Value → Value
or_empty_object none = obj end
or_empty_object (some null) = obj end
or_empty_object (some v) = v

abbrev pub is_truthy : Option Value → Bool
is_truthy none = false
is_truthy (some null) = false
is_truthy (some (bool b)) = b
is_truthy (some (num (pos n))) = not (eqb n 0)
is_truthy (some (str [])) = false
is_truthy (some _) = true

-- an adapter answers with a value or throws
abbrev pub Adapter : Type 0
Adapter = Text → Value → Result Text Value

-- `execute` of FakeAdapter
unfoldable pub fake_adapter : Adapter
fake_adapter capability_id input =
    if capability_id == lit "mgds.unity.fake.echo@0.1.0"
    then ok (obj (field (lit "echoed") input end))
    else err (lit "MGDS_UNSUPPORTED_CAPABILITY")

abbrev pub job_id_of : Text → Text
job_id_of hash = lit "job_" ++ take 24 hash

abbrev pub run_id_of : Text → Text
run_id_of hash = lit "run_" ++ take 24 hash

abbrev pub key_of : Text → Text
key_of hash = lit "idem_" ++ take 24 hash

abbrev pub procedure_of : Text → Value → Procedure
procedure_of hash task = record {
  id = lit "proc_" ++ take 24 hash;
  capability_id = text_of (member (lit "capabilityId") task);
  project_scope = lit "prj_reference0000000001";
  idempotency = key_required;
  idempotency_key = some (key_of hash);
}

pub record Answer : Type 0 where
  pub run_id : Text
  pub job_id : Text
  pub state : JobState
  pub artifact_hash : Option Text

module _ (platform : Platform) (adapter : Adapter) (clock : ℕ → Text) where
  abbrev pub task_hash : Value → Text
  task_hash task = platform.sha256 (canonical task)

  -- `runTask` up to the state `running`; `clock` gives the readings of the clock in their order
  unfoldable pub begin_task : Text → Value → Exec Service ServiceError Job
  begin_task hash task = do
    found ← on_jobs (submit (job_id_of hash) (clock 0) (procedure_of hash task))
    job ← require found no_job
    on_jobs (transit job.id granted none (clock 1))
    on_jobs (transit job.id running none (clock 2))
    pure job

  abbrev adapter_result : Result Text Value → Result ServiceError Value
  adapter_result (ok v) = ok v
  adapter_result (err e) = err (adapter_error e)

  -- the bytes of the artifact
  abbrev pub output_bytes : Value → List ℕ
  output_bytes output = platform.utf8 (canonical output ++ lit "\n")

  abbrev pub report_of : Text → Value → Manifest → Value → Report
  report_of hash task artifact output = record {
    run_id = run_id_of hash;
    job_id = job_id_of hash;
    state = succeeded;
    task_id = member (lit "id") task;
    task_hash = lit "sha256:" ++ hash;
    artifact = artifact;
    result = output;
    completed_at = clock 4;
  }

  abbrev save_report : Report → Exec Service ServiceError (Unit {0})
  save_report report = do
    service ← load
    save (record service { runs = put service.runs report.run_id report })

  -- the rest of `runTask`
  unfoldable pub finish_task : Text → Value → Text → Exec Service ServiceError Answer
  finish_task hash task id = do
    output ← lift (
        adapter_result (
          adapter (text_of (member (lit "capabilityId") task))
            (or_empty_object (member (lit "input") task))))
    artifact ← on_disk (
        put_artifact platform.sha256_bytes (lit "adapter-output.json") (lit "application/json")
          (output_bytes output))
    on_jobs (transit id succeeded none (clock 3))
    save_report (report_of hash task artifact output)
    pure (record {
      run_id = run_id_of hash;
      job_id = job_id_of hash;
      state = succeeded;
      artifact_hash = some artifact.sha256;
    })

  abbrev pub finish_or_defer : Text → Value → Text → Exec Service ServiceError Answer
  finish_or_defer hash task id s =
      if is_truthy (member (lit "defer") task)
      then (
        ok (record {
          run_id = run_id_of hash;
          job_id = job_id_of hash;
          state = running;
          artifact_hash = none;
        }),
        s,
      )
      else finish_task hash task id s

  unfoldable pub run_task : Value → Exec Service ServiceError Answer
  unfolding begin_task finish_task
  run_task task = do
    job ← begin_task (task_hash task) task
    finish_or_defer (task_hash task) task job.id

  abbrev is_active : JobState → Bool
  is_active running = true
  is_active checkpointed = true
  is_active _ = false

  abbrev start_cancelling : Text → JobState → Exec Snapshot JobError (Unit {0})
  start_cancelling id state s =
      if is_active state then (transit id cancelling none (clock 0) >> pure tt) s else (ok tt, s)

  -- `cancel`: the state that it answers with
  unfoldable pub cancel : Text → Exec Snapshot JobError JobState
  cancel id = do
    job ← get_job id
    start_cancelling id job.state
    done ← transit id cancelled none (clock 1)
    pure done.state

-- /^run_[a-f0-9]{24}$/
abbrev is_run_rest : Option Text → Bool
is_run_rest none = false
is_run_rest (some s) = eqb (length s) 24 && every is_hex s

unfoldable pub is_run_id : Text → Bool
is_run_id id = is_run_rest (strip (lit "run_") id)

-- `report`; `collect` answers with its artifact
unfoldable pub report : Text → Exec Service ServiceError Report
unfolding is_run_id
report id = do
  ensure (is_run_id id) invalid_request
  service ← load
  require (get service.runs id) no_report

pub collect_artifacts : Text → Exec Service ServiceError (List Manifest)
unfolding report
collect_artifacts id = do found ← report id; pure (found.artifact ∷ [])
