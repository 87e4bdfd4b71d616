-- ===== src/Tests/Jobs.antt =====
-- A job from its submission to its end, and repeated submissions.
use mgds.Prelude.{
  All, List, Option, Text, [], err, false, get, if◌then◌else◌, lit, nat_eq, ne_of_beq, none, ok,
  pos, put, refl, some, text_eq, true, ◌==◌, ◌∷◌, ◌≡◌, ◌⊎◌,
}
use mgds.JobTrace.{
  queued, granted, running, succeeded, name, is_legal_transition, Event, assert_job_trace, never,
  key_required,
}
use mgds.JobController.{
  Procedure, Snapshot, Job, empty, duplicate_execution, illegal_transition, is_job_id, new_job,
  submit_event, submit, transit, Call, submitting, moving, step, run,
}
use mgds.JobController.Store.{load_snapshot, save_snapshot, load_snapshot-save_snapshot}
use mgds.JobController.Moves.{Saved, transit_moves}
use mgds.Json.{Value, num}
use mgds.JobController.Trace.{stored_jobs_have_legal_traces}
use mgds.JobController.Resubmit.{GivenId, never_runs_twice}

abbrev id_1 : Text
id_1 = lit "job_1"

abbrev once : Procedure
once = record {
  id = lit "proc_1";
  capability_id = lit "mgds.unity.fake.echo@0.1.0";
  project_scope = lit "prj_1";
  idempotency = never;
  idempotency_key = none;
}

abbrev with_key : Procedure
with_key = record once { idempotency = key_required; idempotency_key = some (lit "idem_1") }

abbrev life : List Call
life =
    submitting id_1 (lit "t1") once
    ∷ moving id_1 granted none (lit "t2")
    ∷ moving id_1 running none (lit "t3")
    ∷ moving id_1 queued none (lit "t4")
    ∷ moving id_1 succeeded none (lit "t5")
    ∷ []

abbrev lived : Job
lived = record {
  id = id_1;
  procedure_id = lit "proc_1";
  project_scope = lit "prj_1";
  capability_id = lit "mgds.unity.fake.echo@0.1.0";
  state = succeeded;
  attempt = 1;
  created_at = lit "t1";
  updated_at = lit "t5";
  checkpoint = none;
}

life_runs : get (run empty life).jobs id_1 ≡ some lived
unfolding run step submit transit is_legal_transition get put
life_runs = refl

stored_jobs_have_legal_traces_example :
    (lived.id ≡ id_1)
    × ((es : List Event) × (get (run empty life).events id_1 ≡ some es)
        × (assert_job_trace es never ≡ ok tt))
stored_jobs_have_legal_traces_example =
    stored_jobs_have_legal_traces life id_1 lived never life_runs

abbrev submitted_once : Snapshot
submitted_once = (submit id_1 (lit "t1") once empty).1

abbrev queued_job : Job
queued_job = new_job id_1 (lit "t1") once

abbrev given : Option Value
given = some (num (pos 5))

transit_moves_example :
    ((is_legal_transition (name queued_job.state) (name granted) ≡ true)
      × ((after : Job) × (t : Snapshot) × (transit id_1 granted given (lit "t2") submitted_once
            ≡ (ok after, t))
          × Saved id_1 granted given
              (lit "t2")
              queued_job
              (submit_event (lit "t1") ∷ [])
              (lit "job_2")
              submitted_once
              t
              after))
    ⊎ ((is_legal_transition (name queued_job.state) (name granted) ≡ false)
        × (transit id_1 granted given (lit "t2") submitted_once
            ≡ (err (illegal_transition queued_job.state granted), submitted_once)))
unfolding submit get put is_job_id
transit_moves_example =
    transit_moves id_1 granted given (lit "t2") submitted_once queued_job
      (submit_event (lit "t1") ∷ []) (lit "job_2") refl refl refl
      (ne_of_beq id_1 (lit "job_2") refl)

abbrev later : List Call
later = moving id_1 granted none (lit "t2") ∷ submitting (lit "job_2") (lit "t3") with_key ∷ []

later_given : All GivenId later
later_given = (tt, ((λ h. cc), tt))

never_runs_twice_example :
    let t = run (submit id_1 (lit "t1") once empty).1 later in
    submit (lit "job_3") (lit "t4") once t ≡ (err duplicate_execution, t)
unfolding get
never_runs_twice_example =
    never_runs_twice id_1 (lit "t1") once empty later (lit "job_3") (lit "t4") once (λ h. cc)
      later_given refl refl refl

abbrev stored : Snapshot
stored = record empty { idempotency_keys = (lit "idem_1", id_1) ∷ [] }

abbrev parse_stored : Text → Option Snapshot
parse_stored text = if text == lit "stored" then some stored else none

-- a store with no snapshot yet and a temporary file that was left behind
load_snapshot-save_snapshot_example :
    load_snapshot
      (λ s. lit "stored")
      parse_stored
      (lit "jobs.json")
      (save_snapshot
        (λ s. lit "stored")
        parse_stored
        (lit "jobs.json")
        (record { partial_write = none; rename_fails = false })
        stored
        ((lit "jobs.json.tmp", lit "sto") ∷ [])).1
    ≡ ok stored
unfolding save_snapshot load_snapshot get
load_snapshot-save_snapshot_example =
    load_snapshot-save_snapshot (λ s. lit "stored") parse_stored (lit "jobs.json")
      (record { partial_write = none; rename_fails = false }) empty stored
      ((lit "jobs.json.tmp", lit "sto") ∷ []) refl refl
