-- ===== src/JobController.antt =====
-- packages/controller/src/jobs/job-controller.mjs: jobs in a stored snapshot. A call takes what the
-- id factory and the clock give it, and the state of the store. The file behind the store is the
-- snapshot itself: `load` and `save` write and read it whole.
pub mod Outcomes
pub mod Moves
pub mod History
pub mod Trace
pub mod Store
pub mod Resubmit
use mgds.Prelude.{
  Bool, Dict, Exec, List, Option, Result, Text, [], ensure, err, get, is_id, length, lift, lit,
  load, matches_class, nat_eq, none, ok, pos, pure, put, require, save, some, suc, text_eq, ℕ, ◌++◌,
  ◌+◌, ◌>>=◌, ◌>>◌, ◌∷◌,
}
use mgds.Json.{Value, num}
use mgds.JobTrace.{
  JobState, queued, running, checkpointed, timed_out, name, is_legal_transition, Event, submitted,
  transition, Idempotency, safe, key_required, never,
}

pub record Procedure : Type 0 where
  pub id : Text
  pub capability_id : Text
  pub project_scope : Text
  pub idempotency : Idempotency
  pub idempotency_key : Option Text

pub record Job : Type 0 where
  pub id : Text
  pub procedure_id : Text
  pub project_scope : Text
  pub capability_id : Text
  pub state : JobState
  pub attempt : ℕ
  pub created_at : Text
  pub updated_at : Text
  pub checkpoint : Option Value

pub record Snapshot : Type 0 where
  pub jobs : Dict Text Job
  pub events : Dict Text (List Event)
  pub idempotency_keys : Dict Text Text
  pub procedure_ids : Dict Text Text

-- EMPTY
abbrev pub empty : Snapshot
empty = record { jobs = []; events = []; idempotency_keys = []; procedure_ids = [] }

pub data JobError : Type 0 where
  key_missing duplicate_execution job_not_found invalid_job_id events_missing : JobError
  illegal_transition : JobState → JobState → JobError

-- a string that is there and is not empty
abbrev pub present : Option Text → Option Text
present none = none
present (some []) = none
present (some (c ∷ s)) = some (c ∷ s)

-- The first half of `submit`: an error, the answer of an earlier call, or `none` to go on.
abbrev pub reuse : Snapshot → Option Text → Option (Option Job)
reuse snapshot none = none
reuse snapshot (some existing) = some (get snapshot.jobs existing)

abbrev pub keyed : Snapshot → Option Text → Result JobError (Option (Option Job))
keyed snapshot none = err key_missing
keyed snapshot (some key) = ok (reuse snapshot (present (get snapshot.idempotency_keys key)))

abbrev pub unless_known : Option Text → Result JobError (Option (Option Job))
unless_known none = ok none
unless_known (some _) = err duplicate_execution

abbrev pub admit : Idempotency → Procedure → Snapshot → Result JobError (Option (Option Job))
admit key_required procedure snapshot = keyed snapshot (present procedure.idempotency_key)
admit never procedure snapshot = unless_known (present (get snapshot.procedure_ids procedure.id))
admit safe procedure snapshot = ok none

abbrev pub new_job : Text → Text → Procedure → Job
new_job id at procedure = record {
  id = id;
  procedure_id = procedure.id;
  project_scope = procedure.project_scope;
  capability_id = procedure.capability_id;
  state = queued;
  attempt = 0;
  created_at = at;
  updated_at = at;
  checkpoint = none;
}

abbrev pub submit_event : Text → Event
submit_event at = record { sequence = num (pos 1); kind = submitted; at = at; payload = none }

abbrev pub put_key : Dict Text Text → Option Text → Text → Dict Text Text
put_key keys none id = keys
put_key keys (some key) id = put keys key id

-- the snapshot with the new job in it
abbrev pub created : Text → Text → Procedure → Snapshot → Snapshot
created id at procedure snapshot = record {
  jobs = put snapshot.jobs id (new_job id at procedure);
  events = put snapshot.events id (submit_event at ∷ []);
  procedure_ids = put snapshot.procedure_ids procedure.id id;
  idempotency_keys = put_key snapshot.idempotency_keys (present procedure.idempotency_key) id;
}

abbrev pub answer :
    Text → Text → Procedure → Snapshot → Option (Option Job) → Exec Snapshot JobError (Option Job)
answer id at procedure snapshot (some earlier) = pure earlier
answer id at procedure snapshot none = do
  save (created id at procedure snapshot)
  pure (some (new_job id at procedure))

unfoldable pub submit : Text → Text → Procedure → Exec Snapshot JobError (Option Job)
submit id at procedure = do
  snapshot ← load
  earlier ← lift (admit procedure.idempotency procedure snapshot)
  answer id at procedure snapshot earlier

-- /^job_[A-Za-z0-9_-]+$/
unfoldable pub is_job_id : Text → Bool
unfolding matches_class
is_job_id id = matches_class (lit "job_") is_id 1 id

unfoldable pub get_job : Text → Exec Snapshot JobError Job
unfolding is_job_id
get_job id = do
  ensure (is_job_id id) invalid_job_id
  snapshot ← load
  require (get snapshot.jobs id) job_not_found

abbrev or_empty : Option (List Event) → List Event
or_empty none = []
or_empty (some events) = events

unfoldable pub get_events : Text → Exec Snapshot JobError (List Event)
unfolding is_job_id
get_events id = do
  ensure (is_job_id id) invalid_job_id
  snapshot ← load
  pure (or_empty (get snapshot.events id))

-- `if (to === 'running') job.attempt += 1`
abbrev pub attempts : JobState → ℕ → ℕ
attempts running n = suc n
attempts _ n = n

abbrev pub or_kept : Option Value → Option Value → Option Value
or_kept none kept = kept
or_kept (some payload) kept = some payload

abbrev pub moved : Job → JobState → Option Value → Text → Job
moved job to payload at = record job {
  state = to;
  updated_at = at;
  attempt = attempts to job.attempt;
  checkpoint = or_kept payload job.checkpoint;
}

abbrev pub move_event : ℕ → JobState → JobState → Option Value → Text → Event
move_event count from to payload at = record {
  sequence = num (pos (count + 1));
  kind = transition (name from) (name to);
  at = at;
  payload = payload;
}

-- `events` is undefined where a job has none, and its `push` then throws
unfoldable pub transit : Text → JobState → Option Value → Text → Exec Snapshot JobError Job
unfolding is_job_id
transit id to payload at = do
  ensure (is_job_id id) invalid_job_id
  snapshot ← load
  job ← require (get snapshot.jobs id) job_not_found
  ensure (is_legal_transition (name job.state) (name to)) (illegal_transition job.state to)
  events ← require (get snapshot.events id) events_missing
  save (record snapshot {
    jobs = put snapshot.jobs id (moved job to payload at);
    events =
        put snapshot.events id (events ++ move_event (length events) job.state to payload at ∷ []);
  })
  pure (moved job to payload at)

unfoldable pub checkpoint : Text → Option Value → Text → Exec Snapshot JobError Job
unfolding transit
checkpoint id payload at = transit id checkpointed payload at

unfoldable pub resume : Text → Text → Exec Snapshot JobError Job
unfolding transit
resume id at = transit id running none at

unfoldable pub timeout : Text → Text → Exec Snapshot JobError Job
unfolding transit
timeout id at = transit id timed_out none at

-- What a client of the controller can do to its state.
pub data Call : Type 0 where
  submitting : Text → Text → Procedure → Call
  moving : Text → JobState → Option Value → Text → Call
  reading : Text → Call

unfoldable pub step : Snapshot → Call → Snapshot
unfolding submit transit get_job
step s (submitting id at procedure) = (submit id at procedure s).1
step s (moving id to payload at) = (transit id to payload at s).1
step s (reading id) = (get_job id s).1

unfoldable pub run : Snapshot → List Call → Snapshot
run s [] = s
run s (c ∷ cs) = run (step s c) cs
