-- ===== src/JobTrace.antt =====
-- scripts/job-trace.mjs: the states of a job, the legal transitions, and the check of a trace.
pub mod Diagram
use mgds.Prelude.{
  Bool, List, Option, Result, Text, [], err, false, has, if◌then◌else◌, lit, ltb, nat_eq, ok, pos,
  text_eq, ℕ, ◌++◌, ◌+◌, ◌∷◌,
}
use mgds.Json.{Value, num}

pub data JobState : Type 0 where
  queued granted running checkpointed cancelling succeeded failed cancelled timed_out expired :
      JobState

-- JOB_STATES
abbrev pub name : JobState → Text
name queued = lit "queued"
name granted = lit "granted"
name running = lit "running"
name checkpointed = lit "checkpointed"
name cancelling = lit "cancelling"
name succeeded = lit "succeeded"
name failed = lit "failed"
name cancelled = lit "cancelled"
name timed_out = lit "timed-out"
name expired = lit "expired"

-- EDGES
pub edges : List Text
edges =
    lit "queued>granted"
    ∷ lit "queued>cancelled"
    ∷ lit "granted>running"
    ∷ lit "granted>cancelled"
    ∷ lit "granted>expired"
    ∷ lit "running>checkpointed"
    ∷ lit "running>succeeded"
    ∷ lit "running>failed"
    ∷ lit "running>cancelling"
    ∷ lit "running>timed-out"
    ∷ lit "checkpointed>running"
    ∷ lit "checkpointed>failed"
    ∷ lit "checkpointed>cancelling"
    ∷ lit "checkpointed>timed-out"
    ∷ lit "cancelling>cancelled"
    ∷ lit "cancelling>failed"
    ∷ []

unfoldable pub is_legal_transition : Text → Text → Bool
unfolding edges
is_legal_transition from to = has edges (from ++ (lit ">" ++ to))

-- `type`, with the fields that this file and the controller give each type
pub data Kind : Type 0 where
  submitted : Kind
  transition : Text → Text → Kind
  execution_started : Kind
  other_kind : Kind

pub record Event : Type 0 where
  pub sequence : Value
  pub kind : Kind
  pub at : Text
  pub payload : Option Value

pub data Idempotency : Type 0 where
  safe key_required never : Idempotency

pub data TraceError : Type 0 where
  sequence_not_increasing : TraceError
  illegal_in_trace : Text → Text → TraceError
  duplicate_in_trace : TraceError

-- Not `!Number.isInteger(sequence) || sequence <= previous`, for a previous sequence from 0 up
abbrev pub follows : ℕ → Value → Bool
follows previous (num (pos n)) = ltb previous n
follows previous _ = false

-- the sequence to which the loop sets `previousSequence` once the test has passed
abbrev pub sequence_of : Value → ℕ
sequence_of (num (pos n)) = n
sequence_of _ = 0

abbrev pub kind_check : Kind → Result TraceError (Unit {0})
kind_check (transition from to) =
    if is_legal_transition from to then ok tt else err (illegal_in_trace from to)
kind_check _ = ok tt

abbrev pub starts : Kind → ℕ
starts execution_started = 1
starts _ = 0

abbrev pub after_check :
    Result TraceError (Unit {0}) → Result TraceError (ℕ × ℕ) → Result TraceError (ℕ × ℕ)
after_check (ok _) rest = rest
after_check (err e) rest = err e

-- the loop over the events; the numbers are `previousSequence` and `executions`
unfoldable pub trace_loop : ℕ → ℕ → List Event → Result TraceError (ℕ × ℕ)
trace_loop previous executions [] = ok (previous, executions)
trace_loop previous executions (event ∷ events) =
    let rest =
      after_check (kind_check event.kind)
        (trace_loop (sequence_of event.sequence) (executions + starts event.kind) events) in
    if follows previous event.sequence then rest else err sequence_not_increasing

-- the test behind the loop
abbrev pub trace_end : Idempotency → Result TraceError (ℕ × ℕ) → Result TraceError (Unit {0})
trace_end never (ok (_, executions)) = if ltb 1 executions then err duplicate_in_trace else ok tt
trace_end _ (ok _) = ok tt
trace_end _ (err e) = err e

unfoldable pub assert_job_trace : List Event → Idempotency → Result TraceError (Unit {0})
unfolding trace_loop
assert_job_trace events idempotency = trace_end idempotency (trace_loop 0 0 events)
