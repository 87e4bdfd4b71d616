-- ===== src/Harness/Process.antt =====
-- packages/harness-runner/src/index.mjs, `executeBoundedProcess`: the listeners on a spawned process as
-- steps, one for each event that node delivers. The process itself is not part of the repository.
pub mod Calm
pub mod Outcome
pub mod Bounded
use mgds.Prelude.{
  Bool, List, Option, Result, Text, [], false, if◌then◌else◌, leb, length, lit, ltb, need, none, ok,
  some, true, ℕ, ◌++◌, ◌+◌, ◌∷◌,
}
use mgds.Harness.{
  HarnessError, is_argument, bad_argument, positive_timeout_required, positive_budget_required,
}

pub data Stream : Type 0 where
  stdout stderr : Stream

pub data Signal : Type 0 where
  sigterm sigkill : Signal

pub data Failure : Type 0 where
  output_budget_exceeded time_budget_exceeded : Failure
  process_error : Text → Failure

-- the answer, with the outputs as the bytes that `toString` decodes
pub record Finished : Type 0 where
  pub exit_code : Option ℕ
  pub signal : Option Text
  pub stdout : List ℕ
  pub stderr : List ℕ
  pub duration_ms : ℕ

pub data Settled : Type 0 where
  resolved : Finished → Settled
  rejected : Failure → Settled

-- What node delivers: bytes on a stream, the timer of the time budget, the timer behind a termination,
-- that the process has exited, an error, and the close with the exit code, the signal and the elapsed
-- milliseconds.
pub data Event : Type 0 where
  data_on : Stream → List ℕ → Event
  timeout_fires force_fires exits : Event
  errors : Text → Event
  closes : Option ℕ → Option Text → ℕ → Event

pub record State : Type 0 where
  pub stdout : List ℕ
  pub stderr : List ℕ
  pub output_bytes : ℕ
  pub failure : Option Failure
  pub terminating : Bool
  pub exited : Bool
  pub timeout_armed : Bool
  pub force_armed : Bool
  pub sent : List Signal
  pub settled : Option Settled

abbrev pub started : State
started = record {
  stdout = [];
  stderr = [];
  output_bytes = 0;
  failure = none;
  terminating = false;
  exited = false;
  timeout_armed = true;
  force_armed = false;
  sent = [];
  settled = none;
}

abbrev pub terminate : Failure → State → State
terminate failure s = if s.terminating then s else record s {
  terminating = true;
  failure = some failure;
  force_armed = true;
  sent = s.sent ++ sigterm ∷ [];
}

abbrev pub push : Stream → List ℕ → State → State
push stdout chunk s = record s { stdout = s.stdout ++ chunk }
push stderr chunk s = record s { stderr = s.stderr ++ chunk }

abbrev pub counted : List ℕ → State → State
counted chunk s = record s { output_bytes = s.output_bytes + length chunk }

-- `collect`
abbrev pub collect_chunk : ℕ → Stream → List ℕ → State → State
collect_chunk most stream chunk s =
    if leb (s.output_bytes + length chunk) most
    then push stream chunk (counted chunk s)
    else terminate output_budget_exceeded (counted chunk s)

abbrev pub first_of : Option Settled → Settled → Settled
first_of none answer = answer
first_of (some first) answer = first

-- the first to settle the promise has the say
abbrev pub settle : Settled → State → State
settle answer s = record s { timeout_armed = false; settled = some (first_of s.settled answer) }

abbrev pub answer : Option Failure → Option ℕ → Option Text → ℕ → List ℕ → List ℕ → Settled
answer (some failure) exit_code signal elapsed out complaints = rejected failure
answer none exit_code signal elapsed out complaints = resolved (record {
  exit_code = exit_code;
  signal = signal;
  stdout = out;
  stderr = complaints;
  duration_ms = if ltb elapsed 1 then 1 else elapsed;
})

abbrev pub finished : Option ℕ → Option Text → ℕ → State → Settled
finished exit_code signal elapsed s = answer s.failure exit_code signal elapsed s.stdout s.stderr

-- each timer fires once
abbrev pub timed_out : State → State
timed_out s =
    if s.timeout_armed
    then terminate time_budget_exceeded (record s { timeout_armed = false })
    else s

abbrev pub kill : State → State
kill s = if s.exited then s else record s { sent = s.sent ++ sigkill ∷ [] }

abbrev pub force : State → State
force s = if s.force_armed then kill (record s { force_armed = false }) else s

unfoldable pub step : ℕ → State → Event → State
step most s (data_on stream chunk) = collect_chunk most stream chunk s
step most s timeout_fires = timed_out s
step most s force_fires = force s
step most s exits = record s { exited = true }
step most s (errors message) = settle (rejected (process_error message)) s
step most s (closes exit_code signal elapsed) = settle (finished exit_code signal elapsed s) s

unfoldable pub run_events : ℕ → State → List Event → State
unfolding step
run_events most s [] = s
run_events most s (event ∷ events) = run_events most (step most s event) events

-- the call: its checks, and the state before the first event
unfoldable pub execute_bounded_process : Text → Text → ℕ → ℕ → Result HarnessError State
unfolding is_argument
execute_bounded_process command cwd timeout_ms max_output_bytes =
    need (is_argument command) (bad_argument (lit "command")) (
      need (is_argument cwd) (bad_argument (lit "cwd")) (
        need (leb 1 timeout_ms) positive_timeout_required
          (need (leb 1 max_output_bytes) positive_budget_required (ok started))))
