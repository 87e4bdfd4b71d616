-- ===== src/Tests/Harness.antt =====
-- A harness that answers, and one that writes too much.
use mgds.Prelude.{
  Dict, List, Option, Text, [], get, if◌then◌else◌, length, lit, nat_eq, none, ok, pos, refl, some,
  sort_texts, text_eq, true, ◌++◌, ◌==◌, ◌∷◌, ◌≡◌,
}
use mgds.Json.{Value, num, str, obj, field, end, canonical}
use mgds.Harness.{
  is_argument, parse_harness_outcome, sanitize_harness_environment, host_id_for_platform,
}
use mgds.Harness.Process.{
  stdout, stderr, resolved, Event, data_on, timeout_fires, force_fires, exits, closes, started,
  answer, run_events, sigterm, sigkill,
}
use mgds.Harness.Process.Calm.{first_excess, written}
use mgds.Harness.Process.Outcome.{process_outcome}
use mgds.Harness.Process.Bounded.{Bounded, process_stays-Bounded}
use mgds.Tests.Evidence.{slot}

knows_host : host_id_for_platform (lit "darwin") (lit "arm64") ≡ ok (lit "macos-arm64")
unfolding host_id_for_platform get
knows_host = refl

abbrev talk : List Event
talk = data_on stdout (lit "one") ∷ data_on stderr (lit "two") ∷ []

-- over a budget of eight bytes, and deaf to the first signal
abbrev chatter : List Event
chatter =
    data_on stdout (lit "one")
    ∷ data_on stdout (lit "two")
    ∷ data_on stderr (lit "three")
    ∷ force_fires
    ∷ exits
    ∷ []

talks :
    (run_events 8 started (talk ++ closes (some 0) none 0 ∷ [])).settled
    ≡ some (
        resolved (record {
          exit_code = some 0;
          signal = none;
          stdout = lit "one";
          stderr = lit "two";
          duration_ms = 1;
        }))
unfolding run_events
talks = refl

stopped : (run_events 8 started chatter).sent ≡ sigterm ∷ sigkill ∷ []
unfolding run_events
stopped = refl

process_outcome_example :
    (run_events 8 started
      (chatter ++ closes none (some (lit "SIGKILL")) 1200 ∷ timeout_fires ∷ [])).settled
    ≡ some (
        answer
          (first_excess 8 0 chatter)
          none
          (some (lit "SIGKILL"))
          1200
          (written stdout chatter)
          (written stderr chatter))
process_outcome_example =
    process_outcome 8 chatter (timeout_fires ∷ []) none (some (lit "SIGKILL")) 1200
      (tt, (tt, (tt, (tt, (tt, tt)))))

process_stays-Bounded_example : Bounded 8 (run_events 8 started chatter)
process_stays-Bounded_example = process_stays-Bounded 8 chatter

abbrev outcome : Value
outcome = obj (
    field (lit "schema") (str (lit "mgds.harness-outcome/v1")) (
      field (lit "status") (str (lit "completed"))
        (field (lit "changedFiles") (num (pos 3)) (field (lit "commandsRun") (num (pos 2)) end))))

abbrev parse : Text → Option Value
parse t = if t == lit "outcome" then some outcome else none

parses :
    parse_harness_outcome parse (λ t. length t) (λ v. true) (lit "codex") (lit "outcome")
    ≡ ok outcome
unfolding parse_harness_outcome sort_texts canonical
parses = refl

is_slot_id : is_argument slot.slot_id ≡ true
unfolding is_argument
is_slot_id = refl

is_host : is_argument slot.host ≡ true
unfolding is_argument
is_host = refl

is_harness : is_argument slot.harness ≡ true
unfolding is_argument
is_harness = refl

is_model : is_argument (lit "model") ≡ true
unfolding is_argument
is_model = refl

abbrev environment : Dict Text Text
environment =
    (lit "PATH", lit "/bin")
    ∷ (lit "ANTHROPIC_API_KEY", lit "a")
    ∷ (lit "OPENAI_API_KEY", lit "o")
    ∷ (lit "TMP", [])
    ∷ []

abbrev visible : Dict Text Text
visible = (lit "PATH", lit "/bin") ∷ (lit "OPENAI_API_KEY", lit "o") ∷ []

sanitizes : sanitize_harness_environment (lit "codex") environment ≡ ok visible
unfolding sanitize_harness_environment get
sanitizes = refl
