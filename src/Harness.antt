-- ===== src/Harness.antt =====
-- packages/harness-runner/src/index.mjs: which command a harness is, what it is told, and what is kept of
-- its answer. `publishable` says whether `assertPublishable` returns, `stringify` is JSON.stringify.
pub mod Process
pub mod Accepted
use mgds.Prelude.{
  Bool, Dict, List, Option, Result, Text, [], any, eqb, err, false, get, if◌then◌else◌, is_hash,
  join, leb, length, lit, ltb, nat_eq, need, none, not, ok, pos, some, text_eq, true, ℕ, ◌&&◌, ◌*◌,
  ◌++◌, ◌==◌, ◌||◌, ◌∷◌,
}
use mgds.Json.{Value, Items, Fields, null, bool, num, str, arr, obj, field, end}
use mgds.Json.Access.{member, text_of, is_str, exact_keys}
use mgds.Campaign.Types.{Slot}
use mgds.ReferenceService.{is_truthy}

pub data HarnessError : Type 0 where
  unsupported_host unsupported_harness slot_and_task_required output_schema_required : HarnessError
  bad_argument : Text → HarnessError
  positive_timeout_required positive_budget_required : HarnessError
  invalid_outcome structured_output_missing outcome_and_duration_required : HarnessError
  not_publishable environment_required : HarnessError

abbrev pub harness_hosts : Dict Text Text
harness_hosts =
    (lit "darwin:arm64", lit "macos-arm64")
    ∷ (lit "linux:x64", lit "linux-x64")
    ∷ (lit "win32:x64", lit "windows-x64")
    ∷ []

abbrev or_error {ℓ} : {A : Type ℓ} → Option A → HarnessError → Result HarnessError A
or_error none x = err x
or_error (some a) x = ok a

unfoldable pub host_id_for_platform : Text → Text → Result HarnessError Text
unfolding get
host_id_for_platform platform architecture =
    or_error (get harness_hosts (platform ++ b':' ∷ architecture)) unsupported_host

-- a text without \u0000, \r and \n, which is not empty
unfoldable pub is_argument : Text → Bool
is_argument t = ltb 0 (length t) && not (any (λ c. eqb c 0 || eqb c 13 || eqb c 10) t)

abbrev optional_field : Text → Option Value → Fields → Fields
optional_field name none fs = fs
optional_field name (some v) fs = field name v fs

abbrev pub public_task : Slot → Value → Value
public_task slot task = obj (
    field (lit "id") (str (text_of (member (lit "id") task))) (
      field (lit "taskHash") (str slot.task_hash) (
        field (lit "seed") (num (pos slot.seed)) (
          field (lit "repetition") (num (pos slot.repetition)) (
            optional_field (lit "terminal") (member (lit "terminal") task) (
              optional_field (lit "evidence") (member (lit "evidence") task)
                (optional_field (lit "budgets") (member (lit "budgets") task) end)))))))

abbrev prompt_lines : List Text
prompt_lines =
    lit "Implement the following immutable MGDS Unity task in the current workspace."
    ∷ lit "Use only repository files and published MGDS/Unity interfaces."
    ∷ lit
        "Use the Unity CLI for editor operations, for example unity command, unity test, and unity build."
    ∷ lit
        "Do not access parent directories, credentials, user configuration, network services, or private tools."
    ∷ lit
        "Do not decide whether the task passed. Finish with a short structured operational outcome only."
    ∷ []

unfoldable pub build_task_prompt :
    (Value → Bool) → (Value → Text) → Slot → Value → Result HarnessError Text
unfolding is_hash
build_task_prompt publishable stringify slot task =
    need (is_str slot.task_id (member (lit "id") task) && is_hash slot.task_hash)
      slot_and_task_required
      (need (publishable (public_task slot task)) not_publishable
        (ok (join (lit "\n") (prompt_lines ++ stringify (public_task slot task) ∷ []))))

pub record Invocation : Type 0 where
  pub command : Text
  pub args : List Text

-- what a harness may be given, beside the model and the workspace
pub record Outputs : Type 0 where
  pub schema_path : Text
  pub output_path : Text
  pub schema : Option Value

abbrev codex_args : Text → Text → Outputs → List Text
codex_args model workspace outputs =
    lit "exec"
    ∷ lit "--ephemeral"
    ∷ lit "--ignore-user-config"
    ∷ lit "--ignore-rules"
    ∷ lit "--sandbox"
    ∷ lit "workspace-write"
    ∷ lit "--cd"
    ∷ workspace
    ∷ lit "--model"
    ∷ model
    ∷ lit "--output-schema"
    ∷ outputs.schema_path
    ∷ lit "--output-last-message"
    ∷ outputs.output_path
    ∷ lit "-"
    ∷ []

abbrev claude_args : Text → Text → List Text
claude_args model schema =
    lit "--print"
    ∷ lit "--safe-mode"
    ∷ lit "--no-session-persistence"
    ∷ lit "--permission-mode"
    ∷ lit "acceptEdits"
    ∷ lit "--allowedTools"
    ∷ lit "Read,Edit,Write,Bash(unity *)"
    ∷ lit "--model"
    ∷ model
    ∷ lit "--output-format"
    ∷ lit "json"
    ∷ lit "--json-schema"
    ∷ schema
    ∷ []

abbrev with_schema : (Value → Text) → Text → Option Value → Result HarnessError Invocation
with_schema stringify model (some (obj fs)) =
    ok (record { command = lit "claude"; args = claude_args model (stringify (obj fs)) })
with_schema stringify model _ = err output_schema_required

unfoldable pub build_harness_invocation :
    (Value → Text) → Text → Text → Text → Outputs → Result HarnessError Invocation
unfolding is_argument
build_harness_invocation stringify harness model workspace outputs =
    need (is_argument model) (bad_argument (lit "model")) (
      need (is_argument workspace) (bad_argument (lit "workspace")) (
        if harness == lit "codex"
        then need (is_argument outputs.schema_path) (bad_argument (lit "outputSchemaPath")) (
            need (is_argument outputs.output_path) (bad_argument (lit "outputPath"))
              (ok (record { command = lit "codex"; args = codex_args model workspace outputs })))
        else if harness == lit "claude-code"
        then with_schema stringify model outputs.schema
        else err unsupported_harness))

abbrev pub is_within : ℕ → Option Value → Bool
is_within most (some (num (pos n))) = leb n most
is_within most _ = false

abbrev pub is_status : Option Value → Bool
is_status o = is_str (lit "completed") o || is_str (lit "blocked") o

abbrev pub outcome_keys : List Text
outcome_keys = lit "changedFiles" ∷ lit "commandsRun" ∷ lit "schema" ∷ lit "status" ∷ []

unfoldable pub valid_outcome : Value → Bool
unfolding exact_keys
valid_outcome outcome =
    exact_keys outcome outcome_keys
    && is_str (lit "mgds.harness-outcome/v1") (member (lit "schema") outcome)
    && is_status (member (lit "status") outcome)
    && is_within 10000 (member (lit "changedFiles") outcome)
    && is_within 10000 (member (lit "commandsRun") outcome)

-- `parsed.structured_output`, where an object has one that is truthy
abbrev structured : Value → Option Value
structured (obj fs) =
    let o = member (lit "structured_output") (obj fs) in if is_truthy o then o else none
structured _ = none

abbrev pub outcome_of : Text → Option Value → Result HarnessError Value
outcome_of harness none = err invalid_outcome
outcome_of harness (some parsed) =
    if harness == lit "claude-code"
    then or_error (structured parsed) structured_output_missing
    else if harness == lit "codex"
    then ok parsed
    else err unsupported_harness

abbrev pub accept_outcome : (Value → Bool) → Result HarnessError Value → Result HarnessError Value
accept_outcome publishable (err x) = err x
accept_outcome publishable (ok outcome) =
    need (valid_outcome outcome) invalid_outcome
      (need (publishable outcome) not_publishable (ok outcome))

-- `parse` is JSON.parse, `byte_length` Buffer.byteLength
unfoldable pub parse_harness_outcome :
    (Text → Option Value) → (Text → ℕ) → (Value → Bool) → Text → Text → Result HarnessError Value
unfolding valid_outcome
parse_harness_outcome parse byte_length publishable harness output =
    need (leb (byte_length output) (64 * 1024)) invalid_outcome
      (accept_outcome publishable (outcome_of harness (parse output)))

abbrev is_integer : Option Value → Bool
is_integer (some (num n)) = true
is_integer _ = false

abbrev or_null : Option Value → Value
or_null none = null
or_null (some v) = v

abbrev pub harness_record : Slot → Text → Value → ℕ → Value
harness_record slot model outcome duration_ms = obj (
    field (lit "schema") (str (lit "mgds.harness-record/v1")) (
      field (lit "slotId") (str slot.slot_id) (
        field (lit "host") (str slot.host) (
          field (lit "harness") (str slot.harness) (
            field (lit "model") (str model) (
              field (lit "status") (or_null (member (lit "status") outcome)) (
                field (lit "changedFiles") (or_null (member (lit "changedFiles") outcome)) (
                  field (lit "commandsRun") (or_null (member (lit "commandsRun") outcome)) (
                    field (lit "durationMs") (num (pos duration_ms))
                      (field (lit "privateAffordances") (bool false) end))))))))))

unfoldable pub build_harness_record :
    (Value → Bool) → Slot → Text → Value → ℕ → Result HarnessError Value
unfolding is_argument
build_harness_record publishable slot model outcome duration_ms =
    need (is_argument slot.slot_id) (bad_argument (lit "slotId")) (
      need (is_argument slot.host) (bad_argument (lit "host")) (
        need (is_argument slot.harness) (bad_argument (lit "harness")) (
          need (is_argument model) (bad_argument (lit "model")) (
            need
              (is_status (member (lit "status") outcome)
                && is_integer (member (lit "changedFiles") outcome)
                && is_integer (member (lit "commandsRun") outcome)
                && leb 1 duration_ms)
              outcome_and_duration_required
              (need (publishable (harness_record slot model outcome duration_ms)) not_publishable
                (ok (harness_record slot model outcome duration_ms)))))))

abbrev pub base_names : List Text
base_names =
    lit "PATH"
    ∷ lit "HOME"
    ∷ lit "TMPDIR"
    ∷ lit "TMP"
    ∷ lit "TEMP"
    ∷ lit "SYSTEMROOT"
    ∷ lit "WINDIR"
    ∷ lit "USERPROFILE"
    ∷ lit "LOCALAPPDATA"
    ∷ lit "APPDATA"
    ∷ lit "CODEX_HOME"
    ∷ []

abbrev pub auth_names : Text → List Text
auth_names harness =
    if harness == lit "codex"
    then lit "OPENAI_API_KEY" ∷ []
    else lit "ANTHROPIC_API_KEY" ∷ lit "CLAUDE_CODE_OAUTH_TOKEN" ∷ []

abbrev pub kept_entry : Text → Option Text → Dict Text Text → Dict Text Text
kept_entry name none rest = rest
kept_entry name (some []) rest = rest
kept_entry name (some (c ∷ value)) rest = (name, c ∷ value) ∷ rest

unfoldable pub kept_entries : Dict Text Text → List Text → Dict Text Text
unfolding get
kept_entries source [] = []
kept_entries source (name ∷ names) = kept_entry name (get source name) (kept_entries source names)

unfoldable pub sanitize_harness_environment :
    Text → Dict Text Text → Result HarnessError (Dict Text Text)
unfolding kept_entries
sanitize_harness_environment harness source =
    need (harness == lit "codex" || harness == lit "claude-code") environment_required
      (ok (kept_entries source (base_names ++ auth_names harness)))
