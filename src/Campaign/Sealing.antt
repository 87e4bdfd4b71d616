-- ===== src/Campaign/Sealing.antt =====
-- packages/campaign/src/index.mjs, `sealCampaignInputs`. The files are read by a parameter, which gives no
-- bytes where what is read is no byte array; hashes are `sha256:` texts; `parse` is JSON.parse of bytes.
pub mod Planned
use mgds.Prelude.{
  Bool, Dict, List, Option, Result, Text, [], err, false, lit, map, map_ok, need, none, not, ok,
  some, true, ℕ, ◌∷◌,
}
use mgds.Json.{Value, Items, null, str, arr, obj, nil, cons, end, field, canonical}
use mgds.Json.Access.{member, text_of, is_str}
use mgds.Campaign.Plan.{Config, Task, PlanError, config_error, is_empty, valid_evidence_roles}
use mgds.Evidence.Load.{valid_repository_path}

pub data SealError : Type 0 where
  config_invalid : PlanError → SealError
  tasks_required inputs_required : SealError
  path_required unable_to_read json_invalid identity_mismatch : Text → SealError
  budget_missing evidence_missing build_target_missing : Text → SealError

pub record Descriptor : Type 0 where
  pub id : Text
  pub path : Text

pub record Files : Type 0 where
  pub read_file : Text → Option (List ℕ)
  pub parse : List ℕ → Option Value
  pub hash_bytes : List ℕ → Text
  pub hash_text : Text → Text

abbrev is_object : Option Value → Bool
is_object (some (arr items)) = true
is_object (some (obj fs)) = true
is_object _ = false

abbrev or_null : Option Value → Value
or_null none = null
or_null (some v) = v

abbrev cons_text : Value → Option (List Text) → Option (List Text)
cons_text (str t) (some ts) = some (t ∷ ts)
cons_text _ _ = none

abbrev texts : Items → Option (List Text)
texts nil = some []
texts (cons v items) = cons_text v (texts items)

-- an array of strings
abbrev texts_of : Option Value → Option (List Text)
texts_of (some (arr items)) = texts items
texts_of _ = none

abbrev target_of : Option Value → Text
target_of none = []
target_of (some terminal) = text_of (member (lit "buildTarget") terminal)

module _ (files : Files) where
  abbrev pub sealed_task : Descriptor → List ℕ → Value → List Text → Task
  sealed_task d bytes manifest roles = record {
    id = d.id;
    hash = files.hash_bytes bytes;
    budget_hash = files.hash_text (canonical (or_null (member (lit "budgets") manifest)));
    evidence = roles;
    build_target = target_of (member (lit "terminal") manifest);
  }

  abbrev pub seal_roles : Descriptor → List ℕ → Value → Option (List Text) → Result SealError Task
  seal_roles d bytes manifest none = err (evidence_missing d.path)
  seal_roles d bytes manifest (some roles) =
      need (valid_evidence_roles roles) (evidence_missing d.path) (
        need (not (is_empty (target_of (member (lit "terminal") manifest))))
          (build_target_missing d.path) (ok (sealed_task d bytes manifest roles)))

  abbrev pub seal_manifest : Descriptor → List ℕ → Option Value → Result SealError Task
  seal_manifest d bytes none = err (json_invalid d.path)
  seal_manifest d bytes (some manifest) =
      need (is_str d.id (member (lit "id") manifest)) (identity_mismatch d.path) (
        need (is_object (member (lit "budgets") manifest)) (budget_missing d.path)
          (seal_roles d bytes manifest (texts_of (member (lit "evidence") manifest))))

  abbrev pub seal_bytes : Descriptor → Option (List ℕ) → Result SealError Task
  seal_bytes d none = err (unable_to_read d.path)
  seal_bytes d (some bytes) = seal_manifest d bytes (files.parse bytes)

  abbrev pub cons_task :
      Result SealError Task → Result SealError (List Task) → Result SealError (List Task)
  cons_task (err x) rest = err x
  cons_task (ok task) rest = map_ok (λ tasks. task ∷ tasks) rest

  unfoldable pub seal_tasks : List Descriptor → Result SealError (List Task)
  unfolding valid_evidence_roles
  seal_tasks [] = ok []
  seal_tasks (d ∷ descriptors) =
      cons_task (seal_bytes d (files.read_file d.path)) (seal_tasks descriptors)

  abbrev pub hash_input :
      Text → Option (List ℕ) → Result SealError (Dict Text Text) → Result SealError (Dict Text Text)
  hash_input path none rest = err (unable_to_read path)
  hash_input path (some bytes) rest =
      map_ok (λ inputs. (path, files.hash_bytes bytes) ∷ inputs) rest

  unfoldable pub hash_inputs : List Text → Result SealError (Dict Text Text)
  hash_inputs [] = ok []
  hash_inputs (path ∷ paths) = hash_input path (files.read_file path) (hash_inputs paths)

  abbrev pub input_values : Dict Text Text → Items
  input_values [] = nil
  input_values ((path, hash) ∷ inputs) =
      cons (obj (field (lit "path") (str path) (field (lit "hash") (str hash) end)))
        (input_values inputs)

  abbrev pub environment_hash : Dict Text Text → Text → Text
  environment_hash inputs host = files.hash_text (
      canonical (
        obj (field (lit "host") (str host) (field (lit "inputs") (arr (input_values inputs)) end))))

  -- Object.fromEntries over the hosts
  unfoldable pub environments_of : Dict Text Text → List Text → Dict Text Text
  environments_of inputs [] = []
  environments_of inputs (host ∷ hosts) =
      (host, environment_hash inputs host) ∷ environments_of inputs hosts

  -- `in_order` is the sort by `localeCompare`
  abbrev pub with_inputs :
      (Dict Text Text → Dict Text Text)
      → Config
      → List Task
      → Result SealError (Dict Text Text)
      → Result SealError (List Task × Dict Text Text)
  with_inputs in_order config tasks (err x) = err x
  with_inputs in_order config tasks (ok inputs) =
      ok (tasks, environments_of (in_order inputs) config.hosts)

  abbrev pub with_tasks :
      (Dict Text Text → Dict Text Text)
      → Config
      → Result SealError (List Task)
      → Result SealError (Dict Text Text)
      → Result SealError (List Task × Dict Text Text)
  with_tasks in_order config (err x) inputs = err x
  with_tasks in_order config (ok tasks) inputs = with_inputs in_order config tasks inputs

  abbrev pub unless_invalid :
      {A : Type 0} → Option PlanError → Result SealError A → Result SealError A
  unless_invalid none r = r
  unless_invalid (some e) r = err (config_invalid e)

  abbrev pub every_path :
      List Text
      → Result SealError (List Task × Dict Text Text)
      → Result SealError (List Task × Dict Text Text)
  every_path [] r = r
  every_path (path ∷ paths) r =
      need (valid_repository_path path) (path_required path) (every_path paths r)

  unfoldable pub seal_campaign_inputs :
      (Dict Text Text → Dict Text Text)
      → Config
      → List Descriptor
      → List Text
      → Result SealError (List Task × Dict Text Text)
  unfolding config_error seal_tasks hash_inputs environments_of valid_repository_path
  seal_campaign_inputs in_order config descriptors inputs = unless_invalid (config_error config) (
      need (not (is_empty descriptors)) tasks_required (
        need (not (is_empty inputs)) inputs_required (
          every_path (map (λ (d : Descriptor). d.path) descriptors) (
            every_path inputs
              (with_tasks in_order config (seal_tasks descriptors) (hash_inputs inputs))))))
