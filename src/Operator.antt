-- ===== src/Operator.antt =====
-- packages/campaign-operator/src/index.mjs: the slots that a host has left, the checkpoint of what it has
-- done, and the signature of the evaluator.
pub mod Selection
pub mod Key
pub mod Atomic
pub mod Signing
pub mod Bundle
use mgds.Prelude.{
  Bool, Dict, Exec, List, Option, Result, Text, [], eqb, err, every, false, get, has, if◌then◌else◌,
  is_versioned, keep, leb, length, lit, map_ok, nat_eq, need, none, not, ok, put, remove, some,
  text_eq, true, ◌&&◌, ◌++◌, ◌==◌, ◌∷◌,
}
use mgds.Json.{Value, canonical}
use mgds.Json.Access.{of_texts}
use mgds.Campaign.Types.{Slot, Plan, Run}
use mgds.Campaign.Aggregate.{index_slots, distinct}
use mgds.Campaign.Attested.{campaign_run_attestation_payload}

pub data OperatorError : Type 0 where
  plan_and_host_required : OperatorError
  duplicate_completed_slot foreign_completed_slot : Text → OperatorError
  path_required fields_required slot_identity_invalid not_publishable : OperatorError
  temporary_file_exists write_failed rename_failed : OperatorError
  inputs_required roles_mismatch private_key_required : OperatorError
  empty_artifact public_json_required not_bytes : Text → OperatorError

abbrev pub hosts : List Text
hosts = lit "macos-arm64" ∷ lit "linux-x64" ∷ lit "windows-x64" ∷ []

-- `!harness || slot.harness === harness`
abbrev pub wants : Option Text → Text → Bool
wants none harness = true
wants (some []) harness = true
wants (some (c ∷ name)) harness = harness == c ∷ name

abbrev pub is_for : Text → Option Text → Slot → Bool
is_for host harness slot = slot.host == host && wants harness slot.harness

abbrev pub is_own : Text → Option Text → Option Slot → Bool
is_own host harness none = false
is_own host harness (some slot) = is_for host harness slot

-- the loop over the completed slots
unfoldable pub completed_slots :
    Text → Option Text → Dict Text Slot → List Text → List Text → Result OperatorError (List Text)
unfolding get
completed_slots host harness all completed [] = ok completed
completed_slots host harness all completed (id ∷ ids) =
    need (not (has completed id)) (duplicate_completed_slot id) (
      need (is_own host harness (get all id)) (foreign_completed_slot id)
        (completed_slots host harness all (id ∷ completed) ids))

unfoldable pub select_host_slots :
    Plan → Text → Option Text → List Text → Result OperatorError (List Slot)
unfolding completed_slots index_slots
select_host_slots plan host harness completed_slot_ids =
    need (has hosts host) plan_and_host_required (
      map_ok
        (λ completed.
          keep (λ slot. is_for host harness slot && not (has completed slot.slot_id)) plan.slots)
        (completed_slots host harness (index_slots [] plan.slots) [] completed_slot_ids))

pub record Checkpoint : Type 0 where
  pub campaign_id : Text
  pub host : Text
  pub completed_slot_ids : List Text

-- the files, by their path
abbrev pub Files : Type 0
Files = Dict Text Text

-- How the two calls of a write may go wrong: what a failed `writeFile` leaves, and whether `rename` fails.
pub record Faults : Type 0 where
  pub partial_write : Option Text
  pub rename_fails : Bool

abbrev pub starts_with_slash : Text → Bool
starts_with_slash [] = false
starts_with_slash (c ∷ s) = eqb c b'/'

abbrev pub valid_slot_id : Text → Bool
valid_slot_id id = leb 16 (length id) && not (starts_with_slash id) && not (has id b'\\')

unfoldable pub valid_fields : Checkpoint → Bool
unfolding is_versioned
valid_fields checkpoint =
    is_versioned (lit "mgds.campaign.") checkpoint.campaign_id && has hosts checkpoint.host

unfoldable pub valid_slot_ids : Checkpoint → Bool
unfolding distinct
valid_slot_ids checkpoint =
    eqb (length (distinct [] checkpoint.completed_slot_ids)) (length checkpoint.completed_slot_ids)
    && every valid_slot_id checkpoint.completed_slot_ids

-- `rename`, which takes the place of what was there
abbrev pub rename : Text → Text → Text → Files → Files
rename source target content files = put (remove files source) target content

-- `render` is the text of JSON.stringify with an indent, `process` the name that `process.pid` gives the
-- temporary file, `publishable` whether `assertPublishable` returns.
module _ (render : Checkpoint → Text) (process : Text) (publishable : Checkpoint → Bool) where
  abbrev pub temporary_path : Text → Text
  temporary_path path = path ++ b'.' ∷ (process ++ lit ".tmp")

  abbrev pub finish_rename : Bool → Text → Checkpoint → Exec Files OperatorError Checkpoint
  finish_rename true path checkpoint files = (err rename_failed, files)
  finish_rename false path checkpoint files =
      (ok checkpoint, rename (temporary_path path) path (render checkpoint) files)

  abbrev pub finish_write :
      Option Text → Bool → Text → Checkpoint → Exec Files OperatorError Checkpoint
  finish_write (some part) fails path checkpoint files =
      (err write_failed, put files (temporary_path path) part)
  finish_write none fails path checkpoint files =
      finish_rename fails path checkpoint (put files (temporary_path path) (render checkpoint))

  -- `writeFile` with the flag `wx`, which does not write over a file
  abbrev pub write_new :
      Faults → Text → Checkpoint → Option Text → Exec Files OperatorError Checkpoint
  write_new faults path checkpoint (some old) files = (err temporary_file_exists, files)
  write_new faults path checkpoint none files =
      finish_write faults.partial_write faults.rename_fails path checkpoint files

  unfoldable pub write_campaign_checkpoint_atomic :
      Faults → Text → Checkpoint → Exec Files OperatorError Checkpoint
  unfolding valid_fields valid_slot_ids get put remove
  write_campaign_checkpoint_atomic faults path checkpoint files =
      if eqb (length path) 0
      then (err path_required, files)
      else if not (valid_fields checkpoint)
      then (err fields_required, files)
      else if not (valid_slot_ids checkpoint)
      then (err slot_identity_invalid, files)
      else if not (publishable checkpoint)
      then (err not_publishable, files)
      else write_new faults path checkpoint (get files (temporary_path path)) files

-- `sign` of node:crypto in base64url, given the text and the key
unfoldable pub sign_evaluator_run :
    (Text → Text → Text) → Option Text → Run → Result OperatorError Run
unfolding campaign_run_attestation_payload
sign_evaluator_run sign none run = err private_key_required
sign_evaluator_run sign (some private_key) run =
    let payload = campaign_run_attestation_payload run in
    ok (record run {
      evidence_attestation = record {
        algorithm = lit "Ed25519";
        authority = run.evaluator.id;
        payload = payload;
        signature = sign (canonical payload) private_key;
      };
    })
