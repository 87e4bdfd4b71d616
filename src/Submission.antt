-- ===== src/Submission.antt =====
-- packages/p3-submission/src/index.mjs: a signed submission and its check.
pub mod Built
pub mod Verified
use mgds.Prelude.{
  Bool, List, Option, Result, Text, [], eqb, err, every, false, has, is_hash, is_versioned, leb,
  length, lit, ltb, nat_eq, none, not, ok, some, split_on, text_eq, true, ℕ, ◌&&◌, ◌*◌, ◌==◌, ◌∷◌,
}
use mgds.Json.{Value, Items, null, nil, cons, str, arr, obj, end, field, canonical}
use mgds.Json.Access.{member, text_of, is_str, items_of, count, exact_keys}
use mgds.Evidence.Build.{Reader, lower, is_string, is_portable_unit, genuine, text_publishable}
use mgds.Evidence.Check.{is_filled, or_nil}
use mgds.Artifacts.{is_digest}
use mgds.Release.{is_preview, is_source_digest}

pub data SubmissionError : Type 0 where
  not_publishable manifest_invalid inputs_required artifact_count_invalid : SubmissionError
  path_required duplicate_path size_invalid : Text → SubmissionError
  bytes_and_key_required json_invalid bundle_invalid identity_invalid : SubmissionError
  hash_mismatch : Text → SubmissionError
  signature_invalid : SubmissionError

abbrev pub or_null : Option Value → Value
or_null none = null
or_null (some v) = v

abbrev pub at : Text → Value → Value
at key v = or_null (member key v)

abbrev pub text_at : Text → Value → Text
text_at key v = text_of (member key v)

abbrev hosts : List Text
hosts = lit "macos-arm64" ∷ lit "linux-x64" ∷ lit "windows-x64" ∷ []

abbrev valid_task : Value → Bool
valid_task task =
    exact_keys task (lit "evidenceHash" ∷ lit "status" ∷ lit "taskId" ∷ [])
    && is_str (lit "pass") (member (lit "status") task)
    && is_hash (text_at (lit "evidenceHash") task)

abbrev every_task : Items → Bool
every_task nil = true
every_task (cons task tasks) = valid_task task && every_task tasks

-- `validateManifest`, whether it returns
unfoldable pub valid_manifest : Value → Bool
unfolding exact_keys is_versioned is_hash is_digest is_preview is_source_digest
valid_manifest v =
    exact_keys v (
      lit "adapter"
      ∷ lit "evaluator"
      ∷ lit "eventLedgerHead"
      ∷ lit "host"
      ∷ lit "privacy"
      ∷ lit "protocolVersion"
      ∷ lit "schema"
      ∷ lit "submissionId"
      ∷ lit "t0"
      ∷ lit "tasks"
      ∷ lit "toolchain"
      ∷ [])
    && is_str (lit "mgds.p3-submission/v1") (member (lit "schema") v)
    && is_versioned (lit "mgds.submission.") (text_at (lit "submissionId") v)
    && is_preview (text_at (lit "protocolVersion") v)
    && exact_keys (at (lit "adapter") v) (lit "id" ∷ lit "sourceRevision" ∷ [])
    && is_versioned (lit "mgds.adapter.") (text_at (lit "id") (at (lit "adapter") v))
    && is_source_digest (text_at (lit "sourceRevision") (at (lit "adapter") v))
    && exact_keys (at (lit "toolchain") v) (lit "unity" ∷ [])
    && is_string (member (lit "unity") (at (lit "toolchain") v))
    && has hosts (text_at (lit "host") v)
    && exact_keys (at (lit "t0") v) (lit "reportHash" ∷ lit "status" ∷ [])
    && is_str (lit "pass") (member (lit "status") (at (lit "t0") v))
    && is_hash (text_at (lit "reportHash") (at (lit "t0") v))
    && is_filled (or_nil (items_of (member (lit "tasks") v)))
    && every_task (or_nil (items_of (member (lit "tasks") v)))
    && is_digest (text_at (lit "eventLedgerHead") v)
    && exact_keys (at (lit "evaluator") v) (lit "digest" ∷ lit "id" ∷ [])
    && is_versioned (lit "mgds.evaluator.") (text_at (lit "id") (at (lit "evaluator") v))
    && is_hash (text_at (lit "digest") (at (lit "evaluator") v))
    && exact_keys (at (lit "privacy") v) (lit "classification" ∷ lit "redactionVersion" ∷ [])
    && is_str (lit "public-redacted") (member (lit "classification") (at (lit "privacy") v))
    && is_str (lit "mgds.redaction/v1") (member (lit "redactionVersion") (at (lit "privacy") v))

abbrev starts_with_slash : Text → Bool
starts_with_slash [] = false
starts_with_slash (c ∷ s) = eqb c b'/'

abbrev valid_part : Text → Bool
valid_part part =
    ltb 0 (length part)
    && not (part == lit ".")
    && not (part == lit "..")
    && every is_portable_unit part

-- `validateArtifactPath`, whether it returns
unfoldable pub valid_artifact_path : Text → Bool
valid_artifact_path path =
    ltb 0 (length path)
    && leb (length path) 240
    && not (starts_with_slash path)
    && not (has path b'\\')
    && every valid_part (split_on b'/' path)

abbrev pub artifact_value : Text → Text → Text → Value
artifact_value path hash encoded = obj (
    field (lit "path") (str path)
      (field (lit "hash") (str hash) (field (lit "bytesBase64") (str encoded) end)))

abbrev pub identity_of : Value → Value
identity_of artifact = obj (
    field (lit "path") (at (lit "path") artifact)
      (field (lit "hash") (at (lit "hash") artifact) end))

abbrev pub identities_of : Items → Items
identities_of nil = nil
identities_of (cons artifact artifacts) = cons (identity_of artifact) (identities_of artifacts)

abbrev pub payload_of : Value → Items → Value → Value
payload_of manifest identities authority = obj (
    field (lit "manifest") manifest
      (field (lit "artifacts") (arr identities) (field (lit "authority") authority end)))

abbrev pub bundle_of : Value → Items → Text → Text → Text → Value
bundle_of manifest artifacts authority payload_hash signature = obj (
    field (lit "schema") (str (lit "mgds.p3-bundle/v1")) (
      field (lit "manifest") manifest (
        field (lit "artifacts") (arr artifacts) (
          field (lit "attestation")
            (obj (
              field (lit "algorithm") (str (lit "Ed25519")) (
                field (lit "authority") (str authority) (
                  field (lit "payloadHash") (str payload_hash)
                    (field (lit "signature") (str signature) end)))))
            end))))

pub record Submission : Type 0 where
  pub bundle : Value
  pub bytes : List ℕ
  pub bundle_hash : Text

pub record Verdict : Type 0 where
  pub submission_id : Text
  pub bundle_hash : Text
  pub artifacts : ℕ

abbrev pub cons_ok : Value → Result SubmissionError Items → Result SubmissionError Items
cons_ok v (ok items) = ok (cons v items)
cons_ok v (err x) = err x

abbrev pub max_artifact_bytes : ℕ
max_artifact_bytes = 64 * 1024 * 1024

abbrev pub max_submission_bytes : ℕ
max_submission_bytes = 256 * 1024 * 1024
