-- ===== src/Evidence/Check.antt =====
-- packages/campaign/src/index.mjs, `verifyEvidenceBundle`.
use mgds.Prelude.{
  Bool, Dict, List, Option, Text, [], drop, drop_while, eqb, false, get, guard, has, if◌then◌else◌,
  is_digit, is_hash, is_lower, is_upper, leb, length, lit, ltb, nat_eq, none, not, or_else, pos,
  some, sort_texts, text_eq, true, zeros, ℕ, ◌&&◌, ◌*◌, ◌+◌, ◌==◌, ◌||◌, ◌∷◌,
}
use mgds.Json.{Value, Items, null, num, str, arr, nil, cons, obj, field, end, canonical, strict_eq}
use mgds.Json.Access.{member, text_of, is_str, is_num, items_of, count, of_texts, exact_keys}
use mgds.Campaign.Types.{Run, Slot}
use mgds.Trust.{is_text}
use mgds.Evidence.Build.{Reader, genuine, is_string, valid_player_build}
use mgds.Evidence.Png.{valid_png}

-- what a bundle is reported for
pub data Problem : Type 0 where
  identity_of_verified missing_bundle wrong_size hash_mismatch : Problem
  unreadable schema_invalid privacy_rejected identity_mismatch : Problem
  ledger_missing artifacts_missing : Problem
  ledger_mismatch : ℕ → Problem
  artifact_invalid artifact_mismatch : Problem
  content_invalid : Text → Problem
  roles_mismatch : Problem

abbrev pub or_null : Option Value → Value
or_null none = null
or_null (some v) = v

abbrev pub hash_of : Value → Value
hash_of entry = or_null (member (lit "hash") entry)

abbrev pub ledger_body : Value → Value
ledger_body entry = obj (
    field (lit "sequence") (or_null (member (lit "sequence") entry)) (
      field (lit "previousHash") (or_null (member (lit "previousHash") entry))
        (field (lit "event") (or_null (member (lit "event") entry)) end)))

abbrev last_hash : Items → Value
last_hash nil = null
last_hash (cons e nil) = hash_of e
last_hash (cons e (cons f items)) = last_hash (cons f items)

-- [A-Za-z0-9+/]
abbrev pub is_base64_unit : ℕ → Bool
is_base64_unit c = is_lower c || is_upper c || is_digit c || eqb c b'+' || eqb c b'/'

-- /^[A-Za-z0-9+/]*={0,2}$/
unfoldable pub is_base64 : Text → Bool
is_base64 t = has ([] ∷ lit "=" ∷ lit "==" ∷ []) (drop_while is_base64_unit t)

-- a bundle as `loadCampaignEvidence` marks it, or its bytes
pub data Bundle : Type 0 where
  verified : Text → Option Text → Text → Bundle
  raw : List ℕ → Bundle

abbrev pub max_evidence_bundle_bytes : ℕ
max_evidence_bundle_bytes = 64 * 1024 * 1024

abbrev is_array : Option Value → Bool
is_array (some (arr items)) = true
is_array _ = false

abbrev is_positive : Option Value → Bool
is_positive (some (num (pos n))) = ltb 0 n
is_positive _ = false

abbrev pub or_nil : Option Items → Items
or_nil none = nil
or_nil (some items) = items

abbrev pub is_filled : Items → Bool
is_filled nil = false
is_filled (cons v items) = true

abbrev pub required_of : Option Slot → List Text
required_of none = []
required_of (some slot) = slot.required_evidence

abbrev build_for : Option Slot → (Text → Bool) → Bool
build_for none test = false
build_for (some slot) test = test slot.build_target

abbrev pub role_of : Value → Text
role_of artifact = text_of (member (lit "role") artifact)

abbrev pub events_of : Value → Items
events_of bundle = or_nil (items_of (member (lit "events") bundle))

abbrev pub artifacts_of : Value → Items
artifacts_of bundle = or_nil (items_of (member (lit "artifacts") bundle))

abbrev pub identity_ok : Value → Run → Bool
identity_ok bundle run =
    is_str (lit "mgds.campaign-evidence/v1") (member (lit "schema") bundle)
    && is_text run.run_id (text_of (member (lit "runId") bundle))
    && is_str run.slot_id (member (lit "slotId") bundle)
    && is_str (lit "verified") (member (lit "replayStatus") bundle)

abbrev pub same_text : Option Text → Option Text → Bool
same_text none none = true
same_text (some s) (some t) = s == t
same_text _ _ = false

module _ (reader : Reader) where
  -- one round of the loop over the events
  abbrev pub ledger_entry_ok : ℕ → Value → Value → Bool
  ledger_entry_ok index previous entry =
      is_num (index + 1) (member (lit "sequence") entry)
      && strict_eq (or_null (member (lit "previousHash") entry)) previous
      && is_str (drop 7 (reader.hash_text (canonical (ledger_body entry))))
          (member (lit "hash") entry)

  unfoldable pub ledger_problem : ℕ → Value → Items → Option Problem
  ledger_problem index previous nil = none
  ledger_problem index previous (cons entry entries) =
      guard (ledger_entry_ok index previous entry) (ledger_mismatch (index + 1))
        (ledger_problem (index + 1) (hash_of entry) entries)

  abbrev parsed_publishable : Option Value → Bool
  parsed_publishable none = true
  parsed_publishable (some v) = reader.publishable v

  abbrev pub role_publishable : Text → Option Text → Bool
  role_publishable role none = true
  role_publishable role (some text) =
      if role == lit "screenshot"
      then reader.publishable (str text)
      else parsed_publishable (reader.parse text)

  abbrev pub valid_report : Text → Value → Items → Option Slot → Bool
  valid_report role value events slot =
      if role == lit "compile"
      then exact_keys value (lit "diagnostics" ∷ lit "schema" ∷ lit "status" ∷ [])
        && is_str (lit "mgds.compile-report/v1") (member (lit "schema") value)
        && is_str (lit "pass") (member (lit "status") value)
        && is_array (member (lit "diagnostics") value)
      else if role == lit "tests"
      then exact_keys value (lit "failed" ∷ lit "passed" ∷ lit "schema" ∷ lit "status" ∷ [])
        && is_str (lit "mgds.test-report/v1") (member (lit "schema") value)
        && is_str (lit "pass") (member (lit "status") value)
        && is_positive (member (lit "passed") value)
        && is_num 0 (member (lit "failed") value)
      else if role == lit "event-ledger"
      then exact_keys value (lit "entries" ∷ lit "headHash" ∷ lit "schema" ∷ [])
        && is_str (lit "mgds.event-ledger-evidence/v1") (member (lit "schema") value)
        && is_num (count events) (member (lit "entries") value)
        && strict_eq (or_null (member (lit "headHash") value)) (last_hash events)
      else if role == lit "player-build"
      then build_for slot (valid_player_build reader value)
      else false

  abbrev parsed_report : Text → Option Value → Items → Option Slot → Bool
  parsed_report role none events slot = false
  parsed_report role (some value) events slot = valid_report role value events slot

  -- `validRoleContent`
  unfoldable pub valid_role_content : Text → List ℕ → Items → Option Slot → Bool
  unfolding valid_player_build exact_keys valid_png
  valid_role_content role bytes events slot =
      if role == lit "screenshot"
      then valid_png reader.inflate bytes
      else parsed_report role (reader.parse (reader.to_text bytes)) events slot

  abbrev pub artifact_problem :
      List Text → List Text → Value → Items → Option Slot → Option Problem → Option Problem
  artifact_problem hashes roles artifact events slot rest =
      let hash = text_of (member (lit "hash") artifact) in
      let encoded = text_of (member (lit "bytesBase64") artifact) in
      let role = text_of (member (lit "role") artifact) in
      let bytes = reader.from_base64 encoded in
      guard (is_hash hash && is_string (member (lit "bytesBase64") artifact) && is_base64 encoded)
        artifact_invalid
        (guard (genuine reader encoded hash && not (has hashes hash) && not (has roles role))
          artifact_mismatch
          (guard (role_publishable role (reader.decode_utf8 bytes)) privacy_rejected
            (guard (valid_role_content role bytes events slot) (content_invalid role) rest)))

  -- the loop over the artifacts, and the test of the roles behind it
  unfoldable pub artifacts_problem :
      List Text → List Text → Items → Items → Option Slot → Option Problem
  unfolding valid_role_content is_hash is_base64 sort_texts
  artifacts_problem hashes roles nil events slot =
      guard
        (canonical (arr (of_texts (sort_texts roles)))
          == canonical (arr (of_texts (sort_texts (required_of slot)))))
        roles_mismatch none
  artifacts_problem hashes roles (cons artifact artifacts) events slot =
      artifact_problem hashes roles artifact events slot (
        artifacts_problem (text_of (member (lit "hash") artifact) ∷ hashes)
          (role_of artifact ∷ roles) artifacts events slot)

  unfoldable pub content_problem : Run → Option Slot → Option Value → Option Problem
  unfolding ledger_problem artifacts_problem strict_eq
  content_problem run slot none = some unreadable
  content_problem run slot (some bundle) = guard (reader.evidence_ok bundle) schema_invalid (
      guard (reader.publishable bundle) privacy_rejected (
        guard (identity_ok bundle run) identity_mismatch (
          guard (is_filled (events_of bundle)) ledger_missing (
            guard (is_filled (artifacts_of bundle)) artifacts_missing (
              or_else (ledger_problem 0 (str (zeros 64)) (events_of bundle))
                (artifacts_problem [] [] (artifacts_of bundle) (events_of bundle) slot))))))

  abbrev pub bundle_problem : Run → Option Slot → Option Bundle → Option Problem
  bundle_problem run slot none = some missing_bundle
  bundle_problem run slot (some (verified evidence_hash run_id slot_id)) =
      guard
        (evidence_hash == run.evidence_hash
          && same_text run_id run.run_id
          && slot_id == run.slot_id)
        identity_of_verified none
  bundle_problem run slot (some (raw bytes)) =
      guard (ltb 0 (length bytes) && leb (length bytes) max_evidence_bundle_bytes) wrong_size (
        guard (reader.hash_bytes bytes == run.evidence_hash) hash_mismatch
          (content_problem run slot (reader.parse (reader.to_text bytes))))

  unfoldable pub verify_evidence_bundle : Dict Text Bundle → Run → Option Slot → Option Problem
  unfolding content_problem
  verify_evidence_bundle bundles run slot = bundle_problem run slot (get bundles run.evidence_hash)
