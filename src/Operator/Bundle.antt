-- ===== src/Operator/Bundle.antt =====
-- packages/campaign-operator/src/index.mjs, `buildCampaignEvidence`.
pub mod Replay
use mgds.Prelude.{
  Bool, Dict, List, Option, Result, Text, [], drop, err, get, if◌then◌else◌, is_id, length, lit,
  ltb, matches_class, nat_eq, need, none, ok, pos, some, sort_texts, text_eq, zeros, ℕ, ◌&&◌, ◌+◌,
  ◌==◌, ◌∷◌,
}
use mgds.Json.{Value, Items, nil, cons, num, str, arr, obj, field, end, canonical}
use mgds.Json.Access.{of_texts}
use mgds.Campaign.Types.{Slot}
use mgds.Evidence.Build.{Reader}
use mgds.Evidence.Check.{is_filled}
use mgds.Operator.{
  OperatorError, inputs_required, roles_mismatch, not_publishable, empty_artifact,
  public_json_required, not_bytes,
}

pub record Built : Type 0 where
  pub bundle : Value
  pub bytes : List ℕ
  pub evidence_hash : Text

-- /^run_[A-Za-z0-9_-]{16,}$/
unfoldable pub is_run_id : Text → Bool
unfolding matches_class
is_run_id t = matches_class (lit "run_") is_id 16 t

abbrev pub role_names : Dict Text (List ℕ) → List Text
role_names [] = []
role_names ((role, bytes) ∷ artifacts) = role ∷ role_names artifacts

abbrev pub sealed_entry : ℕ → Value → Value → Text → Value
sealed_entry sequence previous event hash = obj (
    field (lit "sequence") (num (pos sequence)) (
      field (lit "previousHash") previous
        (field (lit "event") event (field (lit "hash") (str hash) end))))

abbrev pub entry_body : ℕ → Value → Value → Value
entry_body sequence previous event = obj (
    field (lit "sequence") (num (pos sequence))
      (field (lit "previousHash") previous (field (lit "event") event end)))

abbrev pub artifact_of : Text → Text → Text → Value
artifact_of role hash encoded = obj (
    field (lit "role") (str role)
      (field (lit "hash") (str hash) (field (lit "bytesBase64") (str encoded) end)))

abbrev pub cons_ok : Value → Result OperatorError Items → Result OperatorError Items
cons_ok v (ok items) = ok (cons v items)
cons_ok v (err x) = err x

abbrev pub bundle_of : Text → Text → Items → Items → Value
bundle_of run_id slot_id events artifacts = obj (
    field (lit "schema") (str (lit "mgds.campaign-evidence/v1")) (
      field (lit "runId") (str run_id) (
        field (lit "slotId") (str slot_id) (
          field (lit "events") (arr events) (
            field (lit "artifacts") (arr artifacts) (
              field (lit "privacy")
                (obj (
                  field (lit "classification") (str (lit "public-redacted"))
                    (field (lit "redactionVersion") (str (lit "mgds.redaction/v1")) end)))
                (field (lit "replayStatus") (str (lit "verified")) end)))))))

-- `stringify` gives the bytes of JSON.stringify
module _ (reader : Reader) (stringify : Value → List ℕ) where
  abbrev pub entry_hash : ℕ → Value → Value → Text
  entry_hash index previous event =
      drop 7 (reader.hash_text (canonical (entry_body (index + 1) previous event)))

  -- the events as entries, each with the hash of the one before it
  unfoldable pub ledger_of : ℕ → Value → Items → Result OperatorError Items
  ledger_of index previous nil = ok nil
  ledger_of index previous (cons event events) =
      let hash = entry_hash index previous event in
      need (reader.publishable event) not_publishable (
        cons_ok (sealed_entry (index + 1) previous event hash)
          (ledger_of (index + 1) (str hash) events))

  abbrev pub parsed_public :
      Text → Option Value → Result OperatorError Items → Result OperatorError Items
  parsed_public role none rest = err (public_json_required role)
  parsed_public role (some v) rest = need (reader.publishable v) not_publishable rest

  abbrev pub decoded_public :
      Text → Option Text → Result OperatorError Items → Result OperatorError Items
  decoded_public role none rest = err (public_json_required role)
  decoded_public role (some text) rest = parsed_public role (reader.parse text) rest

  abbrev pub public_bytes : Text → List ℕ → Result OperatorError Items → Result OperatorError Items
  public_bytes role bytes rest =
      if role == lit "screenshot" then rest else decoded_public role (reader.decode_utf8 bytes) rest

  -- a role without bytes is a TypeError of `Buffer.from`
  abbrev pub encode :
      Text → Option (List ℕ) → Result OperatorError Items → Result OperatorError Items
  encode role none rest = err (not_bytes role)
  encode role (some bytes) rest = need (ltb 0 (length bytes)) (empty_artifact role) (
      public_bytes role bytes
        (cons_ok (artifact_of role (reader.hash_bytes bytes) (reader.to_base64 bytes)) rest))

  unfoldable pub encoded_artifacts : Dict Text (List ℕ) → List Text → Result OperatorError Items
  unfolding get
  encoded_artifacts artifacts [] = ok nil
  encoded_artifacts artifacts (role ∷ roles) =
      encode role (get artifacts role) (encoded_artifacts artifacts roles)

  abbrev pub finish : Value → Result OperatorError Built
  finish bundle = need (reader.publishable bundle) not_publishable (
      ok (record {
        bundle = bundle;
        bytes = stringify bundle;
        evidence_hash = reader.hash_bytes (stringify bundle);
      }))

  abbrev pub with_artifacts :
      Text → Text → Items → Result OperatorError Items → Result OperatorError Built
  with_artifacts run_id slot_id events (ok artifacts) =
      finish (bundle_of run_id slot_id events artifacts)
  with_artifacts run_id slot_id events (err x) = err x

  abbrev pub with_ledger :
      Text
      → Text
      → Result OperatorError Items
      → Result OperatorError Items
      → Result OperatorError Built
  with_ledger run_id slot_id (ok events) artifacts = with_artifacts run_id slot_id events artifacts
  with_ledger run_id slot_id (err x) artifacts = err x

  unfoldable pub build_campaign_evidence :
      Slot → Text → Items → Dict Text (List ℕ) → Result OperatorError Built
  unfolding is_run_id ledger_of encoded_artifacts sort_texts
  build_campaign_evidence slot run_id events artifacts =
      let required = sort_texts slot.required_evidence in
      need (ltb 0 (length slot.slot_id) && is_run_id run_id && is_filled events) inputs_required (
        need
          (canonical (arr (of_texts (sort_texts (role_names artifacts))))
            == canonical (arr (of_texts required)))
          roles_mismatch
          (with_ledger run_id slot.slot_id (ledger_of 0 (str (zeros 64)) events)
            (encoded_artifacts artifacts required)))
