-- ===== src/Submission/Built.antt =====
-- packages/p3-submission/src/index.mjs, `buildP3Submission`. The order of `localeCompare` is what `in_order`
-- puts the artifacts in, `sign` gives a signature in base64url, `stringify` the bytes of JSON.stringify.
use mgds.Prelude.{
  Dict, List, Result, Text, [], err, has, is_versioned, leb, length, lit, ltb, nat_eq, need, not,
  ok, text_eq, ℕ, ◌&&◌, ◌∷◌,
}
use mgds.Json.{Value, Items, nil, str, canonical}
use mgds.Json.Access.{count}
use mgds.Evidence.Build.{Reader, lower, text_publishable}
use mgds.Submission.{
  SubmissionError, not_publishable, manifest_invalid, inputs_required, artifact_count_invalid,
  path_required, duplicate_path, size_invalid, valid_manifest, valid_artifact_path, artifact_value,
  identities_of, payload_of, bundle_of, Submission, cons_ok, max_artifact_bytes,
}

module _ (reader : Reader) (stringify : Value → List ℕ) (sign : Text → Text → Text) where
  unfoldable pub encoded_artifacts : List Text → Dict Text (List ℕ) → Result SubmissionError Items
  unfolding valid_artifact_path
  encoded_artifacts seen [] = ok nil
  encoded_artifacts seen ((path, bytes) ∷ artifacts) =
      need (valid_artifact_path path) (path_required path) (
        need (not (has seen (lower path))) (duplicate_path path) (
          need (ltb 0 (length bytes) && leb (length bytes) max_artifact_bytes) (size_invalid path) (
            need (text_publishable reader (reader.decode_utf8 bytes)) not_publishable (
              cons_ok (artifact_value path (reader.hash_bytes bytes) (reader.to_base64 bytes))
                (encoded_artifacts (lower path ∷ seen) artifacts)))))

  abbrev pub signed_bundle : Value → Text → Text → Items → Value
  signed_bundle manifest authority private_key artifacts =
      let payload = canonical (payload_of manifest (identities_of artifacts) (str authority)) in
      bundle_of manifest artifacts authority (reader.hash_text payload) (sign payload private_key)

  abbrev pub submit_bundle : Value → Result SubmissionError Submission
  submit_bundle bundle = need (reader.publishable bundle) not_publishable (
      ok (record {
        bundle = bundle;
        bytes = stringify bundle;
        bundle_hash = reader.hash_bytes (stringify bundle);
      }))

  abbrev pub with_artifacts :
      Value → Text → Text → Result SubmissionError Items → Result SubmissionError Submission
  with_artifacts manifest authority private_key (err x) = err x
  with_artifacts manifest authority private_key (ok artifacts) =
      need (leb 1 (count artifacts) && leb (count artifacts) 1024) artifact_count_invalid
        (submit_bundle (signed_bundle manifest authority private_key artifacts))

  unfoldable pub build_p3_submission :
      (Dict Text (List ℕ) → Dict Text (List ℕ))
      → Value
      → Dict Text (List ℕ)
      → Text
      → Text
      → Result SubmissionError Submission
  unfolding valid_manifest encoded_artifacts is_versioned
  build_p3_submission in_order manifest artifacts authority private_key =
      need (reader.publishable manifest) not_publishable (
        need (valid_manifest manifest) manifest_invalid (
          need (is_versioned (lit "mgds.submitter.") authority && ltb 0 (length private_key))
            inputs_required
            (with_artifacts manifest authority private_key
              (encoded_artifacts [] (in_order artifacts)))))
