-- ===== src/Submission/Verified.antt =====
-- packages/p3-submission/src/index.mjs, `verifyP3Submission`. `verifies` is `verify` of node:crypto, given the
-- signed text, the key and the signature in base64url.
pub mod Binds
pub mod Roundtrip
use mgds.Prelude.{
  Bool, List, Option, Result, Text, [], err, has, is_hash, leb, length, lit, ltb, nat_eq, need,
  none, not, ok, some, text_eq, ℕ, ◌&&◌, ◌∷◌,
}
use mgds.Json.{Value, Items, nil, cons, str, canonical}
use mgds.Json.Access.{member, is_str, items_of, count, exact_keys}
use mgds.Evidence.Build.{Reader, lower, is_string, genuine, text_publishable}
use mgds.Evidence.Check.{is_filled, or_nil}
use mgds.Submission.{
  SubmissionError, not_publishable, manifest_invalid, path_required, bytes_and_key_required,
  json_invalid, bundle_invalid, identity_invalid, hash_mismatch, signature_invalid, at, text_at,
  valid_manifest, valid_artifact_path, identity_of, payload_of, Verdict, cons_ok,
  max_submission_bytes,
}

abbrev pub artifacts_of : Value → Items
artifacts_of bundle = or_nil (items_of (member (lit "artifacts") bundle))

abbrev pub artifact_keys : List Text
artifact_keys = lit "bytesBase64" ∷ lit "hash" ∷ lit "path" ∷ []

abbrev pub bundle_keys : List Text
bundle_keys = lit "artifacts" ∷ lit "attestation" ∷ lit "manifest" ∷ lit "schema" ∷ []

abbrev pub attestation_keys : List Text
attestation_keys = lit "algorithm" ∷ lit "authority" ∷ lit "payloadHash" ∷ lit "signature" ∷ []

module _ (reader : Reader) (verifies : Text → Text → Text → Bool) where
  -- the loop over the artifacts: their identities
  unfoldable pub verified_identities : List Text → Items → Result SubmissionError Items
  unfolding exact_keys valid_artifact_path is_hash
  verified_identities seen nil = ok nil
  verified_identities seen (cons artifact artifacts) =
      let path = text_at (lit "path") artifact in
      let hash = text_at (lit "hash") artifact in
      let encoded = text_at (lit "bytesBase64") artifact in
      need (exact_keys artifact artifact_keys) identity_invalid (
        need (is_string (member (lit "path") artifact) && valid_artifact_path path)
          (path_required path)
          (need
            (not (has seen (lower path))
              && is_hash hash
              && is_string (member (lit "bytesBase64") artifact))
            identity_invalid
            (need (genuine reader encoded hash) (hash_mismatch path) (
              need (text_publishable reader (reader.decode_utf8 (reader.from_base64 encoded)))
                not_publishable
                (cons_ok (identity_of artifact)
                  (verified_identities (lower path ∷ seen) artifacts))))))

  abbrev pub signed_payload : Text → Value → Text → Bool
  signed_payload public_key bundle payload =
      let attestation = at (lit "attestation") bundle in
      is_str (lit "Ed25519") (member (lit "algorithm") attestation)
      && is_str (reader.hash_text payload) (member (lit "payloadHash") attestation)
      && verifies payload public_key (text_at (lit "signature") attestation)

  abbrev pub payload_text : Value → Items → Text
  payload_text bundle identities = canonical (
      payload_of (at (lit "manifest") bundle) identities
        (at (lit "authority") (at (lit "attestation") bundle)))

  abbrev pub verdict_of : List ℕ → Value → Items → Verdict
  verdict_of bytes bundle identities = record {
    submission_id = text_at (lit "submissionId") (at (lit "manifest") bundle);
    bundle_hash = reader.hash_bytes bytes;
    artifacts = count identities;
  }

  abbrev pub with_identities :
      List ℕ → Text → Value → Result SubmissionError Items → Result SubmissionError Verdict
  with_identities bytes public_key bundle (err x) = err x
  with_identities bytes public_key bundle (ok identities) =
      need (exact_keys (at (lit "attestation") bundle) attestation_keys) signature_invalid (
        need (signed_payload public_key bundle (payload_text bundle identities)) signature_invalid
          (ok (verdict_of bytes bundle identities)))

  abbrev pub verify_bundle : List ℕ → Text → Value → Result SubmissionError Verdict
  verify_bundle bytes public_key bundle =
      need
        (exact_keys bundle bundle_keys
          && is_str (lit "mgds.p3-bundle/v1") (member (lit "schema") bundle)
          && is_filled (artifacts_of bundle))
        bundle_invalid
        (need (valid_manifest (at (lit "manifest") bundle)) manifest_invalid (
          need (reader.publishable bundle) not_publishable (
            with_identities bytes public_key bundle
              (verified_identities [] (artifacts_of bundle)))))

  abbrev pub verify_value : List ℕ → Text → Option Value → Result SubmissionError Verdict
  verify_value bytes public_key none = err json_invalid
  verify_value bytes public_key (some bundle) = verify_bundle bytes public_key bundle

  abbrev pub verify_text : List ℕ → Text → Option Text → Result SubmissionError Verdict
  verify_text bytes public_key none = err json_invalid
  verify_text bytes public_key (some text) = verify_value bytes public_key (reader.parse text)

  unfoldable pub verify_p3_submission : List ℕ → Text → Result SubmissionError Verdict
  unfolding exact_keys valid_manifest verified_identities
  verify_p3_submission bytes public_key =
      need
        (ltb 0 (length bytes)
          && leb (length bytes) max_submission_bytes
          && ltb 0 (length public_key))
        bytes_and_key_required (verify_text bytes public_key (reader.decode_utf8 bytes))
