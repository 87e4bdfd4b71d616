-- ===== src/Submission/Verified/Binds.antt =====
-- What an accepted submission has shown.
use mgds.Prelude.{
  Bool, List, Option, Result, Text, [], and-eq-true, ap, arith, err, false, has, is_hash, leb,
  leb→le, length, lit, ltb, nat_eq, need-ok, none, not, ok, ok-inj, refl, some, sym, text_eq, true,
  ℕ, ◌&&◌, ◌∙◌, ◌∷◌, ◌≡◌, ◌≤◌,
}
use mgds.Json.{Value, Items, nil, cons}
use mgds.Json.Access.{member, exact_keys, is_str}
use mgds.Evidence.Build.{Reader, lower, genuine, is_string, text_publishable}
use mgds.Evidence.Check.{is_filled}
use mgds.Submission.{
  SubmissionError, not_publishable, manifest_invalid, bundle_invalid, identity_invalid,
  hash_mismatch, signature_invalid, path_required, bytes_and_key_required, valid_manifest,
  valid_artifact_path, identity_of, identities_of, Verdict, max_submission_bytes, text_at, at,
}
use mgds.Submission.Verified.{
  artifacts_of, artifact_keys, bundle_keys, attestation_keys, verified_identities, signed_payload,
  payload_text, verdict_of, with_identities, verify_bundle, verify_value, verify_text,
  verify_p3_submission,
}
use mgds.Submission.Verified.Roundtrip.{cons_ok-ok}

module _ (reader : Reader) (verifies : Text → Text → Text → Bool) where
  -- Artifacts whose paths are portable and differ in lower case, and whose bytes have the stated hash and
  -- may be published.
  abbrev pub SoundArtifacts : List Text → Items → Type 0
  SoundArtifacts seen nil = Unit
  SoundArtifacts seen (cons artifact artifacts) =
      (valid_artifact_path (text_at (lit "path") artifact) ≡ true)
      × (has seen (lower (text_at (lit "path") artifact)) ≡ false)
      × (genuine reader (text_at (lit "bytesBase64") artifact) (text_at (lit "hash") artifact)
          ≡ true)
      × (text_publishable reader
            (reader.decode_utf8 (reader.from_base64 (text_at (lit "bytesBase64") artifact)))
          ≡ true)
      × SoundArtifacts (lower (text_at (lit "path") artifact) ∷ seen) artifacts

  not-true : (b : Bool) → not b ≡ true → b ≡ false
  not-true b h = ground arith

  verified-Sound :
      (seen : List Text) (artifacts identities : Items)
      → verified_identities reader verifies seen artifacts ≡ ok identities
      → (identities ≡ identities_of artifacts) × SoundArtifacts seen artifacts
  unfolding verified_identities
  verified-Sound seen nil identities h = (sym (ok-inj h), tt)
  verified-Sound seen (cons artifact artifacts) identities h =
      let path = text_at (lit "path") artifact in
      let (_, h1) = need-ok (exact_keys artifact artifact_keys) identity_invalid _ identities h in
      let (placed, h2) =
        need-ok (is_string (member (lit "path") artifact) && valid_artifact_path path)
          (path_required path) _ identities h1 in
      let (fresh, h3) =
        need-ok
          (not (has seen (lower path))
            && is_hash (text_at (lit "hash") artifact)
            && is_string (member (lit "bytesBase64") artifact))
          identity_invalid _ identities h2 in
      let (good, h4) = need-ok _ (hash_mismatch path) _ identities h3 in
      let (public, h5) = need-ok _ not_publishable _ identities h4 in
      let (rest, looped, same) =
        cons_ok-ok (identity_of artifact)
          (verified_identities reader verifies (lower path ∷ seen) artifacts) identities h5 in
      let (ids, sound) = verified-Sound (lower path ∷ seen) artifacts rest looped in
      let (_, valid) = and-eq-true (is_string (member (lit "path") artifact)) _ placed in
      let (front, _) =
        and-eq-true (not (has seen (lower path)) && is_hash (text_at (lit "hash") artifact)) _
          fresh in
      let (new, _) = and-eq-true (not (has seen (lower path))) _ front in
      (same ∙ ap (cons (identity_of artifact)) ids, (valid, not-true _ new, good, public, sound))

  -- what the signature of an accepted submission is over
  pub record Binds (bytes : List ℕ) (public_key : Text) (verdict : Verdict) : Type 0 where
    pub text : Text
    pub bundle : Value
    pub decoded : reader.decode_utf8 bytes ≡ some text
    pub parsed : reader.parse text ≡ some bundle
    pub small : length bytes ≤ max_submission_bytes
    pub manifest : valid_manifest (at (lit "manifest") bundle) ≡ true
    pub public : reader.publishable bundle ≡ true
    pub artifacts : SoundArtifacts [] (artifacts_of bundle)
    pub signed :
        verifies
          (payload_text reader verifies bundle (identities_of (artifacts_of bundle)))
          public_key
          (text_at (lit "signature") (at (lit "attestation") bundle))
        ≡ true
    pub answer :
        verdict ≡ verdict_of reader verifies bytes bundle (identities_of (artifacts_of bundle))

  with_identities-ok :
      (bytes : List ℕ) (public_key : Text) (bundle : Value) (r : Result SubmissionError Items)
      (verdict : Verdict)
      → with_identities reader verifies bytes public_key bundle r ≡ ok verdict
      → (identities : Items) × (r ≡ ok identities)
        × (signed_payload reader verifies public_key bundle
              (payload_text reader verifies bundle identities)
            ≡ true)
        × (verdict ≡ verdict_of reader verifies bytes bundle identities)
  with_identities-ok bytes public_key bundle (err x) verdict h = cc
  with_identities-ok bytes public_key bundle (ok identities) verdict h =
      let (_, h1) =
        need-ok (exact_keys (at (lit "attestation") bundle) attestation_keys) signature_invalid _
          verdict h in
      let (signed, h2) =
        need-ok
          (signed_payload reader verifies public_key bundle
            (payload_text reader verifies bundle identities))
          signature_invalid _ verdict h1 in
      (identities, refl, signed, sym (ok-inj h2))

  verify_text-ok :
      (bytes : List ℕ) (public_key : Text) (o : Option Text) (verdict : Verdict)
      → verify_text reader verifies bytes public_key o ≡ ok verdict
      → (text : Text) × (bundle : Value) × (o ≡ some text)
        × (reader.parse text ≡ some bundle)
        × (verify_bundle reader verifies bytes public_key bundle ≡ ok verdict)
  verify_text-ok bytes public_key none verdict h = cc
  verify_text-ok bytes public_key (some text) verdict h = go (reader.parse text) refl h
    where
      go :
          (p : Option Value)
          → reader.parse text ≡ p
          → verify_value reader verifies bytes public_key p ≡ ok verdict
          → (t : Text) × (bundle : Value) × (some text ≡ some t)
            × (reader.parse t ≡ some bundle)
            × (verify_bundle reader verifies bytes public_key bundle ≡ ok verdict)
      go none e k = cc
      go (some bundle) e k = (text, bundle, refl, e, k)

  -- A submission is accepted only if its bytes are within the limit and parse to a bundle that may be
  -- published, whose manifest is valid, whose artifacts have portable paths of which no two are the same
  -- in lower case and the bytes that their hashes say, and whose signature is, under the given key,
  -- over that manifest, those paths and hashes, and the authority.
  pub verified_submission-Binds :
      (bytes : List ℕ) (public_key : Text) (verdict : Verdict)
      → verify_p3_submission reader verifies bytes public_key ≡ ok verdict
      → Binds bytes public_key verdict
  unfolding verify_p3_submission
  verified_submission-Binds bytes public_key verdict h =
      let (size, h1) =
        need-ok
          (ltb 0 (length bytes)
            && leb (length bytes) max_submission_bytes
            && ltb 0 (length public_key))
          bytes_and_key_required _ verdict h in
      let (text, bundle, decoded, parsed, h2) =
        verify_text-ok bytes public_key (reader.decode_utf8 bytes) verdict h1 in
      let (_, h3) =
        need-ok
          (exact_keys bundle bundle_keys
            && is_str (lit "mgds.p3-bundle/v1") (member (lit "schema") bundle)
            && is_filled (artifacts_of bundle))
          bundle_invalid _ verdict h2 in
      let (manifest, h4) =
        need-ok (valid_manifest (at (lit "manifest") bundle)) manifest_invalid _ verdict h3 in
      let (public, h5) = need-ok (reader.publishable bundle) not_publishable _ verdict h4 in
      let (identities, looped, signed, answer) =
        with_identities-ok bytes public_key bundle
          (verified_identities reader verifies [] (artifacts_of bundle)) verdict h5 in
      let (same, sound) = verified-Sound [] (artifacts_of bundle) identities looped in
      let (bounded, _) =
        and-eq-true (ltb 0 (length bytes) && leb (length bytes) max_submission_bytes) _ size in
      let (_, signature) =
        and-eq-true _
          (verifies (payload_text reader verifies bundle identities) public_key
            (text_at (lit "signature") (at (lit "attestation") bundle)))
          signed in
      record {
        text = text;
        bundle = bundle;
        decoded = decoded;
        parsed = parsed;
        small =
            leb→le (length bytes) max_submission_bytes
              (and-eq-true (ltb 0 (length bytes)) _ bounded).1;
        manifest = manifest;
        public = public;
        artifacts = sound;
        signed = rw same at signature;
        answer = rw same at answer;
      }
