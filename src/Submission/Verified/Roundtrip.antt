-- ===== src/Submission/Verified/Roundtrip.antt =====
-- Lemmas on `buildP3Submission` followed by `verifyP3Submission`.
use mgds.Prelude.{
  Bool, Dict, List, Result, Text, [], and-eq-true, ap, beq_refl, err, has, is_hash, leb, length,
  lit, ltb, nat_eq, need-ok, need-true, not, ok, ok-inj, refl, some, sort_texts, suc, sym, text_eq,
  true, ℕ, ◌&&◌, ◌∙◌, ◌∷◌, ◌≡◌,
}
use mgds.Json.{Value, Items, nil, cons, str, canonical}
use mgds.Json.Access.{count, exact_keys}
use mgds.Evidence.Build.{Reader, lower, genuine, text_publishable}
use mgds.Evidence.Check.{is_filled}
use mgds.Submission.{
  SubmissionError, not_publishable, manifest_invalid, inputs_required, artifact_count_invalid,
  path_required, duplicate_path, size_invalid, valid_manifest, valid_artifact_path, artifact_value,
  identity_of, identities_of, payload_of, bundle_of, Submission, Verdict, cons_ok,
  max_artifact_bytes, max_submission_bytes, text_at, at,
}
use mgds.Submission.Built.{
  encoded_artifacts, signed_bundle, submit_bundle, with_artifacts, build_p3_submission,
}
use mgds.Submission.Verified.{
  artifact_keys, bundle_keys, attestation_keys, verified_identities, with_identities, verify_bundle,
  verify_value, verify_text, verify_p3_submission,
}

pub cons_ok-ok :
    (v : Value) (r : Result SubmissionError Items) (out : Items)
    → cons_ok v r ≡ ok out
    → (items : Items) × (r ≡ ok items) × (out ≡ cons v items)
cons_ok-ok v (ok items) out h = (items, refl, sym (ok-inj h))
cons_ok-ok v (err x) out h = cc

artifact_keyed :
    (path hash encoded : Text) → exact_keys (artifact_value path hash encoded) artifact_keys ≡ true
unfolding exact_keys sort_texts canonical
artifact_keyed path hash encoded = refl

module _ (manifest : Value) (artifacts : Items) (authority payload_hash signature : Text) where
  bundle_keyed :
      exact_keys (bundle_of manifest artifacts authority payload_hash signature) bundle_keys ≡ true
  unfolding exact_keys sort_texts canonical
  bundle_keyed = refl

  attestation_keyed :
      exact_keys
        (at (lit "attestation") (bundle_of manifest artifacts authority payload_hash signature))
        attestation_keys
      ≡ true
  unfolding exact_keys sort_texts canonical
  attestation_keyed = refl

module _ (reader : Reader) (stringify : Value → List ℕ) (sign : Text → Text → Text)
    (verifies : Text → Text → Text → Bool)
    (back : (bytes : List ℕ) → reader.from_base64 (reader.to_base64 bytes) ≡ bytes)
    (hashes : (bytes : List ℕ) → is_hash (reader.hash_bytes bytes) ≡ true) where
  genuine_bytes :
      (bytes : List ℕ)
      → ltb 0 (length bytes) ≡ true
      → genuine reader (reader.to_base64 bytes) (reader.hash_bytes bytes) ≡ true
  genuine_bytes bytes filled =
      rw (back bytes, filled, beq_refl (reader.to_base64 bytes), beq_refl (reader.hash_bytes bytes))
        refl

  encoded-verified :
      (seen : List Text) (artifacts : Dict Text (List ℕ)) (items : Items)
      → encoded_artifacts reader stringify sign seen artifacts ≡ ok items
      → verified_identities reader verifies seen items ≡ ok (identities_of items)
  unfolding encoded_artifacts verified_identities
  encoded-verified seen [] items h = rw⁻¹ (ok-inj h) refl
  encoded-verified seen ((path, bytes) ∷ artifacts) items h =
      let artifact = artifact_value path (reader.hash_bytes bytes) (reader.to_base64 bytes) in
      let (valid, h1) = need-ok (valid_artifact_path path) (path_required path) _ items h in
      let (fresh, h2) = need-ok (not (has seen (lower path))) (duplicate_path path) _ items h1 in
      let (size, h3) =
        need-ok (ltb 0 (length bytes) && leb (length bytes) max_artifact_bytes) (size_invalid path)
          _ items h2 in
      let (public, h4) =
        need-ok (text_publishable reader (reader.decode_utf8 bytes)) not_publishable _ items h3 in
      let (rest, looped, same) =
        cons_ok-ok artifact (encoded_artifacts reader stringify sign (lower path ∷ seen) artifacts)
          items h4 in
      let (filled, _) = and-eq-true (ltb 0 (length bytes)) _ size in
      rw same (
        need-true _ _ _ (artifact_keyed path (reader.hash_bytes bytes) (reader.to_base64 bytes))
        ∙ need-true _ _ _ valid
        ∙ need-true _ _ _ (rw (fresh, hashes bytes) refl)
        ∙ need-true _ _ _ (genuine_bytes bytes filled)
        ∙ need-true _ _ _ (rw (back bytes) public)
        ∙ ap (cons_ok (identity_of artifact))
            (encoded-verified (lower path ∷ seen) artifacts rest looped))

  encoded-count :
      (seen : List Text) (artifacts : Dict Text (List ℕ)) (items : Items)
      → encoded_artifacts reader stringify sign seen artifacts ≡ ok items
      → (count (identities_of items) ≡ length artifacts) × (count items ≡ length artifacts)
  unfolding encoded_artifacts
  encoded-count seen [] items h = rw⁻¹ (ok-inj h) (refl, refl)
  encoded-count seen ((path, bytes) ∷ artifacts) items h =
      let artifact = artifact_value path (reader.hash_bytes bytes) (reader.to_base64 bytes) in
      let (_, h1) = need-ok (valid_artifact_path path) (path_required path) _ items h in
      let (_, h2) = need-ok (not (has seen (lower path))) (duplicate_path path) _ items h1 in
      let (_, h3) =
        need-ok (ltb 0 (length bytes) && leb (length bytes) max_artifact_bytes) (size_invalid path)
          _ items h2 in
      let (_, h4) =
        need-ok (text_publishable reader (reader.decode_utf8 bytes)) not_publishable _ items h3 in
      let (rest, looped, same) =
        cons_ok-ok artifact (encoded_artifacts reader stringify sign (lower path ∷ seen) artifacts)
          items h4 in
      let (n, m) = encoded-count (lower path ∷ seen) artifacts rest looped in
      rw same (ap suc n, ap suc m)

  filled_items : (items : Items) → leb 1 (count items) ≡ true → is_filled items ≡ true
  filled_items nil h = cc
  filled_items (cons v items) h = refl

  with_artifacts-ok :
      (manifest : Value) (authority private_key : Text) (r : Result SubmissionError Items)
      (built : Submission)
      → with_artifacts reader stringify sign manifest authority private_key r ≡ ok built
      → (items : Items) × (r ≡ ok items)
        × (is_filled items ≡ true)
        × (submit_bundle reader stringify sign
              (signed_bundle reader stringify sign manifest authority private_key items)
            ≡ ok built)
  with_artifacts-ok manifest authority private_key (err x) built h = cc
  with_artifacts-ok manifest authority private_key (ok items) built h =
      let (few, h1) =
        need-ok (leb 1 (count items) && leb (count items) 1024) artifact_count_invalid _ built h in
      (items, refl, filled_items items (and-eq-true (leb 1 (count items)) _ few).0, h1)

  abbrev pub verdict : Value → Text → ℕ → Verdict
  verdict manifest bundle_hash artifacts = record {
    submission_id = text_at (lit "submissionId") manifest;
    bundle_hash = bundle_hash;
    artifacts = artifacts;
  }

  accepted_bundle :
      (manifest : Value) (items : Items) (authority private_key public_key : Text)
      (artifacts : Dict Text (List ℕ))
      → valid_manifest manifest ≡ true
      → encoded_artifacts reader stringify sign [] artifacts ≡ ok items
      → is_filled items ≡ true
      → reader.publishable
          (signed_bundle reader stringify sign manifest authority private_key items)
        ≡ true
      → verifies
          (canonical (payload_of manifest (identities_of items) (str authority)))
          public_key
          (sign (canonical (payload_of manifest (identities_of items) (str authority))) private_key)
        ≡ true
      → verify_bundle reader verifies
          (stringify (signed_bundle reader stringify sign manifest authority private_key items))
          public_key
          (signed_bundle reader stringify sign manifest authority private_key items)
        ≡ ok (
            verdict manifest
              (reader.hash_bytes (
                stringify
                  (signed_bundle reader stringify sign manifest authority private_key items)))
              (length artifacts))
  accepted_bundle manifest items authority private_key public_key artifacts valid encoded filled
        public signs =
      let bundle = signed_bundle reader stringify sign manifest authority private_key items in
      let payload = canonical (payload_of manifest (identities_of items) (str authority)) in
      let signature = sign payload private_key in
      need-true _ _ _ (
        rw (bundle_keyed manifest items authority (reader.hash_text payload) signature, filled)
          refl)
      ∙ need-true _ _ _ valid
      ∙ need-true _ _ _ public
      ∙ ap (with_identities reader verifies (stringify bundle) public_key bundle)
          (encoded-verified [] artifacts items encoded)
      ∙ need-true _ _ _
          (attestation_keyed manifest items authority (reader.hash_text payload) signature)
      ∙ need-true _ _ _ (rw (beq_refl (reader.hash_text payload), signs) refl)
      ∙ ap (λ n. ok (verdict manifest (reader.hash_bytes (stringify bundle)) n))
          (encoded-count [] artifacts items encoded).0

  -- A submission that was built is accepted under the public key, with the submission's name, the
  -- bundle's hash and the number of the artifacts: if its bytes are within the limit and parse to what
  -- was written, base64 gives back what it was given, hashes have their form, and the public key
  -- verifies what the private key signs.
  pub built_submission_verifies :
      (in_order : Dict Text (List ℕ) → Dict Text (List ℕ)) (manifest : Value)
      (artifacts : Dict Text (List ℕ)) (authority private_key public_key text : Text)
      (built : Submission)
      → build_p3_submission reader stringify sign in_order manifest artifacts authority private_key
        ≡ ok built
      → (ltb 0 (length built.bytes)
          && leb (length built.bytes) max_submission_bytes
          && ltb 0 (length public_key))
        ≡ true
      → reader.decode_utf8 built.bytes ≡ some text
      → reader.parse text ≡ some built.bundle
      → ((t : Text) → verifies t public_key (sign t private_key) ≡ true)
      → verify_p3_submission reader verifies built.bytes public_key
        ≡ ok (verdict manifest built.bundle_hash (length (in_order artifacts)))
  unfolding build_p3_submission verify_p3_submission
  built_submission_verifies in_order manifest artifacts authority private_key public_key text built
        h bounded decoded parsed signs =
      let (_, h1) = need-ok (reader.publishable manifest) not_publishable _ built h in
      let (valid, h2) = need-ok (valid_manifest manifest) manifest_invalid _ built h1 in
      let (_, h3) = need-ok _ inputs_required _ built h2 in
      let (items, encoded, filled, h4) =
        with_artifacts-ok manifest authority private_key
          (encoded_artifacts reader stringify sign [] (in_order artifacts)) built h3 in
      let bundle = signed_bundle reader stringify sign manifest authority private_key items in
      let payload = canonical (payload_of manifest (identities_of items) (str authority)) in
      let (public, made) = need-ok (reader.publishable bundle) not_publishable _ built h4 in
      let same = ok-inj made in
      need-true _ _ _ bounded
      ∙ ap (verify_text reader verifies built.bytes public_key) decoded
      ∙ ap (verify_value reader verifies built.bytes public_key) parsed
      ∙ ap (λ (b : Submission). verify_bundle reader verifies b.bytes public_key b.bundle)
          (sym same)
      ∙ accepted_bundle manifest items authority private_key public_key (in_order artifacts) valid
          encoded filled public (signs payload)
      ∙ ap (λ (b : Submission). ok (verdict manifest b.bundle_hash (length (in_order artifacts))))
          same
