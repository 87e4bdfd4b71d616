-- ===== src/Release/Signing.antt =====
-- packages/release/src/p2-gate.mjs: `signP2ReviewApproval` and `signP2ReleaseSubject`, with the checks that the
-- gate makes of what they give. `sign` gives the base64url text of a signature by a key.
use mgds.Prelude.{
  Dict, Option, Result, Text, [], beq_refl, err, get, is_hash, lit, nat_eq, need, need-ok, none, ok,
  ok-inj, refl, some, text_eq, true, ◌≡◌,
}
use mgds.Json.{canonical}
use mgds.Release.Manifest.{Review, review_approval_payload}
use mgds.Release.Input.{Signing}
use mgds.Release.Gate.{valid_review_signature, valid_release_signature, signing_blockers}
use mgds.Trust.{Crypto, Authority, is_signature, public_key_fingerprint}

pub data SigningError : Type 0 where
  private_key_required subject_required : SigningError

module _ (sign : Text → Text → Text) where
  abbrev approved_by : Review → Text → Review
  approved_by review private_key = record review {
    signature = sign (canonical (review_approval_payload review)) private_key;
  }

  unfoldable pub sign_p2_review_approval : Review → Option Text → Result SigningError Review
  sign_p2_review_approval review none = err private_key_required
  sign_p2_review_approval review (some private_key) = ok (approved_by review private_key)

  abbrev signing_of : Text → Text → Signing
  signing_of subject_hash private_key = record {
    status = lit "signed";
    authority = some (lit "mgds-release-authority");
    algorithm = lit "Ed25519";
    subject_hash = subject_hash;
    signature = sign subject_hash private_key;
  }

  unfoldable pub sign_p2_release_subject : Text → Option Text → Result SigningError Signing
  unfolding is_hash
  sign_p2_release_subject subject_hash none = err subject_required
  sign_p2_release_subject subject_hash (some private_key) =
      need (is_hash subject_hash) subject_required (ok (signing_of subject_hash private_key))

  -- A key pair: what the private key signs is written in base64url and the public key verifies it.
  pub record KeyPair (crypto : Crypto) (authority : Authority) (private_key : Text) : Type 0 where
    pub algorithm : authority.algorithm ≡ lit "Ed25519"
    pub written : (t : Text) → is_signature (sign t private_key) ≡ true
    pub verifies :
        (t : Text) → crypto.verify_signature t authority.public_key (sign t private_key) ≡ true

  -- A review of a pinned reviewer that the reviewer's key signs has a valid signature for the gate, and
  -- a subject that the release authority's key signs leaves no block on the signing; if the keys are
  -- pairs of Ed25519 and the review names that algorithm.
  pub signed_release-accepted :
      (crypto : Crypto) (reviewer release : Authority) (reviewer_key release_key fingerprint : Text)
      (authorities : Dict Text Authority) (trusted : Dict Text Text) (review approved : Review)
      (subject_hash : Text) (signing : Signing)
      → KeyPair crypto reviewer reviewer_key
      → KeyPair crypto release release_key
      → get authorities review.reviewer_id ≡ some reviewer
      → get trusted review.reviewer_id ≡ some fingerprint
      → public_key_fingerprint crypto reviewer.public_key ≡ some fingerprint
      → review.reviewer_algorithm ≡ lit "Ed25519"
      → sign_p2_review_approval review (some reviewer_key) ≡ ok approved
      → sign_p2_release_subject subject_hash (some release_key) ≡ ok signing
      → (valid_review_signature crypto approved authorities trusted ≡ true)
        × (signing_blockers crypto (some release) subject_hash (some signing) ≡ [])
  unfolding sign_p2_review_approval sign_p2_release_subject valid_review_signature
      valid_release_signature review_approval_payload canonical
  signed_release-accepted crypto reviewer release reviewer_key release_key fingerprint authorities
        trusted review approved subject_hash signing pair released known pin own algorithm h k =
      let (_, made) = need-ok (is_hash subject_hash) subject_required _ signing k in
      let text = canonical (review_approval_payload review) in
      (
        rw⁻¹ (ok-inj h) (
            simp
              (
                known,
                pin,
                own,
                pair.algorithm,
                algorithm,
                pair.written text,
                pair.verifies text,
                beq_refl fingerprint,
              )
              refl),
        rw⁻¹ (ok-inj made) (
            simp
              (
                released.algorithm,
                released.written subject_hash,
                released.verifies subject_hash,
                beq_refl subject_hash,
              )
              refl),
      )
