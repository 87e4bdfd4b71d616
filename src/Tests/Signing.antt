-- ===== src/Tests/Signing.antt =====
-- A review and a release subject signed with a toy signature.
use mgds.Prelude.{
  Text, [], err, get, lit, nat_eq, none, pos, refl, some, text_eq, true, ◌++◌, ◌∷◌, ◌≡◌,
}
use mgds.Release.Manifest.{Review}
use mgds.Release.Input.{Signing}
use mgds.Release.Gate.{valid_review_signature, signing_blockers}
use mgds.Release.Signing.{
  KeyPair, subject_required, sign_p2_review_approval, sign_p2_release_subject,
  signed_release-accepted,
}
use mgds.Trust.{is_signature, public_key_fingerprint}
use mgds.Tests.Toy.{crypto, authority, hash_a, toy}

abbrev sign : Text → Text → Text
sign text key = lit "signed"

abbrev fingerprint : Text
fingerprint = lit "sha256:" ++ toy (lit "key")

abbrev review : Review
review = record {
  status = lit "approved";
  independent = true;
  findings = record { critical = some (pos 0); high = some (pos 0); medium = none; low = none };
  report_hash = hash_a;
  target_hash = hash_a;
  reviewer_id = lit "reviewer";
  reviewer_algorithm = lit "Ed25519";
  signature = [];
}

abbrev approved : Review
approved = record review { signature = lit "signed" }

abbrev signing : Signing
signing = record {
  status = lit "signed";
  authority = some (lit "mgds-release-authority");
  algorithm = lit "Ed25519";
  subject_hash = hash_a;
  signature = lit "signed";
}

pair : KeyPair sign crypto authority (lit "secret")
unfolding is_signature
pair = record { algorithm = refl; written = λ t. refl; verifies = λ t. refl }

unsigned_subject :
    sign_p2_release_subject sign (lit "subject") (some (lit "secret")) ≡ err subject_required
unfolding sign_p2_release_subject
unsigned_subject = refl

signed_release-accepted_example :
    (valid_review_signature crypto approved
        ((lit "reviewer", authority) ∷ [])
        ((lit "reviewer", fingerprint) ∷ [])
      ≡ true)
    × (signing_blockers crypto (some authority) hash_a (some signing) ≡ [])
unfolding sign_p2_review_approval sign_p2_release_subject get public_key_fingerprint
signed_release-accepted_example =
    signed_release-accepted sign crypto authority authority (lit "secret") (lit "secret")
      fingerprint ((lit "reviewer", authority) ∷ []) ((lit "reviewer", fingerprint) ∷ []) review
      approved hash_a signing pair pair refl refl refl refl refl refl
