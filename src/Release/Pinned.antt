-- ===== src/Release/Pinned.antt =====
-- packages/release/src/p2-gate.mjs: what valid signatures of the review and of the release show.
use mgds.Prelude.{
  Bool, Option, Text, ap, arith, eq_of_beq, false, get, is_hash, lit, nat_eq, none, refl, some, sym,
  text_eq, true, ◌&&◌, ◌==◌, ◌∙◌, ◌≡◌,
}
use mgds.Json.{canonical}
use mgds.Release.Manifest.{Review, review_approval_payload}
use mgds.Release.Gate.{
  signed_by, releases_with, valid_review_signature, valid_release_signature, key_fingerprint,
  signing_name,
}
use mgds.Release.Input.{GateInput, Signing}
use mgds.Trust.{Crypto, Authority, is_signature, is_pinned, is_pinned-eq, public_key_fingerprint}

-- The reviewer's key is the one that is pinned under the reviewer's name, and it has signed the
-- payload of the approval.
pub record SignedReview (crypto : Crypto) (i : GateInput) (review : Review) : Type 0 where
  pub authority : Authority
  pub fingerprint : Text
  pub found : get i.reviewer_authorities review.reviewer_id ≡ some authority
  pub trusted : get i.trusted_reviewer_fingerprints review.reviewer_id ≡ some fingerprint
  pub pinned : public_key_fingerprint crypto authority.public_key ≡ some fingerprint
  pub algorithm : authority.algorithm ≡ lit "Ed25519"
  pub format : is_signature review.signature ≡ true
  pub verified :
      crypto.verify_signature
        (canonical (review_approval_payload review))
        authority.public_key
        review.signature
      ≡ true

-- The release authority's key is the pinned one, and it has signed the subject.
pub record SignedRelease (crypto : Crypto) (i : GateInput) (subject : Text) : Type 0 where
  pub signing : Signing
  pub authority : Authority
  pub given : i.signing ≡ some signing
  pub status : signing.status ≡ lit "signed"
  pub found : get i.release_authorities (lit "mgds-release-authority") ≡ some authority
  pub pin_hash : is_hash i.trusted_release_authority_fingerprint ≡ true
  pub pinned :
      public_key_fingerprint crypto authority.public_key
      ≡ some i.trusted_release_authority_fingerprint
  pub algorithm : authority.algorithm ≡ lit "Ed25519"
  pub subject_bound : signing.subject_hash ≡ subject
  pub format : is_signature signing.signature ≡ true
  pub verified : crypto.verify_signature subject authority.public_key signing.signature ≡ true

abbrev named : Option Text → Bool
named o = elim o [ none ↦ false | some name ↦ name == lit "mgds-release-authority" ]

named-eq :
    (o : Option Text)
    → named o ≡ true
    → elim o [ none ↦ lit "mgds-release-authority" | some name ↦ name ]
      ≡ lit "mgds-release-authority"
named-eq none h = refl
named-eq (some name) h = eq_of_beq name (lit "mgds-release-authority") h

module _ (crypto : Crypto) (i : GateInput) where
  reviewer_pinned :
      (review : Review) (trusted : Option Text) (o : Option Authority)
      → get i.trusted_reviewer_fingerprints review.reviewer_id ≡ trusted
      → get i.reviewer_authorities review.reviewer_id ≡ o
      → signed_by crypto review trusted o ≡ true
      → SignedReview crypto i review
  reviewer_pinned review trusted none t e h = cc
  reviewer_pinned review trusted (some authority) t e h =
      let print = public_key_fingerprint crypto authority.public_key in
      let (a, pin, format, verified) =
        tests (authority.algorithm == lit "Ed25519") (review.reviewer_algorithm == lit "Ed25519")
          (is_pinned crypto print trusted) (is_signature review.signature)
          (crypto.verify_signature (canonical (review_approval_payload review)) authority.public_key
            review.signature)
          h in
      let (fingerprint, printed, named) = is_pinned-eq crypto print trusted pin in
      record {
        authority = authority;
        fingerprint = fingerprint;
        found = e;
        trusted = t ∙ named;
        pinned = printed;
        algorithm = eq_of_beq authority.algorithm (lit "Ed25519") a;
        format = format;
        verified = verified;
      }
    where
      tests :
          (a b c d e : Bool)
          → (a && b && c && d && e) ≡ true
          → (a ≡ true) × (c ≡ true) × (d ≡ true) × (e ≡ true)
      tests a b c d e h = ground arith

  pub valid_review_signature-SignedReview :
      (review : Review)
      → valid_review_signature crypto review i.reviewer_authorities i.trusted_reviewer_fingerprints
        ≡ true
      → SignedReview crypto i review
  unfolding valid_review_signature
  valid_review_signature-SignedReview review h =
      reviewer_pinned review (get i.trusted_reviewer_fingerprints review.reviewer_id)
        (get i.reviewer_authorities review.reviewer_id) refl refl h

  release_pinned :
      (subject : Text) (signing : Signing) (o : Option Authority)
      → i.signing ≡ some signing
      → signing.status ≡ lit "signed"
      → get i.release_authorities (signing_name (some signing)) ≡ o
      → is_hash i.trusted_release_authority_fingerprint ≡ true
      → is_pinned crypto (key_fingerprint crypto o) (some i.trusted_release_authority_fingerprint)
        ≡ true
      → releases_with crypto signing subject o ≡ true
      → SignedRelease crypto i subject
  release_pinned subject signing none g s e k p h = cc
  release_pinned subject signing (some authority) g s e k p h =
      let (name, a, b, c, format, verified) =
        tests (named signing.authority) (signing.algorithm == lit "Ed25519")
          (authority.algorithm == lit "Ed25519") (signing.subject_hash == subject)
          (is_signature signing.signature)
          (crypto.verify_signature subject authority.public_key signing.signature) h in
      let (fingerprint, printed, trusted) =
        is_pinned-eq crypto (public_key_fingerprint crypto authority.public_key)
          (some i.trusted_release_authority_fingerprint) p in
      record {
        signing = signing;
        authority = authority;
        given = g;
        status = s;
        found = ap (get i.release_authorities) (sym (named-eq signing.authority name)) ∙ e;
        pin_hash = k;
        pinned = printed ∙ sym trusted;
        algorithm = eq_of_beq authority.algorithm (lit "Ed25519") b;
        subject_bound = eq_of_beq signing.subject_hash subject c;
        format = format;
        verified = verified;
      }
    where
      tests :
          (a b c d e f : Bool)
          → (a && b && c && d && e && f) ≡ true
          → (a ≡ true) × (b ≡ true) × (c ≡ true) × (d ≡ true) × (e ≡ true) × (f ≡ true)
      tests a b c d e f h = ground arith

  pub valid_release_signature-SignedRelease :
      (subject : Text) (signing : Signing)
      → i.signing ≡ some signing
      → signing.status ≡ lit "signed"
      → is_hash i.trusted_release_authority_fingerprint ≡ true
      → is_pinned crypto
          (key_fingerprint crypto (get i.release_authorities (signing_name (some signing))))
          (some i.trusted_release_authority_fingerprint)
        ≡ true
      → valid_release_signature crypto signing subject
          (get i.release_authorities (signing_name (some signing)))
        ≡ true
      → SignedRelease crypto i subject
  unfolding valid_release_signature
  valid_release_signature-SignedRelease subject signing g s k p h =
      release_pinned subject signing (get i.release_authorities (signing_name (some signing))) g s
        refl k p h
