-- ===== src/Release/Ready.antt =====
-- When the gate is ready.
use mgds.Prelude.{
  All, Bool, Bool-cases, List, Option, Text, [], and-eq-true, and-eq-true_4, ap, arith, collect,
  collect-nil, eq_of_beq, eqb_iff, false, get, inl, inr, is_hash, lit, nat_eq, ne_of_beq, negsuc,
  none, not, pos, refl, some, text_eq, true, ℕ, ℤ, ◌&&◌, ◌==◌, ◌||◌, ◌∷◌, ◌≡◌, ◌≢◌,
}
use mgds.Campaign.Types.{Outcome, Status, pass, incomplete, invalid}
use mgds.Campaign.Aggregate.{Checks}
use mgds.Campaign.Report.{aggregate_campaign}
use mgds.Release.{
  HostEvidence, valid_p2_plan, valid_host_evidence, is_source_digest, required_hosts, is_preview,
  empty_sha256, expected_runs, expected_campaign,
}
use mgds.Release.Manifest.{Review, Encoding}
use mgds.Release.Gate.{
  result_passes, is_pass, target_of, subject_of, host_blockers, review_blockers, signing_blockers,
  signing_name, key_fingerprint, review_status_is, valid_release_signature, valid_finding_counts,
  signed_tests, status_of, is_zero_count,
}
use mgds.Release.Input.{Blocker, GateInput, ready, Signing, release_signature_invalid}
use mgds.Release.Hosted.{Hosted}
use mgds.Release.Pinned.{
  SignedReview, SignedRelease, valid_review_signature-SignedReview,
  valid_release_signature-SignedRelease,
}
use mgds.Trust.{Crypto, is_pinned}

-- An approved review of this very report and release target, signed by a pinned reviewer.
pub record Reviewed (crypto : Crypto) (i : GateInput) (target : Text) (review : Review)
    : Type 0 where
  pub given : i.review ≡ some review
  pub approved : review.status ≡ lit "approved"
  pub independent : review.independent ≡ true
  pub report : review.report_hash ≡ i.review_report_hash
  pub counts : (review.findings.critical ≡ some (pos 0)) × (review.findings.high ≡ some (pos 0))
  pub target_bound : review.target_hash ≡ target
  pub report_hash : (is_hash i.review_report_hash ≡ true) × (i.review_report_hash ≢ empty_sha256)
  pub signed : SignedReview crypto i review

pub host_blockers-nil :
    (evidence : List HostEvidence) (source : Text)
    → host_blockers evidence source ≡ []
    → valid_host_evidence evidence source ≡ true
host_blockers-nil [] source h = cc
host_blockers-nil (item ∷ items) source h =
    elim (Bool-cases (valid_host_evidence (item ∷ items) source)) [
      | inl valid ↦ valid
      | inr bad ↦ cc (rw bad at h)
    ]

is_zero_count-eq : (o : Option ℤ) → is_zero_count o ≡ true → o ≡ some (pos 0)
is_zero_count-eq none h = cc
is_zero_count-eq (some (pos n)) h = ap (λ m. some (pos m)) ((eqb_iff n 0).0 h)
is_zero_count-eq (some (negsuc n)) h = cc

module _ (crypto : Crypto) (i : GateInput) where
  -- the test of the gate on the report of the review
  abbrev pub report_test : Option Review → Bool
  report_test review = not (
      review_status_is (lit "approved") review
      && (not (is_hash i.review_report_hash) || i.review_report_hash == empty_sha256))

  -- the test of the gate on the key of the release authority
  abbrev pub pin_test : Bool
  pin_test =
      is_hash i.trusted_release_authority_fingerprint
      && is_pinned crypto
          (key_fingerprint crypto (get i.release_authorities (signing_name i.signing)))
          (some i.trusted_release_authority_fingerprint)

  report_given :
      {review : Review}
      → i.review ≡ some review
      → (review.status == lit "approved") ≡ true
      → report_test i.review ≡ true
      → i.review_report_hash ≢ empty_sha256
  report_given {review} e a t = ne_of_beq i.review_report_hash empty_sha256 (
      differ (is_hash i.review_report_hash) (i.review_report_hash == empty_sha256) (rw (e, a) at t))
    where
      differ : (a b : Bool) → not (not a || b) ≡ true → b ≡ false
      differ a b h = ground arith

  reviewed :
      (target : Text) (review : Review)
      → i.review ≡ some review
      → ((review.status == lit "approved") ≡ true)
        × (review.independent ≡ true)
        × ((review.report_hash == i.review_report_hash) ≡ true)
        × (is_hash i.review_report_hash ≡ true)
      → report_test i.review ≡ true
      → collect (signed_tests crypto i target review) ≡ []
      → Reviewed crypto i target review
  reviewed target review e (a, b, c, d) t h =
      let holds = λ (n : ℕ). collect-nil n (signed_tests crypto i target review) h in
      let (critical, high) =
        and-eq-true (is_zero_count review.findings.critical) (is_zero_count review.findings.high)
          (holds 0) in
      record {
        given = e;
        approved = eq_of_beq review.status (lit "approved") a;
        independent = b;
        report = eq_of_beq review.report_hash i.review_report_hash c;
        counts = (
          is_zero_count-eq review.findings.critical critical,
          is_zero_count-eq review.findings.high high,
        );
        target_bound = eq_of_beq review.target_hash target (holds 1);
        report_hash = (d, report_given e a t);
        signed = valid_review_signature-SignedReview crypto i review (holds 2);
      }

  pub review_blockers-nil :
      (target : Text) (o : Option Review)
      → i.review ≡ o
      → report_test i.review ≡ true
      → review_blockers crypto i target o ≡ []
      → (review : Review) × Reviewed crypto i target review
  review_blockers-nil target none e t h = cc
  review_blockers-nil target (some review) e t h =
      elim (Bool-cases (valid_finding_counts review.findings)) [
        | inr bad ↦ cc (rw bad at h)
        | inl counted ↦
            let ap_ : Bool =
              review.status == lit "approved"
              && review.independent
              && review.report_hash == i.review_report_hash
              && is_hash i.review_report_hash in
            elim (Bool-cases ap_) [
              | inr bad ↦ cc (rw (counted, bad) at h)
              | inl good ↦
                  let (a, b, c, d) =
                    and-eq-true_4 (review.status == lit "approved") review.independent
                      (review.report_hash == i.review_report_hash) (is_hash i.review_report_hash)
                      good in
                  (review, reviewed target review e (a, b, c, d) t (rw (counted, good) at h))
            ]
      ]

  pub signing_blockers-nil :
      (subject : Text) (o : Option Signing)
      → i.signing ≡ o
      → is_hash i.trusted_release_authority_fingerprint ≡ true
      → is_pinned crypto
          (key_fingerprint crypto (get i.release_authorities (signing_name o)))
          (some i.trusted_release_authority_fingerprint)
        ≡ true
      → signing_blockers crypto (get i.release_authorities (signing_name o)) subject o ≡ []
      → SignedRelease crypto i subject
  signing_blockers-nil subject none e k p h = cc
  signing_blockers-nil subject (some signing) e k p h =
      let authority = get i.release_authorities (signing_name (some signing)) in
      elim (Bool-cases (signing.status == lit "signed")) [
        | inr bad ↦ cc (rw bad at h)
        | inl good ↦
            valid_release_signature-SignedRelease crypto i subject signing e
              (eq_of_beq signing.status (lit "signed") good) k p
              (collect-nil 0
                ((
                  valid_release_signature crypto signing subject authority,
                  release_signature_invalid,
                )
                  ∷ [])
                (rw good at h))
      ]

pub result_passes-parts :
    (o : Option Outcome)
    → result_passes o ≡ true
    → (result : Outcome) × (o ≡ some result)
      × (result.status ≡ pass)
      × (result.metrics.valid_runs ≡ expected_runs)
      × (result.metrics.recorded_runs ≡ expected_runs)
unfolding result_passes
result_passes-parts none h = cc
result_passes-parts (some result) h =
    let (status, recorded, valid) =
      passing (result.campaign_id == expected_campaign) (is_pass result.status) _ _ _ _ _ h in
    (
      result,
      refl,
      is_pass-eq result.status status,
      (eqb_iff result.metrics.valid_runs expected_runs).0 valid,
      (eqb_iff result.metrics.recorded_runs expected_runs).0 recorded,
    )
  where
    passing :
        (a b c d e f g : Bool)
        → (a && b && c && d && e && f && g) ≡ true
        → (b ≡ true) × (d ≡ true) × (e ≡ true)
    passing a b c d e f g h = ground arith

    is_pass-eq : (s : Status) → is_pass s ≡ true → s ≡ pass
    is_pass-eq pass h = refl
    is_pass-eq incomplete h = cc
    is_pass-eq invalid h = cc

-- What a ready gate has shown.
pub record Released (crypto : Crypto) (encoding : Encoding) (checks : Checks) (i : GateInput)
    : Type 0 where
  pub candidate :
      (i.candidate.status ≡ lit "candidate")
      × (is_preview i.candidate.version ≡ true)
      × (is_hash i.candidate_hash ≡ true)
  pub plan : valid_p2_plan i.campaign_plan ≡ true
  pub result :
      (o : Outcome) × (aggregate_campaign checks i.campaign_plan i.campaign_runs ≡ some o)
      × (o.status ≡ pass)
      × (o.metrics.valid_runs ≡ expected_runs)
      × (o.metrics.recorded_runs ≡ expected_runs)
  pub source : is_source_digest i.release_source_digest ≡ true
  pub checkout :
      (i.release_source_state.head_digest ≡ i.release_source_digest)
      × (i.release_source_state.clean ≡ true)
      × (i.release_source_state.tracked_inputs_verified ≡ true)
  pub hosts : All (Hosted i.release_source_digest i.verified_host_evidence) required_hosts
  pub review :
      (review : Review) × Reviewed crypto i (target_of crypto encoding i (some result.0)) review
  pub signed : SignedRelease crypto i (subject_of crypto encoding i (some result.0))

pub status_of-ready : (blockers : List Blocker) → status_of blockers ≡ ready → blockers ≡ []
status_of-ready [] h = refl
status_of-ready (b ∷ blockers) h = cc
