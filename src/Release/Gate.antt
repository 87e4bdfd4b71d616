-- ===== src/Release/Gate.antt =====
-- packages/release/src/p2-gate.mjs, `evaluateP2ReleaseGate`.
use mgds.Prelude.{
  Bool, Dict, List, Option, Text, [], collect, eqb, false, get, if◌then◌else◌, is_hash, lit, map,
  nat_eq, none, not, pos, some, sort_texts, text_eq, true, ℕ, ℤ, ◌&&◌, ◌++◌, ◌==◌, ◌||◌, ◌∷◌,
}
use mgds.Json.{canonical}
use mgds.Campaign.Types.{Outcome, Status, pass}
use mgds.Campaign.Aggregate.{Checks, distinct}
use mgds.Campaign.Report.{aggregate_campaign}
use mgds.Release.{
  HostEvidence, is_source_digest, is_preview, expected_campaign, expected_runs, empty_sha256,
  valid_p2_plan, valid_host_evidence,
}
use mgds.Release.Manifest.{
  Findings, Review, Encoding, Inputs, review_approval_payload, review_target_hash,
  release_subject_hash,
}
use mgds.Release.Input.{
  Blocker, Gate, GateEvidence, GateInput, GateStatus, Signing, blocked, campaign_not_pass,
  candidate_invalid, host_evidence_invalid, host_evidence_missing, ready,
  release_authority_untrusted, release_not_signed, release_signature_invalid, review_invalid,
  review_not_approved, review_report_invalid, review_severe_findings, review_signature_invalid,
  review_target_invalid, source_checkout_mismatch, source_digest_missing,
}
use mgds.Trust.{Crypto, Authority, is_signature, is_pinned, public_key_fingerprint}

abbrev pub is_pass : Status → Bool
is_pass pass = true
is_pass _ = false

abbrev is_none_left : {A : Type 0} → List A → Bool
is_none_left [] = true
is_none_left (x ∷ xs) = false

-- what the gate asks of the campaign's result; none was given where `aggregateCampaign` threw
unfoldable pub result_passes : Option Outcome → Bool
result_passes none = false
result_passes (some result) =
    result.campaign_id == expected_campaign
    && is_pass result.status
    && eqb result.metrics.expected_runs expected_runs
    && eqb result.metrics.recorded_runs expected_runs
    && eqb result.metrics.valid_runs expected_runs
    && eqb result.metrics.missing_runs 0
    && is_none_left result.failures

abbrev pub host_blockers : List HostEvidence → Text → List Blocker
host_blockers [] source = host_evidence_missing ∷ []
host_blockers (item ∷ items) source =
    if valid_host_evidence (item ∷ items) source then [] else host_evidence_invalid ∷ []

abbrev is_count : Option ℤ → Bool
is_count (some (pos n)) = true
is_count _ = false

abbrev pub is_zero_count : Option ℤ → Bool
is_zero_count (some (pos n)) = eqb n 0
is_zero_count _ = false

unfoldable pub valid_finding_counts : Findings → Bool
valid_finding_counts findings =
    is_count findings.critical
    && is_count findings.high
    && is_count findings.medium
    && is_count findings.low

abbrev pub review_status_is : Text → Option Review → Bool
review_status_is status none = false
review_status_is status (some review) = review.status == status

abbrev pub status_of : List Blocker → GateStatus
status_of [] = ready
status_of (b ∷ blockers) = blocked

-- the entry of `releaseAuthorities` that is looked up
abbrev pub signing_name : Option Signing → Text
signing_name none = lit "mgds-release-authority"
signing_name (some signing) = elim signing.authority [
  | none ↦ lit "mgds-release-authority"
  | some name ↦ name
]

module _ (crypto : Crypto) where
  abbrev pub signed_by : Review → Option Text → Option Authority → Bool
  signed_by review trusted none = false
  signed_by review trusted (some authority) =
      authority.algorithm == lit "Ed25519"
      && review.reviewer_algorithm == lit "Ed25519"
      && is_pinned crypto (public_key_fingerprint crypto authority.public_key) trusted
      && is_signature review.signature
      && crypto.verify_signature (canonical (review_approval_payload review)) authority.public_key
          review.signature

  unfoldable pub valid_review_signature : Review → Dict Text Authority → Dict Text Text → Bool
  valid_review_signature review authorities trusted =
      signed_by review (get trusted review.reviewer_id) (get authorities review.reviewer_id)

  abbrev pub releases_with : Signing → Text → Option Authority → Bool
  releases_with signing subject_hash none = false
  releases_with signing subject_hash (some authority) =
      (elim signing.authority [ none ↦ false | some name ↦ name == lit "mgds-release-authority" ])
      && signing.algorithm == lit "Ed25519"
      && authority.algorithm == lit "Ed25519"
      && signing.subject_hash == subject_hash
      && is_signature signing.signature
      && crypto.verify_signature subject_hash authority.public_key signing.signature

  unfoldable pub valid_release_signature : Signing → Text → Option Authority → Bool
  valid_release_signature signing subject_hash authority =
      releases_with signing subject_hash authority

  abbrev pub key_fingerprint : Option Authority → Option Text
  key_fingerprint none = none
  key_fingerprint (some authority) = public_key_fingerprint crypto authority.public_key

  -- the checks of an approval
  abbrev pub signed_tests : GateInput → Text → Review → List (Bool × Blocker)
  signed_tests i target review =
      (
        is_zero_count review.findings.critical && is_zero_count review.findings.high,
        review_severe_findings,
      )
      ∷ (review.target_hash == target, review_target_invalid)
      ∷ (
        valid_review_signature review i.reviewer_authorities i.trusted_reviewer_fingerprints,
        review_signature_invalid,
      )
      ∷ []

  -- the blocks on the review, but for the one on its report
  abbrev pub review_blockers : GateInput → Text → Option Review → List Blocker
  review_blockers i target none = review_invalid ∷ []
  review_blockers i target (some review) =
      let approved =
        review.status == lit "approved"
        && review.independent
        && review.report_hash == i.review_report_hash
        && is_hash i.review_report_hash in
      if not (valid_finding_counts review.findings)
      then review_invalid ∷ []
      else if approved
      then collect (signed_tests i target review)
      else review_not_approved ∷ []

  abbrev pub signing_blockers : Option Authority → Text → Option Signing → List Blocker
  signing_blockers authority subject none = release_not_signed ∷ []
  signing_blockers authority subject (some signing) =
      if signing.status == lit "signed"
      then collect
          ((valid_release_signature signing subject authority, release_signature_invalid) ∷ [])
      else release_not_signed ∷ []

  abbrev inputs_of : GateInput → Option Outcome → Inputs
  inputs_of i result = record {
    candidate_hash = i.candidate_hash;
    release_source_digest = i.release_source_digest;
    campaign_plan = i.campaign_plan;
    campaign_runs = i.campaign_runs;
    campaign_result = result;
    verified_host_evidence = i.verified_host_evidence;
    trusted_evaluator_fingerprints = i.trusted_evaluator_fingerprints;
  }

  -- the checks up to the host evidence, in their order
  abbrev pub opening_tests : GateInput → Option Outcome → List (Bool × Blocker)
  opening_tests i result =
      (
        i.candidate.status == lit "candidate"
            && is_preview i.candidate.version
            && is_hash i.candidate_hash,
        candidate_invalid,
      )
      ∷ (valid_p2_plan i.campaign_plan && result_passes result, campaign_not_pass)
      ∷ (is_source_digest i.release_source_digest, source_digest_missing)
      ∷ (
        i.release_source_state.head_digest == i.release_source_digest
            && i.release_source_state.clean
            && i.release_source_state.tracked_inputs_verified,
        source_checkout_mismatch,
      )
      ∷ []

  module _ (encoding : Encoding) where
    abbrev pub target_of : GateInput → Option Outcome → Text
    target_of i result = review_target_hash crypto encoding (inputs_of i result)

    abbrev pub subject_of : GateInput → Option Outcome → Text
    subject_of i result =
        release_subject_hash crypto encoding (inputs_of i result) i.review_report_hash
          (target_of i result) i.review i.trusted_reviewer_fingerprints
          i.trusted_release_authority_fingerprint

    abbrev pub closing_blockers : GateInput → Option Outcome → List Blocker
    closing_blockers i result =
        let authority = get i.release_authorities (signing_name i.signing) in
        host_blockers i.verified_host_evidence i.release_source_digest
        ++ (collect (
              (
                not (
                    review_status_is (lit "approved") i.review
                    && (not (is_hash i.review_report_hash)
                        || i.review_report_hash == empty_sha256)),
                review_report_invalid,
              )
              ∷ [])
            ++ (review_blockers i (target_of i result) i.review
                ++ (collect (
                      (
                        is_hash i.trusted_release_authority_fingerprint
                            && is_pinned crypto (key_fingerprint authority)
                                (some i.trusted_release_authority_fingerprint),
                        release_authority_untrusted,
                      )
                      ∷ [])
                    ++ signing_blockers authority (subject_of i result) i.signing)))

    abbrev given_if : Bool → Text → Option Text
    given_if valid t = if valid then some t else none

    abbrev runs_of : Option Outcome → ℕ
    runs_of none = 0
    runs_of (some result) = result.metrics.recorded_runs

    -- what the gate answers of its inputs, whatever it decides
    abbrev pub evidence_of : GateInput → Option Outcome → GateEvidence
    evidence_of i result = record {
      campaign_runs = runs_of result;
      hosts = sort_texts (distinct [] (map (λ item. item.host) i.verified_host_evidence));
      candidate_hash = given_if (is_hash i.candidate_hash) i.candidate_hash;
      source_digest = given_if (is_source_digest i.release_source_digest) i.release_source_digest;
      review_target_hash = target_of i result;
      release_subject_hash = subject_of i result;
    }

    abbrev pub gate_of : GateInput → Option Outcome → Gate
    gate_of i result =
        let blockers = collect (opening_tests i result) ++ closing_blockers i result in
        record {
          version = i.candidate.version;
          status = status_of blockers;
          blockers = blockers;
          evidence = evidence_of i result;
          campaign_result = result;
        }

    unfoldable pub evaluate_p2_release_gate : Checks → GateInput → Gate
    evaluate_p2_release_gate checks i =
        gate_of i (aggregate_campaign checks i.campaign_plan i.campaign_runs)
