-- ===== src/Release/Manifest.antt =====
-- packages/release/src/p2-gate.mjs: what a review and a release sign. The JSON values that the
-- plan, the runs and the result of a campaign stand for, and the locale's order, are parameters.
use mgds.Prelude.{
  Bool, Dict, List, Option, Text, [], if◌then◌else◌, is_hash, lit, none, some, ℤ, ◌∷◌,
}
use mgds.Json.{Value, Items, Fields, null, bool, num, str, arr, obj, nil, cons, end, field}
use mgds.Campaign.Types.{Plan, Run, Outcome}
use mgds.Release.{HostEvidence, is_source_digest}
use mgds.Trust.{Crypto, hash_value}

-- `findings` of a review; a count that is missing or no integer is `none`
pub record Findings : Type 0 where
  pub critical : Option ℤ
  pub high : Option ℤ
  pub medium : Option ℤ
  pub low : Option ℤ

pub record Review : Type 0 where
  pub status : Text
  pub independent : Bool
  pub findings : Findings
  pub report_hash : Text
  pub target_hash : Text
  pub reviewer_id : Text
  pub reviewer_algorithm : Text
  pub signature : Text

pub record Encoding : Type 0 where
  pub plan : Plan → Value
  pub run : Run → Value
  pub outcome : Option Outcome → Value
  pub review : Option Review → Value
  pub trust : Dict Text Text → Value
  -- `left.localeCompare(right) <= 0`
  pub locale_le : Text → Text → Bool

pub or_null : (Text → Bool) → Text → Value
or_null test t = if test t then str t else null

abbrev values : {A : Type 0} → (A → Value) → List A → Items
values f [] = nil
values f (x ∷ xs) = cons (f x) (values f xs)

pub host_value : HostEvidence → Value
host_value item = obj (
    field (lit "host") (str item.host) (
      field (lit "artifactHash") (str item.artifact_hash) (
        field (lit "repository") (str item.repository) (
          field (lit "workflowRef") (str item.workflow_ref) (
            field (lit "subjectDigest") (str item.subject_digest) (
              field (lit "verificationDigest") (str item.verification_digest)
                (field (lit "sourceDigest") (str item.source_digest) end)))))))

pub evidence_identity : Run → Value
evidence_identity run = obj (
    field (lit "slotId") (str run.slot_id) (field (lit "evidenceHash") (str run.evidence_hash) end))

abbrev finding_value : Option ℤ → Value
finding_value none = null
finding_value (some n) = num n

-- `buildP2ReviewApprovalPayload`
unfoldable pub review_approval_payload : Review → Value
review_approval_payload review = obj (
    field (lit "status") (str review.status) (
      field (lit "independent") (bool review.independent) (
        field (lit "findings")
          (obj (
            field (lit "critical") (finding_value review.findings.critical) (
              field (lit "high") (finding_value review.findings.high) (
                field (lit "medium") (finding_value review.findings.medium)
                  (field (lit "low") (finding_value review.findings.low) end)))))
          (field (lit "reportHash") (str review.report_hash) (
            field (lit "targetHash") (str review.target_hash)
              (field (lit "reviewerId") (str review.reviewer_id) end))))))

-- what both manifests are made of
pub record Inputs : Type 0 where
  pub candidate_hash : Text
  pub release_source_digest : Text
  pub campaign_plan : Plan
  pub campaign_runs : List Run
  pub campaign_result : Option Outcome
  pub verified_host_evidence : List HostEvidence
  pub trusted_evaluator_fingerprints : Dict Text Text

module _ (crypto : Crypto) (encoding : Encoding) where
  -- a stable sort by `localeCompare` of a key
  abbrev insert_by : {A : Type 0} → (A → Text) → A → List A → List A
  insert_by key x [] = x ∷ []
  insert_by key x (y ∷ ys) =
      let rest = insert_by key x ys in
      if encoding.locale_le (key x) (key y) then x ∷ y ∷ ys else y ∷ rest

  abbrev pub sort_by : {A : Type 0} → (A → Text) → List A → List A
  sort_by key [] = []
  sort_by key (x ∷ xs) = insert_by key x (sort_by key xs)

  pub normalized_hosts : List HostEvidence → Value
  unfolding host_value
  normalized_hosts evidence =
      arr (values host_value (sort_by (λ (item : HostEvidence). item.host) evidence))

  pub normalized_runs : List Run → List Run
  normalized_runs runs = sort_by (λ (run : Run). run.slot_id) runs

  -- the fields of both manifests, with what follows them
  common_fields : Inputs → Fields → Fields
  unfolding or_null normalized_runs normalized_hosts evidence_identity is_hash is_source_digest
  common_fields i more =
      let runs = normalized_runs i.campaign_runs in
      field (lit "candidateHash") (or_null is_hash i.candidate_hash) (
        field (lit "sourceDigest") (or_null is_source_digest i.release_source_digest) (
          field (lit "campaignPlanHash") (str (hash_value crypto (encoding.plan i.campaign_plan))) (
            field (lit "campaignRunSetHash")
              (str (hash_value crypto (arr (values encoding.run runs))))
              (field (lit "campaignEvidenceSetHash")
                (str (hash_value crypto (arr (values evidence_identity runs))))
                (field (lit "campaignResultHash")
                  (str (hash_value crypto (encoding.outcome i.campaign_result)))
                  (field (lit "hostEvidenceHash")
                    (str (hash_value crypto (normalized_hosts i.verified_host_evidence)))
                    (field (lit "evaluatorTrustHash")
                      (str (hash_value crypto (encoding.trust i.trusted_evaluator_fingerprints)))
                      more)))))))

  -- the hash of `buildP2ReviewTarget`
  unfoldable pub review_target_hash : Inputs → Text
  unfolding common_fields
  review_target_hash i =
      hash_value crypto
        (obj (field (lit "schema") (str (lit "mgds.p2-review-target/v1")) (common_fields i end)))

  -- the hash of `buildP2ReleaseSubject`
  unfoldable pub release_subject_hash :
      Inputs → Text → Text → Option Review → Dict Text Text → Text → Text
  unfolding common_fields or_null is_hash
  release_subject_hash i report_hash target_hash review reviewers release_fingerprint =
      hash_value crypto (
        obj (
          field (lit "schema") (str (lit "mgds.p2-release-subject/v1")) (
            common_fields i (
              field (lit "reviewReportHash") (or_null is_hash report_hash) (
                field (lit "reviewTargetHash") (or_null is_hash target_hash) (
                  field (lit "reviewApprovalHash")
                    (str (hash_value crypto (encoding.review review)))
                    (field (lit "reviewerTrustHash")
                      (str (hash_value crypto (encoding.trust reviewers)))
                      (field (lit "releaseAuthorityFingerprint")
                        (or_null is_hash release_fingerprint) end))))))))
