-- ===== src/Release/Input.antt =====
-- packages/release/src/p2-gate.mjs: what `evaluateP2ReleaseGate` is given and what it answers.
use mgds.Prelude.{Bool, Dict, List, Option, Text, ℕ}
use mgds.Campaign.Types.{Plan, Run, Outcome}
use mgds.Release.{HostEvidence}
use mgds.Release.Manifest.{Review}
use mgds.Trust.{Authority}

pub data Blocker : Type 0 where
  candidate_invalid campaign_not_pass source_digest_missing source_checkout_mismatch : Blocker
  host_evidence_missing host_evidence_invalid : Blocker
  review_report_invalid review_invalid review_not_approved review_severe_findings : Blocker
  review_target_invalid review_signature_invalid : Blocker
  release_authority_untrusted release_not_signed release_signature_invalid : Blocker

pub record Candidate : Type 0 where
  pub status : Text
  pub version : Text

pub record SourceState : Type 0 where
  pub head_digest : Text
  pub clean : Bool
  pub tracked_inputs_verified : Bool

pub record Signing : Type 0 where
  pub status : Text
  pub authority : Option Text
  pub algorithm : Text
  pub subject_hash : Text
  pub signature : Text

pub record GateInput : Type 0 where
  pub candidate : Candidate
  pub candidate_hash : Text
  pub campaign_plan : Plan
  pub campaign_runs : List Run
  pub trusted_evaluator_fingerprints : Dict Text Text
  pub verified_host_evidence : List HostEvidence
  pub review : Option Review
  pub review_report_hash : Text
  pub reviewer_authorities : Dict Text Authority
  pub trusted_reviewer_fingerprints : Dict Text Text
  pub signing : Option Signing
  pub release_authorities : Dict Text Authority
  pub trusted_release_authority_fingerprint : Text
  pub release_source_digest : Text
  pub release_source_state : SourceState

pub data GateStatus : Type 0 where
  ready blocked : GateStatus

pub record GateEvidence : Type 0 where
  pub campaign_runs : ℕ
  pub hosts : List Text
  pub candidate_hash : Option Text
  pub source_digest : Option Text
  pub review_target_hash : Text
  pub release_subject_hash : Text

pub record Gate : Type 0 where
  pub version : Text
  pub status : GateStatus
  pub blockers : List Blocker
  pub evidence : GateEvidence
  pub campaign_result : Option Outcome
