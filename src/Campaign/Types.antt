-- ===== src/Campaign/Types.antt =====
-- packages/campaign/src/index.mjs and its schemas: plans, runs, and what a report says.
use mgds.Json.{Value}
-- a fraction of a threshold: `top` over `bottom`
use mgds.Prelude.{Bool, List, Option, Text, ℕ, ℤ}

pub record Rate : Type 0 where
  pub top : ℕ
  pub bottom : ℕ

pub record Thresholds : Type 0 where
  pub seed_agreement : Rate
  pub t0_pass_rate : Rate
  pub orphan_processes : ℕ
  pub unknown_workspace_states : ℕ

pub record Slot : Type 0 where
  pub slot_id : Text
  pub campaign_id : Text
  pub task_id : Text
  pub task_hash : Text
  pub budget_hash : Text
  pub environment_hash : Text
  pub required_evidence : List Text
  pub build_target : Text
  pub host : Text
  pub harness : Text
  pub seed : ℕ
  pub repetition : ℕ

pub record Plan : Type 0 where
  pub campaign_id : Text
  pub thresholds : Thresholds
  pub soak_minutes : ℕ
  pub slots : List Slot

pub record Evaluator : Type 0 where
  pub id : Text
  pub authority : Text
  pub digest : Text

pub record Attestation : Type 0 where
  pub algorithm : Text
  pub authority : Text
  pub payload : Value
  pub signature : Text

pub record Run : Type 0 where
  pub slot_id : Text
  pub campaign_id : Text
  pub task_id : Text
  pub task_hash : Text
  pub budget_hash : Text
  pub environment_hash : Text
  pub required_evidence : List Text
  pub build_target : Text
  pub host : Text
  pub harness : Text
  pub seed : ℕ
  pub repetition : ℕ
  pub run_id : Option Text
  pub model : Text
  pub evidence_hash : Text
  pub verdict : Text
  pub workspace_state : Text
  pub orphan_processes : Option ℤ
  pub private_affordances : Option Bool
  pub duration_minutes : ℕ
  pub soak : Option Bool
  pub evaluator : Evaluator
  pub evidence_attestation : Attestation

-- the messages of `failures`, each with the names that it quotes
pub data Failure : Type 0 where
  unexpected_slot duplicate_slot : Text → Failure
  duplicate_run : Text → Failure
  run_schema_invalid : Text → Failure
  mismatch : Text → Text → Failure
  invalid_field : Text → Text → Failure
  invalid_attestation : Text → Failure
  evidence_problem : Text → Text → Failure
  pass_rate_threshold seed_agreement_threshold : Failure
  orphan_threshold workspace_threshold : Failure
  fairness_mismatch : Text → Failure
  soak_not_met : Text → Failure

pub data Status : Type 0 where
  invalid incomplete pass : Status

pub record Metrics : Type 0 where
  pub expected_runs : ℕ
  pub recorded_runs : ℕ
  pub missing_runs : ℕ
  pub valid_runs : ℕ
  pub t0_pass_rate : Rate
  pub seed_agreement : Rate
  pub orphan_processes : ℕ
  pub unknown_workspace_states : ℕ

pub record Outcome : Type 0 where
  pub campaign_id : Text
  pub status : Status
  pub metrics : Metrics
  pub missing_slot_ids : List Text
  pub failures : List Failure
