-- ===== src/Policy.antt =====
-- packages/policy/src/policy-engine.mjs. A field of a request that is missing is the empty text,
-- as `?? ''` reads it; times are compared as strings. Amounts of a budget are whole numbers, as
-- schemas/v0/budget.schema.json has them.
pub mod Authorize
pub mod Contract
pub mod Budget
-- RISK; any other word has no rank
use mgds.Prelude.{
  Bool, Dict, Exec, List, Option, Result, Text, [], err, false, find, get, has, if◌then◌else◌,
  is_hash, is_id, is_versioned, leb, lit, ltb, matches_class, nat_eq, none, not, ok, put, some,
  text_eq, text_lt, true, ℕ, ◌&&◌, ◌-◌, ◌==◌, ◌∷◌,
}

pub rank : Text → Option ℕ
rank risk =
    if risk == lit "read"
    then some 0
    else if risk == lit "bounded-write"
    then some 1
    else if risk == lit "elevated"
    then some 2
    else if risk == lit "irreversible"
    then some 3
    else none

abbrev pub ranks_within : Option ℕ → Option ℕ → Bool
ranks_within (some r) (some c) = leb r c
ranks_within _ _ = false

unfoldable pub risk_allowed : Text → Text → Bool
unfolding rank
risk_allowed requested ceiling = ranks_within (rank requested) (rank ceiling)

pub record Request : Type 0 where
  pub capability_id : Text
  pub project_scope : Text
  pub request_hash : Text
  pub risk : Text
  pub approval : Option Text

pub record Grant : Type 0 where
  pub capability_id : Text
  pub project_scope : Text
  pub risk_ceiling : Text
  pub expires_at : Text
  pub budget : Option (Dict Text ℕ)

pub record Lease : Type 0 where
  pub id : Text
  pub project_scope : Text
  pub capability_ids : List Text
  pub expires_at : Text
  pub generation : ℕ

pub record Approval : Type 0 where
  pub request_hash : Text
  pub risk_ceiling : Text
  pub expires_at : Text

pub record Context : Type 0 where
  pub lease : Option Lease
  pub approval : Option Approval

pub data PolicyError : Type 0 where
  invalid_request invalid_policy budget_denied : PolicyError

pub data Reason : Type 0 where
  policy_denied stale_lease approval_required approval_expired approval_mismatch : Reason
  approval_risk_exceeded : Reason

pub data Decision : Type 0 where
  deny : Reason → Decision
  allow : Text → Grant → Decision

abbrev pub has_rank : Option ℕ → Bool
has_rank none = false
has_rank (some r) = true

-- the condition under which `validateRequest` does not throw
unfoldable pub valid_request : Request → Bool
unfolding rank is_versioned matches_class is_hash
valid_request request =
    is_versioned (lit "mgds.unity.") request.capability_id
    && matches_class (lit "prj_") is_id 16 request.project_scope
    && is_hash request.request_hash
    && has_rank (rank request.risk)

-- the condition under which `grants.find` takes a grant
unfoldable pub grant_matches : Request → Text → Grant → Bool
unfolding risk_allowed
grant_matches request now candidate =
    candidate.capability_id == request.capability_id
    && candidate.project_scope == request.project_scope
    && text_lt now candidate.expires_at
    && risk_allowed request.risk candidate.risk_ceiling

module _ (now : Text) (current_generation : Text → ℕ) where
  unfoldable pub lease_valid : Request → Lease → Bool
  lease_valid request lease =
      lease.project_scope == request.project_scope
      && has lease.capability_ids request.capability_id
      && text_lt now lease.expires_at
      && lease.generation == current_generation request.project_scope

  abbrev pub check_approval : Request → Option Approval → Option Reason
  check_approval request none = some approval_required
  check_approval request (some approval) =
      if not (text_lt now approval.expires_at)
      then some approval_expired
      else if not (approval.request_hash == request.request_hash)
      then some approval_mismatch
      else if not (risk_allowed request.risk approval.risk_ceiling)
      then some approval_risk_exceeded
      else none

  -- the reason for which the block on exact approvals returns, if it does
  abbrev pub approval_problem : Request → Option Text → Context → Option Reason
  approval_problem request none context = none
  approval_problem request (some mode) context =
      if mode == lit "exact" then check_approval request context.approval else none

  abbrev pub decide_approval : Lease → Grant → Option Reason → Decision
  decide_approval lease grant none = allow lease.id grant
  decide_approval lease grant (some reason) = deny reason

  abbrev pub decide_lease : Request → Context → Grant → Option Lease → Decision
  decide_lease request context grant none = deny stale_lease
  decide_lease request context grant (some lease) =
      if lease_valid request lease
      then decide_approval lease grant (approval_problem request request.approval context)
      else deny stale_lease

  abbrev pub decide_grant : Request → Context → Option Grant → Decision
  decide_grant request context none = deny policy_denied
  decide_grant request context (some grant) = decide_lease request context grant context.lease

  unfoldable pub authorize : List Grant → Request → Context → Result PolicyError Decision
  unfolding valid_request grant_matches lease_valid
  authorize grants request context =
      if valid_request request
      then ok (decide_grant request context (find (grant_matches request now) grants))
      else err invalid_request

-- A number that a usage report may bring: whole, below zero, or not finite.
pub data Amount : Type 0 where
  whole : ℕ → Amount
  negative : ℕ → Amount
  not_finite : Amount

abbrev pub Usage : Type 0
Usage = List (Text × Amount)

-- BudgetSession
pub record Session : Type 0 where
  pub remaining : Dict Text ℕ
  pub terminated : Bool

pub data BudgetError : Type 0 where
  budget_terminated : BudgetError
  invalid_usage exhausted : Text → BudgetError

-- The loop of `consume` ends with what is left, or with the error that it throws.
abbrev pub charge_known : Text → ℕ → Dict Text ℕ → Option ℕ → Result BudgetError (Dict Text ℕ)
charge_known dimension amount next none = err (invalid_usage dimension)
charge_known dimension amount next (some left) =
    if ltb left amount then err (exhausted dimension) else ok (put next dimension (left - amount))

abbrev pub charge : Text → Amount → Dict Text ℕ → Result BudgetError (Dict Text ℕ)
charge dimension (whole amount) next = charge_known dimension amount next (get next dimension)
charge dimension _ next = err (invalid_usage dimension)

abbrev pub and_then :
    Result BudgetError (Dict Text ℕ)
    → (Dict Text ℕ → Result BudgetError (Dict Text ℕ))
    → Result BudgetError (Dict Text ℕ)
and_then (ok next) f = f next
and_then (err e) f = err e

unfoldable pub charge_all : Usage → Dict Text ℕ → Result BudgetError (Dict Text ℕ)
charge_all [] next = ok next
charge_all ((dimension, amount) ∷ usage) next =
    and_then (charge dimension amount next) (charge_all usage)

-- what the session is after the loop; only an exhausted dimension terminates it
abbrev pub settle :
    Session → Result BudgetError (Dict Text ℕ) → Result BudgetError (Dict Text ℕ) × Session
settle session (ok next) = (ok next, record session { remaining = next })
settle session (err (exhausted dimension)) =
    (err (exhausted dimension), record session { terminated = true })
settle session (err e) = (err e, session)

unfoldable pub consume : Usage → Exec Session BudgetError (Dict Text ℕ)
unfolding charge_all
consume usage session =
    if session.terminated
    then (err budget_terminated, session)
    else settle session (charge_all usage session.remaining)

abbrev pub session_of : Option (Dict Text ℕ) → Result PolicyError Session
session_of none = err budget_denied
session_of (some budget) = ok (record { remaining = budget; terminated = false })

-- `budget` of the engine
pub open_budget : Decision → Result PolicyError Session
open_budget (allow id grant) = session_of grant.budget
open_budget (deny reason) = err budget_denied

-- the constructor of the engine, given `defaultDecision` and, if it is an array, `grants`
pub policy_engine : Text → Option (List Grant) → Result PolicyError (List Grant)
policy_engine default_decision none = err invalid_policy
policy_engine default_decision (some grants) =
    if default_decision == lit "deny" then ok grants else err invalid_policy
