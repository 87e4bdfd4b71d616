-- ===== src/Policy/Contract.antt =====
-- scripts/policy-contract.mjs, the contract that the engine has to keep, and that it keeps it.
use mgds.Prelude.{
  Bool, Dict, List, Option, Result, Text, [], arith, err, false, find, get, if◌then◌else◌, leb, lit,
  ltb, map_ok, nat_eq, none, not, ok, refl, some, text_beq_iff, text_eq, text_lt, true, ℕ, ◌&&◌,
  ◌-◌, ◌==◌, ◌∙◌, ◌∷◌, ◌≡◌,
}
use mgds.Policy.{
  Request, Grant, Approval, Context, allow, rank, risk_allowed, grant_matches, authorize,
}
use mgds.Policy.Authorize.{Approves, authorize_allows_iff}

pub data ContractError : Type 0 where
  hash_mismatch expired_approval ceiling_exceeded : ContractError
  exhausted : Text → ContractError

-- the script's own RISK; any other word has no rank
risk_rank : Text → Option ℕ
risk_rank risk =
    if risk == lit "read"
    then some 0
    else if risk == lit "bounded-write"
    then some 1
    else if risk == lit "elevated"
    then some 2
    else if risk == lit "irreversible"
    then some 3
    else none

abbrev ranked_within : Option ℕ → Option ℕ → Bool
ranked_within (some requested) (some ceiling) = leb requested ceiling
ranked_within _ _ = false

unfoldable pub within_risk : Text → Text → Bool
unfolding risk_rank
within_risk requested ceiling = ranked_within (risk_rank requested) (risk_rank ceiling)

-- the condition under which the script's `find` takes a grant
unfoldable pub contract_grant : Request → Text → Grant → Bool
unfolding within_risk
contract_grant request now candidate =
    candidate.capability_id == request.capability_id
    && candidate.project_scope == request.project_scope
    && text_lt now candidate.expires_at
    && within_risk request.risk candidate.risk_ceiling

-- `evaluatePolicy`: the grant that allows the request, or `none` for `no-matching-grant`
unfoldable pub evaluate_policy : Request → List Grant → Text → Option Grant
unfolding contract_grant
evaluate_policy request grants now = find (contract_grant request now) grants

unfoldable pub assert_approval : Request → Approval → Text → Result ContractError Bool
assert_approval request approval now =
    if not (approval.request_hash == request.request_hash)
    then err hash_mismatch
    else if not (text_lt now approval.expires_at)
    then err expired_approval
    else if not (within_risk request.risk approval.risk_ceiling)
    then err ceiling_exceeded
    else ok true

-- `usage[dimension] ?? 0`
abbrev pub or_zero : Option ℕ → ℕ
or_zero none = 0
or_zero (some n) = n

pub consume_budget : Dict Text ℕ → Dict Text ℕ → Result ContractError (Dict Text ℕ)
consume_budget [] usage = ok []
consume_budget ((dimension, remaining) ∷ budget) usage =
    let consumed = or_zero (get usage dimension) in
    let rest =
      map_ok (λ result. (dimension, remaining - consumed) ∷ result) (consume_budget budget usage) in
    if ltb remaining consumed then err (exhausted dimension) else rest

risk_rank-rank : (risk : Text) → risk_rank risk ≡ rank risk
unfolding risk_rank rank
risk_rank-rank risk = refl

within_risk-risk_allowed :
    (requested ceiling : Text) → within_risk requested ceiling ≡ risk_allowed requested ceiling
unfolding within_risk risk_allowed risk_rank rank
within_risk-risk_allowed requested ceiling = refl

-- the script's copy of the matcher and the engine's agree on every grant
contract_grant-grant_matches :
    (request : Request) (now : Text) (grant : Grant)
    → contract_grant request now grant ≡ grant_matches request now grant
unfolding contract_grant grant_matches
contract_grant-grant_matches request now grant =
    rw (within_risk-risk_allowed request.risk grant.risk_ceiling) refl

find-same :
    {A : Type 0} (p q : A → Bool) (xs : List A) → ((x : A) → p x ≡ q x) → find p xs ≡ find q xs
find-same p q [] h = refl
find-same p q (x ∷ xs) h = rw (h x, find-same p q xs h) refl

assert_approval_of_Approves :
    (request : Request) (a : Approval) (now : Text)
    → Approves now request a
    → assert_approval request a now ≡ ok true
unfolding assert_approval
assert_approval_of_Approves request a now h = ground (
  arith,
  text_beq_iff a.request_hash request.request_hash,
  within_risk-risk_allowed request.risk a.risk_ceiling,
)

-- Whatever the engine allows, the contract allows: its policy finds the same grant, and where the
-- request asks for an exact approval, the approval that is there passes the contract's check.
pub authorize-contract :
    (now : Text) (generation : Text → ℕ) (grants : List Grant) (request : Request)
    (context : Context) (id : Text) (grant : Grant)
    → authorize now generation grants request context ≡ ok (allow id grant)
    → (evaluate_policy request grants now ≡ some grant)
      × (request.approval ≡ some (lit "exact")
          → (a : Approval) × (context.approval ≡ some a)
            × (assert_approval request a now ≡ ok true))
unfolding evaluate_policy
authorize-contract now generation grants request context id grant h =
    let p = (authorize_allows_iff now generation grants request context id grant).0 h in
    (
      find-same (contract_grant request now) (grant_matches request now) grants
            (contract_grant-grant_matches request now)
          ∙ p.granted,
      λ e.
          let (a, found, good) = p.approval e in
          (a, found, assert_approval_of_Approves request a now good),
    )
