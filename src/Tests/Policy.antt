-- ===== src/Tests/Policy.antt =====
-- The policy engine at one request, and a budget at two reports.
use mgds.Prelude.{
  Text, [], false, get, lit, nat_eq, none, ok, refl, some, text_eq, true, zeros, ℕ, ◌++◌, ◌↔◌, ◌∷◌,
  ◌≡◌,
}
use mgds.Policy.{Request, Grant, Approval, Context, allow, authorize, Usage, whole, Session}
use mgds.Policy.Authorize.{Permitted, authorize_allows_iff}
use mgds.Policy.Contract.{evaluate_policy, assert_approval, authorize-contract}
use mgds.Policy.Budget.{LeftOf, after_all, spent, never_overspent}

abbrev hash_a : Text
hash_a = lit "sha256:" ++ zeros 64

abbrev request : Request
request = record {
  capability_id = lit "mgds.unity.build@1.0.0";
  project_scope = lit "prj_reference0000000001";
  request_hash = hash_a;
  risk = lit "elevated";
  approval = some (lit "exact");
}

abbrev grant : Grant
grant = record {
  capability_id = lit "mgds.unity.build@1.0.0";
  project_scope = lit "prj_reference0000000001";
  risk_ceiling = lit "elevated";
  expires_at = lit "2030";
  budget = none;
}

abbrev context : Context
context = record {
  lease = some (record {
    id = lit "lease_1";
    project_scope = lit "prj_reference0000000001";
    capability_ids = lit "mgds.unity.build@1.0.0" ∷ [];
    expires_at = lit "2030";
    generation = 4;
  });
  approval =
      some
        (record { request_hash = hash_a; risk_ceiling = lit "elevated"; expires_at = lit "2030" });
}

abbrev generation : Text → ℕ
generation scope = 4

allowed :
    authorize (lit "2026") generation (grant ∷ []) request context
    ≡ ok (allow (lit "lease_1") grant)
unfolding authorize
allowed = refl

authorize_allows_iff_example :
    (authorize (lit "2026") generation (grant ∷ []) request context
      ≡ ok (allow (lit "lease_1") grant))
    ↔ Permitted (lit "2026") generation (grant ∷ []) request context (lit "lease_1") grant
authorize_allows_iff_example =
    authorize_allows_iff (lit "2026") generation (grant ∷ []) request context (lit "lease_1") grant

authorize-contract_example :
    (evaluate_policy request (grant ∷ []) (lit "2026") ≡ some grant)
    × (request.approval ≡ some (lit "exact")
        → (a : Approval) × (context.approval ≡ some a)
          × (assert_approval request a (lit "2026") ≡ ok true))
authorize-contract_example =
    authorize-contract (lit "2026") generation (grant ∷ []) request context (lit "lease_1") grant
      allowed

abbrev session : Session
session = record { remaining = (lit "tokens", 10) ∷ (lit "runs", 2) ∷ []; terminated = false }

abbrev usage : Usage
usage = (lit "tokens", whole 4) ∷ (lit "runs", whole 1) ∷ []

abbrev too_much : Usage
too_much = (lit "runs", whole 1) ∷ (lit "tokens", whole 7) ∷ []

never_overspent_example :
    LeftOf
      (after_all session (usage ∷ too_much ∷ [])).remaining
      (lit "tokens")
      10
      (spent (lit "tokens") session (usage ∷ too_much ∷ []))
unfolding get
never_overspent_example = never_overspent (usage ∷ too_much ∷ []) session (lit "tokens") 10 refl
