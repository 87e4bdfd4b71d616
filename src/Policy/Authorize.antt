-- ===== src/Policy/Authorize.antt =====
-- When a request is allowed.
use mgds.Prelude.{
  Bool-cases, List, Option, Text, ap, arith, beq_cases, find, has, inl, inr, lit, nat_eq, ne_of_beq,
  none, ok, ok-inj, refl, some, some-inj, text_beq_iff, text_eq, text_lt, true, ℕ, ◌↔◌, ◌∙◌, ◌≡◌,
}
use mgds.Policy.{
  Reason, check_approval, decide_lease, decide_approval, Request, Grant, Lease, Approval, Context,
  allow, valid_request, grant_matches, risk_allowed, lease_valid, approval_problem, decide_grant,
  authorize,
}

-- The lease, which covers the request at this time and in this generation.
abbrev pub Covers : Text → (Text → ℕ) → Request → Lease → Type 0
Covers now generation request lease =
    (lease.project_scope ≡ request.project_scope)
    × (has lease.capability_ids request.capability_id ≡ true)
    × (text_lt now lease.expires_at ≡ true)
    × (lease.generation ≡ generation request.project_scope)

-- The approval binds the bytes of the request, its time and its risk.
abbrev pub Approves : Text → Request → Approval → Type 0
Approves now request approval =
    (text_lt now approval.expires_at ≡ true)
    × (approval.request_hash ≡ request.request_hash)
    × (risk_allowed request.risk approval.risk_ceiling ≡ true)

-- What an allowed request has met.
pub record Permitted (now : Text) (generation : Text → ℕ) (grants : List Grant) (request : Request)
    (context : Context) (id : Text) (grant : Grant) : Type 0 where
  pub valid : valid_request request ≡ true
  pub granted : find (grant_matches request now) grants ≡ some grant
  pub lease : (l : Lease) × (context.lease ≡ some l) × (l.id ≡ id) × Covers now generation request l
  pub approval :
      request.approval ≡ some (lit "exact")
      → (a : Approval) × (context.approval ≡ some a) × Approves now request a

module _ (now : Text) (generation : Text → ℕ) (request : Request) where
  lease_valid_iff :
      (l : Lease) → (lease_valid now generation request l ≡ true) ↔ Covers now generation request l
  unfolding lease_valid
  lease_valid_iff l = ground (arith, text_beq_iff l.project_scope request.project_scope)

  check_approval_iff :
      (o : Option Approval)
      → (check_approval now generation request o ≡ none)
        ↔ ((a : Approval) × (o ≡ some a) × Approves now request a)
  check_approval_iff none = (λ h. cc, λ (a, e, _). cc)
  check_approval_iff (some a) = (
    λ h. (a, refl, ground (arith, text_beq_iff a.request_hash request.request_hash)),
    λ (b, e, h). approved b (some-inj e) h,
  )
    where
      approved :
          (b : Approval)
          → a ≡ b
          → Approves now request b
          → check_approval now generation request (some a) ≡ none
      approved b e h = rw e (ground (arith, text_beq_iff b.request_hash request.request_hash))

  -- the approval block is passed if it is not entered or its checks hold
  approval_problem_iff :
      (mode : Option Text) (context : Context)
      → (approval_problem now generation request mode context ≡ none) ↔ (
          mode ≡ some (lit "exact")
          → (a : Approval) × (context.approval ≡ some a) × Approves now request a)
  approval_problem_iff none context = (λ h e. cc, λ h. refl)
  approval_problem_iff (some mode) context = elim (beq_cases mode (lit "exact")) [
    | inl exact ↦ (
      λ h e. (check_approval_iff context.approval).0 (rw exact at h),
      λ h. rw exact ((check_approval_iff context.approval).1 (h (ap some exact))),
    )
    | inr other ↦
        (λ h e. absurd (ne_of_beq mode (lit "exact") other (some-inj e)), λ h. rw other refl)
  ]

module _ (now : Text) (generation : Text → ℕ) (request : Request) (context : Context) (id : Text)
    (grant : Grant) where
  decide_approval_allow :
      (l : Lease) (g : Grant) (r : Option Reason)
      → decide_approval now generation l g r ≡ allow id grant
      → (r ≡ none) × (l.id ≡ id) × (g ≡ grant)
  decide_approval_allow l g none h = (refl, cc, cc)
  decide_approval_allow l g (some reason) h = cc

  decide_lease_allow :
      (g : Grant) (o : Option Lease)
      → decide_lease now generation request context g o ≡ allow id grant
      → (g ≡ grant)
        × ((l : Lease) × (o ≡ some l) × (l.id ≡ id) × Covers now generation request l)
        × (approval_problem now generation request request.approval context ≡ none)
  decide_lease_allow g none h = cc
  decide_lease_allow g (some l) h = elim (Bool-cases (lease_valid now generation request l)) [
    | inl covers ↦
        let (n, i, e) = decide_approval_allow l g _ (rw covers at h) in
        (e, (l, refl, i, (lease_valid_iff now generation request l).0 covers), n)
    | inr stale ↦ cc (rw stale at h)
  ]

  decide_grant_allow :
      (o : Option Grant)
      → decide_grant now generation request context o ≡ allow id grant
      → (o ≡ some grant)
        × ((l : Lease) × (context.lease ≡ some l) × (l.id ≡ id) × Covers now generation request l)
        × (approval_problem now generation request request.approval context ≡ none)
  decide_grant_allow none h = cc
  decide_grant_allow (some g) h =
      let (e, l, n) = decide_lease_allow g context.lease h in (ap some e, l, n)

  allowed-Permitted :
      (grants : List Grant)
      → authorize now generation grants request context ≡ ok (allow id grant)
      → Permitted now generation grants request context id grant
  unfolding authorize
  allowed-Permitted grants h = elim (Bool-cases (valid_request request)) [
    | inl valid ↦
        let (found, lease, passed) =
          decide_grant_allow (find (grant_matches request now) grants) (ok-inj (rw valid at h)) in
        record {
          valid = valid;
          granted = found;
          lease = lease;
          approval =
              (approval_problem_iff now generation request request.approval context).0 passed;
        }
    | inr invalid ↦ cc (rw invalid at h)
  ]

  decide_lease_allowed :
      (g : Grant) (o : Option Lease) (l : Lease)
      → o ≡ some l
      → lease_valid now generation request l ≡ true
      → approval_problem now generation request request.approval context ≡ none
      → decide_lease now generation request context g o ≡ allow l.id g
  decide_lease_allowed g o l e c n = rw (e, c, n) refl

  Permitted-allowed :
      (grants : List Grant)
      → Permitted now generation grants request context id grant
      → authorize now generation grants request context ≡ ok (allow id grant)
  unfolding authorize
  Permitted-allowed grants p =
      let (l, e, i, c) = p.lease in
      let passed =
        (approval_problem_iff now generation request request.approval context).1 p.approval in
      rw (p.valid, p.granted)
        (ap ok (
          decide_lease_allowed grant context.lease l e
            ((lease_valid_iff now generation request l).1 c) passed
          ∙ ap (λ x. allow x grant) i))

-- A request is allowed, under a lease id and a grant, exactly when it is well formed, that grant is
-- the first that matches it, a lease with that id covers it, and, if it asks for an exact
-- approval, an approval of its hash, in time and of enough risk is there.
pub authorize_allows_iff :
    (now : Text) (generation : Text → ℕ) (grants : List Grant) (request : Request)
    (context : Context) (id : Text) (grant : Grant)
    → (authorize now generation grants request context ≡ ok (allow id grant))
      ↔ Permitted now generation grants request context id grant
authorize_allows_iff now generation grants request context id grant = (
  allowed-Permitted now generation request context id grant grants,
  Permitted-allowed now generation request context id grant grants,
)
