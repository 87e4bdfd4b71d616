-- ===== src/Policy/Budget.antt =====
-- A budget session spends no more than it was granted, all of a report or nothing of it.
use mgds.Prelude.{
  Bool, Bool-cases, Dict, List, Option-cases, Result, Result-cases, Text, [], arith, beq_cases,
  beq_refl, err, get, get-put_ne, get-put_self, if◌then◌else◌, inl, inr, ltb, nat_eq, ok, ok-inj,
  put, refl, some, some-inj, subst, sym, text_eq, true, ℕ, ◌+◌, ◌-◌, ◌==◌, ◌∙◌, ◌∷◌, ◌≡◌, ◌≤◌, ◌⊎◌,
}
use mgds.Policy.{
  Amount, whole, negative, not_finite, Usage, Session, BudgetError, budget_terminated,
  invalid_usage, exhausted, charge, charge_all, settle, consume,
}

-- what a report takes of one dimension
abbrev pub taken : Amount → ℕ
taken (whole n) = n
taken _ = 0

pub used : Text → Usage → ℕ
used d [] = 0
used d ((dimension, amount) ∷ usage) = (if dimension == d then taken amount else 0) + used d usage

-- what is left of a dimension, once a number has been taken from what there was
abbrev pub LeftOf : Dict Text ℕ → Text → ℕ → ℕ → Type 0
LeftOf next d had spent = (left : ℕ) × (get next d ≡ some left) × (left + spent ≡ had)

-- what a charge of a whole number has done, once it is accepted
charge_whole :
    (dimension : Text) (n : ℕ) (next after : Dict Text ℕ)
    → charge dimension (whole n) next ≡ ok after
    → (left : ℕ) × (get next dimension ≡ some left)
      × (n ≤ left)
      × (after ≡ put next dimension (left - n))
charge_whole dimension n next after h = elim (Option-cases (get next dimension)) [
  | inl missing ↦ cc (rw missing at h)
  | inr (left, found) ↦ elim (Bool-cases (ltb left n)) [
    | inl short ↦ cc (rw (found, short) at h)
    | inr enough ↦ (left, found, ground arith, sym (ok-inj (rw (found, enough) at h)))
  ]
]

charge_exact :
    (dimension : Text) (amount : Amount) (next after : Dict Text ℕ) (d : Text) (had : ℕ)
    → charge dimension amount next ≡ ok after
    → get next d ≡ some had
    → LeftOf after d had (if dimension == d then taken amount else 0)
charge_exact dimension (negative n) next after d had h g = cc
charge_exact dimension not_finite next after d had h g = cc
charge_exact dimension (whole n) next after d had h g =
    let (left, found, fits, e) = charge_whole dimension n next after h in
    elim (beq_cases dimension d) [
      | inl same ↦
          let known : left ≡ had = some-inj (sym (rw same at found) ∙ g) in
          (
            left - n,
            rw (e, sym same) (get-put_self next dimension (left - n)),
            rw (same, beq_refl d) (omega (arith, known, fits)),
          )
      | inr other ↦
          (had, rw (e, get-put_ne next dimension d (left - n) other) g, rw other (omega arith))
    ]

charge_all_exact :
    (usage : Usage) (next after : Dict Text ℕ) (d : Text) (had : ℕ)
    → charge_all usage next ≡ ok after
    → get next d ≡ some had
    → LeftOf after d had (used d usage)
unfolding charge_all used
charge_all_exact [] next after d had h g = (had, rw (sym (ok-inj h)) g, omega arith)
charge_all_exact ((dimension, amount) ∷ usage) next after d had h g =
    elim (Result-cases (charge dimension amount next)) [
      | inr (e, bad) ↦ cc (rw bad at h)
      | inl (mid, good) ↦
          let (l, p, q) = charge_exact dimension amount next mid d had good g in
          let (m, p', q') = charge_all_exact usage mid after d l (rw good at h) p in
          (m, p', omega arith)
    ]

-- whether the session is ended once a report was refused with an error
abbrev pub ends_session : Bool → BudgetError → Bool
ends_session before (exhausted d) = true
ends_session before _ = before

settled :
    (s : Session) (x : BudgetError)
    → settle s (err x) ≡ (err x, record s { terminated = ends_session s.terminated x })
settled s budget_terminated = refl
settled s (invalid_usage d) = refl
settled s (exhausted d) = refl

-- What a report does to a session: accepted, it leaves in each granted dimension exactly what the
-- report did not use, and answers with that; refused, it leaves every amount as it was, and ends
-- the session only if a dimension is exhausted.
pub consume_lem :
    (usage : Usage) (s : Session)
    → ((next : Dict Text ℕ) × (consume usage s ≡ (ok next, record s { remaining = next }))
        × ((d : Text) (had : ℕ) → get s.remaining d ≡ some had → LeftOf next d had (used d usage)))
      ⊎ ((x : BudgetError) × (consume usage s
            ≡ (err x, record s { terminated = ends_session s.terminated x })))
unfolding consume
consume_lem usage s = elim (Bool-cases s.terminated) [
  | inl ended ↦ inr (budget_terminated, rw ended refl)
  | inr open_ ↦ elim (Result-cases (charge_all usage s.remaining)) [
    | inl (next, good) ↦ inl (
      next,
      rw (open_, good) refl,
      λ d had g. charge_all_exact usage s.remaining next d had good g,
    )
    | inr (x, bad) ↦ inr (
      x,
      simp (open_, bad)
          (subst (λ b. settle s (err x) ≡ (err x, record s { terminated = ends_session b x })) open_
            (settled s x)),
    )
  ]
]

-- Once a session is ended, every report is refused and the session stays as it is.
pub terminated_refuses :
    (usage : Usage) (s : Session)
    → s.terminated ≡ true
    → consume usage s ≡ (err budget_terminated, s)
unfolding consume
terminated_refuses usage s h = rw h refl

-- a session after some reports, and what the accepted ones have used of a dimension
pub after_all : Session → List Usage → Session
after_all s [] = s
after_all s (u ∷ us) = after_all (consume u s).1 us

abbrev pub accepted : Text → Usage → Result BudgetError (Dict Text ℕ) → ℕ
accepted d usage (ok _) = used d usage
accepted d usage (err _) = 0

pub spent : Text → Session → List Usage → ℕ
spent d s [] = 0
spent d s (u ∷ us) = accepted d u (consume u s).0 + spent d (consume u s).1 us

-- the two sums over a report whose outcome is known
spend_first :
    (u : Usage) (us : List Usage) (s : Session) (d : Text) (granted : ℕ)
    (r : Result BudgetError (Dict Text ℕ) × Session)
    → consume u s ≡ r
    → LeftOf (after_all r.1 us).remaining d granted (accepted d u r.0 + spent d r.1 us)
    → LeftOf (after_all s (u ∷ us)).remaining d granted (spent d s (u ∷ us))
unfolding after_all spent
spend_first u us s d granted r e h =
    subst (λ x. LeftOf (after_all x.1 us).remaining d granted (accepted d u x.0 + spent d x.1 us))
      (sym e) h

-- Over any reports, accepted and refused, what the accepted ones used of a dimension and what is
-- left of it at the end add up to what was granted; so never more is used.
pub never_overspent :
    (us : List Usage) (s : Session) (d : Text) (granted : ℕ)
    → get s.remaining d ≡ some granted
    → LeftOf (after_all s us).remaining d granted (spent d s us)
unfolding after_all spent
never_overspent [] s d granted g = (granted, g, omega arith)
never_overspent (u ∷ us) s d granted g = elim (consume_lem u s) [
  | inl (next, e, exact) ↦
      let (left, found, sum) = exact d granted g in
      let (rest, there, total) = never_overspent us (record s { remaining = next }) d left found in
      spend_first u us s d granted _ e (rest, there, omega (arith, sum, total))
  | inr (x, e) ↦
      let t : Session = record s { terminated = ends_session s.terminated x } in
      let (rest, there, total) = never_overspent us t d granted g in
      spend_first u us s d granted (err x, t) e (rest, there, omega (arith, total))
]
