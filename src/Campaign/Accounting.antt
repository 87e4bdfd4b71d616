-- ===== src/Campaign/Accounting.antt =====
-- The runs of a campaign without failures, each accounted for once.
use mgds.Prelude.{
  All, All-imp, All-split, All-unmap, Bool, Bool-cases, Dict, List, Memᴰ, Option, Text, [],
  and-eq-true, any, any-Memᴰ, append-nil, append_assoc, arith, beq_cases, collect, eq_of_beq, eqb,
  false, get, has, inl, inr, is_unique, leb, leb→le, map, nat_eq, none, not, or-eq-false, refl,
  some, subst, sym, text_beq_iff, text_eq, true, ℕ, ◌&&◌, ◌*◌, ◌++◌, ◌==◌, ◌||◌, ◌∙◌, ◌∷◌, ◌≡◌, ◌≤◌,
  ◌⊎◌,
}
use mgds.Campaign.Types.{Slot, Plan, Run, Rate}
use mgds.Campaign.Aggregate.{Checks, Tally, accept, tally_runs, distinct, below, is_some_true}
use mgds.Campaign.Report.{missing_ids, covers, soak_tests, enforce_soak_coverage, pair_key}
use mgds.Campaign.Failures.{Matches, visit_clean, tally_clean}

abbrev pub slot_ids : List Run → List Text
slot_ids runs = map (λ run. run.slot_id) runs

fresh-has :
    (id : Text) (seen : List Text) (runs : List Run)
    → All (λ (run : Run). has (id ∷ seen) run.slot_id ≡ false) runs
    → has (slot_ids runs) id ≡ false
fresh-has id seen [] h = refl
fresh-has id seen (run ∷ runs) h = ground (
  arith,
  text_beq_iff id run.slot_id,
  text_beq_iff run.slot_id id,
  fresh-has id seen runs h.1,
  h.0,
)

fresh_tail :
    (id : Text) (seen : List Text) (runs : List Run)
    → All (λ (run : Run). has (id ∷ seen) run.slot_id ≡ false) runs
    → All (λ (run : Run). has seen run.slot_id ≡ false) runs
fresh_tail id seen [] h = tt
fresh_tail id seen (run ∷ runs) h =
    ((or-eq-false (id == run.slot_id) (has seen run.slot_id) h.0).1, fresh_tail id seen runs h.1)

module _ (checks : Checks) (expected : Dict Text Slot) where
  -- what a loop over some runs has done, if it pushed no failure
  pub record Accounted (runs : List Run) (before after : Tally) : Type 0 where
    pub accepted : after.accepted ≡ before.accepted ++ runs
    pub placed :
        All
          (λ (run : Run).
            (slot : Slot) × (get expected run.slot_id ≡ some slot) × Matches checks run slot)
          runs
    pub fresh : All (λ (run : Run). has before.seen run.slot_id ≡ false) runs
    pub once : is_unique (slot_ids runs) ≡ true
    pub seen :
        (id : Text)
        → has after.seen id ≡ true
        → (has (slot_ids runs) id || has before.seen id) ≡ true

  Accounted-cons :
      (run : Run) (runs : List Run) (slot : Slot) (before after : Tally)
      → get expected run.slot_id ≡ some slot
      → Matches checks run slot
      → has before.seen run.slot_id ≡ false
      → Accounted runs (accept checks before run slot) after
      → Accounted (run ∷ runs) before after
  unfolding accept
  Accounted-cons run runs slot before after found fits new a = record {
    accepted = a.accepted ∙ append_assoc before.accepted (run ∷ []) runs;
    placed = ((slot, found, fits), a.placed);
    fresh = (new, fresh_tail run.slot_id before.seen runs a.fresh);
    once = rw (fresh-has run.slot_id before.seen runs a.fresh, a.once) refl;
    seen = λ id h. ground (arith, a.seen id h);
  }

  pub tally-Accounted :
      (runs : List Run) (tally : Tally)
      → (tally_runs checks expected tally runs).failures ≡ []
      → Accounted runs tally (tally_runs checks expected tally runs)
  unfolding tally_runs
  tally-Accounted [] tally h = record {
    accepted = sym (append-nil tally.accepted);
    placed = tt;
    fresh = tt;
    once = refl;
    seen = λ id k. k;
  }
  tally-Accounted (run ∷ runs) tally h =
      let (before, new, (slot, found, fits, e)) =
        visit_clean checks tally run (get expected run.slot_id)
          (tally_clean checks expected runs _ h) in
      subst (λ t. Accounted (run ∷ runs) tally (tally_runs checks expected t runs)) (sym e)
        (Accounted-cons run runs slot tally _ found fits new (
          tally-Accounted runs (accept checks tally run slot)
            (subst (λ t. (tally_runs checks expected t runs).failures ≡ []) e h)))

-- no slot is missing: each was seen
pub missing_none :
    (seen : List Text) (slots : List Slot)
    → missing_ids seen slots ≡ []
    → All (λ (slot : Slot). has seen slot.slot_id ≡ true) slots
missing_none seen [] h = tt
missing_none seen (slot ∷ slots) h = elim (Bool-cases (has seen slot.slot_id)) [
  | inl there ↦ (there, missing_none seen slots (rw there at h))
  | inr gone ↦ cc (rw gone at h)
]

-- a threshold that did not fail, over at least one run
pub rate_met :
    (accepted top bottom : ℕ) (rate : Rate)
    → (eqb accepted 0 || not (below top bottom rate)) ≡ true
    → (accepted ≡ 0) ⊎ (rate.top * bottom ≤ top * rate.bottom)
unfolding below
rate_met accepted top bottom rate h = ground arith

-- Soak coverage.
All-has : (P : Text → Type 0) (seen : List Text) (x : Text) → has seen x ≡ true → All P seen → P x
All-has P [] x h a = cc
All-has P (y ∷ seen) x h a = elim (beq_cases y x) [
  | inl same ↦ rw⁻¹ same a.0
  | inr other ↦ All-has P seen x (rw other at h) a.1
]

distinct-All :
    (P : Text → Type 0) (xs seen : List Text) → All P (distinct seen xs) → All P seen × All P xs
unfolding distinct
distinct-All P [] seen a = (a, tt)
distinct-All P (x ∷ xs) seen a = elim (Bool-cases (has seen x)) [
  | inl there ↦
      let (s, rest) = distinct-All P xs seen (rw there at a) in
      (s, (All-has P seen x there s, rest))
  | inr new ↦
      let (s, rest) = distinct-All P xs (seen ++ x ∷ []) (rw new at a) in
      let (front, (last, _)) = All-split P seen (x ∷ []) s in (front, (last, rest))
]

-- A run that covers the soak of a slot's host and harness.
abbrev pub Soaks : Plan → List Run → Slot → Type 0
Soaks plan runs slot =
    (run : Run) × Memᴰ run runs
    × (pair_key run.host run.harness ≡ pair_key slot.host slot.harness)
    × (run.soak ≡ some true)
    × (plan.soak_minutes ≤ run.duration_minutes)

soak_tests-All :
    (plan : Plan) (runs : List Run) (attested keys : List Text)
    → collect (soak_tests plan runs attested keys) ≡ []
    → All (λ key. any (covers plan attested key) runs ≡ true) keys
soak_tests-All plan runs attested [] h = tt
soak_tests-All plan runs attested (key ∷ keys) h =
    elim (Bool-cases (any (covers plan attested key) runs)) [
      | inl met ↦ (met, soak_tests-All plan runs attested keys (rw met at h))
      | inr short ↦ cc (rw short at h)
    ]

is_some_true-eq : (o : Option Bool) → is_some_true o ≡ true → o ≡ some true
is_some_true-eq none h = cc
is_some_true-eq (some b) h = rw h refl

covers-parts :
    (plan : Plan) (attested : List Text) (key : Text) (run : Run)
    → covers plan attested key run ≡ true
    → (pair_key run.host run.harness ≡ key)
      × (run.soak ≡ some true)
      × (plan.soak_minutes ≤ run.duration_minutes)
covers-parts plan attested key run h =
    let same = pair_key run.host run.harness == key in
    let soaked = is_some_true run.soak in
    let long = leb plan.soak_minutes run.duration_minutes in
    let (front, _) = and-eq-true (same && soaked && long) (has attested run.slot_id) h in
    let (front2, l) = and-eq-true (same && soaked) long front in
    let (e, s) = and-eq-true same soaked front2 in
    (
      eq_of_beq (pair_key run.host run.harness) key e,
      is_some_true-eq run.soak s,
      leb→le plan.soak_minutes run.duration_minutes l,
    )

covers-Soaks :
    (plan : Plan) (runs : List Run) (attested : List Text) (slot : Slot)
    → any (covers plan attested (pair_key slot.host slot.harness)) runs ≡ true
    → Soaks plan runs slot
covers-Soaks plan runs attested slot h =
    let key = pair_key slot.host slot.harness in
    let (run, there, met) = any-Memᴰ (covers plan attested key) runs h in
    let (same, soaked, long) = covers-parts plan attested key run met in
    (run, there, same, soaked, long)

pub soak-Soaks :
    (plan : Plan) (runs : List Run) (attested : List Text)
    → enforce_soak_coverage plan runs attested ≡ []
    → All (Soaks plan runs) plan.slots
unfolding enforce_soak_coverage
soak-Soaks plan runs attested h =
    let keys = map (λ (slot : Slot). pair_key slot.host slot.harness) plan.slots in
    let (_, met) =
      distinct-All (λ key. any (covers plan attested key) runs ≡ true) keys []
        (soak_tests-All plan runs attested (distinct [] keys) h) in
    All-imp (λ slot m. covers-Soaks plan runs attested slot m) plan.slots
      (All-unmap (λ key. any (covers plan attested key) runs ≡ true)
        (λ (slot : Slot). pair_key slot.host slot.harness) plan.slots met)
