-- ===== src/Release/Grid.antt =====
-- What `validP2Plan` of packages/release/src/p2-gate.mjs makes sure of.
use mgds.Prelude.{
  Bool-cases, Dict, List, Option, Text, [], and-eq-true, ap, beq_cases, beq_refl, false, get, has,
  inl, inr, map, nat_eq, none, or_false, put, refl, some, some-inj, text_eq, true, ◌&&◌, ◌==◌, ◌||◌,
  ◌∷◌, ◌≡◌,
}
use mgds.Campaign.Types.{Slot, Plan}
use mgds.Release.{
  expected_slots, delete, keeps_environment, valid_p2_slot, check_slots, plan_end, valid_p2_plan,
}

abbrev pub plan_ids : List Slot → List Text
plan_ids slots = map (λ (slot : Slot). slot.slot_id) slots

has-delete :
    (t id : Text) (ts : List Text)
    → (t == id) ≡ false
    → has ts id ≡ true
    → has (delete t ts) id ≡ true
has-delete t id [] other h = cc
has-delete t id (u ∷ ts) other h = elim (beq_cases u t) [
  | inl same ↦ simp (same, beq_refl t) (has-delete t id ts other (rw (same, other) at h))
  | inr differs ↦ elim (Bool-cases (u == id)) [
    | inl here ↦ simp (differs, here) refl
    | inr away ↦ simp (differs, away) (has-delete t id ts other (rw away at h))
  ]
]

-- an identity that was expected is left, or a slot has it
check_slots-has :
    (slots : List Slot) (expected : List Text) (environments : Dict Text Text) (left : List Text)
    (envs : Dict Text Text) (id : Text)
    → check_slots expected environments slots ≡ some (left, envs)
    → has expected id ≡ true
    → (has (plan_ids slots) id || has left id) ≡ true
unfolding check_slots
check_slots-has [] expected environments left envs id h e =
    rw (ap (λ (p : List Text × Dict Text Text). p.0) (some-inj h)) at e
check_slots-has (slot ∷ slots) expected environments left envs id h e =
    elim (Bool-cases (
      valid_p2_slot slot
      && has expected slot.slot_id
      && keeps_environment (get environments slot.host) slot.environment_hash)) [
        | inr refused ↦ cc (rw refused at h)
        | inl taken ↦ elim (Bool-cases (slot.slot_id == id)) [
          | inl here ↦ rw here refl
          | inr away ↦ simp away (
              check_slots-has slots (delete slot.slot_id expected)
                (put environments slot.host slot.environment_hash) left envs id (rw taken at h)
                (has-delete slot.slot_id id expected away e))
        ]
      ]

plan_end-parts :
    (plan : Plan) (o : Option (List Text × Dict Text Text))
    → plan_end plan o ≡ true
    → (envs : Dict Text Text) × (o ≡ some ([], envs))
plan_end-parts plan none h = cc
plan_end-parts plan (some ([], envs)) h = (envs, refl)
plan_end-parts plan (some (t ∷ ts, envs)) h = cc

-- A plan that the gate accepts has a slot under each identity of the grid: of every required host,
-- harness, seed and repetition.
pub valid_p2_plan-grid :
    (plan : Plan) (id : Text)
    → valid_p2_plan plan ≡ true
    → has expected_slots id ≡ true
    → has (plan_ids plan.slots) id ≡ true
unfolding valid_p2_plan
valid_p2_plan-grid plan id h e =
    let (_, ended) = and-eq-true _ (plan_end plan (check_slots expected_slots [] plan.slots)) h in
    let (envs, drained) = plan_end-parts plan (check_slots expected_slots [] plan.slots) ended in
    rw (or_false (has (plan_ids plan.slots) id)) at
      (check_slots-has plan.slots expected_slots [] [] envs id drained e)
