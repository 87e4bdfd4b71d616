-- ===== src/Operator/Selection.antt =====
-- Which slots a host is given.
use mgds.Prelude.{
  Bool, Dict, List, Memᴰ, Memᴰ-keep, Option, Result, Text, [], and-eq-true, arith, beq_refl,
  eq_of_beq, err, false, get, has, keep-Memᴰ, map_ok, nat_eq, need-ok, not, ok, ok-inj, or_false,
  refl, sym, text_eq, true, ◌&&◌, ◌==◌, ◌||◌, ◌↔◌, ◌∙◌, ◌∷◌, ◌≡◌,
}
use mgds.Campaign.Types.{Slot, Plan}
use mgds.Campaign.Aggregate.{index_slots}
use mgds.Operator.{
  duplicate_completed_slot, foreign_completed_slot, plan_and_host_required, hosts, wants, is_for,
  is_own, completed_slots, select_host_slots,
}

swap_or : (a b c : Bool) → ((a || b) || c) ≡ (b || (a || c))
swap_or a b c = ground arith

module _ (host : Text) (harness : Option Text) (all : Dict Text Slot) where
  -- the set that the loop leaves holds what it held and the slots that it went over
  completed_slots-has :
      (completed ids out : List Text) (id : Text)
      → completed_slots host harness all completed ids ≡ ok out
      → has out id ≡ (has completed id || has ids id)
  unfolding completed_slots
  completed_slots-has completed [] out id h = rw (ok-inj h, or_false (has out id)) refl
  completed_slots-has completed (j ∷ ids) out id h =
      let (_, h1) = need-ok (not (has completed j)) (duplicate_completed_slot j) _ out h in
      let (_, h2) = need-ok (is_own host harness (get all j)) (foreign_completed_slot j) _ out h1 in
      let rest = completed_slots-has (j ∷ completed) ids out id h2 in
      rest ∙ swap_or (j == id) (has completed id) (has ids id)

map_ok-ok {ℓ κ ι} :
    {E : Type ℓ} {A : Type κ} {B : Type ι} (f : A → B) (r : Result E A) (b : B)
    → map_ok f r ≡ ok b
    → (a : A) × (r ≡ ok a) × (b ≡ f a)
map_ok-ok f (ok a) b h = (a, refl, sym (ok-inj h))
map_ok-ok f (err x) b h = cc

not-true : (b : Bool) → not b ≡ true → b ≡ false
not-true b h = ground arith

kept : (a b c : Bool) → a ≡ true → b ≡ true → c ≡ false → ((a && b) && not c) ≡ true
kept a b c ha hb hc = ground arith

-- When the slots of a host are selected, a slot is among them exactly when it is in the plan, is for
-- the host and, where one is named, the harness, and is not among the completed slots.
pub selected_slots_iff :
    (plan : Plan) (host : Text) (harness : Option Text) (completed : List Text) (slots : List Slot)
    (slot : Slot)
    → select_host_slots plan host harness completed ≡ ok slots
    → Memᴰ slot slots ↔ (
        Memᴰ slot plan.slots
        × (slot.host ≡ host)
        × (wants harness slot.harness ≡ true)
        × (has completed slot.slot_id ≡ false))
unfolding select_host_slots
selected_slots_iff plan host harness completed slots slot h =
    let (_, h1) = need-ok (has hosts host) plan_and_host_required _ slots h in
    let (done, looped, e) =
      map_ok-ok _ (completed_slots host harness (index_slots [] plan.slots) [] completed) slots
        h1 in
    let same =
      completed_slots-has host harness (index_slots [] plan.slots) [] completed done slot.slot_id
        looped in
    let test = λ (s : Slot). is_for host harness s && not (has done s.slot_id) in
    (
      λ m.
          let (n, t) = Memᴰ-keep test plan.slots slot (rw e at m) in
          let (own, fresh) =
            and-eq-true (is_for host harness slot) (not (has done slot.slot_id)) t in
          let (here, wanted) = and-eq-true (slot.host == host) (wants harness slot.harness) own in
          (
            n,
            eq_of_beq slot.host host here,
            wanted,
            sym same ∙ not-true (has done slot.slot_id) fresh,
          ),
      λ (n, here, wanted, fresh). rw e (
          keep-Memᴰ test plan.slots slot n
            (kept (slot.host == host) _ _ (rw here (beq_refl host)) wanted (same ∙ fresh))),
    )
