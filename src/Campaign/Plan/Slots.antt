-- ===== src/Campaign/Plan/Slots.antt =====
-- The slots of a built plan: what they are, and how many.
use mgds.Prelude.{
  Bool-cases, Dict, List, Memᴰ, Memᴰ-flat_map, Option, Result, Result-cases, Text, [], ap, arith,
  beq_cases, flat_map-Memᴰ, get, inl, inr, length, length-append, length-flat_map, length-map,
  nat_eq, ne_of_beq, none, ok, ok-inj, refl, some, some-inj, suc, sym, text_eq, true, zero, ℕ, ◌*◌,
  ◌++◌, ◌+◌, ◌<◌, ◌↔◌, ◌∙◌, ◌∷◌, ◌≡◌, ◌≢◌, ◌≤◌,
}
use mathlib.Core.List.Memᴰ
use mgds.Campaign.Types.{Slot}
use mgds.Campaign.Plan.{
  Config, Task, PlanError, each, numbers, make_slot, host_slots, sealed, when_sealed, task_slots,
  valid_task,
}

module _ {A B : Type 0} (f : A → Result PlanError (List B)) where
  each-cons :
      (x : A) (xs : List A) (ys : List B)
      → each f (x ∷ xs) ≡ ok ys
      → (us : List B) × (vs : List B) × (f x ≡ ok us) × (each f xs ≡ ok vs) × (ys ≡ us ++ vs)
  unfolding each
  each-cons x xs ys h = elim (Result-cases (f x)) [
    | inr (e, bad) ↦ cc (rw bad at h)
    | inl (us, good) ↦ elim (Result-cases (each f xs)) [
      | inr (e, bad) ↦ cc (rw (good, bad) at h)
      | inl (vs, rest) ↦ (us, vs, good, rest, sym (ok-inj (rw (good, rest) at h)))
    ]
  ]

  each-nil : (ys : List B) → each f [] ≡ ok ys → ys ≡ []
  unfolding each
  each-nil ys h = sym (ok-inj h)

  -- what a loop that did not throw has pushed comes from one of its rounds
  pub each-from :
      (xs : List A) (ys : List B) (y : B)
      → each f xs ≡ ok ys
      → Memᴰ y ys
      → (x : A) × (zs : List B) × Memᴰ x xs × (f x ≡ ok zs) × Memᴰ y zs
  each-from [] ys y h m = absurd (Memᴰ.not-nil (rw (each-nil ys h) at m))
  each-from (x ∷ xs) ys y h m =
      let (us, vs, here, rest, e) = each-cons x xs ys h in
      elim (Memᴰ.append_cases us (rw e at m)) [
        | inl n ↦ (x, us, Memᴰ.head refl, here, n)
        | inr n ↦
            let (z, zs, there, g, k) = each-from xs vs y rest n in (z, zs, Memᴰ.tail there, g, k)
      ]

  -- and what one of its rounds gives has been pushed
  pub each-to :
      (xs : List A) (ys : List B) (x : A)
      → each f xs ≡ ok ys
      → Memᴰ x xs
      → (zs : List B) × (f x ≡ ok zs) × ((y : B) → Memᴰ y zs → Memᴰ y ys)
  each-to [] ys x h m = absurd (Memᴰ.not-nil m)
  each-to (w ∷ xs) ys x h m =
      let (us, vs, here, rest, e) = each-cons w xs ys h in
      elim (Memᴰ.cases_cons m) [
        | inl same ↦ (us, rw same here, λ y n. rw e (Memᴰ.append_left vs n))
        | inr there ↦
            let (zs, g, k) = each-to xs vs x rest there in
            (zs, g, λ y n. rw e (Memᴰ.append_right us (k y n)))
      ]

  pub length-each :
      (n : ℕ) (xs : List A) (ys : List B)
      → ((x : A) (zs : List B) → f x ≡ ok zs → length zs ≡ n)
      → each f xs ≡ ok ys
      → length ys ≡ length xs * n
  length-each n [] ys each_n h = rw (each-nil ys h) (omega arith)
  length-each n (x ∷ xs) ys each_n h =
      let (us, vs, here, rest, e) = each-cons x xs ys h in
      rw (e, length-append us vs, each_n x us here, length-each n xs vs each_n rest) (omega arith)

length-numbers : (first n : ℕ) → length (numbers first n) ≡ n
length-numbers first zero = refl
length-numbers first (suc n) = ap suc (length-numbers (suc first) n)

numbers-Memᴰ : (k first n : ℕ) → first ≤ k → k < first + n → Memᴰ k (numbers first n)
numbers-Memᴰ k first zero low high = absurd (omega (arith, low, high))
numbers-Memᴰ k first (suc n) low high = elim (beq_cases k first) [
  | inl e ↦ Memᴰ.head e
  | inr other ↦
      Memᴰ.tail
        (numbers-Memᴰ k (suc first) n (beyond (ne_of_beq k first other)) (omega (arith, high)))
]
  where
    beyond : k ≢ first → suc first ≤ k
    beyond ne = grind arith

Memᴰ-numbers : (k first n : ℕ) → Memᴰ k (numbers first n) → (first ≤ k) × (k < first + n)
Memᴰ-numbers k first zero m = absurd (Memᴰ.not-nil m)
Memᴰ-numbers k first (suc n) m = elim (Memᴰ.cases_cons m) [
  | inl e ↦ (omega (arith, e), omega (arith, e))
  | inr there ↦
      let (low, high) = Memᴰ-numbers k (suc first) n there in
      (omega (arith, low), omega (arith, high))
]

module _ (config : Config) (environments : Dict Text Text) where
  -- A slot of one task: a host with a sealed environment, a harness, a seed and a repetition.
  pub record FromTask (task : Task) (slot : Slot) : Type 0 where
    pub hash : Text
    pub host : Text
    pub harness : Text
    pub seed : ℕ
    pub repetition : ℕ
    pub environment : sealed (get environments host) ≡ some hash
    pub listed : Memᴰ host config.hosts × Memᴰ harness config.harnesses × Memᴰ seed config.seeds
    pub counted : (1 ≤ repetition) × (repetition ≤ config.repeat_runs)
    pub made : slot ≡ make_slot config task hash host harness seed repetition

  when_sealed-ok :
      (task : Task) (host : Text) (o : Option Text) (slots : List Slot)
      → when_sealed config task host o ≡ ok slots
      → (hash : Text) × (o ≡ some hash) × (slots ≡ host_slots config task hash host)
  when_sealed-ok task host none slots h = cc
  when_sealed-ok task host (some hash) slots h = (hash, refl, sym (ok-inj h))

  task_slots-ok :
      (task : Task) (slots : List Slot)
      → task_slots config environments task ≡ ok slots
      → (valid_task task ≡ true)
        × (each (λ host. when_sealed config task host (sealed (get environments host))) config.hosts
            ≡ ok slots)
  task_slots-ok task slots h = elim (Bool-cases (valid_task task)) [
    | inl valid ↦ (valid, rw valid at h)
    | inr bad ↦ cc (rw bad at h)
  ]

  length-host_slots :
      (task : Task) (hash host : Text)
      → length (host_slots config task hash host)
        ≡ length config.harnesses * (length config.seeds * config.repeat_runs)
  unfolding host_slots
  length-host_slots task hash host =
      length-flat_map _ (length config.seeds * config.repeat_runs) config.harnesses (λ harness.
        length-flat_map _ config.repeat_runs config.seeds (λ seed.
          length-map _ (numbers 1 config.repeat_runs) ∙ length-numbers 1 config.repeat_runs))

  pub slots_per_task :
      (task : Task) (slots : List Slot)
      → task_slots config environments task ≡ ok slots
      → length slots
        ≡ length config.hosts
          * (length config.harnesses * (length config.seeds * config.repeat_runs))
  slots_per_task task slots h =
      let (_, loop) = task_slots-ok task slots h in
      length-each (λ host. when_sealed config task host (sealed (get environments host))) _
        config.hosts slots
        (λ host zs e.
          let (hash, _, made) = when_sealed-ok task host _ zs e in
          rw made (length-host_slots task hash host))
        loop

  host_slots-from :
      (task : Task) (hash host : Text) (slot : Slot)
      → sealed (get environments host) ≡ some hash
      → Memᴰ host config.hosts
      → Memᴰ slot (host_slots config task hash host)
      → FromTask task slot
  unfolding host_slots
  host_slots-from task hash host slot env at_host m =
      let (harness, at_harness, m1) = Memᴰ-flat_map _ config.harnesses slot m in
      let (seed, at_seed, m2) = Memᴰ-flat_map _ config.seeds slot m1 in
      let (repetition, at_rep, e) = Memᴰ.of_map _ (numbers 1 config.repeat_runs) m2 in
      let (low, high) = Memᴰ-numbers repetition 1 config.repeat_runs at_rep in
      record {
        hash = hash;
        host = host;
        harness = harness;
        seed = seed;
        repetition = repetition;
        environment = env;
        listed = (at_host, at_harness, at_seed);
        counted = (low, omega (arith, high));
        made = sym e;
      }

  host_slots-to :
      (task : Task) (slot : Slot) (s : FromTask task slot)
      → Memᴰ slot (host_slots config task s.hash s.host)
  unfolding host_slots
  host_slots-to task slot s =
      let (_, at_harness, at_seed) = s.listed in
      let (low, high) = s.counted in
      rw s.made (
        flat_map-Memᴰ _ config.harnesses s.harness _ at_harness (
          flat_map-Memᴰ _ config.seeds s.seed _ at_seed (
            Memᴰ.map _ (numbers-Memᴰ s.repetition 1 config.repeat_runs low (omega (arith, high))))))

  pub task_slots_iff :
      (task : Task) (slots : List Slot) (slot : Slot)
      → task_slots config environments task ≡ ok slots
      → Memᴰ slot slots ↔ FromTask task slot
  task_slots_iff task slots slot h =
      let (_, loop) = task_slots-ok task slots h in
      (
        λ m.
            let (host, zs, at_host, e, k) = each-from _ config.hosts slots slot loop m in
            let (hash, env, made) = when_sealed-ok task host _ zs e in
            host_slots-from task hash host slot env at_host (rw made at k),
        λ s.
            let (zs, e, k) = each-to _ config.hosts slots s.host loop s.listed.0 in
            let (hash, env, made) = when_sealed-ok task s.host _ zs e in
            k slot (rw (made, some-inj (sym env ∙ s.environment)) (host_slots-to task slot s)),
      )
