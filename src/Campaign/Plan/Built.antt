-- ===== src/Campaign/Plan/Built.antt =====
-- The plan that `buildCampaignPlan` of packages/campaign/src/index.mjs gives.
use mgds.Prelude.{
  Bool-cases, Dict, List, Memᴰ, Option, Result, Text, ap, err, inl, inr, is_unique, length, map,
  map_ok, nat_eq, none, ok, ok-inj, refl, some, text_eq, ◌*◌, ◌↔◌, ◌∙◌, ◌≡◌,
}
use mgds.Campaign.Types.{Slot, Plan}
use mgds.Campaign.Plan.{
  Config, Task, PlanError, each, task_slots, config_error, is_empty, plan_of, unless,
  build_campaign_plan,
}
use mgds.Campaign.Plan.Slots.{
  FromTask, task_slots_iff, slots_per_task, each-from, each-to, length-each,
}

unless-ok :
    {A : Type 0} (o : Option PlanError) (r : Result PlanError A) (a : A)
    → unless o r ≡ ok a
    → r ≡ ok a
unless-ok none r a h = h
unless-ok (some e) r a h = cc

map_ok-inv :
    {A B : Type 0} (f : A → B) (r : Result PlanError A) (b : B)
    → map_ok f r ≡ ok b
    → (a : A) × (r ≡ ok a) × (f a ≡ b)
map_ok-inv f (ok a) b h = (a, refl, ok-inj h)
map_ok-inv f (err e) b h = cc

module _ (config : Config) (tasks : List Task) (environments : Dict Text Text) (plan : Plan) where
  built :
      build_campaign_plan config tasks environments ≡ ok plan
      → each (task_slots config environments) tasks ≡ ok plan.slots
  unfolding build_campaign_plan
  built h =
      let inner = unless-ok (config_error config) _ plan h in
      elim (Bool-cases (is_empty tasks)) [
        | inl none_given ↦ cc (rw none_given at inner)
        | inr given ↦ elim (Bool-cases (is_unique (map (λ (task : Task). task.id) tasks))) [
          | inr repeated ↦ cc (rw (given, repeated) at inner)
          | inl unique ↦
              let (slots, loop, e) =
                map_ok-inv (plan_of config) (each (task_slots config environments) tasks) plan
                  (rw (given, unique) at inner) in
              loop ∙ ap (λ (p : Plan). ok p.slots) e
        ]
      ]

-- A built plan has exactly the slots of the grid: a slot is in it just when it is the one that is
-- made from a task that was given, a host of the configuration with a sealed environment, a
-- harness, a seed and a repetition from 1 to `repeatRuns`.
pub plan_slots_iff :
    (config : Config) (tasks : List Task) (environments : Dict Text Text) (plan : Plan)
    (slot : Slot)
    → build_campaign_plan config tasks environments ≡ ok plan
    → Memᴰ slot plan.slots
      ↔ ((task : Task) × Memᴰ task tasks × FromTask config environments task slot)
plan_slots_iff config tasks environments plan slot h =
    let loop = built config tasks environments plan h in
    (
      λ m.
          let (task, zs, there, e, k) =
            each-from (task_slots config environments) tasks plan.slots slot loop m in
          (task, there, (task_slots_iff config environments task zs slot e).0 k),
      λ (task, there, from).
          let (zs, e, k) =
            each-to (task_slots config environments) tasks plan.slots task loop there in
          k slot ((task_slots_iff config environments task zs slot e).1 from),
    )

-- A built plan has one slot for each task, host, harness, seed and repetition.
pub plan_slots_count :
    (config : Config) (tasks : List Task) (environments : Dict Text Text) (plan : Plan)
    → build_campaign_plan config tasks environments ≡ ok plan
    → length plan.slots
      ≡ length tasks
        * (length config.hosts
            * (length config.harnesses * (length config.seeds * config.repeat_runs)))
plan_slots_count config tasks environments plan h =
    length-each (task_slots config environments) _ tasks plan.slots
      (λ task zs e. slots_per_task config environments task zs e)
      (built config tasks environments plan h)
