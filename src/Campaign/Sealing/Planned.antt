-- ===== src/Campaign/Sealing/Planned.antt =====
-- The sealed inputs of a campaign and its plan: lemmas on `sealCampaignInputs` and `buildCampaignPlan`.
use mgds.Prelude.{
  All, All-imp, Bool-cases, Dict, List, Option, Result, Text, [], ap, ap₂, beq_refl, err, false,
  get, inl, inr, is_hash, is_unique, lit, map, nat_eq, need-ok, none, not, ok, ok-inj, refl, some,
  sym, text_eq, true, ℕ, ◌++◌, ◌==◌, ◌∷◌, ◌≡◌,
}
use mgds.Json.{Value}
use mgds.Json.Access.{member, is_str}
use mgds.Campaign.Types.{Slot, Plan}
use mgds.Campaign.Plan.{
  Config, Task, PlanError, config_error, is_empty, valid_evidence_roles, valid_task, each,
  then_rest, sealed, when_sealed, task_slots, host_slots, plan_of, build_campaign_plan,
}
use mgds.Campaign.Sealing.{
  SealError, Descriptor, Files, identity_mismatch, budget_missing, evidence_missing,
  build_target_missing, tasks_required, inputs_required, path_required, is_object, texts_of,
  target_of, seal_roles, seal_manifest, seal_bytes, cons_task, seal_tasks, hash_inputs,
  environment_hash, environments_of, with_tasks, unless_invalid, every_path, seal_campaign_inputs,
}

then_rest-ok :
    {B : Type 0} (r s : Result PlanError (List B)) (ys zs : List B)
    → r ≡ ok ys
    → s ≡ ok zs
    → then_rest r s ≡ ok (ys ++ zs)
then_rest-ok r s ys zs h k = rw (h, k) refl

-- a loop none of whose rounds throws
each-ok :
    {A B : Type 0} (f : A → Result PlanError (List B)) (xs : List A)
    → All (λ x. (ys : List B) × (f x ≡ ok ys)) xs
    → (ys : List B) × (each f xs ≡ ok ys)
unfolding each
each-ok f [] h = ([], refl)
each-ok f (x ∷ xs) h =
    let (zs, k) = each-ok f xs h.1 in (h.0.0 ++ zs, then_rest-ok (f x) (each f xs) h.0.0 zs h.0.1 k)

every_path-ok :
    (files : Files) (paths : List Text) (r : Result SealError (List Task × Dict Text Text))
    (out : List Task × Dict Text Text)
    → every_path files paths r ≡ ok out
    → r ≡ ok out
every_path-ok files [] r out h = h
every_path-ok files (path ∷ paths) r out h =
    every_path-ok files paths r out (need-ok _ (path_required path) _ out h).1

unless_invalid-ok :
    {A : Type 0} (files : Files) (o : Option PlanError) (r : Result SealError A) (a : A)
    → unless_invalid files o r ≡ ok a
    → (o ≡ none) × (r ≡ ok a)
unless_invalid-ok files none r a h = (refl, h)
unless_invalid-ok files (some e) r a h = cc

abbrev Named : Descriptor → Type 0
Named d = is_empty d.id ≡ false

module _ (files : Files) (bytes_hashed : (bytes : List ℕ) → is_hash (files.hash_bytes bytes) ≡ true)
    (text_hashed : (t : Text) → is_hash (files.hash_text t) ≡ true) where
  -- a sealed task keeps its name and is complete
  abbrev Whole : Descriptor → Task → Type 0
  Whole d task = (task.id ≡ d.id) × (valid_task task ≡ true)

  seal_roles-Whole :
      (d : Descriptor) (bytes : List ℕ) (manifest : Value) (o : Option (List Text)) (task : Task)
      → Named d
      → seal_roles files d bytes manifest o ≡ ok task
      → Whole d task
  unfolding valid_task
  seal_roles-Whole d bytes manifest none task n h = cc
  seal_roles-Whole d bytes manifest (some roles) task n h =
      let (good, h1) = need-ok (valid_evidence_roles roles) (evidence_missing d.path) _ task h in
      let (target, h2) =
        need-ok (not (is_empty (target_of (member (lit "terminal") manifest))))
          (build_target_missing d.path) _ task h1 in
      rw⁻¹ (ok-inj h2) (refl, rw (n, bytes_hashed bytes, text_hashed _, good, target) refl)

  seal_bytes-Whole :
      (d : Descriptor) (o : Option (List ℕ)) (task : Task)
      → Named d
      → seal_bytes files d o ≡ ok task
      → Whole d task
  seal_bytes-Whole d none task n h = cc
  seal_bytes-Whole d (some bytes) task n h = parsed (files.parse bytes) h
    where
      parsed : (p : Option Value) → seal_manifest files d bytes p ≡ ok task → Whole d task
      parsed none k = cc
      parsed (some manifest) k =
          let (_, k1) =
            need-ok (is_str d.id (member (lit "id") manifest)) (identity_mismatch d.path) _ task
              k in
          let (_, k2) =
            need-ok (is_object (member (lit "budgets") manifest)) (budget_missing d.path) _ task
              k1 in
          seal_roles-Whole d bytes manifest (texts_of (member (lit "evidence") manifest)) task n k2

  cons_task-ok :
      (r : Result SealError Task) (rest : Result SealError (List Task)) (out : List Task)
      → cons_task files r rest ≡ ok out
      → (task : Task) × (tasks : List Task) × (r ≡ ok task)
        × (rest ≡ ok tasks)
        × (out ≡ task ∷ tasks)
  cons_task-ok (err x) rest out h = cc
  cons_task-ok (ok task) (err x) out h = cc
  cons_task-ok (ok task) (ok tasks) out h = (task, tasks, refl, refl, sym (ok-inj h))

  seal_tasks-Whole :
      (descriptors : List Descriptor) (tasks : List Task)
      → All Named descriptors
      → seal_tasks files descriptors ≡ ok tasks
      → (map (λ (t : Task). t.id) tasks ≡ map (λ (d : Descriptor). d.id) descriptors)
        × All (λ (t : Task). valid_task t ≡ true) tasks
  unfolding seal_tasks
  seal_tasks-Whole [] tasks n h = rw⁻¹ (ok-inj h) (refl, tt)
  seal_tasks-Whole (d ∷ descriptors) tasks n h =
      let (task, rest, e, looped, same) =
        cons_task-ok (seal_bytes files d (files.read_file d.path)) (seal_tasks files descriptors)
          tasks h in
      let (id, valid) = seal_bytes-Whole d (files.read_file d.path) task n.0 e in
      let (ids, all) = seal_tasks-Whole descriptors rest n.1 looped in
      rw same (ap₂ (λ a b. a ∷ b) id ids, (valid, all))

  -- an environment that the plan takes
  abbrev Sealed : Dict Text Text → Text → Type 0
  Sealed environments host = (hash : Text) × (sealed (get environments host) ≡ some hash)

  Sealed-cons :
      (host other hash : Text) (d : Dict Text Text)
      → is_hash hash ≡ true
      → Sealed d other
      → Sealed ((host, hash) ∷ d) other
  unfolding get
  Sealed-cons host other hash d good (old, s) = elim (Bool-cases (host == other)) [
    | inl here ↦ (hash, rw (here, good) refl)
    | inr away ↦ (old, rw away s)
  ]

  environments-Sealed :
      (inputs : Dict Text Text) (hosts : List Text)
      → All (Sealed (environments_of files inputs hosts)) hosts
  unfolding environments_of get
  environments-Sealed inputs [] = tt
  environments-Sealed inputs (host ∷ hosts) =
      let hash = environment_hash files inputs host in
      (
        (hash, rw (beq_refl host, text_hashed _) refl),
        All-imp
            (λ other s.
              Sealed-cons host other hash (environments_of files inputs hosts) (text_hashed _) s)
            hosts (environments-Sealed inputs hosts),
      )

  task_slots-ok :
      (config : Config) (environments : Dict Text Text) (task : Task)
      → All (Sealed environments) config.hosts
      → valid_task task ≡ true
      → (slots : List Slot) × (task_slots config environments task ≡ ok slots)
  task_slots-ok config environments task s v =
      let (slots, e) =
        each-ok (λ host. when_sealed config task host (sealed (get environments host))) config.hosts
          (All-imp
            (λ host (hash, k).
              (host_slots config task hash host, ap (when_sealed config task host) k))
            config.hosts s) in
      (slots, rw v e)

  with_tasks-ok :
      (in_order : Dict Text Text → Dict Text Text) (config : Config)
      (r : Result SealError (List Task)) (inputs : Result SealError (Dict Text Text))
      (tasks : List Task) (environments : Dict Text Text)
      → with_tasks files in_order config r inputs ≡ ok (tasks, environments)
      → (r ≡ ok tasks)
        × ((read : Dict Text Text) × (environments
              ≡ environments_of files (in_order read) config.hosts))
  with_tasks-ok in_order config (err x) inputs tasks environments h = cc
  with_tasks-ok in_order config (ok ts) (err x) tasks environments h = cc
  with_tasks-ok in_order config (ok ts) (ok read) tasks environments h =
      let same = ok-inj h in
      (
        ap ok (ap (λ (p : List Task × Dict Text Text). p.0) same),
        (read, sym (ap (λ (p : List Task × Dict Text Text). p.1) same)),
      )

  not_empty :
      (descriptors : List Descriptor) (tasks : List Task)
      → not (is_empty descriptors) ≡ true
      → map (λ (t : Task). t.id) tasks ≡ map (λ (d : Descriptor). d.id) descriptors
      → is_empty tasks ≡ false
  not_empty [] tasks h e = cc
  not_empty (d ∷ descriptors) [] h e = cc
  not_empty (d ∷ descriptors) (task ∷ tasks) h e = refl

  -- What was sealed for a configuration can be planned: if the tasks have names and no two share one, and
  -- digests have the form of hashes, the plan of the sealed tasks and environments is built.
  pub sealed_inputs_planned :
      (in_order : Dict Text Text → Dict Text Text) (config : Config) (descriptors : List Descriptor)
      (inputs : List Text) (tasks : List Task) (environments : Dict Text Text)
      → All Named descriptors
      → is_unique (map (λ (d : Descriptor). d.id) descriptors) ≡ true
      → seal_campaign_inputs files in_order config descriptors inputs ≡ ok (tasks, environments)
      → (plan : Plan) × (build_campaign_plan config tasks environments ≡ ok plan)
  unfolding seal_campaign_inputs build_campaign_plan
  sealed_inputs_planned in_order config descriptors inputs tasks environments named unique h =
      let (valid, h1) = unless_invalid-ok files (config_error config) _ (tasks, environments) h in
      let (some_task, h2) =
        need-ok (not (is_empty descriptors)) tasks_required _ (tasks, environments) h1 in
      let (_, h3) = need-ok (not (is_empty inputs)) inputs_required _ (tasks, environments) h2 in
      let h4 =
        every_path-ok files (map (λ (d : Descriptor). d.path) descriptors) _ (tasks, environments)
          h3 in
      let h5 = every_path-ok files inputs _ (tasks, environments) h4 in
      let (sealed_all, (read, same)) =
        with_tasks-ok in_order config (seal_tasks files descriptors) (hash_inputs files inputs)
          tasks environments h5 in
      let (ids, all) = seal_tasks-Whole descriptors tasks named sealed_all in
      let hosts_sealed : All (Sealed environments) config.hosts =
        rw same (environments-Sealed (in_order read) config.hosts) in
      let (slots, built) =
        each-ok (task_slots config environments) tasks
          (All-imp (λ task v. task_slots-ok config environments task hosts_sealed v) tasks all) in
      (
        plan_of config slots,
        simp (valid, not_empty descriptors tasks some_task ids, ids, unique, built) refl,
      )
