-- ===== src/Release/Script/Backed.antt =====
-- scripts/check-p2-release.mjs: what stands behind the input of the gate, and the exit code.
use mgds.Prelude.{
  Bool, Dict, List, Option, Result, Text, [], ap, eqb, err, false, if◌then◌else◌, length, lit,
  need-ok, none, ok, ok-inj, refl, some, subst, true, ◌↔◌, ◌∷◌, ◌≡◌,
}
use mgds.Campaign.Types.{Plan}
use mgds.Campaign.Plan.{Task, build_campaign_plan}
use mgds.Campaign.Sealing.{seal_campaign_inputs}
use mgds.Campaign.Aggregate.{index_slots, distinct}
use mgds.Evidence.Load.Marks.{AllBacked, loaded_evidence_backs_runs}
use mgds.Release.{HostEvidence, is_source_digest}
use mgds.Release.Hosts.{HostEntry, source_digest_required, verify_host_evidence_entries}
use mgds.Release.Hosts.Accepted.{AllAttested, verified_entries-Attested}
use mgds.Release.Checkout.{
  CheckoutError, inputs_required, all_regular, list_files, every_path, trim, checkout_is_source,
  verify_release_checkout,
}
use mgds.Release.Input.{GateStatus, SourceState, ready, blocked}
use mgds.Release.Options.{
  ScriptError, ◌>>=◌, throw_as, found, sealing, planning, loading, hosting, option, parse_options,
}
use mgds.Release.Ready.{Released}
use mgds.Release.Released.{ready-Released}
use mgds.Release.World.{World, Campaign, Gathered, unverified}
use mgds.Release.Script.{
  source_bound_release_inputs, or_unverified, campaign_plan, base_checks, release_source_digest,
  release_source_state, state_of, verified_hosts, gather, input_of, checks_of, gate_of,
  check_gathered, check_p2_release, code_of, exit_code,
}

bind-ok :
    {A B : Type 0} (r : Result ScriptError A) (f : A → Result ScriptError B) (b : B)
    → (r >>= f) ≡ ok b
    → (a : A) × (r ≡ ok a) × (f a ≡ ok b)
unfolding ◌>>=◌
bind-ok (ok a) f b h = (a, refl, h)
bind-ok (err x) f b h = cc

throw_as-ok :
    {E A : Type 0} (wrap : E → ScriptError) (r : Result E A) (a : A)
    → throw_as wrap r ≡ ok a
    → r ≡ ok a
unfolding throw_as
throw_as-ok wrap (ok a) b h = ap ok (ok-inj h)
throw_as-ok wrap (err x) b h = cc

found-ok : {A : Type 0} (name : Text) (o : Option A) (a : A) → found name o ≡ ok a → o ≡ some a
unfolding found
found-ok name none a h = cc
found-ok name (some a) b h = ap some (ok-inj h)

every_path-ok :
    {A : Type 0} (paths : List Text) (r : Result CheckoutError A) (a : A)
    → every_path paths r ≡ ok a
    → r ≡ ok a
every_path-ok [] r a h = h
every_path-ok (path ∷ paths) r a h = every_path-ok paths r a (need-ok _ _ _ a h).1

-- a clean state comes from a check that passed
clean-verified :
    (given : Bool) (r : Result CheckoutError SourceState)
    → (if given then or_unverified r else unverified).clean ≡ true
    → (state : SourceState) × (r ≡ ok state)
clean-verified true (ok state) h = (state, refl)
clean-verified true (err x) h = cc
clean-verified false r h = cc

module _ (world : World) where
  -- The inputs are regular files that the index tracks, and nothing in the checkout is changed.
  abbrev pub Tracked : List Text → Type 0
  Tracked paths =
      (status staged : Text) × (world.run_git
          (lit "status" ∷ lit "--porcelain=v1" ∷ lit "--untracked-files=all" ∷ [])
        ≡ some status)
      × (eqb (length (trim status)) 0 ≡ true)
      × (world.run_git (list_files world.run_git (release_source_digest world) (distinct [] paths))
          ≡ some staged)
      × (all_regular (distinct [] paths) staged ≡ true)

  -- what stands behind what the gate was given
  pub record Backing (args : List Text) (g : Gathered) : Type 0 where
    pub options : parse_options args ≡ ok g.options
    pub candidate :
        world.candidate_bytes (option g.options (lit "candidate")) ≡ some g.candidate_bytes
    pub planned :
        (tasks : List Task) × (environments : Dict Text Text) × (seal_campaign_inputs world.files
            world.in_order g.campaign.config g.campaign.tasks g.campaign.environment_inputs
          ≡ ok (tasks, environments))
        × (build_campaign_plan g.campaign.config tasks environments ≡ ok g.plan)
    pub evidence :
        AllBacked world.reader world.read_evidence_file (index_slots [] g.plan.slots) 0 g.runs
    pub hosts :
        verified_hosts world (state_of world g.options g.campaign g.index) g.entries ≡ ok g.items

  campaign_plan-ok :
      (campaign : Campaign) (plan : Plan)
      → campaign_plan world campaign ≡ ok plan
      → (tasks : List Task) × (environments : Dict Text Text) × (seal_campaign_inputs world.files
            world.in_order campaign.config campaign.tasks campaign.environment_inputs
          ≡ ok (tasks, environments))
        × (build_campaign_plan campaign.config tasks environments ≡ ok plan)
  unfolding campaign_plan
  campaign_plan-ok campaign plan h =
      let ((tasks, environments), sealed, built) = bind-ok _ _ plan h in
      (
        tasks,
        environments,
        throw_as-ok sealing _ (tasks, environments) sealed,
        throw_as-ok planning _ plan built,
      )

  verified_hosts-Attested :
      (state : SourceState) (entries : List HostEntry) (items : List HostEvidence)
      → verified_hosts world state entries ≡ ok items
      → state.clean ≡ true
      → AllAttested world.host (release_source_digest world) entries items
  unfolding verified_hosts verify_host_evidence_entries
  verified_hosts-Attested state entries items h clean =
      verified_entries-Attested world.host (release_source_digest world) entries items
        (need-ok (is_source_digest (release_source_digest world)) source_digest_required _ items
          (rw clean at h)).1

  gather-Backing : (args : List Text) (g : Gathered) → gather world args ≡ ok g → Backing args g
  unfolding gather
  gather-Backing args g h =
      let (options, parsed, h1) = bind-ok _ _ g h in
      let (candidate_bytes, read, h2) = bind-ok _ _ g h1 in
      let (campaign, _, h3) = bind-ok _ _ g h2 in
      let (plan, planned, h4) = bind-ok _ _ g h3 in
      let (runs, _, h5) = bind-ok _ _ g h4 in
      let (index, _, h6) = bind-ok _ _ g h5 in
      let (entries, _, h7) = bind-ok _ _ g h6 in
      let (evaluators, _, h8) = bind-ok _ _ g h7 in
      let (bundles, loaded, h9) = bind-ok _ _ g h8 in
      let (items, verified, h10) = bind-ok _ _ g h9 in
      let (candidate, _, h11) = bind-ok _ _ g h10 in
      let (evaluator_trust, _, h12) = bind-ok _ _ g h11 in
      let (reviewer_trust, _, h13) = bind-ok _ _ g h12 in
      let same = ok-inj h13 in
      subst (Backing args) same (record {
        options = parsed;
        candidate = found-ok (lit "candidate") _ candidate_bytes read;
        planned = campaign_plan-ok campaign plan planned;
        evidence =
            loaded_evidence_backs_runs world.reader world.read_evidence_file (base_checks world)
              world.index_ok plan runs index bundles (throw_as-ok loading _ bundles loaded);
        hosts = throw_as-ok hosting _ items verified;
      })

  state-Tracked :
      (paths : List Text) → (release_source_state world paths).clean ≡ true → Tracked paths
  unfolding release_source_state verify_release_checkout
  state-Tracked paths h =
      let digest = release_source_digest world in
      let (state, e) =
        clean-verified (is_source_digest digest)
          (verify_release_checkout world.run_git digest paths) h in
      let (_, h1) = need-ok _ inputs_required _ state e in
      let (status, staged, printed, blank, listed, regular, _) =
        checkout_is_source world.run_git digest (distinct [] paths)
          (world.run_git (lit "rev-parse" ∷ lit "HEAD" ∷ [])) state
          (every_path-ok paths _ state h1) in
      (status, staged, printed, blank, listed, regular)

  code_of-ready : (status : GateStatus) → code_of world status ≡ 0 → status ≡ ready
  code_of-ready ready e = refl
  code_of-ready blocked e = cc

  exit_code-gathered :
      (r : Result ScriptError Gathered)
      → exit_code world (check_gathered world r) ≡ 0
      → (g : Gathered) × (r ≡ ok g) × ((gate_of world g).status ≡ ready)
  exit_code-gathered (ok g) h = (g, refl, code_of-ready (gate_of world g).status h)
  exit_code-gathered (err x) h = cc

  -- If the script has gathered what it asks the gate about, and the checkout was found clean, then the
  -- campaign's plan is the one built from the sealed inputs of the configuration, every run has
  -- evidence that was read, hashed and checked, the inputs of the release are regular tracked files of
  -- an unchanged checkout, each host's evidence is attested, and the script exits with 0 exactly if
  -- the gate is ready.
  pub gathered_is_backed :
      (args : List Text) (g : Gathered)
      → gather world args ≡ ok g
      → (state_of world g.options g.campaign g.index).clean ≡ true
      → Backing args g
        × Tracked (source_bound_release_inputs g.options g.campaign g.index)
        × AllAttested world.host (release_source_digest world) g.entries g.items
        × ((exit_code world (check_p2_release world args) ≡ 0) ↔ ((gate_of world g).status ≡ ready))
  unfolding check_p2_release
  gathered_is_backed args g h clean =
      let backing = gather-Backing args g h in
      (
        backing,
        state-Tracked _ clean,
        verified_hosts-Attested (state_of world g.options g.campaign g.index) g.entries g.items
            backing.hosts clean,
        rw h (code_of-ready (gate_of world g).status, λ e. ap (code_of world) e),
      )

  -- If the script exits with 0, then what the gate was given is backed as above, and all that the
  -- gate asks of a release holds of it.
  pub exit_zero-Released :
      (args : List Text)
      → exit_code world (check_p2_release world args) ≡ 0
      → (g : Gathered) × Backing args g
        × Tracked (source_bound_release_inputs g.options g.campaign g.index)
        × AllAttested world.host (release_source_digest world) g.entries g.items
        × Released world.crypto world.encoding (checks_of world g) (input_of world g)
  unfolding check_p2_release
  exit_zero-Released args h =
      let (g, gathered, is_ready) = exit_code-gathered (gather world args) h in
      let released =
        ready-Released world.crypto world.encoding (checks_of world g) (input_of world g)
          is_ready in
      let (backing, tracked, attested, _) =
        gathered_is_backed args g gathered released.checkout.1 in
      (g, backing, tracked, attested, released)
