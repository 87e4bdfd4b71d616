-- ===== src/Services/Recovery.antt =====
-- packages/controller/src/recovery.mjs: processes that were registered, and which of them live.
use mgds.Prelude.{
  All, Bool, Bool-cases, Dict, List, Option, Text, [], every, false, has, if◌then◌else◌, inl, inr,
  nat_eq, none, not, put, refl, some, text_eq, true, ◌&&◌, ◌∷◌, ◌≡◌,
}

pub data ProcessState : Type 0 where
  running terminated : ProcessState

pub record ProcessRecord : Type 0 where
  pub id : Text
  pub kind : Text
  pub started_at : Text
  pub state : ProcessState
  pub ended_at : Option Text

abbrev pub Registry : Type 0
Registry = Dict Text ProcessRecord

pub register : Text → Text → Text → Registry → Registry
register id kind started_at registry =
    put registry id
      (record { id = id; kind = kind; started_at = started_at; state = running; ended_at = none })

abbrev pub is_running : ProcessState → Bool
is_running running = true
is_running terminated = false

-- whether a record is one that `reconcile` ends
abbrev pub is_orphan : List Text → ProcessRecord → Bool
is_orphan live_ids process = is_running process.state && not (has live_ids process.id)

abbrev pub end_orphan : List Text → Text → ProcessRecord → ProcessRecord
end_orphan live_ids at process =
    if is_orphan live_ids process
    then record process { state = terminated; ended_at = some at }
    else process

-- the registry behind `reconcile`
unfoldable pub reconciled : List Text → Text → Registry → Registry
reconciled live_ids at [] = []
reconciled live_ids at ((id, process) ∷ registry) =
    (id, end_orphan live_ids at process) ∷ reconciled live_ids at registry

unfoldable pub orphans : List Text → Registry → List Text
orphans live_ids [] = []
orphans live_ids ((id, process) ∷ registry) =
    if is_orphan live_ids process
    then process.id ∷ orphans live_ids registry
    else orphans live_ids registry

pub data WorkspaceState : Type 0 where
  known_clean known_active : WorkspaceState

abbrev pub none_running : Registry → Bool
none_running registry = every (λ entry. not (is_running entry.1.state)) registry

-- `reconcile`: the state, the identities of the processes it ended, before they are sorted, and the
-- registry
unfoldable pub reconcile : List Text → Text → Registry → (WorkspaceState × List Text) × Registry
unfolding reconciled orphans
reconcile live_ids at registry =
    let after = reconciled live_ids at registry in
    ((if none_running after then known_clean else known_active, orphans live_ids registry), after)

end_orphan-lives :
    (live_ids : List Text) (at : Text) (process : ProcessRecord)
    → (end_orphan live_ids at process).state ≡ running
    → has live_ids (end_orphan live_ids at process).id ≡ true
end_orphan-lives live_ids at process h = elim (Bool-cases (is_orphan live_ids process)) [
  | inl orphan ↦ cc (simp orphan at h)
  | inr kept ↦ simp kept (still process.state (has live_ids process.id) (simp kept at h) kept)
]
  where
    still : (s : ProcessState) (b : Bool) → s ≡ running → (is_running s && not b) ≡ false → b ≡ true
    still running true e k = refl
    still running false e k = cc
    still terminated b e k = cc

-- After a reconcile every process that still counts as running is one of the live ones, whatever
-- was registered before.
pub reconcile-lives :
    (live_ids : List Text) (at : Text) (registry : Registry)
    → All
        (λ (entry : Text × ProcessRecord). entry.1.state ≡ running → has live_ids entry.1.id ≡ true)
        (reconcile live_ids at registry).1
unfolding reconcile
reconcile-lives live_ids at [] = tt
reconcile-lives live_ids at ((id, process) ∷ registry) =
    (end_orphan-lives live_ids at process, reconcile-lives live_ids at registry)
