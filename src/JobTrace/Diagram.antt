-- ===== src/JobTrace/Diagram.antt =====
-- The transition diagram as a relation, and what it implies for the life of a job.
use mgds.Prelude.{
  List, Text, [], any, arith, beq_cases, eqb, false, has, inl, inr, map, nat_eq, or-eq-false, refl,
  sym, text_eq, true, ℕ, ◌++◌, ◌↔◌, ◌∷◌, ◌≡◌,
}
use mathlib.Core.Path.{ap₂}
use mgds.JobTrace.{
  JobState, queued, granted, running, checkpointed, cancelling, succeeded, failed, cancelled,
  timed_out, expired, name, edges, is_legal_transition,
}

infix 40 ◌⟶◌ ◌⟶*◌
pub data ◌⟶◌ : JobState → JobState → Type 0 where
  grant : queued ⟶ granted
  drop_queued : queued ⟶ cancelled
  start : granted ⟶ running
  drop_granted : granted ⟶ cancelled
  lapse : granted ⟶ expired
  pause : running ⟶ checkpointed
  finish : running ⟶ succeeded
  break_running : running ⟶ failed
  stop_running : running ⟶ cancelling
  overrun : running ⟶ timed_out
  continue : checkpointed ⟶ running
  break_paused : checkpointed ⟶ failed
  stop_paused : checkpointed ⟶ cancelling
  overrun_paused : checkpointed ⟶ timed_out
  stopped : cancelling ⟶ cancelled
  break_stopping : cancelling ⟶ failed

pub data ◌⟶*◌ : JobState → JobState → Type 0 where
  here : {s : JobState} → s ⟶* s
  along : {s t u : JobState} → s ⟶ t → t ⟶* u → s ⟶* u

ruleset arrows = (
  grant, drop_queued, start, drop_granted, lapse, pause, finish, break_running, stop_running,
  overrun, continue, break_paused, stop_paused, overrun_paused, stopped, break_stopping,
)

-- no `>` in a text
abbrev IsSingle : Text → Type 0
IsSingle s = any (eqb b'>') s ≡ false

name-IsSingle : (s : JobState) → IsSingle (name s)
name-IsSingle queued = refl
name-IsSingle _ = refl

behind_arrow : (from to : Text) → IsSingle (from ++ b'>' ∷ to) → ⊥
behind_arrow [] to h = cc
behind_arrow (c ∷ from) to h = behind_arrow from to (or-eq-false _ _ h).1

cons-inj : {c d : ℕ} {s t : Text} → c ∷ s ≡ d ∷ t → (c ≡ d) × (s ≡ t)
cons-inj h = (cc, cc)

-- Where a text holds one `>`, the parts round it are known.
split_at_arrow :
    (from to a b : Text)
    → IsSingle a
    → IsSingle b
    → from ++ b'>' ∷ to ≡ a ++ b'>' ∷ b
    → (from ≡ a) × (to ≡ b)
split_at_arrow [] to [] b ha hb h = (refl, (cons-inj h).1)
split_at_arrow [] to (d ∷ a) b ha hb h = let (p, _) = cons-inj h in absurd (ground arith)
split_at_arrow (c ∷ from) to [] b ha hb h = absurd (behind_arrow from to (rw (cons-inj h).1 hb))
split_at_arrow (c ∷ from) to (d ∷ a) b ha hb h =
    let (p, q) = cons-inj h in
    let (x, y) = split_at_arrow from to a b (or-eq-false _ _ ha).1 hb q in (ap₂ ◌∷◌ p x, y)

-- an arrow with its ends, and the text that stands for it in the table
abbrev Ends : Type 0
Ends = (s : JobState) × (t : JobState) × (s ⟶ t)

abbrev label : Ends → Text
label (s, t, e) = name s ++ b'>' ∷ name t

arrow_list : List Ends
arrow_list =
    (queued, granted, grant)
    ∷ (queued, cancelled, drop_queued)
    ∷ (granted, running, start)
    ∷ (granted, cancelled, drop_granted)
    ∷ (granted, expired, lapse)
    ∷ (running, checkpointed, pause)
    ∷ (running, succeeded, finish)
    ∷ (running, failed, break_running)
    ∷ (running, cancelling, stop_running)
    ∷ (running, timed_out, overrun)
    ∷ (checkpointed, running, continue)
    ∷ (checkpointed, failed, break_paused)
    ∷ (checkpointed, cancelling, stop_paused)
    ∷ (checkpointed, timed_out, overrun_paused)
    ∷ (cancelling, cancelled, stopped)
    ∷ (cancelling, failed, break_stopping)
    ∷ []

edges-eq-map : edges ≡ map label arrow_list
unfolding edges arrow_list
edges-eq-map = refl

has-map : (es : List Ends) (x : Text) → has (map label es) x ≡ true → (e : Ends) × (x ≡ label e)
has-map [] x h = cc
has-map (e ∷ es) x h = elim (beq_cases (label e) x) [
  | inl same ↦ (e, sym same)
  | inr other ↦ has-map es x (rw other at h)
]

-- The states whose names two strings are, and the arrow between them.
abbrev pub Arrow : Text → Text → Type 0
Arrow from to = (s : JobState) × (t : JobState) × (from ≡ name s) × (to ≡ name t) × (s ⟶ t)

is_legal→Arrow : (from to : Text) → is_legal_transition from to ≡ true → Arrow from to
is_legal→Arrow from to h =
    let ((s, t, e), p) =
      has-map arrow_list (from ++ b'>' ∷ to)
        (rw (sym edges-eq-map) (unfold is_legal_transition in h)) in
    let (x, y) = split_at_arrow from to (name s) (name t) (name-IsSingle s) (name-IsSingle t) p in
    (s, t, x, y, e)

⟶→is_legal : (s t : JobState) → s ⟶ t → is_legal_transition (name s) (name t) ≡ true
unfolding is_legal_transition
⟶→is_legal s t grant = refl
⟶→is_legal s t _ = refl

-- Whatever two strings are asked about, the table admits them exactly when they are the names of
-- two states that an arrow of the diagram joins.
pub is_legal_transition_iff :
    (from to : Text) → (is_legal_transition from to ≡ true) ↔ Arrow from to
is_legal_transition_iff from to =
    (is_legal→Arrow from to, λ (s, t, p, q, e). rw (p, q) (⟶→is_legal s t e))

abbrev pub IsTerminal : JobState → Type 0
IsTerminal succeeded = Unit
IsTerminal failed = Unit
IsTerminal cancelled = Unit
IsTerminal timed_out = Unit
IsTerminal expired = Unit
IsTerminal _ = ⊥

-- Nothing leaves a terminal state, whatever it is asked to become.
pub terminal_absorbs :
    (s : JobState) (to : Text) → IsTerminal s → is_legal_transition (name s) to ≡ false
unfolding is_legal_transition
terminal_absorbs succeeded to h = refl
terminal_absorbs failed to h = refl
terminal_absorbs cancelled to h = refl
terminal_absorbs timed_out to h = refl
terminal_absorbs expired to h = refl
terminal_absorbs _ to h = elim h [ ]

-- Every state has a way to a terminal state.
pub IsTerminal-reachable : (s : JobState) → (t : JobState) × IsTerminal t × (s ⟶* t)
IsTerminal-reachable queued = (cancelled, tt, along drop_queued here)
IsTerminal-reachable granted = (expired, tt, along lapse here)
IsTerminal-reachable running = (succeeded, tt, along finish here)
IsTerminal-reachable checkpointed = (failed, tt, along break_paused here)
IsTerminal-reachable cancelling = (cancelled, tt, along stopped here)
IsTerminal-reachable succeeded = (succeeded, tt, here)
IsTerminal-reachable failed = (failed, tt, here)
IsTerminal-reachable cancelled = (cancelled, tt, here)
IsTerminal-reachable timed_out = (timed_out, tt, here)
IsTerminal-reachable expired = (expired, tt, here)
