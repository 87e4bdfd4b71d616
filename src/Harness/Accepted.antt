-- ===== src/Harness/Accepted.antt =====
-- What an accepted answer of a harness is good for, and what a harness sees of the environment.
use mgds.Prelude.{
  All, Bool, Dict, List, Option, Result, Text, [], and-eq-true, arith, beq_refl, err, get, has, leb,
  leb→le, lit, nat_eq, need-ok, need-true, negsuc, none, ok, ok-inj, pos, refl, some, text_eq, true,
  ℕ, ◌&&◌, ◌*◌, ◌++◌, ◌==◌, ◌||◌, ◌∙◌, ◌∷◌, ◌≡◌, ◌≢◌, ◌≤◌,
}
use mgds.Json.{Value, null, bool, num, str, arr, obj}
use mgds.Json.Access.{member, is_str, exact_keys}
use mgds.Campaign.Types.{Slot}
use mgds.Harness.{
  HarnessError, is_argument, invalid_outcome, not_publishable, is_within, is_status, outcome_keys,
  valid_outcome, outcome_of, accept_outcome, parse_harness_outcome, is_integer, harness_record,
  build_harness_record, base_names, auth_names, kept_entry, kept_entries,
  sanitize_harness_environment, environment_required,
}

is_within-le :
    (most : ℕ) (o : Option Value)
    → is_within most o ≡ true
    → (n : ℕ) × (o ≡ some (num (pos n))) × (n ≤ most)
is_within-le most none h = cc
is_within-le most (some null) h = cc
is_within-le most (some (bool b)) h = cc
is_within-le most (some (num (pos n))) h = (n, refl, leb→le n most h)
is_within-le most (some (num (negsuc n))) h = cc
is_within-le most (some (str t)) h = cc
is_within-le most (some (arr items)) h = cc
is_within-le most (some (obj fs)) h = cc

-- an outcome with two counts within the limit
pub record Counted (outcome : Value) : Type 0 where
  pub changed_files : ℕ
  pub commands_run : ℕ
  pub changed : member (lit "changedFiles") outcome ≡ some (num (pos changed_files))
  pub ran : member (lit "commandsRun") outcome ≡ some (num (pos commands_run))
  pub few : (changed_files ≤ 10000) × (commands_run ≤ 10000)
  pub status : is_status (member (lit "status") outcome) ≡ true

valid_outcome-Counted : (outcome : Value) → valid_outcome outcome ≡ true → Counted outcome
unfolding valid_outcome
valid_outcome-Counted outcome h =
    let keyed = exact_keys outcome outcome_keys in
    let named = is_str (lit "mgds.harness-outcome/v1") (member (lit "schema") outcome) in
    let (front, ran) =
      and-eq-true
        (keyed
          && named
          && is_status (member (lit "status") outcome)
          && is_within 10000 (member (lit "changedFiles") outcome))
        _ h in
    let (before, changed) =
      and-eq-true (keyed && named && is_status (member (lit "status") outcome)) _ front in
    let (_, status) = and-eq-true (keyed && named) _ before in
    let (n, en, ln) = is_within-le 10000 (member (lit "changedFiles") outcome) changed in
    let (m, em, lm) = is_within-le 10000 (member (lit "commandsRun") outcome) ran in
    record {
      changed_files = n;
      commands_run = m;
      changed = en;
      ran = em;
      few = (ln, lm);
      status = status;
    }

accept_outcome-ok :
    (publishable : Value → Bool) (r : Result HarnessError Value) (outcome : Value)
    → accept_outcome publishable r ≡ ok outcome
    → (valid_outcome outcome ≡ true) × (publishable outcome ≡ true)
accept_outcome-ok publishable (err x) outcome h = cc
accept_outcome-ok publishable (ok o) outcome h =
    let (valid, h1) = need-ok (valid_outcome o) invalid_outcome _ outcome h in
    let (public, e) = need-ok (publishable o) not_publishable _ outcome h1 in
    rw⁻¹ (ok-inj e) (valid, public)

four_hold : {a b c d : Bool} → a ≡ true → b ≡ true → c ≡ true → d ≡ true → (a && b && c && d) ≡ true
four_hold ha hb hc hd = rw (ha, hb, hc, hd) refl

-- An answer of a harness that is accepted has two counts of at most 10000 and one of the two statuses, may
-- be published, and always gives a record of its slot: if the slot's names and the model are
-- arguments, the time is positive and the record may be published.
pub accepted_outcome_recorded :
    (parse : Text → Option Value) (byte_length : Text → ℕ) (publishable : Value → Bool)
    (harness output : Text) (outcome : Value) (slot : Slot) (model : Text) (duration_ms : ℕ)
    → parse_harness_outcome parse byte_length publishable harness output ≡ ok outcome
    → is_argument slot.slot_id ≡ true
    → is_argument slot.host ≡ true
    → is_argument slot.harness ≡ true
    → is_argument model ≡ true
    → leb 1 duration_ms ≡ true
    → publishable (harness_record slot model outcome duration_ms) ≡ true
    → Counted outcome
      × (publishable outcome ≡ true)
      × (build_harness_record publishable slot model outcome duration_ms
          ≡ ok (harness_record slot model outcome duration_ms))
unfolding parse_harness_outcome build_harness_record
accepted_outcome_recorded parse byte_length publishable harness output outcome slot model
      duration_ms h a b c d e p =
    let (_, h1) = need-ok (leb (byte_length output) (64 * 1024)) invalid_outcome _ outcome h in
    let (valid, public) =
      accept_outcome-ok publishable (outcome_of harness (parse output)) outcome h1 in
    let counts = valid_outcome-Counted outcome valid in
    let whole : is_integer (member (lit "changedFiles") outcome) ≡ true = rw counts.changed refl in
    let run : is_integer (member (lit "commandsRun") outcome) ≡ true = rw counts.ran refl in
    (
      counts,
      public,
      need-true _ _ _ a
          ∙ need-true _ _ _ b
          ∙ need-true _ _ _ c
          ∙ need-true _ _ _ d
          ∙ need-true _ _ _ (four_hold counts.status whole run e)
          ∙ need-true _ _ _ p,
    )

-- an entry that was taken over
abbrev pub FromSource : Dict Text Text → List Text → (Text × Text) → Type 0
FromSource source names entry =
    (get source entry.0 ≡ some entry.1) × (has names entry.0 ≡ true) × (entry.1 ≢ [])

kept_entries-FromSource :
    (source : Dict Text Text) (all names : List Text)
    → All (λ name. has all name ≡ true) names
    → All (FromSource source all) (kept_entries source names)
unfolding kept_entries
kept_entries-FromSource source all [] h = tt
kept_entries-FromSource source all (name ∷ names) h =
    go (get source name) refl (kept_entries-FromSource source all names h.1)
  where
    go :
        (o : Option Text)
        → get source name ≡ o
        → All (FromSource source all) (kept_entries source names)
        → All (FromSource source all) (kept_entry name o (kept_entries source names))
    go none e rest = rest
    go (some []) e rest = rest
    go (some (c ∷ value)) e rest = ((e, h.0, λ x. cc), rest)

or_true : (a : Bool) → (a || true) ≡ true
or_true a = ground arith

every_has : (names : List Text) → All (λ name. has names name ≡ true) names
every_has names = within names names (λ name h. h)
  where
    within :
        (all names : List Text)
        → ((name : Text) → has names name ≡ true → has all name ≡ true)
        → All (λ name. has all name ≡ true) names
    within all [] h = tt
    within all (name ∷ names) h = (
      h name (rw (beq_refl name) refl),
      within all names (λ other m. h other (rw m (or_true (name == other)))),
    )

-- A harness sees nothing of the environment but entries of the base names and of its own
-- credentials, each as it stands in the environment and none of them empty.
pub sanitized_environment_is_allowed :
    (harness : Text) (source kept : Dict Text Text)
    → sanitize_harness_environment harness source ≡ ok kept
    → All (FromSource source (base_names ++ auth_names harness)) kept
unfolding sanitize_harness_environment
sanitized_environment_is_allowed harness source kept h =
    let (_, e) =
      need-ok (harness == lit "codex" || harness == lit "claude-code") environment_required _ kept
        h in
    rw⁻¹ (ok-inj e) (
      kept_entries-FromSource source (base_names ++ auth_names harness)
        (base_names ++ auth_names harness) (every_has (base_names ++ auth_names harness)))
