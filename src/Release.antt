-- ===== src/Release.antt =====
-- packages/release/src/p2-gate.mjs: the inputs of the gate, and its checks of the plan and of the
-- host evidence.
pub mod Manifest
pub mod Input
pub mod Gate
pub mod Hosts
pub mod Checkout
pub mod Pinned
pub mod Hosted
pub mod Ready
pub mod Grid
pub mod Released
pub mod Signing
pub mod Options
pub mod World
pub mod Script
use mgds.Prelude.{
  Bool, Dict, List, Option, Text, [], eqb, every, false, flat_map, get, has, if◌then◌else◌,
  is_digit, is_hash, is_hex, join, leb, length, lit, ltb, map, nat_eq, none, print_ℕ, put, some,
  sort_texts, strip, text_eq, true, ℕ, ◌&&◌, ◌++◌, ◌==◌, ◌||◌, ◌∷◌,
}
use mgds.Campaign.Types.{Thresholds, Slot, Plan, Rate}
use mgds.Campaign.Aggregate.{canonical_texts, distinct}

abbrev pub required_hosts : List Text
required_hosts = lit "linux-x64" ∷ lit "macos-arm64" ∷ lit "windows-x64" ∷ []

abbrev pub required_harnesses : List Text
required_harnesses = lit "claude-code" ∷ lit "codex" ∷ []

abbrev pub required_seeds : List ℕ
required_seeds = 1337 ∷ 7331 ∷ 424242 ∷ []

abbrev pub required_repetitions : List ℕ
required_repetitions = 1 ∷ 2 ∷ 3 ∷ 4 ∷ 5 ∷ []

abbrev pub expected_campaign : Text
expected_campaign = lit "mgds.campaign.p2@0.1.0"

abbrev pub expected_task : Text
expected_task = lit "mgds.golden-arena.key-exit@0.1.0"

abbrev pub expected_runs : ℕ
expected_runs = 90

abbrev workflow_ref : Text
workflow_ref = lit "gmackie/mgds/.github/workflows/conformance.yml@refs/heads/main"

abbrev required_evidence : List Text
required_evidence =
    lit "compile" ∷ lit "event-ledger" ∷ lit "player-build" ∷ lit "screenshot" ∷ lit "tests" ∷ []

abbrev pub empty_sha256 : Text
empty_sha256 = lit "sha256:e3b0c44298fc1c149afbf4c8996fb92427ae41e4649b934ca495991b7852b855"

-- /^[a-f0-9]{40}(?:[a-f0-9]{24})?$/
unfoldable pub is_source_digest : Text → Bool
is_source_digest s = (eqb (length s) 40 || eqb (length s) 64) && every is_hex s

-- /^0\.1\.0-preview\.[1-9][0-9]*$/
abbrev is_preview_rest : Option Text → Bool
is_preview_rest none = false
is_preview_rest (some []) = false
is_preview_rest (some (c ∷ s)) = leb b'1' c && leb c b'9' && every is_digit s

unfoldable pub is_preview : Text → Bool
is_preview version = is_preview_rest (strip (lit "0.1.0-preview.") version)

abbrev pub slot_identity : Text → Text → Text → ℕ → ℕ → Text
slot_identity task host harness seed repetition =
    join (lit "::") (task ∷ host ∷ harness ∷ print_ℕ seed ∷ print_ℕ repetition ∷ [])

-- the set that the four loops of `validP2Plan` fill
unfoldable pub expected_slots : List Text
unfolding flat_map print_ℕ
expected_slots =
    flat_map
      (λ host.
        flat_map
          (λ harness.
            flat_map
              (λ seed.
                map (λ repetition. slot_identity expected_task host harness seed repetition)
                  required_repetitions)
              required_seeds)
          required_harnesses)
      required_hosts

-- `Set.delete` of a value that is there
abbrev pub delete : Text → List Text → List Text
delete t [] = []
delete t (u ∷ ts) = let rest = delete t ts in if u == t then rest else u ∷ rest

abbrev pub is_rate_one : Rate → Bool
is_rate_one rate = ltb 0 rate.bottom && eqb rate.top rate.bottom

abbrev pub keeps_environment : Option Text → Text → Bool
keeps_environment none hash = true
keeps_environment (some previous) hash = previous == hash

-- the tests of one slot, but for the deletion of its identity
unfoldable pub valid_p2_slot : Slot → Bool
unfolding sort_texts print_ℕ is_hash canonical_texts
valid_p2_slot slot =
    slot.campaign_id == expected_campaign
    && slot.task_id == expected_task
    && slot.slot_id == slot_identity slot.task_id slot.host slot.harness slot.seed slot.repetition
    && is_hash slot.task_hash
    && is_hash slot.budget_hash
    && is_hash slot.environment_hash
    && canonical_texts (sort_texts slot.required_evidence) == canonical_texts required_evidence
    && slot.build_target == lit "desktop"

-- the loop over the slots: the identities that are left and the environment of each host
unfoldable pub check_slots :
    List Text → Dict Text Text → List Slot → Option (List Text × Dict Text Text)
unfolding valid_p2_slot
check_slots expected environments [] = some (expected, environments)
check_slots expected environments (slot ∷ slots) =
    let rest =
      check_slots (delete slot.slot_id expected) (put environments slot.host slot.environment_hash)
        slots in
    if valid_p2_slot slot
      && has expected slot.slot_id
      && keeps_environment (get environments slot.host) slot.environment_hash
    then rest
    else none

abbrev pub is_drained : List Text → Bool
is_drained [] = true
is_drained (t ∷ ts) = false

abbrev pub plan_end : Plan → Option (List Text × Dict Text Text) → Bool
plan_end plan none = false
plan_end plan (some (expected, environments)) =
    is_drained expected
    && eqb (length environments) 3
    && eqb
        (length (distinct [] (map (λ slot. slot.task_hash ++ b':' ∷ slot.budget_hash) plan.slots)))
        1

abbrev pub valid_thresholds : Thresholds → Bool
valid_thresholds thresholds =
    is_rate_one thresholds.seed_agreement
    && is_rate_one thresholds.t0_pass_rate
    && eqb thresholds.orphan_processes 0
    && eqb thresholds.unknown_workspace_states 0

unfoldable pub valid_p2_plan : Plan → Bool
unfolding check_slots expected_slots distinct
valid_p2_plan plan =
    (plan.campaign_id == expected_campaign
      && eqb plan.soak_minutes 240
      && valid_thresholds plan.thresholds
      && eqb (length plan.slots) expected_runs)
    && plan_end plan (check_slots expected_slots [] plan.slots)

pub record HostEvidence : Type 0 where
  pub host : Text
  pub status : Text
  pub artifact_hash : Text
  pub attestation_verified : Bool
  pub repository : Text
  pub workflow_ref : Text
  pub source_digest : Text
  pub subject_digest : Text
  pub verification_digest : Text

abbrev pub valid_host_item : Text → HostEvidence → Bool
valid_host_item release_source_digest item =
    item.status == lit "pass"
    && is_hash item.artifact_hash
    && item.attestation_verified
    && item.repository == lit "gmackie/mgds"
    && item.workflow_ref == workflow_ref
    && item.source_digest == release_source_digest
    && item.subject_digest == item.artifact_hash
    && is_hash item.verification_digest

unfoldable pub valid_host_evidence : List HostEvidence → Text → Bool
unfolding is_hash distinct
valid_host_evidence evidence release_source_digest =
    let hosts = map (λ (item : HostEvidence). item.host) evidence in
    eqb (length evidence) 3
    && eqb (length (distinct [] hosts)) 3
    && every (λ host. has hosts host) required_hosts
    && every (valid_host_item release_source_digest) evidence
