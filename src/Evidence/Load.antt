-- ===== src/Evidence/Load.antt =====
-- packages/campaign/src/index.mjs, `loadCampaignEvidence` with `validateRepositoryPath`. The index is the
-- list of its bundles, each a hash and a path. `readEvidenceFile` gives the bytes, or none where what it
-- gives is no byte array.
pub mod Marks
use mgds.Prelude.{
  Bool, Dict, List, Option, Result, Text, [], eqb, err, false, get, has, is_hash, leb, length, lit,
  ltb, nat_eq, need, none, not, ok, put, some, split_on, text_eq, true, ℕ, ◌&&◌, ◌*◌, ◌+◌, ◌==◌,
  ◌||◌, ◌∷◌,
}
use mgds.Campaign.Types.{Slot, Plan, Run}
use mgds.Campaign.Aggregate.{Checks, distinct, index_slots}
use mgds.Evidence.Build.{Reader}
use mgds.Evidence.Check.{
  Problem, Bundle, verified, raw, max_evidence_bundle_bytes, verify_evidence_bundle,
}

pub data LoadError : Type 0 where
  inputs_invalid hashes_not_unique invalid_index_hash byte_budget_exceeded : LoadError
  path_required unexpected_entry duplicate_entry missing_entry : Text → LoadError
  unable_to_read size_exceeded content_mismatch : Text → LoadError
  rejected : Problem → LoadError

abbrev pub max_campaign_evidence_bytes : ℕ
max_campaign_evidence_bytes = 256 * 1024 * 1024

unfoldable pub valid_repository_path : Text → Bool
valid_repository_path [] = false
valid_repository_path (c ∷ path) =
    not (eqb c b'/')
    && not (has (c ∷ path) b'\\')
    && not (has (split_on b'/' (c ∷ path)) (lit ".."))

abbrev pub is_missing {ℓ} : {A : Type ℓ} → Option A → Bool
is_missing none = true
is_missing (some a) = false

-- the loop over the index
unfoldable pub index_entries :
    List Text → Dict Text Text → Dict Text Text → Result LoadError (Dict Text Text)
unfolding is_hash valid_repository_path get put
index_entries expected entries [] = ok entries
index_entries expected entries ((hash, path) ∷ rest) = need (is_hash hash) invalid_index_hash (
    need (valid_repository_path path) (path_required path) (
      need (has expected hash) (unexpected_entry hash) (
        need (is_missing (get entries hash)) (duplicate_entry hash)
          (index_entries expected (put entries hash path) rest))))

abbrev pub evidence_hashes : List Run → List Text
evidence_hashes [] = []
evidence_hashes (run ∷ runs) = run.evidence_hash ∷ evidence_hashes runs

abbrev pub unless {ℓ} : {A : Type ℓ} → Option Problem → Result LoadError A → Result LoadError A
unless none r = r
unless (some problem) r = err (rejected problem)

abbrev pub with_entries :
    Result LoadError (Dict Text Text)
    → (Dict Text Text → Result LoadError (Dict Text Bundle))
    → Result LoadError (Dict Text Bundle)
with_entries (ok entries) f = f entries
with_entries (err x) f = err x

-- what a loaded bundle leaves in the map
abbrev pub mark : Run → Bundle
mark run = verified run.evidence_hash run.run_id run.slot_id

module _ (reader : Reader) (read_evidence_file : Text → ℕ → Option (List ℕ)) where
  abbrev pub load_bytes :
      Option Slot
      → Run
      → Text
      → ℕ
      → Option (List ℕ)
      → (ℕ → Result LoadError (Dict Text Bundle))
      → Result LoadError (Dict Text Bundle)
  load_bytes slot run path total none go = err (unable_to_read path)
  load_bytes slot run path total (some bytes) go =
      need (ltb 0 (length bytes) && leb (length bytes) max_evidence_bundle_bytes)
        (size_exceeded path)
        (need (leb (total + length bytes) max_campaign_evidence_bytes) byte_budget_exceeded (
          need (reader.hash_bytes bytes == run.evidence_hash) (content_mismatch run.evidence_hash) (
            unless (verify_evidence_bundle reader ((run.evidence_hash, raw bytes) ∷ []) run slot)
              (go (total + length bytes)))))

  abbrev pub load_run :
      Option Slot
      → Run
      → ℕ
      → Option Text
      → (ℕ → Result LoadError (Dict Text Bundle))
      → Result LoadError (Dict Text Bundle)
  load_run slot run total none go = err (missing_entry run.evidence_hash)
  load_run slot run total (some path) go =
      load_bytes slot run path total (read_evidence_file path max_evidence_bundle_bytes) go

  -- the loop over the runs
  unfoldable pub load_runs :
      Dict Text Slot
      → Dict Text Text
      → ℕ
      → Dict Text Bundle
      → List Run
      → Result LoadError (Dict Text Bundle)
  unfolding get put verify_evidence_bundle
  load_runs slots entries total bundles [] = ok bundles
  load_runs slots entries total bundles (run ∷ runs) =
      load_run (get slots run.slot_id) run total (get entries run.evidence_hash)
        (λ n. load_runs slots entries n (put bundles run.evidence_hash (mark run)) runs)

  unfoldable pub load_campaign_evidence :
      Checks
      → (Dict Text Text → Bool)
      → Plan
      → List Run
      → Dict Text Text
      → Result LoadError (Dict Text Bundle)
  unfolding load_runs index_entries index_slots distinct
  load_campaign_evidence checks index_ok plan runs index =
      need (checks.plan_ok plan && index_ok index) inputs_invalid (
        need
          (eqb (length (distinct [] (evidence_hashes runs))) (length runs) || eqb (length runs) 0)
          hashes_not_unique
          (with_entries (index_entries (evidence_hashes runs) [] index)
            (λ entries. load_runs (index_slots [] plan.slots) entries 0 [] runs)))
