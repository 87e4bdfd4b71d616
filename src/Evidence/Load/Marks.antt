-- ===== src/Evidence/Load/Marks.antt =====
-- What loaded evidence stands for.
use mgds.Prelude.{
  Bool, Bool-cases, Dict, List, Memᴰ, Option, Option-cases, Result, Text, [], and-eq-true, beq_refl,
  eq_of_beq, err, get, get-put, guard-none, inl, inr, leb, leb→le, length, ltb, nat_eq, need-ok,
  none, ok, ok-inj, put, refl, some, some-inj, sym, text_eq, true, ℕ, ◌&&◌, ◌+◌, ◌==◌, ◌∷◌, ◌≡◌,
  ◌≤◌, ◌⊎◌,
}
use mgds.Json.{Value}
use mgds.Campaign.Types.{Slot, Plan, Run}
use mgds.Campaign.Aggregate.{Checks, index_slots}
use mgds.Evidence.Build.{Reader}
use mgds.Evidence.Check.{
  Problem, Bundle, raw, max_evidence_bundle_bytes, verify_evidence_bundle, bundle_problem,
  identity_of_verified, same_text,
}
use mgds.Evidence.Accepted.{Evidenced, accepted_bundle}
use mgds.Evidence.Load.{
  LoadError, max_campaign_evidence_bytes, inputs_invalid, hashes_not_unique, size_exceeded,
  byte_budget_exceeded, content_mismatch, evidence_hashes, mark, unless, index_entries,
  with_entries, load_bytes, load_run, load_runs, load_campaign_evidence,
}

unless-ok {ℓ} :
    {A : Type ℓ} (o : Option Problem) (r : Result LoadError A) (a : A)
    → unless o r ≡ ok a
    → (o ≡ none) × (r ≡ ok a)
unless-ok none r a h = (refl, h)
unless-ok (some problem) r a h = cc

get-single : (hash : Text) (b : Bundle) → get ((hash, b) ∷ []) hash ≡ some b
unfolding get
get-single hash b = rw (beq_refl hash) refl

module _ (reader : Reader) (read_evidence_file : Text → ℕ → Option (List ℕ))
    (slots : Dict Text Slot) where
  -- a run whose evidence was read, after so many bytes
  pub record Backed (total : ℕ) (run : Run) : Type 0 where
    pub path : Text
    pub bytes : List ℕ
    pub bundle : Value
    pub read : read_evidence_file path max_evidence_bundle_bytes ≡ some bytes
    pub small : length bytes ≤ max_evidence_bundle_bytes
    pub budget : total + length bytes ≤ max_campaign_evidence_bytes
    pub hashed : reader.hash_bytes bytes ≡ run.evidence_hash
    pub parsed : reader.parse (reader.to_text bytes) ≡ some bundle
    pub evidenced : Evidenced reader run (get slots run.slot_id) bundle

  -- all of them, each after the bytes of those before it
  abbrev pub AllBacked : ℕ → List Run → Type 0
  AllBacked total [] = Unit
  AllBacked total (run ∷ runs) = (b : Backed total run) × AllBacked (total + length b.bytes) runs

  load_bytes-Backed :
      (run : Run) (path : Text) (total : ℕ) (o : Option (List ℕ))
      (go : ℕ → Result LoadError (Dict Text Bundle)) (bundles : Dict Text Bundle)
      → read_evidence_file path max_evidence_bundle_bytes ≡ o
      → load_bytes reader read_evidence_file (get slots run.slot_id) run path total o go
        ≡ ok bundles
      → (b : Backed total run) × (go (total + length b.bytes) ≡ ok bundles)
  unfolding get
  load_bytes-Backed run path total none go bundles e h = cc
  load_bytes-Backed run path total (some bytes) go bundles e h =
      let (size, h1) =
        need-ok (ltb 0 (length bytes) && leb (length bytes) max_evidence_bundle_bytes)
          (size_exceeded path) _ bundles h in
      let (budget, h2) =
        need-ok (leb (total + length bytes) max_campaign_evidence_bytes) byte_budget_exceeded _
          bundles h1 in
      let (hashed, h3) =
        need-ok (reader.hash_bytes bytes == run.evidence_hash) (content_mismatch run.evidence_hash)
          _ bundles h2 in
      let (accepted, h4) =
        unless-ok
          (verify_evidence_bundle reader ((run.evidence_hash, raw bytes) ∷ []) run
            (get slots run.slot_id))
          _ bundles h3 in
      let (small, _, (bundle, parsed, evidenced)) =
        accepted_bundle reader ((run.evidence_hash, raw bytes) ∷ []) run (get slots run.slot_id)
          bytes (get-single run.evidence_hash (raw bytes)) accepted in
      (
        record {
          path = path;
          bytes = bytes;
          bundle = bundle;
          read = e;
          small = small;
          budget = leb→le (total + length bytes) max_campaign_evidence_bytes budget;
          hashed = eq_of_beq (reader.hash_bytes bytes) run.evidence_hash hashed;
          parsed = parsed;
          evidenced = evidenced;
        },
        h4,
      )

  load_run-Backed :
      (run : Run) (total : ℕ) (o : Option Text) (go : ℕ → Result LoadError (Dict Text Bundle))
      (bundles : Dict Text Bundle)
      → load_run reader read_evidence_file (get slots run.slot_id) run total o go ≡ ok bundles
      → (b : Backed total run) × (go (total + length b.bytes) ≡ ok bundles)
  load_run-Backed run total none go bundles h = cc
  load_run-Backed run total (some path) go bundles h =
      load_bytes-Backed run path total (read_evidence_file path max_evidence_bundle_bytes) go
        bundles refl h

  module _ (entries : Dict Text Text) where
    load_runs-Backed :
        (total : ℕ) (bundles out : Dict Text Bundle) (runs : List Run)
        → load_runs reader read_evidence_file slots entries total bundles runs ≡ ok out
        → AllBacked total runs
    unfolding load_runs
    load_runs-Backed total bundles out [] h = tt
    load_runs-Backed total bundles out (run ∷ runs) h =
        let (b, more) = load_run-Backed run total (get entries run.evidence_hash) _ out h in
        (
          b,
          load_runs-Backed (total + length b.bytes) (put bundles run.evidence_hash (mark run)) out
              runs more,
        )

    -- a bundle in the map was there before or is the mark of a run
    load_runs-mark :
        (total : ℕ) (bundles out : Dict Text Bundle) (runs : List Run) (hash : Text) (b : Bundle)
        → load_runs reader read_evidence_file slots entries total bundles runs ≡ ok out
        → get out hash ≡ some b
        → (get bundles hash ≡ some b) ⊎ ((run : Run) × Memᴰ run runs × (b ≡ mark run))
    unfolding load_runs
    load_runs-mark total bundles out [] hash b h e = inl (rw (sym (ok-inj h)) at e)
    load_runs-mark total bundles out (run ∷ runs) hash b h e =
        let (backed, more) = load_run-Backed run total (get entries run.evidence_hash) _ out h in
        elim (load_runs-mark (total + length backed.bytes)
          (put bundles run.evidence_hash (mark run)) out runs hash b more e) [
            | inr (other, m, same) ↦ inr (other, Memᴰ.tail m, same)
            | inl before ↦ elim (Bool-cases (run.evidence_hash == hash)) [
              | inl here_it ↦ inr (
                run,
                Memᴰ.head refl,
                sym (
                    some-inj
                      (rw (get-put bundles run.evidence_hash hash (mark run), here_it) at before)),
              )
              | inr other ↦
                  inl (rw (get-put bundles run.evidence_hash hash (mark run), other) at before)
            ]
          ]

with_entries-ok :
    (r : Result LoadError (Dict Text Text))
    (f : Dict Text Text → Result LoadError (Dict Text Bundle)) (out : Dict Text Bundle)
    → with_entries r f ≡ ok out
    → (entries : Dict Text Text) × (f entries ≡ ok out)
with_entries-ok (ok entries) f out h = (entries, h)
with_entries-ok (err x) f out h = cc

-- the key of a mark, once the one it stands for is known
accepted_mark :
    (run other : Run) (slot : Option Slot) (reader : Reader)
    → bundle_problem reader run slot (some (mark other)) ≡ none
    → (other.evidence_hash ≡ run.evidence_hash)
      × (same_text other.run_id run.run_id ≡ true)
      × (other.slot_id ≡ run.slot_id)
accepted_mark run other slot reader h =
    let (all, _) =
      guard-none
        (other.evidence_hash == run.evidence_hash
          && same_text other.run_id run.run_id
          && other.slot_id == run.slot_id)
        identity_of_verified none h in
    let (front, last) =
      and-eq-true (other.evidence_hash == run.evidence_hash && same_text other.run_id run.run_id)
        (other.slot_id == run.slot_id) all in
    let (first, middle) =
      and-eq-true (other.evidence_hash == run.evidence_hash) (same_text other.run_id run.run_id)
        front in
    (
      eq_of_beq other.evidence_hash run.evidence_hash first,
      middle,
      eq_of_beq other.slot_id run.slot_id last,
    )

module _ (reader : Reader) (read_evidence_file : Text → ℕ → Option (List ℕ)) (checks : Checks)
    (index_ok : Dict Text Text → Bool) (plan : Plan) (runs : List Run) (index : Dict Text Text)
    (bundles : Dict Text Bundle)
    (loaded : load_campaign_evidence reader read_evidence_file checks index_ok plan runs index
      ≡ ok bundles) where
  loaded_runs :
      (entries : Dict Text Text) × (load_runs reader read_evidence_file
          (index_slots [] plan.slots)
          entries
          0
          []
          runs
        ≡ ok bundles)
  unfolding load_campaign_evidence
  loaded_runs =
      let (_, h1) =
        need-ok (checks.plan_ok plan && index_ok index) inputs_invalid _ bundles loaded in
      let (_, h2) = need-ok _ hashes_not_unique _ bundles h1 in
      with_entries-ok (index_entries (evidence_hashes runs) [] index) _ bundles h2

  -- If the evidence of a campaign is loaded, then for every run a file was read whose bytes are within
  -- the limit of a bundle and have the run's evidence hash, and what they parse to is evidence of the
  -- run; and the bytes of all the files together are within the limit of a campaign.
  pub loaded_evidence_backs_runs :
      AllBacked reader read_evidence_file (index_slots [] plan.slots) 0 runs
  loaded_evidence_backs_runs =
      let (entries, h) = loaded_runs in
      load_runs-Backed reader read_evidence_file (index_slots [] plan.slots) entries 0 [] bundles
        runs h

  -- A run is accepted on the loaded evidence only if it has the evidence hash, the run identity and
  -- the slot of one of the runs that the evidence was loaded for: no mark covers another run.
  pub marks_cover_loaded_runs :
      (run : Run) (slot : Option Slot)
      → verify_evidence_bundle reader bundles run slot ≡ none
      → (other : Run) × Memᴰ other runs
        × (other.evidence_hash ≡ run.evidence_hash)
        × (same_text other.run_id run.run_id ≡ true)
        × (other.slot_id ≡ run.slot_id)
  unfolding verify_evidence_bundle get
  marks_cover_loaded_runs run slot accepted =
      let (entries, h) = loaded_runs in
      elim (Option-cases (get bundles run.evidence_hash)) [
        | inl out ↦ cc (rw out at accepted)
        | inr (b, found) ↦
            elim (load_runs-mark reader read_evidence_file (index_slots [] plan.slots) entries 0 []
              bundles runs run.evidence_hash b h found) [
                | inl e ↦ cc
                | inr (other, m, same) ↦
                    let (hashes, names, slots) =
                      accepted_mark run other slot reader (rw (found, same) at accepted) in
                    (other, m, hashes, names, slots)
              ]
      ]
