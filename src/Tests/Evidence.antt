-- ===== src/Tests/Evidence.antt =====
-- A picture of one point, and an evidence bundle whose one artifact is a compile report.
use mgds.Prelude.{
  Bool, Dict, List, Memᴰ, Option, Text, [], arith, get, if◌then◌else◌, leb, length, lit, nat_eq,
  none, ok, pos, refl, some, text_eq, true, zeros, ℕ, ◌++◌, ◌<◌, ◌==◌, ◌↔◌, ◌∷◌, ◌≡◌, ◌≤◌,
}
use mgds.Json.{Value, num, str, arr, nil, cons, obj, field, end, canonical}
use mgds.Ledger.{verify_from}
use mgds.Campaign.Types.{Slot, Plan, Run}
use mgds.Evidence.Png.{blank, png_loop, valid_png}
use mgds.Evidence.Png.Loop.{png_loop-ends}
use mgds.Evidence.Png.Sound.{Sound, valid_png-Sound}
use mgds.Evidence.Build.{Reader, valid_portable_build_name}
use mgds.Evidence.Check.{
  Bundle, raw, ledger_problem, verify_evidence_bundle, max_evidence_bundle_bytes,
}
use mgds.Evidence.Accepted.{ledger_problem_iff, accepted_bundle, Evidenced, ledger_hash, entries_of}
use mgds.Evidence.Load.{load_campaign_evidence, mark}
use mgds.Evidence.Load.Marks.{AllBacked, loaded_evidence_backs_runs, marks_cover_loaded_runs}
use mgds.Campaign.Aggregate.{index_slots}
use mgds.Evidence.Check.{same_text}
use mgds.Tests.Toy.{lenient, perfect, toy, hash_a, run_for}

-- unpacking as the identity, with its limit
abbrev unpack : List ℕ → ℕ → Option (List ℕ)
unpack bytes limit = if leb (length bytes) limit then some bytes else none

abbrev point : List ℕ
point =
    137 ∷ 80 ∷ 78 ∷ 71 ∷ 13 ∷ 10 ∷ 26 ∷ 10 ∷ 0 ∷ 0 ∷ 0 ∷ 13 ∷ 73 ∷ 72 ∷ 68 ∷ 82 ∷ 0 ∷ 0 ∷ 0 ∷ 1 ∷ 0
    ∷ 0 ∷ 0 ∷ 1 ∷ 8 ∷ 0 ∷ 0 ∷ 0 ∷ 0 ∷ 58 ∷ 126 ∷ 155 ∷ 85 ∷ 0 ∷ 0 ∷ 0 ∷ 2 ∷ 73 ∷ 68 ∷ 65 ∷ 84 ∷ 0
    ∷ 7 ∷ 226 ∷ 159 ∷ 40 ∷ 25 ∷ 0 ∷ 0 ∷ 0 ∷ 0 ∷ 73 ∷ 69 ∷ 78 ∷ 68 ∷ 174 ∷ 66 ∷ 96 ∷ 130 ∷ []

point_valid : valid_png unpack point ≡ true
unfolding valid_png
point_valid = refl

valid_png-Sound_example : Sound unpack point
valid_png-Sound_example = valid_png-Sound unpack point point_valid

point_shorter : length point < 60
point_shorter = ground arith

png_loop-ends_example : (b : Bool) × (png_loop unpack 60 point blank ≡ some b)
png_loop-ends_example = png_loop-ends unpack 60 point blank point_shorter

abbrev build_name : Text
build_name = lit "data/level1.bin"

build_name_valid : valid_portable_build_name build_name ≡ true
unfolding valid_portable_build_name
build_name_valid = refl

abbrev report : Value
report = obj (
    field (lit "schema") (str (lit "mgds.compile-report/v1"))
      (field (lit "status") (str (lit "pass")) (field (lit "diagnostics") (arr nil) end)))

abbrev tagged : Text → Text
tagged t = lit "sha256:" ++ toy t

abbrev unsealed : Value
unsealed = obj (
    field (lit "sequence") (num (pos 1)) (
      field (lit "previousHash") (str (zeros 64))
        (field (lit "event") (obj (field (lit "kind") (str (lit "compiled")) end)) end)))

abbrev event : Value
event = obj (
    field (lit "sequence") (num (pos 1)) (
      field (lit "previousHash") (str (zeros 64)) (
        field (lit "event") (obj (field (lit "kind") (str (lit "compiled")) end))
          (field (lit "hash") (str (toy (canonical unsealed))) end))))

-- the report's bytes stand for their own base64
abbrev artifact : Value
artifact = obj (
    field (lit "role") (str (lit "compile")) (
      field (lit "hash") (str (tagged (lit "report")))
        (field (lit "bytesBase64") (str (lit "report")) end)))

abbrev bundle_for : Text → Value
bundle_for slot_id = obj (
    field (lit "schema") (str (lit "mgds.campaign-evidence/v1")) (
      field (lit "runId") (str (lit "run-1")) (
        field (lit "slotId") (str slot_id) (
          field (lit "replayStatus") (str (lit "verified")) (
            field (lit "events") (arr (cons event nil))
              (field (lit "artifacts") (arr (cons artifact nil)) end))))))

-- two texts that parse, and hashes that depend on the text
abbrev pub reader_for : Text → Reader
reader_for slot_id = record {
  hash_text = tagged;
  hash_bytes = tagged;
  parse = λ t.
      if t == lit "report"
      then some report
      else if t == lit "bundle"
      then some (bundle_for slot_id)
      else none;
  to_text = λ bytes. bytes;
  decode_utf8 = λ bytes. some bytes;
  from_base64 = λ t. t;
  to_base64 = λ bytes. bytes;
  inflate = unpack;
  evidence_ok = λ v. true;
  publishable = λ v. true;
}

abbrev pub reader : Reader
reader = reader_for (lit "slot-1")

abbrev pub slot : Slot
slot = record {
  slot_id = lit "slot-1";
  campaign_id = lit "campaign";
  task_id = lit "task";
  task_hash = hash_a;
  budget_hash = hash_a;
  environment_hash = hash_a;
  required_evidence = lit "compile" ∷ [];
  build_target = lit "desktop";
  host = lit "linux-x64";
  harness = lit "codex";
  seed = 7;
  repetition = 1;
}

abbrev pub run : Run
run = record (run_for slot (lit "run-1")) { evidence_hash = tagged (lit "bundle") }

abbrev bundles : Dict Text Bundle
bundles = (run.evidence_hash, raw (lit "bundle")) ∷ []

found : get bundles run.evidence_hash ≡ some (raw (lit "bundle"))
unfolding get toy
found = refl

bundle_verifies : verify_evidence_bundle reader bundles run (some slot) ≡ none
unfolding verify_evidence_bundle get toy canonical
bundle_verifies = refl

accepted_bundle_example :
    (length (lit "bundle") ≤ max_evidence_bundle_bytes)
    × (reader.hash_bytes (lit "bundle") ≡ run.evidence_hash)
    × ((v : Value) × (reader.parse (reader.to_text (lit "bundle")) ≡ some v)
        × Evidenced reader run (some slot) v)
accepted_bundle_example =
    accepted_bundle reader bundles run (some slot) (lit "bundle") found bundle_verifies

ledger_problem_iff_example :
    (ledger_problem reader 0 (str (zeros 64)) (cons event nil) ≡ none)
    ↔ (verify_from (ledger_hash reader) 0 (str (zeros 64)) (entries_of (cons event nil)) ≡ ok tt)
ledger_problem_iff_example = ledger_problem_iff reader 0 (str (zeros 64)) (cons event nil)

abbrev read : Text → ℕ → Option (List ℕ)
read path limit = if path == lit "evidence/one.json" then some (lit "bundle") else none

abbrev index : Dict Text Text
index = (run.evidence_hash, lit "evidence/one.json") ∷ []

abbrev pub plan : Plan
plan = record {
  campaign_id = lit "campaign";
  thresholds = perfect;
  soak_minutes = 60;
  slots = slot ∷ [];
}

abbrev marked : Dict Text Bundle
marked = (run.evidence_hash, mark run) ∷ []

loads : load_campaign_evidence reader read lenient (λ index. true) plan (run ∷ []) index ≡ ok marked
unfolding load_campaign_evidence verify_evidence_bundle get toy canonical
loads = refl

loaded_evidence_backs_runs_example : AllBacked reader read (index_slots [] plan.slots) 0 (run ∷ [])
loaded_evidence_backs_runs_example =
    loaded_evidence_backs_runs reader read lenient (λ index. true) plan (run ∷ []) index marked
      loads

marked_accepted : verify_evidence_bundle reader marked run (some slot) ≡ none
unfolding verify_evidence_bundle get toy
marked_accepted = refl

marks_cover_loaded_runs_example :
    (other : Run) × Memᴰ other (run ∷ [])
    × (other.evidence_hash ≡ run.evidence_hash)
    × (same_text other.run_id run.run_id ≡ true)
    × (other.slot_id ≡ run.slot_id)
marks_cover_loaded_runs_example =
    marks_cover_loaded_runs reader read lenient (λ index. true) plan (run ∷ []) index marked loads
      run (some slot) marked_accepted
