-- ===== src/Tests/Operator.antt =====
-- The operator of a campaign of one slot.
use mgds.Prelude.{
  List, Text, [], drop, false, get, lit, nat_eq, none, ok, pos, put, refl, some, text_eq, true,
  zeros, ℕ, ◌++◌, ◌∷◌, ◌≡◌,
}
use mgds.Json.{Value, nil, cons, str, obj, field, end, canonical}
use mgds.Campaign.Types.{Run}
use mgds.Campaign.Attested.{campaign_run_attestation_payload}
use mgds.Trust.{is_signature, public_key_fingerprint}
use mgds.Operator.{
  Checkpoint, Files, Faults, select_host_slots, write_campaign_checkpoint_atomic,
  sign_evaluator_run,
}
use mgds.Operator.Atomic.{Outcome, checkpoint_outcome}
use mgds.Operator.Bundle.{Built, bundle_of, sealed_entry, artifact_of, build_campaign_evidence}
use mgds.Operator.Bundle.Replay.{Replays, built_evidence-Replays}
use mgds.Tests.Toy.{toy, authority, crypto}
use mgds.Tests.Evidence.{reader, slot, run, plan}

selects : select_host_slots plan (lit "linux-x64") (some (lit "codex")) [] ≡ ok (slot ∷ [])
unfolding select_host_slots
selects = refl

resumes : select_host_slots plan (lit "linux-x64") none (lit "slot-1" ∷ []) ≡ ok []
unfolding select_host_slots get put
resumes = refl

abbrev checkpoint : Checkpoint
checkpoint = record {
  campaign_id = lit "mgds.campaign.small@0.1.0";
  host = lit "linux-x64";
  completed_slot_ids = lit "mgds.task@0.1.0::linux-x64" ∷ [];
}

abbrev render : Checkpoint → Text
render c = c.host

abbrev stored : Files
stored = (lit "checkpoint.json", lit "old") ∷ []

abbrev sound_disk : Faults
sound_disk = record { partial_write = none; rename_fails = false }

checkpoint_writes :
    write_campaign_checkpoint_atomic render
      (lit "7")
      (λ c. true)
      sound_disk
      (lit "checkpoint.json")
      checkpoint
      stored
    ≡ (ok checkpoint, (lit "checkpoint.json", lit "linux-x64") ∷ [])
unfolding write_campaign_checkpoint_atomic
checkpoint_writes = refl

checkpoint_outcome_example :
    Outcome render
      (lit "7")
      (λ c. true)
      (lit "checkpoint.json")
      checkpoint
      stored
      (write_campaign_checkpoint_atomic render
        (lit "7")
        (λ c. true)
        sound_disk
        (lit "checkpoint.json")
        checkpoint
        stored)
checkpoint_outcome_example =
    checkpoint_outcome render (lit "7") (λ c. true) sound_disk (lit "checkpoint.json") checkpoint
      stored

abbrev sign : Text → Text → Text
sign t key = lit "signed"

abbrev signed_run : Run
signed_run = record run {
  evidence_attestation = record {
    algorithm = lit "Ed25519";
    authority = run.evaluator.id;
    payload = campaign_run_attestation_payload run;
    signature = lit "signed";
  };
}

authority_known : get ((run.evaluator.id, authority) ∷ []) run.evaluator.id ≡ some authority
unfolding get
authority_known = refl

authority_pinned :
    get ((run.evaluator.id, lit "sha256:" ++ toy authority.public_key) ∷ []) run.evaluator.id
    ≡ some (lit "sha256:" ++ toy authority.public_key)
unfolding get
authority_pinned = refl

fingerprinted :
    public_key_fingerprint crypto authority.public_key
    ≡ some (lit "sha256:" ++ toy authority.public_key)
unfolding public_key_fingerprint
fingerprinted = refl

signature_written : is_signature (lit "signed") ≡ true
unfolding is_signature
signature_written = refl

signs : sign_evaluator_run sign (some (lit "private")) run ≡ ok signed_run
unfolding sign_evaluator_run
signs = refl

abbrev stringify : Value → List ℕ
stringify v = lit "bundle"

abbrev run_id : Text
run_id = lit "run_0123456789abcdef"

abbrev happened : Value
happened = obj (field (lit "kind") (str (lit "compiled")) end)

abbrev built : Built
built =
    let hash = drop 7 (
      reader.hash_text (
        canonical (
          obj (
            field (lit "sequence") (Value.num (pos 1)) (
              field (lit "previousHash") (str (zeros 64)) (field (lit "event") happened end)))))) in
    record {
      bundle =
          bundle_of run_id slot.slot_id (cons (sealed_entry 1 (str (zeros 64)) happened hash) nil) (
            cons (artifact_of (lit "compile") (reader.hash_bytes (lit "report")) (lit "report"))
              nil);
      bytes = lit "bundle";
      evidence_hash = reader.hash_bytes (lit "bundle");
    }

builds :
    build_campaign_evidence reader stringify slot run_id
      (cons happened nil)
      ((lit "compile", lit "report") ∷ [])
    ≡ ok built
unfolding build_campaign_evidence get canonical
builds = refl

built_evidence-Replays_example : Replays reader stringify (λ bytes. refl) slot run_id built
built_evidence-Replays_example =
    built_evidence-Replays reader stringify (λ bytes. refl) slot run_id (cons happened nil)
      ((lit "compile", lit "report") ∷ []) built builds
