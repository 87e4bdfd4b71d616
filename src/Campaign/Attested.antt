-- ===== src/Campaign/Attested.antt =====
-- packages/campaign/src/index.mjs, the payload of a run's attestation and the check of its
-- signature. A field of another type than the schema's is `null` here.
use mgds.Prelude.{
  Bool, Dict, Option, Text, arith, eq_of_beq, false, get, lit, nat_eq, none, pos, some, text_eq,
  true, ℤ, ◌&&◌, ◌==◌, ◌≡◌,
}
use mgds.Json.{Value, Fields, null, bool, num, str, arr, obj, end, field, canonical}
use mgds.Campaign.Types.{Run}
use mgds.Campaign.Aggregate.{items}
use mgds.Trust.{Crypto, Authority, is_signature, is_pinned, public_key_fingerprint}

abbrev or_null_text : Option Text → Value
or_null_text none = null
or_null_text (some t) = str t

abbrev or_null_bool : Option Bool → Value
or_null_bool none = null
or_null_bool (some b) = bool b

abbrev or_null_int : Option ℤ → Value
or_null_int none = null
or_null_int (some n) = num n

unfoldable pub campaign_run_attestation_payload : Run → Value
campaign_run_attestation_payload run = obj (
    field (lit "slotId") (str run.slot_id) (
      field (lit "campaignId") (str run.campaign_id) (
        field (lit "taskId") (str run.task_id) (
          field (lit "taskHash") (str run.task_hash) (
            field (lit "budgetHash") (str run.budget_hash) (
              field (lit "environmentHash") (str run.environment_hash) (
                field (lit "requiredEvidence") (arr (items run.required_evidence)) (
                  field (lit "buildTarget") (str run.build_target) (
                    field (lit "host") (str run.host) (
                      field (lit "harness") (str run.harness) (
                        field (lit "seed") (num (pos run.seed)) (
                          field (lit "repetition") (num (pos run.repetition))
                            (measured run)))))))))))))
  where
    judged : Run → Fields
    judged run = field (lit "privateAffordances") (or_null_bool run.private_affordances) (
        field (lit "durationMinutes") (num (pos run.duration_minutes)) (
          field (lit "soak") (or_null_bool run.soak) (
            field (lit "evaluatorId") (str run.evaluator.id)
              (field (lit "evaluatorDigest") (str run.evaluator.digest) end))))

    measured : Run → Fields
    measured run = field (lit "runId") (or_null_text run.run_id) (
        field (lit "model") (str run.model) (
          field (lit "evidenceHash") (str run.evidence_hash) (
            field (lit "verdict") (str run.verdict) (
              field (lit "workspaceState") (str run.workspace_state)
                (field (lit "orphanProcesses") (or_null_int run.orphan_processes) (judged run))))))

module _ (crypto : Crypto) where
  abbrev verify_with : Run → Authority → Option Text → Bool
  verify_with run authority trusted =
      let expected = campaign_run_attestation_payload run in
      authority.algorithm == lit "Ed25519"
      && run.evidence_attestation.algorithm == lit "Ed25519"
      && run.evidence_attestation.authority == run.evaluator.id
      && is_pinned crypto (public_key_fingerprint crypto authority.public_key) trusted
      && canonical run.evidence_attestation.payload == canonical expected
      && is_signature run.evidence_attestation.signature
      && crypto.verify_signature (canonical expected) authority.public_key
          run.evidence_attestation.signature

  abbrev verify_by : Run → Option Authority → Option Text → Bool
  verify_by run none trusted = false
  verify_by run (some authority) trusted = verify_with run authority trusted

  unfoldable pub verify_evidence_attestation : Dict Text Authority → Dict Text Text → Run → Bool
  unfolding campaign_run_attestation_payload
  verify_evidence_attestation authorities trusted run =
      verify_by run (get authorities run.evaluator.id) (get trusted run.evaluator.id)

  verify_by-payload :
      (run : Run) (o : Option Authority) (trusted : Option Text)
      → verify_by run o trusted ≡ true
      → canonical run.evidence_attestation.payload
        ≡ canonical (campaign_run_attestation_payload run)
  verify_by-payload run none trusted h = cc
  verify_by-payload run (some authority) trusted h = eq_of_beq _ _ (
      fifth (authority.algorithm == lit "Ed25519") _ _ _
        (canonical run.evidence_attestation.payload
          == canonical (campaign_run_attestation_payload run))
        _ _ h)
    where
      fifth : (a b c d e f g : Bool) → (a && b && c && d && e && f && g) ≡ true → e ≡ true
      fifth a b c d e f g h = ground arith

  -- The payload that an attested run carries prints as the payload of this very run.
  pub verify-payload :
      (authorities : Dict Text Authority) (trusted : Dict Text Text) (run : Run)
      → verify_evidence_attestation authorities trusted run ≡ true
      → canonical run.evidence_attestation.payload
        ≡ canonical (campaign_run_attestation_payload run)
  unfolding verify_evidence_attestation
  verify-payload authorities trusted run h =
      verify_by-payload run (get authorities run.evaluator.id) (get trusted run.evaluator.id) h
