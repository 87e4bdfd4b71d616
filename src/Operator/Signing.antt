-- ===== src/Operator/Signing.antt =====
-- `signEvaluatorRun` and the campaign's check of a signature.
use mgds.Prelude.{
  Bool-cases, Dict, Text, ap, beq_refl, false, get, inl, inr, lit, nat_eq, ok, ok-inj, refl, some,
  sym, text_eq, true, ◌∙◌, ◌≡◌, ◌≢◌,
}
use mgds.Json.{canonical}
use mgds.Campaign.Types.{Run, Attestation}
use mgds.Campaign.Attested.{
  campaign_run_attestation_payload, verify_evidence_attestation, verify-payload,
}
use mgds.Trust.{Crypto, Authority, is_signature, public_key_fingerprint}
use mgds.Operator.{sign_evaluator_run}

-- A run that the evaluator's key signed counts as attested wherever the authority of the run's evaluator
-- has the algorithm Ed25519 and the pinned key, if signatures are written in base64url and the
-- public key verifies what the private key signs.
pub signed_run_attested :
    (crypto : Crypto) (sign : Text → Text → Text) (private_key : Text) (run signed : Run)
    (authorities : Dict Text Authority) (trusted : Dict Text Text) (authority : Authority)
    (fingerprint : Text)
    → get authorities run.evaluator.id ≡ some authority
    → authority.algorithm ≡ lit "Ed25519"
    → get trusted run.evaluator.id ≡ some fingerprint
    → public_key_fingerprint crypto authority.public_key ≡ some fingerprint
    → ((t : Text) → is_signature (sign t private_key) ≡ true)
    → ((t : Text) → crypto.verify_signature t authority.public_key (sign t private_key) ≡ true)
    → sign_evaluator_run sign (some private_key) run ≡ ok signed
    → verify_evidence_attestation crypto authorities trusted signed ≡ true
unfolding verify_evidence_attestation sign_evaluator_run
signed_run_attested crypto sign private_key run signed authorities trusted authority fingerprint
      known algorithm pin own written verifies h =
    let text = canonical (campaign_run_attestation_payload run) in
    rw⁻¹ (ok-inj h) (
      simp
        (
          known,
          algorithm,
          pin,
          own,
          written text,
          verifies text,
          beq_refl run.evaluator.id,
          beq_refl text,
          beq_refl fingerprint,
        )
        refl)

-- The attestation that the evaluator's key made of a run counts for this run, wherever the authority of
-- the run's evaluator has the algorithm Ed25519 and the pinned key, if signatures are written in
-- base64url and the public key verifies what the private key signs. Copied to another run, whose
-- payload prints otherwise, it counts nowhere, whatever the authorities and pins are.
pub attestation_binds_run :
    (crypto : Crypto) (sign : Text → Text → Text) (private_key : Text) (run signed other : Run)
    (authorities : Dict Text Authority) (trusted : Dict Text Text) (authority : Authority)
    (fingerprint : Text) (authorities2 : Dict Text Authority) (trusted2 : Dict Text Text)
    → get authorities run.evaluator.id ≡ some authority
    → authority.algorithm ≡ lit "Ed25519"
    → get trusted run.evaluator.id ≡ some fingerprint
    → public_key_fingerprint crypto authority.public_key ≡ some fingerprint
    → ((t : Text) → is_signature (sign t private_key) ≡ true)
    → ((t : Text) → crypto.verify_signature t authority.public_key (sign t private_key) ≡ true)
    → sign_evaluator_run sign (some private_key) run ≡ ok signed
    → other.evidence_attestation ≡ signed.evidence_attestation
    → canonical (campaign_run_attestation_payload other)
      ≢ canonical (campaign_run_attestation_payload run)
    → (verify_evidence_attestation crypto authorities trusted signed ≡ true)
      × (verify_evidence_attestation crypto authorities2 trusted2 other ≡ false)
unfolding sign_evaluator_run
attestation_binds_run crypto sign private_key run signed other authorities trusted authority
      fingerprint authorities2 trusted2 known algorithm pin own written verifies made copied
      differs =
    let made_of : signed.evidence_attestation.payload ≡ campaign_run_attestation_payload run =
      sym (ap (λ (r : Run). r.evidence_attestation.payload) (ok-inj made)) in
    (
      signed_run_attested crypto sign private_key run signed authorities trusted authority
          fingerprint known algorithm pin own written verifies made,
      elim (Bool-cases (verify_evidence_attestation crypto authorities2 trusted2 other)) [
        | inr refused ↦ refused
        | inl taken ↦ absurd (
            differs (
              sym (verify-payload crypto authorities2 trusted2 other taken)
              ∙ ap (λ (a : Attestation). canonical a.payload) copied
              ∙ ap canonical made_of))
      ],
    )
