-- ===== src/Operator/Bundle/Replay.antt =====
-- The evidence that `buildCampaignEvidence` builds, and the checks of an evidence bundle.
use mgds.Prelude.{
  Bool-cases, Dict, List, Option, Result, Text, [], ap₂, beq_refl, err, get, inl, inr, length, lit,
  ltb, nat_eq, need-ok, none, ok, ok-inj, refl, some, sort_texts, sym, text_eq, true, zeros, ℕ,
  ◌&&◌, ◌+◌, ◌==◌, ◌∷◌, ◌≡◌,
}
use mgds.Json.{Value, Items, nil, cons, str, arr, strict_eq, canonical}
use mgds.Json.Access.{member, text_of, of_texts}
use mgds.Campaign.Types.{Slot, Run}
use mgds.Evidence.Build.{Reader, genuine}
use mgds.Evidence.Check.{
  ledger_problem, ledger_entry_ok, identity_ok, events_of, artifacts_of, role_of, is_filled,
}
use mgds.Evidence.Accepted.{AllItems}
use mgds.Operator.{OperatorError, inputs_required, roles_mismatch, not_publishable, empty_artifact}
use mgds.Operator.Bundle.{
  Built, role_names, is_run_id, sealed_entry, artifact_of, cons_ok, bundle_of, entry_hash,
  ledger_of, decoded_public, parsed_public, public_bytes, encode, encoded_artifacts, finish,
  with_ledger, build_campaign_evidence,
}

cons_ok-ok :
    (v : Value) (r : Result OperatorError Items) (out : Items)
    → cons_ok v r ≡ ok out
    → (items : Items) × (r ≡ ok items) × (out ≡ cons v items)
cons_ok-ok v (ok items) out h = (items, refl, sym (ok-inj h))
cons_ok-ok v (err x) out h = cc

strict_eq-refl_str : (t : Text) → strict_eq (str t) (str t) ≡ true
unfolding strict_eq
strict_eq-refl_str t = beq_refl t

abbrev pub roles_in_order : Items → List Text
roles_in_order nil = []
roles_in_order (cons artifact artifacts) = role_of artifact ∷ roles_in_order artifacts

module _ (reader : Reader) (stringify : Value → List ℕ) where
  sealed-ok :
      (index : ℕ) (hash : Text) (event : Value)
      → ledger_entry_ok reader index (str hash) (
          sealed_entry
            (index + 1)
            (str hash)
            event
            (entry_hash reader stringify index (str hash) event))
        ≡ true
  sealed-ok index hash event =
      rw
        (
          beq_refl (index + 1),
          strict_eq-refl_str hash,
          beq_refl (entry_hash reader stringify index (str hash) event),
        )
        refl

  ledger_of-replays :
      (index : ℕ) (hash : Text) (events out : Items)
      → ledger_of reader stringify index (str hash) events ≡ ok out
      → ledger_problem reader index (str hash) out ≡ none
  unfolding ledger_of ledger_problem
  ledger_of-replays index hash nil out h = rw⁻¹ (ok-inj h) refl
  ledger_of-replays index hash (cons event events) out h =
      let next = entry_hash reader stringify index (str hash) event in
      let (_, h1) = need-ok (reader.publishable event) not_publishable _ out h in
      let (items, looped, e) =
        cons_ok-ok (sealed_entry (index + 1) (str hash) event next)
          (ledger_of reader stringify (index + 1) (str next) events) out h1 in
      rw e
        (rw (sealed-ok index hash event) (ledger_of-replays (index + 1) next events items looped))

  parsed_public-ok :
      (role : Text) (o : Option Value) (rest : Result OperatorError Items) (out : Items)
      → parsed_public reader stringify role o rest ≡ ok out
      → rest ≡ ok out
  parsed_public-ok role none rest out h = cc
  parsed_public-ok role (some v) rest out h =
      (need-ok (reader.publishable v) not_publishable rest out h).1

  decoded_public-ok :
      (role : Text) (o : Option Text) (rest : Result OperatorError Items) (out : Items)
      → decoded_public reader stringify role o rest ≡ ok out
      → rest ≡ ok out
  decoded_public-ok role none rest out h = cc
  decoded_public-ok role (some text) rest out h =
      parsed_public-ok role (reader.parse text) rest out h

  public_bytes-ok :
      (role : Text) (bytes : List ℕ) (rest : Result OperatorError Items) (out : Items)
      → public_bytes reader stringify role bytes rest ≡ ok out
      → rest ≡ ok out
  public_bytes-ok role bytes rest out h = elim (Bool-cases (role == lit "screenshot")) [
    | inl picture ↦ rw picture at h
    | inr other ↦ decoded_public-ok role (reader.decode_utf8 bytes) rest out (rw other at h)
  ]

  -- an artifact that the check of a bundle finds genuine
  abbrev pub Genuine : Value → Type 0
  Genuine artifact =
      genuine reader (text_of (member (lit "bytesBase64") artifact))
        (text_of (member (lit "hash") artifact))
      ≡ true

  module _ (back : (bytes : List ℕ) → reader.from_base64 (reader.to_base64 bytes) ≡ bytes) where
    encode-ok :
        (role : Text) (o : Option (List ℕ)) (rest : Result OperatorError Items) (out : Items)
        → encode reader stringify role o rest ≡ ok out
        → (artifact : Value) × (items : Items) × (rest ≡ ok items)
          × (out ≡ cons artifact items)
          × (role_of artifact ≡ role)
          × Genuine artifact
    encode-ok role none rest out h = cc
    encode-ok role (some bytes) rest out h =
        let artifact = artifact_of role (reader.hash_bytes bytes) (reader.to_base64 bytes) in
        let (filled, h1) = need-ok (ltb 0 (length bytes)) (empty_artifact role) _ out h in
        let (items, e, same) =
          cons_ok-ok artifact rest out
            (public_bytes-ok role bytes (cons_ok artifact rest) out h1) in
        (
          artifact,
          items,
          e,
          same,
          refl,
          rw
              (
                back bytes,
                filled,
                beq_refl (reader.to_base64 bytes),
                beq_refl (reader.hash_bytes bytes),
              )
              refl,
        )

    encoded-Genuine :
        (artifacts : Dict Text (List ℕ)) (roles : List Text) (out : Items)
        → encoded_artifacts reader stringify artifacts roles ≡ ok out
        → (roles_in_order out ≡ roles) × AllItems Genuine out
    unfolding encoded_artifacts
    encoded-Genuine artifacts [] out h = rw⁻¹ (ok-inj h) (refl, tt)
    encoded-Genuine artifacts (role ∷ roles) out h =
        let (artifact, items, e, same, named, good) =
          encode-ok role (get artifacts role) (encoded_artifacts reader stringify artifacts roles)
            out h in
        let (rest, all) = encoded-Genuine artifacts roles items e in
        rw same (ap₂ (λ a b. a ∷ b) named rest, (good, all))

    -- What was built, and what the check of a bundle asks of it.
    pub record Replays (slot : Slot) (run_id : Text) (built : Built) : Type 0 where
      pub hashed : built.evidence_hash ≡ reader.hash_bytes (stringify built.bundle)
      pub written : built.bytes ≡ stringify built.bundle
      pub public : reader.publishable built.bundle ≡ true
      pub identity :
          (run : Run)
          → run.run_id ≡ some run_id
          → run.slot_id ≡ slot.slot_id
          → identity_ok built.bundle run ≡ true
      pub ledger : ledger_problem reader 0 (str (zeros 64)) (events_of built.bundle) ≡ none
      pub roles : roles_in_order (artifacts_of built.bundle) ≡ sort_texts slot.required_evidence
      pub artifacts : AllItems Genuine (artifacts_of built.bundle)

    with_ledger-ok :
        (run_id slot_id : Text) (events artifacts : Result OperatorError Items) (built : Built)
        → with_ledger reader stringify run_id slot_id events artifacts ≡ ok built
        → (es files : Items) × (events ≡ ok es)
          × (artifacts ≡ ok files)
          × (finish reader stringify (bundle_of run_id slot_id es files) ≡ ok built)
    with_ledger-ok run_id slot_id (ok es) (ok files) built h = (es, files, refl, refl, h)
    with_ledger-ok run_id slot_id (ok es) (err x) built h = cc
    with_ledger-ok run_id slot_id (err x) artifacts built h = cc

    -- The evidence that an operator builds for a slot and a run is evidence that replays: its events
    -- are a ledger that the campaign's check accepts, it names the run and the slot, it may be
    -- published, its artifacts are those of the required roles in order, each with the hash of its
    -- bytes, and its hash is the one of its bytes; if base64 gives back what it was given.
    pub built_evidence-Replays :
        (slot : Slot) (run_id : Text) (events : Items) (artifacts : Dict Text (List ℕ))
        (built : Built)
        → build_campaign_evidence reader stringify slot run_id events artifacts ≡ ok built
        → Replays slot run_id built
    unfolding build_campaign_evidence
    built_evidence-Replays slot run_id events artifacts built h =
        let required = sort_texts slot.required_evidence in
        let (_, h1) =
          need-ok (ltb 0 (length slot.slot_id) && is_run_id run_id && is_filled events)
            inputs_required _ built h in
        let (_, h2) =
          need-ok
            (canonical (arr (of_texts (sort_texts (role_names artifacts))))
              == canonical (arr (of_texts required)))
            roles_mismatch _ built h1 in
        let (es, files, logged, encoded, h3) =
          with_ledger-ok run_id slot.slot_id (ledger_of reader stringify 0 (str (zeros 64)) events)
            (encoded_artifacts reader stringify artifacts required) built h2 in
        let (public, made) =
          need-ok (reader.publishable (bundle_of run_id slot.slot_id es files)) not_publishable _
            built h3 in
        let (roles, all) = encoded-Genuine artifacts required files encoded in
        rw⁻¹ (ok-inj made) (record {
          hashed = refl;
          written = refl;
          public = public;
          identity =
              λ run named placed. simp (named, placed, beq_refl run_id, beq_refl slot.slot_id) refl;
          ledger = ledger_of-replays 0 (zeros 64) events es logged;
          roles = roles;
          artifacts = all;
        })
