-- ===== src/Evidence/Accepted.antt =====
-- What it means that an evidence bundle is accepted.
use mgds.Prelude.{
  Bool-cases, Dict, List, Option, Text, [], and-eq-true, drop, eq_of_beq, false, get, guard-none,
  has, inl, inr, leb, leb→le, length, lit, ltb, nat_eq, negsuc, none, not, ok, or_else-none, pos,
  refl, some, sort_texts, text_eq, true, zeros, ℕ, ◌&&◌, ◌+◌, ◌==◌, ◌↔◌, ◌∷◌, ◌≡◌, ◌≤◌,
}
use mgds.Json.{Value, Items, null, bool, num, str, arr, nil, cons, obj, canonical, strict_eq}
use mgds.Json.Access.{member, text_of, is_str, is_num, of_texts}
use mgds.Ledger.{Entry, check_entry, verify_from, verify}
use mgds.Campaign.Types.{Run, Slot}
use mgds.Evidence.Build.{Reader, genuine}
use mgds.Evidence.Check.{
  Problem, or_null, hash_of, ledger_body, Bundle, raw, max_evidence_bundle_bytes, required_of,
  ledger_entry_ok, ledger_problem, valid_role_content, artifact_problem, artifacts_problem, role_of,
  events_of, artifacts_of, identity_ok, content_problem, verify_evidence_bundle, wrong_size,
  hash_mismatch, schema_invalid, privacy_rejected, identity_mismatch, ledger_missing,
  artifacts_missing, roles_mismatch, content_invalid, artifact_mismatch, artifact_invalid,
}

-- an event of a bundle as an entry of the event ledger
abbrev pub entry_of : Value → Entry
entry_of v = record {
  sequence = or_null (member (lit "sequence") v);
  previous_hash = or_null (member (lit "previousHash") v);
  event = or_null (member (lit "event") v);
  hash = hash_of v;
}

abbrev pub entries_of : Items → List Entry
entries_of nil = []
entries_of (cons v items) = entry_of v ∷ entries_of items

is_num-strict_eq : (n : ℕ) (o : Option Value) → is_num n o ≡ strict_eq (or_null o) (num (pos n))
unfolding strict_eq
is_num-strict_eq n none = refl
is_num-strict_eq n (some null) = refl
is_num-strict_eq n (some (bool true)) = refl
is_num-strict_eq n (some (bool false)) = refl
is_num-strict_eq n (some (num (pos m))) = refl
is_num-strict_eq n (some (num (negsuc m))) = refl
is_num-strict_eq n (some (str s)) = refl
is_num-strict_eq n (some (arr xs)) = refl
is_num-strict_eq n (some (obj fs)) = refl

is_str-strict_eq : (t : Text) (o : Option Value) → is_str t o ≡ strict_eq (or_null o) (str t)
unfolding strict_eq
is_str-strict_eq t none = refl
is_str-strict_eq t (some null) = refl
is_str-strict_eq t (some (bool true)) = refl
is_str-strict_eq t (some (bool false)) = refl
is_str-strict_eq t (some (num (pos m))) = refl
is_str-strict_eq t (some (num (negsuc m))) = refl
is_str-strict_eq t (some (str s)) = refl
is_str-strict_eq t (some (arr xs)) = refl
is_str-strict_eq t (some (obj fs)) = refl

module _ (reader : Reader) where
  -- the digest of a ledger, which is the one of the bundle without its prefix
  abbrev pub ledger_hash : Text → Text
  ledger_hash t = drop 7 (reader.hash_text t)

  entry_ok-check_entry :
      (index : ℕ) (previous v : Value)
      → ledger_entry_ok reader index previous v
        ≡ check_entry ledger_hash index previous (entry_of v)
  unfolding check_entry
  entry_ok-check_entry index previous v =
      rw
        (
          is_num-strict_eq (index + 1) (member (lit "sequence") v),
          is_str-strict_eq (ledger_hash (canonical (ledger_body v))) (member (lit "hash") v),
        )
        refl

  -- The loop over the events of a bundle accepts exactly the events that the event ledger's own
  -- loop accepts, from any place on.
  pub ledger_problem_iff :
      (index : ℕ) (previous : Value) (events : Items)
      → (ledger_problem reader index previous events ≡ none)
        ↔ (verify_from ledger_hash index previous (entries_of events) ≡ ok tt)
  unfolding ledger_problem verify_from
  ledger_problem_iff index previous nil = (λ h. refl, λ h. refl)
  ledger_problem_iff index previous (cons v events) =
      let same = entry_ok-check_entry index previous v in
      let (to, from) = ledger_problem_iff (index + 1) (hash_of v) events in
      elim (Bool-cases (check_entry ledger_hash index previous (entry_of v))) [
        | inl good ↦
            (λ h. rw good (to (rw (same, good) at h)), λ h. rw (same, good) (from (rw good at h)))
        | inr bad ↦ (λ h. cc (rw (same, bad) at h), λ h. cc (rw bad at h))
      ]

abbrev pub AllItems : (Value → Type 0) → Items → Type 0
AllItems P nil = Unit
AllItems P (cons v items) = P v × AllItems P items

-- the roles of the artifacts, the last first
abbrev pub roles_of : List Text → Items → List Text
roles_of roles nil = roles
roles_of roles (cons artifact artifacts) = roles_of (role_of artifact ∷ roles) artifacts

module _ (reader : Reader) where
  -- An artifact whose bytes have the stated hash and the content that its role asks for.
  pub record SoundArtifact (events : Items) (slot : Option Slot) (artifact : Value) : Type 0 where
    pub hashed :
        genuine reader
          (text_of (member (lit "bytesBase64") artifact))
          (text_of (member (lit "hash") artifact))
        ≡ true
    pub content :
        valid_role_content reader
          (role_of artifact)
          (reader.from_base64 (text_of (member (lit "bytesBase64") artifact)))
          events
          slot
        ≡ true

  artifact_problem-none :
      (hashes roles : List Text) (artifact : Value) (events : Items) (slot : Option Slot)
      (rest : Option Problem)
      → artifact_problem reader hashes roles artifact events slot rest ≡ none
      → SoundArtifact events slot artifact × (rest ≡ none)
  artifact_problem-none hashes roles artifact events slot rest h =
      let (_, h1) = guard-none _ artifact_invalid _ h in
      let (matched, h2) = guard-none _ artifact_mismatch _ h1 in
      let (_, h3) = guard-none _ privacy_rejected _ h2 in
      let (content, h4) = guard-none _ (content_invalid (role_of artifact)) rest h3 in
      let (a, _) = and-eq-true _ (not (has roles (role_of artifact))) matched in
      let (hashed, _) =
        and-eq-true
          (genuine reader (text_of (member (lit "bytesBase64") artifact))
            (text_of (member (lit "hash") artifact)))
          _ a in
      (record { hashed = hashed; content = content }, h4)

  artifacts_problem-none :
      (hashes roles : List Text) (artifacts events : Items) (slot : Option Slot)
      → artifacts_problem reader hashes roles artifacts events slot ≡ none
      → AllItems (SoundArtifact events slot) artifacts
        × (canonical (arr (of_texts (sort_texts (roles_of roles artifacts))))
            ≡ canonical (arr (of_texts (sort_texts (required_of slot)))))
  unfolding artifacts_problem
  artifacts_problem-none hashes roles nil events slot h =
      (tt, eq_of_beq _ _ (guard-none _ roles_mismatch none h).0)
  artifacts_problem-none hashes roles (cons artifact artifacts) events slot h =
      let (sound, rest) = artifact_problem-none hashes roles artifact events slot _ h in
      let (all, same) =
        artifacts_problem-none (text_of (member (lit "hash") artifact) ∷ hashes)
          (role_of artifact ∷ roles) artifacts events slot rest in
      ((sound, all), same)

  -- What an accepted bundle shows for a run and its slot.
  pub record Evidenced (run : Run) (slot : Option Slot) (bundle : Value) : Type 0 where
    pub public : reader.publishable bundle ≡ true
    pub identity : identity_ok bundle run ≡ true
    pub ledger : verify (ledger_hash reader) (entries_of (events_of bundle)) ≡ ok tt
    pub roles :
        canonical (arr (of_texts (sort_texts (roles_of [] (artifacts_of bundle)))))
        ≡ canonical (arr (of_texts (sort_texts (required_of slot))))
    pub artifacts : AllItems (SoundArtifact (events_of bundle) slot) (artifacts_of bundle)

  content_problem-none :
      (run : Run) (slot : Option Slot) (o : Option Value)
      → content_problem reader run slot o ≡ none
      → (bundle : Value) × (o ≡ some bundle) × Evidenced run slot bundle
  unfolding content_problem verify
  content_problem-none run slot none h = cc
  content_problem-none run slot (some bundle) h =
      let (_, h1) = guard-none _ schema_invalid _ h in
      let (public, h2) = guard-none _ privacy_rejected _ h1 in
      let (identity, h3) = guard-none _ identity_mismatch _ h2 in
      let (_, h4) = guard-none _ ledger_missing _ h3 in
      let (_, h5) = guard-none _ artifacts_missing _ h4 in
      let (chain, h6) =
        or_else-none (ledger_problem reader 0 (str (zeros 64)) (events_of bundle)) _ h5 in
      let (all, same) =
        artifacts_problem-none [] [] (artifacts_of bundle) (events_of bundle) slot h6 in
      (
        bundle,
        refl,
        record {
          public = public;
          identity = identity;
          ledger = (ledger_problem_iff reader 0 (str (zeros 64)) (events_of bundle)).0 chain;
          roles = same;
          artifacts = all;
        },
      )

  -- A bundle that is given as bytes is accepted for a run only if the bytes are within the size limit
  -- and have the run's evidence hash, and what they parse to may be published, names the run and
  -- its slot, holds a ledger of events that verifies, and holds the artifacts of exactly the
  -- required roles, each with its hash and the content of its role.
  pub accepted_bundle :
      (bundles : Dict Text Bundle) (run : Run) (slot : Option Slot) (bytes : List ℕ)
      → get bundles run.evidence_hash ≡ some (raw bytes)
      → verify_evidence_bundle reader bundles run slot ≡ none
      → (length bytes ≤ max_evidence_bundle_bytes)
        × (reader.hash_bytes bytes ≡ run.evidence_hash)
        × ((bundle : Value) × (reader.parse (reader.to_text bytes) ≡ some bundle)
            × Evidenced run slot bundle)
  unfolding verify_evidence_bundle
  accepted_bundle bundles run slot bytes found h =
      let (size, h1) =
        guard-none (ltb 0 (length bytes) && leb (length bytes) max_evidence_bundle_bytes) wrong_size
          _ (rw found at h) in
      let (hashed, h2) =
        guard-none (reader.hash_bytes bytes == run.evidence_hash) hash_mismatch _ h1 in
      (
        leb→le (length bytes) max_evidence_bundle_bytes
            (and-eq-true (ltb 0 (length bytes)) _ size).1,
        eq_of_beq (reader.hash_bytes bytes) run.evidence_hash hashed,
        content_problem-none run slot (reader.parse (reader.to_text bytes)) h2,
      )
