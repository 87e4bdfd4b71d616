-- ===== src/Release/Hosts/Accepted.antt =====
-- The evidence of the hosts, as `verifyHostEvidenceEntries` gives it to the gate.
use mgds.Prelude.{
  Bool, List, Option, Result, Text, [], any, ap, ap₂, arith, beq_refl, eqb, err, every, has,
  is_hash, length, lit, ltb, map, nat_eq, need-ok, none, ok, ok-inj, refl, some, suc, sym, text_eq,
  true, ℕ, ◌&&◌, ◌++◌, ◌∷◌, ◌≡◌,
}
use mgds.Json.{Value}
use mgds.Json.Access.{member, is_str}
use mgds.Release.{
  HostEvidence, valid_host_item, valid_host_evidence, required_hosts, is_source_digest,
}
use mgds.Release.Hosts.{
  HostError, source_digest_required, artifact_path_required, host_mismatch, invalid_adapters,
  subject_missing, HostEntry, Host, valid_t0_adapters, evidence_of, cons_ok, is_attested,
  check_subject, check_artifact, check_file, verified_entries, verify_host_evidence_entries,
}
use mgds.Campaign.Aggregate.{distinct}

and_true : (a : Bool) → (a && true) ≡ a
and_true a = ground arith

module _ (runtime : Host) (expected_source_digest : Text) where
  -- an entry whose artifact passed, and the evidence that it gave
  pub record Attested (entry : HostEntry) (item : HostEvidence) : Type 0 where
    pub bytes : List ℕ
    pub artifact : Value
    pub attestations : List (List Text)
    pub read : runtime.read_file entry.artifact_path ≡ some bytes
    pub parsed : runtime.parse bytes ≡ some artifact
    pub host : is_str entry.host (member (lit "host") artifact) ≡ true
    pub adapters : valid_t0_adapters (member (lit "adapters") artifact) ≡ true
    pub verified :
        runtime.run_gh_verify entry.artifact_path expected_source_digest ≡ some attestations
    pub subject : any (λ subjects. has subjects (runtime.hash_bytes bytes)) attestations ≡ true
    pub evidence :
        item ≡ evidence_of runtime expected_source_digest entry (runtime.hash_bytes bytes)

  -- entry by entry
  abbrev pub AllAttested : List HostEntry → List HostEvidence → Type 0
  AllAttested [] [] = Unit
  AllAttested (entry ∷ entries) (item ∷ items) = Attested entry item × AllAttested entries items
  AllAttested _ _ = ⊥

  cons_ok-ok :
      (item : HostEvidence) (r : Result HostError (List HostEvidence)) (out : List HostEvidence)
      → cons_ok runtime expected_source_digest item r ≡ ok out
      → (items : List HostEvidence) × (r ≡ ok items) × (out ≡ item ∷ items)
  cons_ok-ok item (ok items) out h = (items, refl, sym (ok-inj h))
  cons_ok-ok item (err x) out h = cc

  check_subject-ok :
      (entry : HostEntry) (sha256 : Text) (o : Option (List (List Text)))
      (rest : Result HostError (List HostEvidence)) (out : List HostEvidence)
      → check_subject runtime expected_source_digest entry sha256 o rest ≡ ok out
      → (attestations : List (List Text)) × (items : List HostEvidence) × (o ≡ some attestations)
        × (any (λ subjects. has subjects sha256) attestations ≡ true)
        × (rest ≡ ok items)
        × (out ≡ evidence_of runtime expected_source_digest entry sha256 ∷ items)
  check_subject-ok entry sha256 none rest out h = cc
  check_subject-ok entry sha256 (some attestations) rest out h =
      let (subject, h1) =
        need-ok (is_attested runtime expected_source_digest sha256 attestations)
          (subject_missing entry.host) _ out h in
      let (items, e, same) =
        cons_ok-ok (evidence_of runtime expected_source_digest entry sha256) rest out h1 in
      (attestations, items, refl, subject, e, same)

  -- the first entry passed, and the rest of the loop gave the rest of the evidence
  abbrev Passed : HostEntry → Result HostError (List HostEvidence) → List HostEvidence → Type 0
  Passed entry rest out =
      (item : HostEvidence) × (items : List HostEvidence) × (rest ≡ ok items)
      × (out ≡ item ∷ items)
      × Attested entry item

  check_artifact-Attested :
      (entry : HostEntry) (bytes : List ℕ) (o : Option Value)
      (rest : Result HostError (List HostEvidence)) (out : List HostEvidence)
      → runtime.read_file entry.artifact_path ≡ some bytes
      → runtime.parse bytes ≡ o
      → check_artifact runtime expected_source_digest entry bytes o rest ≡ ok out
      → Passed entry rest out
  check_artifact-Attested entry bytes none rest out r e h = cc
  check_artifact-Attested entry bytes (some artifact) rest out r e h =
      let sha256 = runtime.hash_bytes bytes in
      let (host, h1) =
        need-ok (is_str entry.host (member (lit "host") artifact)) (host_mismatch entry.host) _ out
          h in
      let (adapters, h2) =
        need-ok (valid_t0_adapters (member (lit "adapters") artifact)) (invalid_adapters entry.host)
          _ out h1 in
      let (attestations, items, verified, subject, e2, same) =
        check_subject-ok entry sha256
          (runtime.run_gh_verify entry.artifact_path expected_source_digest) rest out h2 in
      (
        evidence_of runtime expected_source_digest entry sha256,
        items,
        e2,
        same,
        record {
          bytes = bytes;
          artifact = artifact;
          attestations = attestations;
          read = r;
          parsed = e;
          host = host;
          adapters = adapters;
          verified = verified;
          subject = subject;
          evidence = refl;
        },
      )

  check_file-Attested :
      (entry : HostEntry) (o : Option (List ℕ)) (rest : Result HostError (List HostEvidence))
      (out : List HostEvidence)
      → runtime.read_file entry.artifact_path ≡ o
      → check_file runtime expected_source_digest entry o rest ≡ ok out
      → Passed entry rest out
  check_file-Attested entry none rest out r h = cc
  check_file-Attested entry (some bytes) rest out r h =
      check_artifact-Attested entry bytes (runtime.parse bytes) rest out r refl h

  pub verified_entries-Attested :
      (entries : List HostEntry) (items : List HostEvidence)
      → verified_entries runtime expected_source_digest entries ≡ ok items
      → AllAttested entries items
  unfolding verified_entries
  verified_entries-Attested [] items h = rw⁻¹ (ok-inj h) tt
  verified_entries-Attested (entry ∷ entries) items h =
      let (_, h1) = need-ok (ltb 0 (length entry.artifact_path)) artifact_path_required _ items h in
      let (item, rest, looped, same, attested) =
        check_file-Attested entry (runtime.read_file entry.artifact_path)
          (verified_entries runtime expected_source_digest entries) items refl h1 in
      rw same (attested, verified_entries-Attested entries rest looped)

  hosts-same :
      (entries : List HostEntry) (items : List HostEvidence)
      → AllAttested entries items
      → map (λ (item : HostEvidence). item.host) items
        ≡ map (λ (entry : HostEntry). entry.host) entries
  hosts-same [] [] h = refl
  hosts-same [] (item ∷ items) h = absurd h
  hosts-same (entry ∷ entries) [] h = absurd h
  hosts-same (entry ∷ entries) (item ∷ items) h =
      ap₂ (λ a b. a ∷ b) (ap (λ (i : HostEvidence). i.host) h.0.evidence)
        (hosts-same entries items h.1)

  length-same :
      (entries : List HostEntry) (items : List HostEvidence)
      → AllAttested entries items
      → length items ≡ length entries
  length-same [] [] h = refl
  length-same [] (item ∷ items) h = absurd h
  length-same (entry ∷ entries) [] h = absurd h
  length-same (entry ∷ entries) (item ∷ items) h = ap suc (length-same entries items h.1)

  module _
      (bytes_hashed : (bytes : List ℕ) → is_hash (lit "sha256:" ++ runtime.hash_bytes bytes) ≡ true)
      (text_hashed : (t : Text) → is_hash (lit "sha256:" ++ runtime.hash_text t) ≡ true) where
    item-valid :
        (entry : HostEntry) (item : HostEvidence)
        → Attested entry item
        → valid_host_item expected_source_digest item ≡ true
    item-valid entry item a =
        let sha256 = runtime.hash_bytes a.bytes in
        rw (a.evidence) (
          rw
            (
              bytes_hashed a.bytes,
              beq_refl expected_source_digest,
              beq_refl (lit "sha256:" ++ sha256),
              text_hashed (runtime.stringify _),
            )
            refl)

    every-valid :
        (entries : List HostEntry) (items : List HostEvidence)
        → AllAttested entries items
        → every (valid_host_item expected_source_digest) items ≡ true
    every-valid [] [] h = refl
    every-valid [] (item ∷ items) h = absurd h
    every-valid (entry ∷ entries) [] h = absurd h
    every-valid (entry ∷ entries) (item ∷ items) h =
        rw (item-valid entry item h.0, every-valid entries items h.1) refl

    -- Where the hosts' entries are verified, each entry's file was read and parses to an artifact of its host
    -- whose adapters passed, the verifier knows the digest of that very file for the source, and the
    -- gate accepts the evidence exactly when the entries name three hosts, the required ones; if
    -- digests have sixty-four hexadecimal digits.
    pub verified_hosts_accepted :
        (entries : List HostEntry) (items : List HostEvidence)
        → verify_host_evidence_entries runtime expected_source_digest entries ≡ ok items
        → AllAttested entries items
          × (valid_host_evidence items expected_source_digest ≡ (
              eqb (length entries) 3
              && eqb (length (distinct [] (map (λ (entry : HostEntry). entry.host) entries))) 3
              && every
                  (λ host. has (map (λ (entry : HostEntry). entry.host) entries) host)
                  required_hosts))
    unfolding verify_host_evidence_entries valid_host_evidence
    verified_hosts_accepted entries items h =
        let (_, h1) =
          need-ok (is_source_digest expected_source_digest) source_digest_required _ items h in
        let all = verified_entries-Attested entries items h1 in
        (
          all,
          rw
              (
                length-same entries items all,
                hosts-same entries items all,
                every-valid entries items all,
              )
              (and_true _),
        )
