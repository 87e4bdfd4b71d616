-- ===== src/Release/Hosts.antt =====
-- packages/release/src/host-attestation.mjs: the evidence of the release's hosts.
pub mod Accepted
use mgds.Prelude.{
  Bool, List, Option, Result, Text, [], any, err, every, has, length, lit, ltb, nat_eq, need, none,
  ok, some, text_eq, true, ℕ, ◌&&◌, ◌++◌, ◌∷◌,
}
use mgds.Json.{Value, str, obj, field, end, canonical}
use mgds.Json.Access.{member, text_of, is_str}
use mgds.Release.{
  HostEvidence, valid_host_item, valid_host_evidence, required_hosts, workflow_ref,
  is_source_digest,
}
use mgds.Campaign.Aggregate.{distinct}

pub data HostError : Type 0 where
  source_digest_required artifact_path_required : HostError
  file_unreadable json_invalid host_mismatch invalid_adapters : Text → HostError
  verifier_failed subject_missing : Text → HostError

pub record HostEntry : Type 0 where
  pub artifact_path : Text
  pub host : Text

abbrev adapter_status : Text → Option Value → Option Value
adapter_status name none = none
adapter_status name (some adapters) = status_of (member name adapters)
  where
    status_of : Option Value → Option Value
    status_of none = none
    status_of (some adapter) = member (lit "status") adapter

unfoldable pub valid_t0_adapters : Option Value → Bool
valid_t0_adapters adapters =
    every (λ name. is_str (lit "pass") (adapter_status name adapters))
      (lit "fake" ∷ lit "unity" ∷ lit "gmacko" ∷ [])
    && is_str (lit "fail") (adapter_status (lit "broken") adapters)

-- What the check asks of the runtime: the hexadecimal digest of bytes and of a text, `readFile`,
-- JSON.parse of bytes, JSON.stringify, and of the verifier of GitHub for each attestation the
-- digests of its subjects. `none` is a rejection.
pub record Host : Type 0 where
  pub hash_bytes : List ℕ → Text
  pub hash_text : Text → Text
  pub read_file : Text → Option (List ℕ)
  pub parse : List ℕ → Option Value
  pub stringify : Value → Text
  pub run_gh_verify : Text → Text → Option (List (List Text))

module _ (runtime : Host) (expected_source_digest : Text) where
  abbrev pub prefixed : Text → Text
  prefixed digest = lit "sha256:" ++ digest

  abbrev pub verification : Text → Value
  verification sha256 = obj (
      field (lit "repository") (str (lit "gmackie/mgds")) (
        field (lit "workflowRef") (str workflow_ref) (
          field (lit "sourceDigest") (str expected_source_digest)
            (field (lit "subjectDigest") (str (prefixed sha256)) end))))

  abbrev pub evidence_of : HostEntry → Text → HostEvidence
  evidence_of entry sha256 = record {
    host = entry.host;
    status = lit "pass";
    artifact_hash = prefixed sha256;
    attestation_verified = true;
    repository = lit "gmackie/mgds";
    workflow_ref = workflow_ref;
    source_digest = expected_source_digest;
    subject_digest = prefixed sha256;
    verification_digest = prefixed (runtime.hash_text (runtime.stringify (verification sha256)));
  }

  abbrev pub cons_ok :
      HostEvidence → Result HostError (List HostEvidence) → Result HostError (List HostEvidence)
  cons_ok item (ok items) = ok (item ∷ items)
  cons_ok item (err x) = err x

  abbrev pub is_attested : Text → List (List Text) → Bool
  is_attested sha256 attestations = any (λ subjects. has subjects sha256) attestations

  abbrev pub check_subject :
      HostEntry
      → Text
      → Option (List (List Text))
      → Result HostError (List HostEvidence)
      → Result HostError (List HostEvidence)
  check_subject entry sha256 none rest = err (verifier_failed entry.host)
  check_subject entry sha256 (some attestations) rest =
      need (is_attested sha256 attestations) (subject_missing entry.host)
        (cons_ok (evidence_of entry sha256) rest)

  abbrev pub check_artifact :
      HostEntry
      → List ℕ
      → Option Value
      → Result HostError (List HostEvidence)
      → Result HostError (List HostEvidence)
  check_artifact entry bytes none rest = err (json_invalid entry.host)
  check_artifact entry bytes (some artifact) rest =
      need (is_str entry.host (member (lit "host") artifact)) (host_mismatch entry.host) (
        need (valid_t0_adapters (member (lit "adapters") artifact)) (invalid_adapters entry.host) (
          check_subject entry (runtime.hash_bytes bytes)
            (runtime.run_gh_verify entry.artifact_path expected_source_digest) rest))

  abbrev pub check_file :
      HostEntry
      → Option (List ℕ)
      → Result HostError (List HostEvidence)
      → Result HostError (List HostEvidence)
  check_file entry none rest = err (file_unreadable entry.artifact_path)
  check_file entry (some bytes) rest = check_artifact entry bytes (runtime.parse bytes) rest

  -- the loop over the entries
  unfoldable pub verified_entries : List HostEntry → Result HostError (List HostEvidence)
  unfolding valid_t0_adapters
  verified_entries [] = ok []
  verified_entries (entry ∷ entries) =
      need (ltb 0 (length entry.artifact_path)) artifact_path_required
        (check_file entry (runtime.read_file entry.artifact_path) (verified_entries entries))

  unfoldable pub verify_host_evidence_entries :
      List HostEntry → Result HostError (List HostEvidence)
  unfolding is_source_digest verified_entries
  verify_host_evidence_entries entries =
      need (is_source_digest expected_source_digest) source_digest_required
        (verified_entries entries)
