-- ===== src/Release/World.antt =====
-- scripts/check-p2-release.mjs: what the script reads, and what it has when it asks the gate.
use mgds.Prelude.{Bool, Dict, List, Option, Text, [], false, lit, none, pos, some, ℕ}
use mgds.Campaign.Types.{Plan, Run}
use mgds.Campaign.Plan.{Config}
use mgds.Campaign.Sealing.{Descriptor, Files}
use mgds.Evidence.Build.{Reader}
use mgds.Evidence.Check.{Problem, Bundle}
use mgds.Release.{HostEvidence}
use mgds.Release.Hosts.{Host, HostEntry}
use mgds.Release.Manifest.{Encoding, Review}
use mgds.Release.Input.{Candidate, Signing, SourceState}
use mgds.Trust.{Crypto, Authority}

-- What the files of the campaign's configuration say.
pub record Campaign : Type 0 where
  pub config : Config
  pub tasks : List Descriptor
  pub environment_inputs : List Text

-- The files that the script reads, each by its path and parsed, none where the reading or the
-- parsing fails; the environment; and the packages' own readers.
pub record World : Type 0 where
  pub candidate_bytes : Text → Option (List ℕ)
  pub candidate : List ℕ → Option Candidate
  pub campaign : Text → Option Campaign
  pub runs : Text → Option (List Run)
  pub index : Text → Option (Dict Text Text)
  pub hosts : Text → Option (List HostEntry)
  pub review : Text → Option Review
  pub signing : Text → Option Signing
  pub authorities : Text → Option (Dict Text Authority)
  pub environment : Text → Option Text
  pub trust_map : Text → Option (Dict Text Text)
  pub files : Files
  pub in_order : Dict Text Text → Dict Text Text
  pub read_evidence_file : Text → ℕ → Option (List ℕ)
  pub run_git : List Text → Option Text
  pub host : Host
  pub reader : Reader
  pub crypto : Crypto
  pub encoding : Encoding
  pub plan_ok : Plan → Bool
  pub run_ok : Run → Bool
  pub index_ok : Dict Text Text → Bool
  pub message : Problem → Text

abbrev pub pending_review : Review
pending_review = record {
  status = lit "pending";
  independent = false;
  findings = record {
    critical = some (pos 0);
    high = some (pos 0);
    medium = some (pos 0);
    low = some (pos 0);
  };
  report_hash = [];
  target_hash = [];
  reviewer_id = [];
  reviewer_algorithm = [];
  signature = [];
}

abbrev pub pending_signing : Signing
pending_signing = record {
  status = lit "pending";
  authority = none;
  algorithm = [];
  subject_hash = [];
  signature = [];
}

abbrev pub unverified : SourceState
unverified = record { head_digest = []; clean = false; tracked_inputs_verified = false }

-- What the script has when it asks the gate.
pub record Gathered : Type 0 where
  pub options : Dict Text Text
  pub candidate_bytes : List ℕ
  pub candidate : Candidate
  pub campaign : Campaign
  pub plan : Plan
  pub runs : List Run
  pub index : Dict Text Text
  pub entries : List HostEntry
  pub evaluators : Dict Text Authority
  pub bundles : Dict Text Bundle
  pub items : List HostEvidence
  pub evaluator_trust : Dict Text Text
  pub reviewer_trust : Dict Text Text
