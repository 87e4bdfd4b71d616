-- ===== src/Release/Hosted.antt =====
-- packages/release/src/p2-gate.mjs: what valid evidence of the hosts shows.
use mgds.Prelude.{
  All, Bool, List, Memᴰ, Text, [], and-eq-true, and-eq-true_4, arith, beq_cases, eq_of_beq, eqb,
  every, has, inl, inr, is_hash, length, lit, map, nat_eq, refl, text_eq, true, ◌&&◌, ◌==◌, ◌∷◌,
  ◌≡◌,
}
use mgds.Release.{HostEvidence, valid_host_item, valid_host_evidence, required_hosts, workflow_ref}
use mgds.Campaign.Aggregate.{distinct}

-- Of the host there is a passing artifact, which the workflow attested for this source under its
-- own hash.
pub record Hosted (source : Text) (evidence : List HostEvidence) (host : Text) : Type 0 where
  pub item : HostEvidence
  pub listed : Memᴰ item evidence
  pub named : item.host ≡ host
  pub status : item.status ≡ lit "pass"
  pub artifact : is_hash item.artifact_hash ≡ true
  pub attested : item.attestation_verified ≡ true
  pub workflow : (item.repository ≡ lit "gmackie/mgds") × (item.workflow_ref ≡ workflow_ref)
  pub source_bound : item.source_digest ≡ source
  pub subject_bound : item.subject_digest ≡ item.artifact_hash

eight :
    (a b c d e f g h : Bool)
    → (a && b && c && d && e && f && g && h) ≡ true
    → (a ≡ true) × (b ≡ true) × (c ≡ true) × (d ≡ true) × (e ≡ true) × (f ≡ true) × (g ≡ true)
eight a b c d e f g h p = ground arith

item-Hosted :
    (source : Text) (evidence : List HostEvidence) (host : Text) (item : HostEvidence)
    → Memᴰ item evidence
    → item.host ≡ host
    → valid_host_item source item ≡ true
    → Hosted source evidence host
item-Hosted source evidence host item m n valid =
    let (a, b, c, d, e, f, g) =
      eight (item.status == lit "pass") (is_hash item.artifact_hash) item.attestation_verified
        (item.repository == lit "gmackie/mgds") (item.workflow_ref == workflow_ref)
        (item.source_digest == source) (item.subject_digest == item.artifact_hash) _ valid in
    record {
      item = item;
      listed = m;
      named = n;
      status = eq_of_beq item.status (lit "pass") a;
      artifact = b;
      attested = c;
      workflow = (
        eq_of_beq item.repository (lit "gmackie/mgds") d,
        eq_of_beq item.workflow_ref workflow_ref e,
      );
      source_bound = eq_of_beq item.source_digest source f;
      subject_bound = eq_of_beq item.subject_digest item.artifact_hash g;
    }

host_of :
    (source : Text) (all evidence : List HostEvidence) (host : Text)
    → ((item : HostEvidence) → Memᴰ item evidence → Memᴰ item all)
    → has (map (λ (item : HostEvidence). item.host) evidence) host ≡ true
    → every (valid_host_item source) evidence ≡ true
    → Hosted source all host
host_of source all [] host sub h v = cc
host_of source all (item ∷ items) host sub h v =
    let (here, rest) =
      and-eq-true (valid_host_item source item) (every (valid_host_item source) items) v in
    elim (beq_cases item.host host) [
      | inl found ↦ item-Hosted source all host item (sub item (Memᴰ.head refl)) found here
      | inr other ↦ host_of source all items host (λ i m. sub i (Memᴰ.tail m)) (rw other at h) rest
    ]

every-All :
    {P : Text → Type 0} (p : Text → Bool) (xs : List Text)
    → ((x : Text) → p x ≡ true → P x)
    → every p xs ≡ true
    → All P xs
every-All p [] f h = tt
every-All p (x ∷ xs) f h =
    let (here, rest) = and-eq-true (p x) (every p xs) h in (f x here, every-All p xs f rest)

-- Valid evidence has an item of every required host.
pub valid_host_evidence-Hosted :
    (evidence : List HostEvidence) (source : Text)
    → valid_host_evidence evidence source ≡ true
    → All (Hosted source evidence) required_hosts
unfolding valid_host_evidence
valid_host_evidence-Hosted evidence source h =
    let hosts = map (λ (item : HostEvidence). item.host) evidence in
    let (_, _, covered, valid) =
      and-eq-true_4 (eqb (length evidence) 3) (eqb (length (distinct [] hosts)) 3)
        (every (λ host. has hosts host) required_hosts) (every (valid_host_item source) evidence)
        h in
    every-All (λ host. has hosts host) required_hosts
      (λ host found. host_of source evidence evidence host (λ i m. m) found valid) covered
