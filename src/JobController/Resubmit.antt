-- ===== src/JobController/Resubmit.antt =====
-- Repeated submissions: what the two idempotency rules guarantee across any calls in between.
use mgds.Prelude.{
  All, Dict, List, Option, Result, Text, [], beq_cases, err, get, get-put_ne, get-put_self, inl,
  inr, nat_eq, none, ok, put, refl, some, sym, text_eq, ◌∷◌, ◌≡◌, ◌≢◌,
}
use mgds.Json.{Value}
use mgds.JobTrace.{JobState, never, key_required}
use mgds.JobController.{
  Procedure, Job, JobError, Snapshot, duplicate_execution, present, put_key, created, admit, submit,
  Call, submitting, moving, reading, step, run, transit,
}
use mgds.JobController.Outcomes.{submit_result, submit_by_admission, transit_outcome}
use mgds.JobController.History.{get_job-state}

-- A key that a dictionary of ids knows: it holds an id that is not empty.
abbrev pub Known : Dict Text Text → Text → Type 0
Known d k = (id : Text) × (present (get d k) ≡ some id)

-- The ids that the id factory gave the submissions among the calls are not empty.
abbrev pub GivenId : Call → Type 0
GivenId (submitting id at p) = id ≢ []
GivenId _ = Unit

present-ne-nil : (id : Text) → id ≢ [] → present (some id) ≡ some id
present-ne-nil [] h = absurd (h refl)
present-ne-nil (c ∷ s) h = refl

Known-put_self : (d : Dict Text Text) (k id : Text) → id ≢ [] → Known (put d k id) k
Known-put_self d k id h = (id, rw (get-put_self d k id) (present-ne-nil id h))

Known-put : (d : Dict Text Text) (k j id : Text) → id ≢ [] → Known d j → Known (put d k id) j
Known-put d k j id h known = elim (beq_cases k j) [
  | inl same ↦ rw (sym same) (Known-put_self d k id h)
  | inr other ↦ rw (get-put_ne d k j id other) known
]

Known-put_key :
    (d : Dict Text Text) (o : Option Text) (j id : Text)
    → id ≢ []
    → Known d j
    → Known (put_key d o id) j
Known-put_key d none j id h known = known
Known-put_key d (some k) j id h known = Known-put d k j id h known

-- What both dictionaries know is kept from one snapshot to the next.
record Keeps (s t : Snapshot) : Type 0 where
  procedures : (k : Text) → Known s.procedure_ids k → Known t.procedure_ids k
  keys : (k : Text) → Known s.idempotency_keys k → Known t.idempotency_keys k

Keeps-refl : (s : Snapshot) → Keeps s s
Keeps-refl s = record { procedures = λ k known. known; keys = λ k known. known }

result-Keeps :
    (id at : Text) (p : Procedure) (s : Snapshot) (r : Result JobError (Option (Option Job)))
    → id ≢ []
    → Keeps s (submit_result id at p s r).1
result-Keeps id at p s (err e) h = Keeps-refl s
result-Keeps id at p s (ok (some earlier)) h = Keeps-refl s
result-Keeps id at p s (ok none) h = record {
  procedures = λ k known. Known-put s.procedure_ids p.id k id h known;
  keys = λ k known. Known-put_key s.idempotency_keys (present p.idempotency_key) k id h known;
}

submit-Keeps :
    (id at : Text) (p : Procedure) (s : Snapshot) → id ≢ [] → Keeps s (submit id at p s).1
submit-Keeps id at p s h =
    rw (submit_by_admission id at p s) (result-Keeps id at p s (admit p.idempotency p s) h)

transit-Keeps :
    (id : Text) (to : JobState) (payload : Option Value) (at : Text) (s : Snapshot)
    → Keeps s (transit id to payload at s).1
transit-Keeps id to payload at s = elim (transit_outcome id to payload at s) [
  | inl (x, e) ↦ rw e (Keeps-refl s)
  | inr (job, es, found, stored, legal, e) ↦
      rw e (record { procedures = λ k known. known; keys = λ k known. known })
]

step-Keeps : (s : Snapshot) (c : Call) → GivenId c → Keeps s (step s c)
unfolding step
step-Keeps s (submitting id at p) h = submit-Keeps id at p s h
step-Keeps s (moving id to payload at) h = transit-Keeps id to payload at s
step-Keeps s (reading id) h = rw (get_job-state id s) (Keeps-refl s)

run-Keeps : (s : Snapshot) (cs : List Call) → All GivenId cs → Keeps s (run s cs)
unfolding run
run-Keeps s [] h = Keeps-refl s
run-Keeps s (c ∷ cs) h =
    let first = step-Keeps s c h.0 in
    let rest = run-Keeps (step s c) cs h.1 in
    record {
      procedures = λ k known. rest.procedures k (first.procedures k known);
      keys = λ k known. rest.keys k (first.keys k known);
    }

-- What a submission that is let through leaves.
created_by :
    (id at : Text) (p : Procedure) (s : Snapshot)
    → admit p.idempotency p s ≡ ok none
    → (submit id at p s).1 ≡ created id at p s
created_by id at p s through = rw (submit_by_admission id at p s, through) refl

admit-never :
    (q : Procedure) (t : Snapshot) (x : Text)
    → present (get t.procedure_ids q.id) ≡ some x
    → admit never q t ≡ err duplicate_execution
admit-never q t x e = rw e refl

admit-key :
    (q : Procedure) (t : Snapshot) (key x : Text)
    → present q.idempotency_key ≡ some key
    → present (get t.idempotency_keys key) ≡ some x
    → admit key_required q t ≡ ok (some (get t.jobs x))
admit-key q t key x b e = rw (b, e) refl

module _ (id at : Text) (p : Procedure) (s : Snapshot) (cs : List Call) (id' at' : Text)
    (q : Procedure) where
  -- Once a submission has been let through, a later submission of the same procedure id under the
  -- rule `never` is refused as a duplicate and changes nothing, whatever was called in between, if
  -- the id factory gave that submission and those in between ids that are not empty.
  pub never_runs_twice :
      id ≢ []
      → All GivenId cs
      → admit p.idempotency p s ≡ ok none
      → q.idempotency ≡ never
      → q.id ≡ p.id
      → let t = run (submit id at p s).1 cs in submit id' at' q t ≡ (err duplicate_execution, t)
  never_runs_twice h g through rule same =
      let t = run (submit id at p s).1 cs in
      let first : Known (submit id at p s).1.procedure_ids p.id =
        rw (created_by id at p s through) (Known-put_self s.procedure_ids p.id id h) in
      let (x, e) = (run-Keeps (submit id at p s).1 cs g).procedures p.id first in
      let refused : admit q.idempotency q t ≡ err duplicate_execution =
        rw rule (admit-never q t x (rw same e)) in
      rw (submit_by_admission id' at' q t, refused) refl

  -- Once a submission with a key that is not empty has been let through, a later submission that
  -- requires a key and brings the same one gets what is stored under the id that the key then
  -- names and changes nothing, whatever was called in between, if the id factory gave that
  -- submission and those in between ids that are not empty.
  pub key_runs_once :
      (key : Text)
      → id ≢ []
      → All GivenId cs
      → admit p.idempotency p s ≡ ok none
      → present p.idempotency_key ≡ some key
      → q.idempotency ≡ key_required
      → present q.idempotency_key ≡ some key
      → let t = run (submit id at p s).1 cs in
        (known : Text) × (present (get t.idempotency_keys key) ≡ some known)
        × (submit id' at' q t ≡ (ok (get t.jobs known), t))
  key_runs_once key h g through brings rule brings' =
      let t = run (submit id at p s).1 cs in
      let first : Known (submit id at p s).1.idempotency_keys key =
        rw (created_by id at p s through, brings) (Known-put_self s.idempotency_keys key id h) in
      let (x, e) = (run-Keeps (submit id at p s).1 cs g).keys key first in
      let answered : admit q.idempotency q t ≡ ok (some (get t.jobs x)) =
        rw rule (admit-key q t key x brings' e) in
      (x, e, rw (submit_by_admission id' at' q t, answered) refl)
