-- ===== src/Lib.antt =====
-- The core of the Model Game Development Standard's reference implementation (mgds).
--
-- The parts and how they interact:
-- - Json models the JSON values of the program and `canonical`, the sorted printing that every
--   hash and signature is taken of (packages/attestation/src/index.mjs; the event ledger, the
--   reference service and the campaign repeat it). Json/Attestation has `createAttestation` and
--   `verifyAttestation`.
-- - Ledger models packages/artifacts/src/event-ledger.mjs: `append` and `verify` over the list
--   of parsed lines. Ledger/Chain is about honest ledgers, Ledger/Tamper about changed ones.
-- - JobTrace models scripts/job-trace.mjs: the states of a job, its transitions and
--   `assertJobTrace`.
-- - JobController models packages/controller/src/jobs/job-controller.mjs: `submit`, `get`,
--   `events`, `transition` (here `transit`), `checkpoint`, `resume` and `timeout`, as actions on
--   the stored snapshot that may end with an error. What was saved before an error stays saved.
--   JobController/Store has `JsonJobStore`, which keeps the snapshot in a file.
-- - Policy models packages/policy/src/policy-engine.mjs: `authorize` and the budget sessions;
--   Policy/Contract models scripts/policy-contract.mjs, which states the contract that the
--   engine keeps.
-- - Campaign models packages/campaign/src/index.mjs: Campaign/Plan `buildCampaignPlan`,
--   Campaign/Aggregate the loop of `aggregateCampaign` over the runs and Campaign/Report the
--   rest of it, Campaign/Attested the check of a run's signature, Campaign/Sealing
--   `sealCampaignInputs`, whose tasks and environments the plan is built from.
-- - Release models packages/release/src/p2-gate.mjs: `evaluateP2ReleaseGate` in Release/Gate,
--   its inputs and answers in Release/Input, the two functions that sign in Release/Signing, its
--   plan and host checks in Release, the signed manifests in Release/Manifest. Release/Hosts
--   models packages/release/src/host-attestation.mjs, which gives the gate its host evidence,
--   and Release/Checkout `verifyReleaseCheckout` of packages/release/src/source-checkout.mjs.
--   Release/Script is scripts/check-p2-release.mjs, which composes sealing, planning, loading,
--   the checkout, the hosts and the gate; Release/Options has its options and errors,
--   Release/World what it reads. The gate calls `aggregateCampaign` on the campaign's plan and
--   runs.
-- - Services holds packages/controller/src/recovery.mjs, packages/broker/src/index.mjs,
--   packages/evaluator/src (index.mjs and t0.mjs) and scripts/negotiate-version.mjs.
-- - Evidence models the evidence bundles of packages/campaign/src/index.mjs: Evidence/Crc
--   `crc32`, Evidence/Png `validPng`, Evidence/Build `validPlayerBuild`, Evidence/Check
--   `verifyEvidenceBundle`, Evidence/Read `readBoundedEvidenceFile` and Evidence/Load
--   `loadCampaignEvidence`, whose marks the check of a later run trusts.
-- - Operator models packages/campaign-operator/src/index.mjs: the slots that a host has left,
--   the checkpoint and its atomic write, in Operator/Bundle the evidence that is built for a
--   run, which Evidence checks, and in Operator/Key `readExternalPrivateKey`.
-- - Artifacts models packages/artifacts/src/artifact-store.mjs over a disk of nodes, and
--   ReferenceService packages/controller/src/reference-service.mjs with the fake adapter of
--   packages/adapter-testkit: a task is a job of JobController, an artifact and a report.
-- - Harness models packages/harness-runner/src/index.mjs: the invocations, the prompt, the
--   answer and its record, the environment; Harness/Process has `executeBoundedProcess` as steps
--   on the events that node delivers from the spawned process.
-- - Redaction models packages/redaction/src/index.mjs: `assertPublishable` with its patterns,
--   and `redactForEvidence`.
-- - Submission models packages/p3-submission/src/index.mjs: `buildP3Submission` in
--   Submission/Built, `verifyP3Submission` in Submission/Verified.
-- - Codegen models tools/codegen/generate.mjs: the types of the three languages in Codegen,
--   Codegen/Names and Codegen/Print, the files in Codegen/Sources, and in Codegen/Outputs their
--   writing and the run with `--check`. Codegen/Typed describes what a schema and a type ask of
--   a value.
-- - Trust holds what Campaign and Release ask of node:crypto.
-- - Prelude holds what all share: texts as lists of code units, association lists, results and
--   actions on a stored state, Boolean tests. Tests holds runs at concrete inputs.
--
-- Parameters. `createHash`, `createPublicKey` and `verify` of node:crypto, the clock, the
-- factory of job identities, the generation of a lease's project, and the order of
-- `localeCompare` are arguments. What a theorem needs of the hash function is a hypothesis: 64
-- hexadecimal digits; and where two hashed texts could have one digest, that the texts in
-- question do is an alternative of the conclusion. The two compiled schema validators that the verdict of a campaign uses, the check
-- of an attestation and the check of an evidence bundle come in the record Checks; what
-- check-p2-release reads comes parsed in the record World. What the check of a bundle asks of
-- the runtime (hashes, JSON.parse, text and base64 of bytes, `inflateSync`, the compiled schema,
-- and whether `assertPublishable` returns) comes in the record Reader.
--
-- Bounds and fuel. Loops recur on lists. Printing a number in digits has as fuel one more than
-- the number, so more than its digits. The loop over the chunks of a PNG has as fuel one more
-- than the bytes of the file; a chunk takes at least twelve. The loop that reads an evidence
-- file has as fuel one more than the limit of bytes; a round that goes on reads a byte. Amounts,
-- counts and durations are whole numbers; the rates of a campaign are exact fractions, where the
-- program divides floating numbers.
--
-- What is not covered: the files whose reading is a parameter, the spawned processes themselves,
-- the Unity packages, the generated protocol bindings, the command line, the small packages
-- (sandbox, fault injector, projection, report), and the other scripts, which read files, call
-- the modelled functions and print. Calls on one job store or one artifact store that run
-- interleaved are not covered either: calls run one after the other. Objects that serve as maps
-- hold their own keys only.
pub mod Artifacts
pub mod Campaign
pub mod Codegen
pub mod Evidence
pub mod Harness
pub mod JobController
pub mod JobTrace
pub mod Json
pub mod Ledger
pub mod Operator
pub mod Policy
pub mod Prelude
pub mod Redaction
pub mod ReferenceService
pub mod Release
pub mod Services
pub mod Submission
pub mod Tests
pub mod Trust
