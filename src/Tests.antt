-- ===== src/Tests.antt =====
-- The theorems at concrete inputs, and runs of the definitions.
mod Toy
mod Json
mod Ledger
mod Evidence
mod Operator
mod Redaction
mod Sealing
mod Submission
mod Harness
mod Jobs
mod Policy
mod Campaign
mod Codegen
mod Script
mod Key
mod Signing
mod Read
mod Release
mod Services
mod Service
