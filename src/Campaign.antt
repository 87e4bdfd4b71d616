-- ===== src/Campaign.antt =====
-- packages/campaign/src/index.mjs: the plan of a campaign and the verdict over its runs. A text of
-- a run that is missing is the empty text; the four fields that the code asks for their type are
-- options. Rates are exact fractions where the source divides floating numbers, and durations are
-- whole minutes.
pub mod Types
pub mod Aggregate
pub mod Report
pub mod Failures
pub mod Accounting
pub mod Sealing
pub mod Verdict
pub mod Plan
pub mod Attested
