-- ===== src/Evidence.antt =====
-- The evidence bundles of packages/campaign/src/index.mjs: what they hold and how they are checked.
pub mod Crc
pub mod Png
pub mod Build
pub mod Check
pub mod Accepted
pub mod Load
pub mod Read
