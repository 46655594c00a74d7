-- ===== src/Tests.antt =====
-- The theorems at concrete inputs.
pub mod Journal
pub mod Reading
pub mod Keys
pub mod Numbers
pub mod Fees
pub mod Staking
pub mod Signing
pub mod Pools
pub mod Tries
pub mod Machines
