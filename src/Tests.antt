-- ===== src/Tests.antt =====
-- The theorems at concrete states of the machine.
pub mod Samples
pub mod Caching
pub mod Datapath
pub mod Division
pub mod Fetching
pub mod Issuing
pub mod Queues
pub mod Renaming
pub mod Squash
