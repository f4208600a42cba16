-- ===== src/Host.antt =====
-- host/src: the simulated bus and the accounting of periods.
pub mod Bus
pub mod Ledger
pub mod Manifest
pub mod Socketcan
pub mod Schedule
pub mod Hog
pub mod Timing
pub mod Contention
pub mod Run
pub mod Report
pub mod Command
pub mod Arguments
