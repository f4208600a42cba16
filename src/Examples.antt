-- ===== src/Examples.antt =====
-- The theorems at concrete inputs.
pub mod Protocol
pub mod Loop
pub mod Service
pub mod Host
pub mod Http
pub mod Demo
pub mod Files
