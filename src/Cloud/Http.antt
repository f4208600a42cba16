-- ===== src/Cloud/Http.antt =====
-- cloud/src/main.rs: the HTTP server.
pub mod Lines
pub mod Request
pub mod Admin
pub mod Answers
pub mod Server
pub mod Digest
pub mod Guarded
pub mod Metered
pub mod Limits
