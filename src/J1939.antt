-- ===== src/J1939.antt =====
-- core/src/j1939.rs: the identifier layout, the payload codec with its checksum, and the frame
-- validator, one module for each.
pub mod Ident
pub mod Crc
pub mod Payload
pub mod Validator
