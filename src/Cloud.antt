-- ===== src/Cloud.antt =====
-- cloud/src: the device-to-cloud protocol, the durable store, the device simulator and the server.
pub mod Map
pub mod Wire
pub mod Sign
pub mod Store
pub mod Ingest
pub mod Simulator
pub mod Http
