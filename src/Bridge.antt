-- ===== src/Bridge.antt =====
-- components/nev_bridge: the connection to the companion computer.
pub mod Cbor
pub mod Proto
pub mod Ws
pub mod Mdns
pub mod Session
