-- ===== src/Bridge/Ws.antt =====
-- components/nev_bridge/src/nev_ws.c: the WebSocket client. Frames, and the connection over them.
pub mod Frame
pub mod Wire
pub mod Canonical
pub mod Masking
pub mod Client
pub mod Upgrade
pub mod Poll
pub mod Traffic
pub mod Invariant
pub mod Taking
pub mod Polling
pub mod History
pub mod Rounds
mod Tests
