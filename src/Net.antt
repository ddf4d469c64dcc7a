-- ===== src/Net.antt =====
-- src/net: the transports of the rendered picture and the clients of the dashboard.
pub mod Config
pub mod HouseParty
pub mod Wire
pub mod Base64
pub mod Envelope
pub mod Continuity
pub mod Stream
pub mod Fragment
pub mod Srt
pub mod Text
pub mod Sse
pub mod Numbers
pub mod Http
mod Tests
