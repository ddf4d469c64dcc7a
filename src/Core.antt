-- ===== src/Core.antt =====
-- src/core: the engine, with no GL and no network.
pub mod Json
pub mod Double
pub mod Expression
pub mod Signal
pub mod Drivers
pub mod Vec
pub mod Module
pub mod Palette
