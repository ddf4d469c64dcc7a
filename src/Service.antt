-- ===== src/Service.antt =====
-- src/service: the process around the engine.
pub mod Options
