-- ===== src/Layout/Blocks.antt =====
-- The register structures of the debug devices.
pub mod Epu
pub mod Trace
pub mod Core
