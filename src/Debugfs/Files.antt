-- ===== src/Debugfs/Files.antt =====
-- The register files that each debug device gets.
pub mod Epu
pub mod Trace
pub mod Etf
pub mod Etm
pub mod Core
