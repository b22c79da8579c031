-- ===== src/Tests.antt =====
-- The theorems at concrete inputs.
pub mod Board
mod Counters
mod Captures
mod Control
mod Reservations
mod Registers
mod Devices
mod Running
mod Folders
mod Loading
pub mod Loaded
mod Runs
mod Clients
