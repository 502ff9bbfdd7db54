-- ===== src/Tests.antt =====
-- Runs of the definitions on concrete records and states.
pub mod Records
mod Models
mod Joins
pub mod Hooks
mod TcpTarget
mod RdmaTarget
mod RdmaHost
pub mod Traces
mod Sessions
mod Settings
