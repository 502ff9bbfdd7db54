-- ===== src/Join.antt =====
-- Joining host and target records of the same command: src/join.c.
pub mod Table
pub mod Queue
pub mod Chain
pub mod Take
pub mod Oldest
pub mod Expired
pub mod Joiner
pub mod Counts
pub mod Match
pub mod Same
pub mod Hosts
