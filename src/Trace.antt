-- ===== src/Trace.antt =====
-- Record files: src/trace_file.c and src/trace_file.h.
pub mod Bytes
pub mod Layout
pub mod Reader
pub mod Fields
pub mod Ends
pub mod Versions
pub mod Records
pub mod Files
pub mod Write
