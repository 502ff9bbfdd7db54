-- ===== src/Model.antt =====
-- The stage model of src/model.c: one host record, and its target record where there is one,
-- become latency components that add up to the host's end-to-end time.
pub mod Comp
pub mod Breakdown
pub mod Host
pub mod Target
pub mod Rdma
pub mod Stages
pub mod Run
pub mod Sum
pub mod PathSum
pub mod Split
pub mod SplitRdma
pub mod Total
pub mod Errors
pub mod Missing
pub mod Fallback
pub mod Phase
