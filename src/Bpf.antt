-- ===== src/Bpf.antt =====
-- The BPF programs: bpf/common.bpf.h, bpf/host.bpf.h, bpf/target.bpf.h and the
-- NVMe/TCP and NVMe/RDMA hooks of both sides.
-- One run of a hook is one step on the state of its maps.
pub mod Common
pub mod Host
pub mod Target
pub mod Tcp
pub mod Rdma
pub mod Slots
pub mod Inv
pub mod Steps
pub mod Lookup
