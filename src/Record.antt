-- ===== src/Record.antt =====
-- The definitions that the BPF programs and the user-space tool share: bpf/ntprof.h.
-- A field of a C struct keeps its name; padding is left out. A `flags` word is a record of its
-- bits, and a `ts` array a function from its index, an enum, to the time in ns (0: not seen).
use ntprof.Prelude.{ℕ, ◌*◌, ◌/◌, ◌%◌, ◌^◌, Bool, false, List, bit_xor, ◌==◌, if◌then◌else◌}

pub data RecKind : Type 0 where
  host target : RecKind

pub data Transport : Type 0 where
  tcp rdma : Transport

-- Host (initiator) events.
pub data HostTs : Type 0 where
  start queue_rq cmd_sent r2t_arr r2t_proc data_start data_sent c2h_arr c2h_proc : HostTs
  rsp_arr rsp_proc nvme_done blk_done send_done c2h_last_arr c2h_done : HostTs

-- Target events.
pub data TgtTs : Type 0 where
  cmd_arr cmd_proc r2t_queued r2t_sent data_arr data_proc exec be_issue be_done : TgtTs
  complete rsp_queued c2h_sent rsp_sent send_done data_last_arr data_done : TgtTs

-- The values of the enums.
abbrev pub host_index : HostTs → ℕ
host_index HostTs.start = 0
host_index HostTs.queue_rq = 1
host_index HostTs.cmd_sent = 2
host_index HostTs.r2t_arr = 3
host_index HostTs.r2t_proc = 4
host_index HostTs.data_start = 5
host_index HostTs.data_sent = 6
host_index HostTs.c2h_arr = 7
host_index HostTs.c2h_proc = 8
host_index HostTs.rsp_arr = 9
host_index HostTs.rsp_proc = 10
host_index HostTs.nvme_done = 11
host_index HostTs.blk_done = 12
host_index HostTs.send_done = 13
host_index HostTs.c2h_last_arr = 14
host_index HostTs.c2h_done = 15

abbrev pub tgt_index : TgtTs → ℕ
tgt_index TgtTs.cmd_arr = 0
tgt_index TgtTs.cmd_proc = 1
tgt_index TgtTs.r2t_queued = 2
tgt_index TgtTs.r2t_sent = 3
tgt_index TgtTs.data_arr = 4
tgt_index TgtTs.data_proc = 5
tgt_index TgtTs.exec = 6
tgt_index TgtTs.be_issue = 7
tgt_index TgtTs.be_done = 8
tgt_index TgtTs.complete = 9
tgt_index TgtTs.rsp_queued = 10
tgt_index TgtTs.c2h_sent = 11
tgt_index TgtTs.rsp_sent = 12
tgt_index TgtTs.send_done = 13
tgt_index TgtTs.data_last_arr = 14
tgt_index TgtTs.data_done = 15

-- `ts[e] = now`
abbrev pub stamp_host : (HostTs → ℕ) → HostTs → ℕ → HostTs → ℕ
stamp_host ts e now e' = if host_index e == host_index e' then now else ts e'

abbrev pub stamp_tgt : (TgtTs → ℕ) → TgtTs → ℕ → TgtTs → ℕ
stamp_tgt ts e now e' = if tgt_index e == tgt_index e' then now else ts e'

-- What identifies a command on the wire, on both sides.
pub record CmdId : Type 0 where
  pub slba : ℕ
  pub nsid : ℕ
  pub cntlid : ℕ
  pub qid : ℕ
  pub cid : ℕ
  pub nlb : ℕ
  pub opcode : ℕ

-- NTP_F_*
pub record Flags : Type 0 where
  pub write : Bool
  pub inline_data : Bool
  pub r2t : Bool
  pub data_success : Bool
  pub multi_r2t : Bool
  pub queues : Bool
  pub rdma_read : Bool
  pub spdk : Bool
  pub reused : Bool

pub record RecHdr : Type 0 where
  pub kind : RecKind
  pub transport : Transport
  pub flags : Flags
  pub cpu : ℕ

pub record HostRec : Type 0 where
  pub hdr : RecHdr
  pub id : CmdId
  pub bytes : ℕ
  pub ctrl_instance : ℕ
  pub q_unsent : ℕ
  pub q_inflight : ℕ
  pub disk : List ℕ
  pub ts : HostTs → ℕ
  pub c2h_busy_ns : ℕ
  pub c2h_skbs : ℕ

pub record TgtRec : Type 0 where
  pub hdr : RecHdr
  pub id : CmdId
  pub bytes : ℕ
  pub q_outstanding : ℕ
  pub q_resp_queue : ℕ
  pub ts : TgtTs → ℕ
  pub h2c_busy_ns : ℕ
  pub h2c_skbs : ℕ

-- `struct ntp_filter`, set by user space before the BPF programs load; a signed field of 64 bits
-- stands as its bit pattern.
pub record Filter : Type 0 where
  pub sample_every : ℕ
  pub io_type : ℕ
  pub n_sizes : ℕ
  pub ctrl_filter : Bool
  pub track_queues : Bool
  pub min_bytes : ℕ
  pub max_bytes : ℕ
  pub sizes : List ℕ
  pub ctrl_mask : List ℕ
  pub nsid : ℕ
  pub real_minus_mono : ℕ
  pub npids : ℕ
  pub pids : List ℕ

abbrev pub max_size_filters : ℕ
max_size_filters = 16

abbrev pub nvme_cmd_write : ℕ
nvme_cmd_write = 1

abbrev pub nvme_cmd_read : ℕ
nvme_cmd_read = 2

-- The splitmix64 finaliser over the identifying fields; a product wraps at 64 bits.
unfoldable pub sample_hash : ℕ → ℕ → ℕ → ℕ
sample_hash cid slba nlb =
    let x₀ = bit_xor (bit_xor slba (cid * 2 ^ 48 % 2 ^ 64)) (nlb * 2 ^ 32 % 2 ^ 64) in
    let x₁ = bit_xor x₀ (x₀ / 2 ^ 30) in
    let x₂ = x₁ * 0xbf58476d1ce4e5b9 % 2 ^ 64 in
    let x₃ = bit_xor x₂ (x₂ / 2 ^ 27) in
    let x₄ = x₃ * 0x94d049bb133111eb % 2 ^ 64 in bit_xor x₄ (x₄ / 2 ^ 31)

-- A record filled with zeroes (memset).
abbrev pub no_flags : Flags
no_flags = record {
  write = false;
  inline_data = false;
  r2t = false;
  data_success = false;
  multi_r2t = false;
  queues = false;
  rdma_read = false;
  spdk = false;
  reused = false;
}

abbrev pub no_id : CmdId
no_id = record { slba = 0; nsid = 0; cntlid = 0; qid = 0; cid = 0; nlb = 0; opcode = 0 }
