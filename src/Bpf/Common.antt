-- ===== src/Bpf/Common.antt =====
-- What every BPF object shares: bpf/common.bpf.h.
-- Signed integers stand as their bit patterns of 32 or 64 bits.
use ntprof.Prelude.{
  ℕ, ◌+◌, ◌-◌, ◌*◌, ◌/◌, ◌%◌, ◌^◌, Bool, true, false, not, ◌&&◌, ◌||◌, List, Option, none, some,
  bit_xor, ltb, leb, nonzero, ◌==◌, if◌then◌else◌, take, [], ◌∷◌,
}
use ntprof.Record.{CmdId, Filter, sample_hash, nvme_cmd_read, nvme_cmd_write, max_size_filters}

-- The counters, summed over the CPUs; no counter reaches 2 ^ 64.
pub record Counters : Type 0 where
  pub host_read_ios : ℕ
  pub host_read_bytes : ℕ
  pub host_write_ios : ℕ
  pub host_write_bytes : ℕ
  pub host_sampled : ℕ
  pub host_emitted : ℕ
  pub tgt_cmds : ℕ
  pub tgt_sampled : ℕ
  pub tgt_emitted : ℕ
  pub rb_drops : ℕ
  pub map_full : ℕ
  pub stale : ℕ

abbrev pub no_counters : Counters
no_counters = record {
  host_read_ios = 0;
  host_read_bytes = 0;
  host_write_ios = 0;
  host_write_bytes = 0;
  host_sampled = 0;
  host_emitted = 0;
  tgt_cmds = 0;
  tgt_sampled = 0;
  tgt_emitted = 0;
  rb_drops = 0;
  map_full = 0;
  stale = 0;
}

-- What the kernel gives one run of a hook: the CPU, the thread, the clock, and whether
-- bpf_ringbuf_output and an insertion into a hash map succeed.
pub record Run : Type 0 where
  pub cpu : ℕ
  pub tid : ℕ
  pub now : ℕ
  pub delivered : Bool
  pub qstats_room : Bool
  pub counted_room : Bool

abbrev pub rec_slots : ℕ
rec_slots = 2 ^ 14

-- The slot of a kernel address; `nslots` is a power of 2, so `&` is `%`.
unfoldable pub ntp_slot : ℕ → ℕ → ℕ
ntp_slot addr nslots =
    bit_xor (addr / 2 ^ 6) (addr / 2 ^ 26) * 0x9e3779b1 % 2 ^ 64 % 2 ^ 32 % nslots

abbrev pub skb_stamp_max_age_ns : ℕ
skb_stamp_max_age_ns = 1000000000

unfoldable pub plausible : ℕ → ℕ → Bool
plausible ts now = nonzero ts && leb ts now && ltb (now - ts) skb_stamp_max_age_ns

-- The first argument is skb->tstamp.
unfoldable pub skb_arrival : Filter → ℕ → ℕ → ℕ
unfolding plausible
skb_arrival filter t now =
    let mono = (t + (2 ^ 64 - filter.real_minus_mono)) % 2 ^ 64 in
    if t == 0 || leb (2 ^ 63) t
    then now
    else if plausible mono now
    then mono
    else if plausible t now
    then t
    else now

unfoldable pub sampled : Filter → ℕ → ℕ → ℕ → Bool
unfolding sample_hash
sampled filter cid slba nlb =
    if leb filter.sample_every 1 then true else sample_hash cid slba nlb % filter.sample_every == 0

-- The command in memory: `struct ntp_nvme_cmd`.
pub record NvmeCmd : Type 0 where
  pub opcode : ℕ
  pub command_id : ℕ
  pub nsid : ℕ
  pub slba : ℕ
  pub length : ℕ

-- The argument is what bpf_probe_read_kernel gives; cntlid and qid are filled in later.
unfoldable pub read_cmd : Option NvmeCmd → Option CmdId
read_cmd none = none
read_cmd (some c) = some (record {
  slba = c.slba;
  nsid = c.nsid;
  cntlid = 0;
  qid = 0;
  cid = c.command_id;
  nlb = c.length;
  opcode = c.opcode;
})

abbrev pub is_rw : ℕ → Bool
is_rw opcode = opcode == nvme_cmd_read || opcode == nvme_cmd_write

abbrev has_size : ℕ → List ℕ → Bool
has_size bytes [] = false
has_size bytes (n ∷ ns) = n == bytes || has_size bytes ns

unfoldable pub size_matches : Filter → ℕ → Bool
size_matches filter bytes =
    if nonzero filter.n_sizes
    then has_size bytes (take filter.n_sizes (take max_size_filters filter.sizes))
    else not (nonzero filter.min_bytes && ltb bytes filter.min_bytes)
      && not (nonzero filter.max_bytes && ltb filter.max_bytes bytes)

-- `filter.io_type != 2 && filter.io_type != (opcode == WRITE)` does not hold.
unfoldable pub type_matches : Filter → ℕ → Bool
type_matches filter opcode =
    filter.io_type == 2 || filter.io_type == (if opcode == nvme_cmd_write then 1 else 0)

-- The time that a slot has after `ntp_stamp_once`.
unfoldable pub stamp_once : ℕ → ℕ → ℕ
stamp_once t now = if nonzero t then t else now

unfoldable pub clamp_u16 : ℕ → ℕ
clamp_u16 v = if leb (2 ^ 31) v then 0 else if ltb 0xffff v then 0xffff else v

-- `__sync_fetch_and_add` of 1 and of -1
abbrev pub inc64 : ℕ → ℕ
inc64 n = (n + 1) % 2 ^ 64

abbrev pub dec64 : ℕ → ℕ
dec64 n = (n + (2 ^ 64 - 1)) % 2 ^ 64

abbrev pub inc32 : ℕ → ℕ
inc32 n = (n + 1) % 2 ^ 32

abbrev pub dec32 : ℕ → ℕ
dec32 n = (n + (2 ^ 32 - 1)) % 2 ^ 32

abbrev pub idle : Filter → ℕ → Bool
idle filter inflight = not (nonzero inflight) && not filter.track_queues
