-- ===== src/Bpf/Host.antt =====
-- The initiator's state and helpers, common to every transport: bpf/host.bpf.h.
use ntprof.Prelude.{
  ℕ, ◌+◌, ◌-◌, ◌*◌, ◌/◌, ◌%◌, ◌^◌, Bool, true, false, not, ◌&&◌, ◌||◌, List, Option, none, some,
  bit_xor, ltb, leb, nonzero, ◌==◌, if◌then◌else◌, [], ◌∷◌, at, get_or, set, replicate,
}
use ntprof.Record.{
  CmdId, Filter, HostRec, RecHdr, RecKind, Transport, HostTs, Flags, no_flags, no_id, stamp_host,
}
use ntprof.Bpf.Common.{Counters, NvmeCmd, Run, no_counters, rec_slots, ntp_slot, dec32}
pub mod Submit
pub mod Complete

-- What the hooks read of a struct request, at `addr`, of its queue and of its controller; `cmd`
-- is the command that nvme_setup_cmd built, if it can be read, and `pdu_queue` and
-- `sk_user_data` are the words from which NVMe/TCP knows its requests.
pub record Request : Type 0 where
  pub addr : ℕ
  pub cmd : Option NvmeCmd
  pub data_len : ℕ
  pub instance_no : ℕ
  pub cntlid : ℕ
  pub driver_data : ℕ
  pub queue_num : ℕ
  pub disk_name : List ℕ
  pub start_time_ns : ℕ
  pub pdu_queue : ℕ
  pub sk_user_data : ℕ

-- What is fixed when a program is loaded; `queue_of` is the transport's host_queue_of().
pub record Config : Type 0 where
  pub filter : Filter
  pub transport : Transport
  pub hooks_queue_rq : Bool
  pub queue_of : Request → ℕ

pub record HostEntry : Type 0 where
  pub rq : ℕ
  pub queue : ℕ
  pub rec : HostRec

pub record CidSlot : Type 0 where
  pub queue : ℕ
  pub rq : ℕ
  pub cid : ℕ

pub record Qstat : Type 0 where
  pub unsent : ℕ
  pub inflight : ℕ

-- The flags are CNT_UNSENT and CNT_INFLIGHT.
pub record Counted : Type 0 where
  pub queue : ℕ
  pub unsent : Bool
  pub inflight : Bool

pub record Pending : Type 0 where
  pub tid : ℕ
  pub rq : ℕ
  pub queue : ℕ
  pub ts : ℕ
  pub q_unsent : ℕ
  pub q_inflight : ℕ

pub record HostRx : Type 0 where
  pub tid : ℕ
  pub queue : ℕ
  pub skb : ℕ
  pub arrival : ℕ
  pub enter : ℕ
  pub data_rq : ℕ
  pub busy_from : ℕ

-- The maps of a host object; `pend` and `rx_ctx` have an entry for each CPU, and `events` has
-- what went into the ring buffer, the latest first.
pub record State : Type 0 where
  pub armed : Bool
  pub inflight : ℕ
  pub reqs : List HostEntry
  pub cid_idx : List CidSlot
  pub qstats : ℕ → Option Qstat
  pub counted : ℕ → Option Counted
  pub pend : ℕ → Pending
  pub rx_ctx : ℕ → HostRx
  pub counters : Counters
  pub events : List HostRec

abbrev pub empty_rec : HostRec
empty_rec = record {
  hdr = record { kind = RecKind.host; transport = Transport.tcp; flags = no_flags; cpu = 0 };
  id = no_id;
  bytes = 0;
  ctrl_instance = 0;
  q_unsent = 0;
  q_inflight = 0;
  disk = [];
  ts = λ e. 0;
  c2h_busy_ns = 0;
  c2h_skbs = 0;
}

abbrev pub free_entry : HostEntry
free_entry = record { rq = 0; queue = 0; rec = empty_rec }

abbrev pub free_cid : CidSlot
free_cid = record { queue = 0; rq = 0; cid = 0 }

abbrev no_pending : Pending
no_pending = record { tid = 0; rq = 0; queue = 0; ts = 0; q_unsent = 0; q_inflight = 0 }

abbrev no_rx : HostRx
no_rx = record { tid = 0; queue = 0; skb = 0; arrival = 0; enter = 0; data_rq = 0; busy_from = 0 }

-- The maps as they are when the object is loaded: filled with zeroes.
unfoldable pub loaded : State
loaded = record {
  armed = false;
  inflight = 0;
  reqs = replicate rec_slots free_entry;
  cid_idx = replicate rec_slots free_cid;
  qstats = λ queue. none;
  counted = λ rq. none;
  pend = λ cpu. no_pending;
  rx_ctx = λ cpu. no_rx;
  counters = no_counters;
  events = [];
}

abbrev pub slot_of : ℕ → ℕ
slot_of rq = ntp_slot rq rec_slots

abbrev pub entry_at : State → ℕ → HostEntry
entry_at s slot = get_or s.reqs slot free_entry

unfoldable pub host_entry : State → ℕ → Option HostEntry
host_entry s rq = let e = entry_at s (slot_of rq) in if e.rq == rq then some e else none

unfoldable pub host_rec : State → ℕ → Option HostRec
unfolding host_entry
host_rec s rq = elim (host_entry s rq) [ none ↦ none | some e ↦ some e.rec ]

-- `*host_rec(rq) = f(*host_rec(rq))`, if there is a record.
unfoldable pub on_rec : State → ℕ → (HostRec → HostRec) → State
unfolding host_entry
on_rec s rq f = elim (host_entry s rq) [
  | none ↦ s
  | some e ↦ record s { reqs = set s.reqs (slot_of rq) (record e { rec = f e.rec }) }
]

unfoldable pub cid_slot_of : ℕ → ℕ → ℕ
cid_slot_of queue cid = ntp_slot (bit_xor queue (cid * 2 ^ 6)) rec_slots

-- The request of a queue's cid, if the slot is that command's.
unfoldable pub rq_by_cid : State → ℕ → ℕ → Option ℕ
unfolding cid_slot_of
rq_by_cid s queue cid =
    let c = get_or s.cid_idx (cid_slot_of queue cid) free_cid in
    if c.queue == queue && c.cid == cid then some c.rq else none

unfoldable pub host_rec_by_cid : State → ℕ → ℕ → Option HostRec
unfolding rq_by_cid
host_rec_by_cid s queue cid = elim (rq_by_cid s queue cid) [ none ↦ none | some rq ↦ host_rec s rq ]

-- The queue's occupancy, put in the map first if it is not there; none if the map is full.
unfoldable pub get_qstat : Run → (ℕ → Option Qstat) → ℕ → Option Qstat × (ℕ → Option Qstat)
unfolding at
get_qstat x qstats queue =
    let fresh : Qstat = record { unsent = 0; inflight = 0 } in
    elim (qstats queue) [
      | some qs ↦ (some qs, qstats)
      | none ↦ if x.qstats_room then (some fresh, at queue (some fresh) qstats) else (none, qstats)
    ]

abbrev less : Bool → Bool → Qstat → Qstat
less unsent inflight qs = record qs {
  unsent = if unsent then dec32 qs.unsent else qs.unsent;
  inflight = if inflight then dec32 qs.inflight else qs.inflight;
}

-- The bits are CNT_UNSENT and CNT_INFLIGHT.
unfoldable pub uncount : State → ℕ → Bool → Bool → Bool → State
unfolding at
uncount s rq unsent inflight forget = elim (s.counted rq) [
  | none ↦ s
  | some c ↦ record s {
    counted =
        at rq
          (if forget
            then none
            else some (record c {
              unsent = c.unsent && not unsent;
              inflight = c.inflight && not inflight;
            }))
          s.counted;
    qstats = elim (s.qstats c.queue) [
      | none ↦ s.qstats
      | some qs ↦ at c.queue (some (less (c.unsent && unsent) (c.inflight && inflight) qs)) s.qstats
    ];
  }
]

-- NTP_CTX_GET(rx_ctx)
abbrev pub rx_get : Run → State → Option HostRx
rx_get x s = if (s.rx_ctx x.cpu).tid == x.tid then some (s.rx_ctx x.cpu) else none

abbrev pub rx_put : Run → State → HostRx → State
rx_put x s c = record s { rx_ctx = at x.cpu c s.rx_ctx }

unfoldable pub host_rx_enter : Run → State → ℕ → ℕ → ℕ → ℕ → State
host_rx_enter x s queue skb arrival now = rx_put x s (record {
  tid = x.tid;
  queue = queue;
  skb = skb;
  arrival = arrival;
  enter = now;
  data_rq = 0;
  busy_from = 0;
})

unfoldable pub host_rx_exit : Run → State → State
host_rx_exit x s = elim (rx_get x s) [ none ↦ s | some c ↦ rx_put x s (record c { tid = 0 }) ]

-- What `host_data_done` writes to the record; the context loses `data_rq` and `busy_from`.
unfoldable pub data_done_rec : HostRx → ℕ → HostRec → HostRec
data_done_rec c now r =
    if nonzero c.busy_from && leb c.busy_from now
    then record r {
      c2h_busy_ns = (r.c2h_busy_ns + (now - c.busy_from)) % 2 ^ 64;
      c2h_skbs = (r.c2h_skbs + 1) % 2 ^ 32;
      ts = stamp_host r.ts HostTs.c2h_done now;
    }
    else r

abbrev pub data_done_rx : HostRx → HostRx
data_done_rx c = record c { data_rq = 0; busy_from = 0 }
