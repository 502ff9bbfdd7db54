-- ===== src/Bpf/Target.antt =====
-- The target's state and helpers, common to every transport: bpf/target.bpf.h.
use ntprof.Prelude.{
  ℕ, ◌+◌, ◌%◌, ◌^◌, Bool, true, false, not, ◌&&◌, ◌||◌, List, Option, none, some, nonzero, ◌==◌,
  if◌then◌else◌, [], ◌∷◌, at, get_or, set, replicate,
}
use ntprof.Record.{
  Filter, TgtRec, RecHdr, RecKind, Transport, TgtTs, Flags, no_flags, no_id, stamp_tgt,
}
use ntprof.Bpf.Common.{
  Counters, NvmeCmd, Run, no_counters, rec_slots, ntp_slot, inc32, dec32, dec64, skb_arrival,
}
pub mod Arrive
pub mod Finish
pub mod Inv
pub mod Steps
pub mod Tcp
pub mod Rdma

-- What the hooks read of a struct nvmet_req, at `addr`, and of its queue, at `sq`; `cmd` is its
-- command, if it can be read.
pub record Request : Type 0 where
  pub addr : ℕ
  pub sq : ℕ
  pub qid : ℕ
  pub cntlid : ℕ
  pub cmd : Option NvmeCmd
  pub transfer_len : ℕ

-- What is fixed when a program is loaded. The transport supplies tgt_is_ours(), and the time of
-- tgt_sampled() from the request and the present.
pub record Config : Type 0 where
  pub filter : Filter
  pub transport : Transport
  pub is_ours : Request → Bool
  pub arrival_of : Request → ℕ → ℕ

-- `parts` is of the RDMA transport.
pub record TgtEntry : Type 0 where
  pub req : ℕ
  pub parts : ℕ
  pub rec : TgtRec

pub record Tqstat : Type 0 where
  pub outstanding : ℕ
  pub resp_queue : ℕ

-- The flags are CNT_OUTSTANDING and CNT_RESP_QUEUED.
pub record Tcounted : Type 0 where
  pub sq : ℕ
  pub outstanding : Bool
  pub resp_queued : Bool

pub record TgtCtx : Type 0 where
  pub tid : ℕ
  pub queue : ℕ
  pub sk : ℕ
  pub last_skb : ℕ
  pub arrival : ℕ

-- The maps of a target object; `tgt_ctx` has an entry for each CPU, and `events` has what went
-- into the ring buffer, the latest first.
pub record State : Type 0 where
  pub armed : Bool
  pub inflight : ℕ
  pub treqs : List TgtEntry
  pub tqstats : ℕ → Option Tqstat
  pub tcounted : ℕ → Option Tcounted
  pub tgt_ctx : ℕ → TgtCtx
  pub counters : Counters
  pub events : List TgtRec

abbrev empty_rec : TgtRec
empty_rec = record {
  hdr = record { kind = RecKind.target; transport = Transport.tcp; flags = no_flags; cpu = 0 };
  id = no_id;
  bytes = 0;
  q_outstanding = 0;
  q_resp_queue = 0;
  ts = λ e. 0;
  h2c_busy_ns = 0;
  h2c_skbs = 0;
}

abbrev pub free_entry : TgtEntry
free_entry = record { req = 0; parts = 0; rec = empty_rec }

abbrev no_ctx : TgtCtx
no_ctx = record { tid = 0; queue = 0; sk = 0; last_skb = 0; arrival = 0 }

unfoldable pub loaded : State
loaded = record {
  armed = false;
  inflight = 0;
  treqs = replicate rec_slots free_entry;
  tqstats = λ sq. none;
  tcounted = λ req. none;
  tgt_ctx = λ cpu. no_ctx;
  counters = no_counters;
  events = [];
}

abbrev pub ctx_get : Run → State → Option TgtCtx
ctx_get x s = if (s.tgt_ctx x.cpu).tid == x.tid then some (s.tgt_ctx x.cpu) else none

unfoldable pub tgt_ctx_enter : Run → State → ℕ → ℕ → ℕ → State
unfolding at
tgt_ctx_enter x s queue sk arrival = record s {
  tgt_ctx =
      at x.cpu (record { tid = x.tid; queue = queue; sk = sk; last_skb = 0; arrival = arrival })
        s.tgt_ctx;
}

unfoldable pub tgt_ctx_exit : Run → State → State
unfolding at
tgt_ctx_exit x s = elim (ctx_get x s) [
  | none ↦ s
  | some c ↦ record s { tgt_ctx = at x.cpu (record c { tid = 0 }) s.tgt_ctx }
]

-- `tstamp` is the stamp of the last skb.
unfoldable pub tgt_arrival : Filter → TgtCtx → ℕ → ℕ → ℕ
unfolding skb_arrival
tgt_arrival filter c tstamp now =
    if nonzero c.last_skb
    then skb_arrival filter tstamp now
    else if nonzero c.arrival
    then c.arrival
    else now

abbrev pub slot_of : ℕ → ℕ
slot_of req = ntp_slot req rec_slots

abbrev pub entry_at : State → ℕ → TgtEntry
entry_at s slot = get_or s.treqs slot free_entry

unfoldable pub tgt_entry : State → ℕ → Option TgtEntry
tgt_entry s req = let e = entry_at s (slot_of req) in if e.req == req then some e else none

-- `*tgt_rec(req) = f(*tgt_rec(req))`, if there is a record.
unfoldable pub on_rec : State → ℕ → (TgtRec → TgtRec) → State
unfolding tgt_entry
on_rec s req f = elim (tgt_entry s req) [
  | none ↦ s
  | some e ↦ record s { treqs = set s.treqs (slot_of req) (record e { rec = f e.rec }) }
]

-- The queue's occupancy, put in the map first if it is not there; none if the map is full.
unfoldable pub get_tqstat : Run → (ℕ → Option Tqstat) → ℕ → Option Tqstat × (ℕ → Option Tqstat)
unfolding at
get_tqstat x tqstats sq =
    let fresh : Tqstat = record { outstanding = 0; resp_queue = 0 } in
    elim (tqstats sq) [
      | some qs ↦ (some qs, tqstats)
      | none ↦ if x.qstats_room then (some fresh, at sq (some fresh) tqstats) else (none, tqstats)
    ]

abbrev less : Bool → Bool → Tqstat → Tqstat
less outstanding resp qs = record qs {
  outstanding = if outstanding then dec32 qs.outstanding else qs.outstanding;
  resp_queue = if resp then dec32 qs.resp_queue else qs.resp_queue;
}

-- The bits are CNT_OUTSTANDING and CNT_RESP_QUEUED.
unfoldable pub uncount : State → ℕ → Bool → Bool → Bool → State
unfolding at
uncount s req outstanding resp forget = elim (s.tcounted req) [
  | none ↦ s
  | some c ↦ record s {
    tcounted =
        at req
          (if forget
            then none
            else some (record c {
              outstanding = c.outstanding && not outstanding;
              resp_queued = c.resp_queued && not resp;
            }))
          s.tcounted;
    tqstats = elim (s.tqstats c.sq) [
      | none ↦ s.tqstats
      | some qs ↦
          at c.sq (some (less (c.outstanding && outstanding) (c.resp_queued && resp) qs)) s.tqstats
    ];
  }
]

-- A completion was queued for the transport to send.
unfoldable pub count_resp_queued : State → ℕ → State
unfolding at
count_resp_queued s req = elim (s.tcounted req) [
  | none ↦ s
  | some c ↦ if c.resp_queued then s else record s {
    tcounted = at req (some (record c { resp_queued = true })) s.tcounted;
    tqstats = elim (s.tqstats c.sq) [
      | none ↦ s.tqstats
      | some qs ↦ at c.sq (some (record qs { resp_queue = inc32 qs.resp_queue })) s.tqstats
    ];
  }
]
