-- ===== src/Bpf/Target/Rdma.antt =====
-- The NVMe/RDMA target: the hooks of bpf/nvme_rdma_target.bpf.c.
use Prim.Native.Nat.{bit_or}
use ntprof.Prelude.{
  ℕ, ◌+◌, ◌-◌, ◌%◌, ◌^◌, Bool, true, false, not, ◌&&◌, ◌||◌, Option, none, some, nonzero, ◌==◌,
  if◌then◌else◌, is_some, at, set,
}
use ntprof.Record.{Filter, Transport, TgtRec, RecHdr, Flags, TgtTs, stamp_tgt}
use ntprof.Bpf.Common.{Run, stamp_once, idle}
use ntprof.Bpf.Target.{
  Config, Request, State, TgtEntry, ctx_get, tgt_ctx_enter, tgt_ctx_exit, tgt_arrival, tgt_entry,
  slot_of, on_rec, count_resp_queued,
}
use ntprof.Bpf.Target.Arrive.{req_init}
use ntprof.Bpf.Target.Finish.{tgt_emit, tgt_uncount}
pub mod Steps
pub mod Held
pub mod Emit

-- What the hooks read of the kernel, by address: of a struct ib_wc its qp_context and its wr_cqe, of
-- a nvmet_rdma_rsp its flag of inline data, of a nvmet_req its transfer length, and the offsets of
-- the fields of a nvmet_rdma_rsp.
pub record Mem : Type 0 where
  pub wc_queue : ℕ → ℕ
  pub wr_cqe : ℕ → ℕ
  pub inline_data : ℕ → Bool
  pub transfer_len : ℕ → ℕ
  pub skb_tstamp : ℕ → ℕ
  pub req_field : ℕ
  pub read_cqe_field : ℕ
  pub send_cqe_field : ℕ

-- From the entry of nvmet_rdma_queue_response to its return.
pub record RespCtx : Type 0 where
  pub tid : ℕ
  pub req : ℕ

pub record RdmaState : Type 0 where
  pub target : State
  pub resp_ctx : ℕ → RespCtx

abbrev pub with_target : RdmaState → State → RdmaState
with_target s t = record s { target = t }

-- nvmet_req of an nvmet_rdma_rsp
unfoldable pub req_of_rsp : Mem → ℕ → ℕ
req_of_rsp m rsp = (rsp + m.req_field) % 2 ^ 64

-- The nvmet_req whose rsp has the completed cqe at this offset.
unfoldable pub req_of_cqe : Mem → ℕ → ℕ → ℕ
unfolding req_of_rsp
req_of_cqe m field wc = req_of_rsp m ((m.wr_cqe wc + (2 ^ 64 - field)) % 2 ^ 64)

abbrev pub rsp_posted : ℕ
rsp_posted = 1

abbrev pub rsp_send_done : ℕ
rsp_send_done = 2

-- NTP_F_INLINE_DATA, or an RDMA READ that is posted
unfoldable pub execute_rec : Bool → ℕ → TgtRec → TgtRec
unfolding stamp_once
execute_rec in_capsule now r =
    let f = r.hdr.flags in
    if not f.write
    then r
    else if in_capsule
    then record r { hdr = record (r.hdr) { flags = record f { inline_data = true } } }
    else record r {
      hdr = record (r.hdr) { flags = record f { rdma_read = true } };
      ts = stamp_tgt r.ts TgtTs.r2t_sent (stamp_once (r.ts TgtTs.r2t_sent) now);
    }

unfoldable pub read_done_rec : ℕ → TgtRec → TgtRec
read_done_rec now r =
    if nonzero (r.ts TgtTs.data_proc)
    then r
    else record r { ts = stamp_tgt (stamp_tgt r.ts TgtTs.data_arr now) TgtTs.data_proc now }

-- Data and response are posted together.
unfoldable pub posted_rec : ℕ → TgtRec → TgtRec
posted_rec now r =
    let ts = if r.hdr.flags.write then r.ts else stamp_tgt r.ts TgtTs.c2h_sent now in
    record r { ts = stamp_tgt ts TgtTs.rsp_sent now }

unfoldable pub send_done_rec : ℕ → TgtRec → TgtRec
unfolding stamp_once
send_done_rec now r = record r {
  ts = stamp_tgt r.ts TgtTs.send_done (stamp_once (r.ts TgtTs.send_done) now);
}

unfoldable pub rsp_queued_rec : ℕ → TgtRec → TgtRec
unfolding stamp_once
rsp_queued_rec now r = record r {
  ts = stamp_tgt r.ts TgtTs.rsp_queued (stamp_once (r.ts TgtTs.rsp_queued) now);
}

-- The part is noted in the entry.
unfoldable pub note_part : State → ℕ → TgtEntry → ℕ → State
note_part t req e part = record t {
  treqs = set t.treqs (slot_of req) (record e { parts = bit_or e.parts part });
}

module _ (filter : Filter) (m : Mem) (x : Run) where
  -- The receive completion handler runs on this thread.
  unfoldable pub config : State → Config
  unfolding tgt_arrival
  config t = record {
    filter = filter;
    transport = Transport.rdma;
    is_ours = λ rq. is_some (ctx_get x t);
    arrival_of = λ rq now. elim (ctx_get x t) [
      | none ↦ now
      | some c ↦ tgt_arrival filter c (m.skb_tstamp c.last_skb) now
    ];
  }

  unfoldable pub rdma_req_init : State → Request → State
  rdma_req_init t rq = req_init (config t) x t rq

  unfoldable pub on_recv_done : State → ℕ → State
  on_recv_done t wc = tgt_ctx_enter x t (m.wc_queue wc) 0 x.now

  unfoldable pub on_execute : State → ℕ → State
  unfolding execute_rec
  on_execute t rsp =
      let req = req_of_rsp m rsp in
      let in_capsule = not (nonzero (m.transfer_len req)) || m.inline_data rsp in
      if nonzero t.inflight then on_rec t req (execute_rec in_capsule x.now) else t

  unfoldable pub on_read_done : State → ℕ → State
  unfolding read_done_rec
  on_read_done t wc =
      if nonzero t.inflight
      then on_rec t (req_of_cqe m m.read_cqe_field wc) (read_done_rec x.now)
      else t

  unfoldable pub on_queue_resp : State → ℕ → State
  unfolding rsp_queued_rec
  on_queue_resp t req =
      let counted = if filter.track_queues then count_resp_queued t req else t in
      if idle filter t.inflight then t else on_rec counted req (rsp_queued_rec x.now)

  -- The record goes out once both ends of the response were seen.
  unfoldable pub rsp_part_done : State → ℕ → ℕ → State
  unfolding note_part
  rsp_part_done t req part = elim (tgt_entry t req) [
    | none ↦ t
    | some e ↦
        let noted = note_part t req e part in
        if bit_or e.parts part == bit_or rsp_posted rsp_send_done
        then tgt_emit x noted req
        else noted
  ]

  unfoldable pub on_queue_resp_exit : State → ℕ → State
  unfolding rsp_part_done posted_rec
  on_queue_resp_exit t req =
      let ended = rsp_part_done (on_rec t req (posted_rec x.now)) req rsp_posted in
      if idle filter t.inflight then t else tgt_uncount x (config t) ended req

  unfoldable pub on_send_done : State → ℕ → State
  unfolding rsp_part_done send_done_rec
  on_send_done t wc =
      let req = req_of_cqe m m.send_cqe_field wc in
      if nonzero t.inflight
      then rsp_part_done (on_rec t req (send_done_rec x.now)) req rsp_send_done
      else t

  -- The kprobe flavour keeps the request for the return.
  unfoldable pub queue_resp_kp : RdmaState → ℕ → RdmaState
  unfolding on_queue_resp at
  queue_resp_kp s req = record s {
    target = on_queue_resp s.target req;
    resp_ctx = at x.cpu (record { tid = x.tid; req = req }) s.resp_ctx;
  }

  unfoldable pub queue_resp_kr : RdmaState → RdmaState
  unfolding on_queue_resp_exit at
  queue_resp_kr s =
      let c = s.resp_ctx x.cpu in
      if c.tid == x.tid
      then record s {
        target = on_queue_resp_exit s.target c.req;
        resp_ctx = at x.cpu (record c { tid = 0 }) s.resp_ctx;
      }
      else s
