-- ===== src/Bpf/Rdma.antt =====
-- The NVMe/RDMA initiator: the hooks of bpf/nvme_rdma_host.bpf.c.
use ntprof.Prelude.{
  ℕ, ◌+◌, ◌-◌, ◌%◌, ◌^◌, Bool, true, false, ◌||◌, Option, none, some, nonzero, ◌==◌, if◌then◌else◌,
  at,
}
use ntprof.Record.{Filter, Transport, HostRec, HostTs, stamp_host}
use ntprof.Bpf.Common.{Run, stamp_once, idle}
use ntprof.Bpf.Host.{Config, Request, State, on_rec, uncount, rq_by_cid, host_rx_enter}
pub mod Steps

-- The kernel's memory while a hook runs, by address: of a struct ib_wc its qp_context and its
-- wr_cqe, of a struct nvme_rdma_qe its data, and of these the command id, if it can be read; the
-- offset of sqe in a struct nvme_rdma_request and the size of a struct request.
pub record Mem : Type 0 where
  pub wc_queue : ℕ → ℕ
  pub wr_cqe : ℕ → ℕ
  pub qe_data : ℕ → ℕ
  pub command_id : ℕ → Option ℕ
  pub sqe_field : ℕ
  pub request_size : ℕ

-- The queue_rq hook alone tells the requests apart.
unfoldable pub host_queue_of : Request → ℕ
host_queue_of rq = 0

unfoldable pub config : Filter → Config
unfolding host_queue_of
config filter = record {
  filter = filter;
  transport = Transport.rdma;
  hooks_queue_rq = true;
  queue_of = host_queue_of;
}

pub record PostCtx : Type 0 where
  pub tid : ℕ
  pub qe : ℕ

pub record RdmaState : Type 0 where
  pub host : State
  pub post_ctx : ℕ → PostCtx

unfoldable pub rq_of_sqe : Mem → ℕ → ℕ
rq_of_sqe m qe = ((qe + (2 ^ 64 - m.sqe_field)) % 2 ^ 64 + (2 ^ 64 - m.request_size)) % 2 ^ 64

unfoldable pub once_rec : HostTs → ℕ → HostRec → HostRec
unfolding stamp_once
once_rec e now r = record r { ts = stamp_host r.ts e (stamp_once (r.ts e) now) }

module _ (filter : Filter) (m : Mem) (x : Run) where
  -- `ret` is the int that nvme_rdma_post_send returned.
  unfoldable pub on_posted : State → ℕ → ℕ → State
  unfolding on_rec uncount once_rec
  on_posted s qe ret =
      let rq = rq_of_sqe m qe in
      let s₁ = if filter.track_queues then uncount s rq true false false else s in
      if nonzero ret || idle filter s.inflight
      then s
      else on_rec s₁ rq (once_rec HostTs.cmd_sent x.now)

  unfoldable pub post_kp : RdmaState → ℕ → RdmaState
  unfolding at
  post_kp s qe = record s { post_ctx = at x.cpu (record { tid = x.tid; qe = qe }) s.post_ctx }

  unfoldable pub post_kr : RdmaState → ℕ → RdmaState
  unfolding at on_posted
  post_kr s ret =
      let c = s.post_ctx x.cpu in
      if c.tid == x.tid
      then record s {
        post_ctx = at x.cpu (record c { tid = 0 }) s.post_ctx;
        host = on_posted s.host c.qe ret;
      }
      else s

  -- The receive context of the completion handlers has only its queue.
  abbrev completing : State → ℕ → State
  completing s wc = host_rx_enter x s (m.wc_queue wc) 0 0 0

  unfoldable pub on_send_done : State → ℕ → State
  unfolding on_rec once_rec
  on_send_done s wc =
      let stamped = on_rec s (rq_of_sqe m (m.wr_cqe wc)) (once_rec HostTs.send_done x.now) in
      if idle filter s.inflight then s else completing stamped wc

  -- host_rec_by_cid, and a write to its record
  unfoldable pub on_rec_by_cid : State → ℕ → ℕ → (HostRec → HostRec) → State
  unfolding on_rec rq_by_cid
  on_rec_by_cid s queue cid f = elim (rq_by_cid s queue cid) [ none ↦ s | some rq ↦ on_rec s rq f ]

  unfoldable pub rsp_arrived : State → ℕ → State
  unfolding on_rec_by_cid once_rec
  rsp_arrived s wc = elim (m.command_id (m.qe_data (m.wr_cqe wc))) [
    | none ↦ s
    | some cid ↦ on_rec_by_cid s (m.wc_queue wc) cid (once_rec HostTs.rsp_arr x.now)
  ]

  unfoldable pub on_recv_done : State → ℕ → State
  unfolding rsp_arrived
  on_recv_done s wc = if idle filter s.inflight then s else completing (rsp_arrived s wc) wc

  unfoldable pub on_inv_done : State → ℕ → State
  on_inv_done s wc = if idle filter s.inflight then s else completing s wc
