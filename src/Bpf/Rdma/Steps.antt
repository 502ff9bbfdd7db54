-- ===== src/Bpf/Rdma/Steps.antt =====
-- All that can happen to the maps of the NVMe/RDMA initiator object, in any order and on any CPU:
-- the programs of bpf/host.bpf.h and bpf/nvme_rdma_host.bpf.c, one run of a hook after another.
use ntprof.Prelude.{ℕ, ◌<◌, true, false, if-holds, Option-cases, inl, inr}
use ntprof.Record.{Filter, HostRec}
use ntprof.Bpf.Common.{Run}
use ntprof.Bpf.Host.{Request, State, loaded, rq_by_cid, host_rx_enter, host_rx_exit}
use ntprof.Bpf.Host.Submit.{host_queue_rq, setup_cmd}
use ntprof.Bpf.Host.Complete.{host_complete, nvme_done, blk_done}
use ntprof.Bpf.Inv.{
  IsConsistent, loaded-IsConsistent, on_rec-IsConsistent, uncount-IsConsistent,
  host_queue_rq-IsConsistent, blk_done-IsConsistent, nvme_done-IsConsistent,
}
use ntprof.Bpf.Steps.{
  setup_cmd-IsConsistent, host_complete-IsConsistent, rx_put-IsConsistent, in_context,
}
use ntprof.Bpf.Rdma.{
  Mem, PostCtx, RdmaState, config, on_posted, post_kp, post_kr, on_send_done, on_rec_by_cid,
  rsp_arrived, on_recv_done, on_inv_done,
}

abbrev no_post : PostCtx
no_post = record { tid = 0; qe = 0 }

-- The maps as they are when the object is loaded.
unfoldable pub rdma_loaded : RdmaState
rdma_loaded = record { host = loaded; post_ctx = λ cpu. no_post }

abbrev pub with_host : RdmaState → State → RdmaState
with_host s h = record s { host = h }

-- The address of a request is not 0.
pub data Reached (f : Filter) : RdmaState → Type 0 where
  start : Reached f rdma_loaded
  armed : {s : RdmaState} → Reached f s → Reached f (with_host s (record (s.host) { armed = true }))
  queued :
      {s : RdmaState} (x : Run) (rq driver_data : ℕ)
      → Reached f s
      → Reached f (with_host s (host_queue_rq (config f) x s.host rq driver_data))
  set_up :
      {s : RdmaState} (x : Run) (rq : Request)
      → 0 < rq.addr
      → Reached f s
      → Reached f (with_host s (setup_cmd (config f) x s.host rq))
  posted :
      {s : RdmaState} (m : Mem) (x : Run) (qe ret : ℕ)
      → Reached f s
      → Reached f (with_host s (on_posted f m x s.host qe ret))
  post_entered :
      {s : RdmaState} (m : Mem) (x : Run) (qe : ℕ) → Reached f s → Reached f (post_kp f m x s qe)
  post_left :
      {s : RdmaState} (m : Mem) (x : Run) (ret : ℕ) → Reached f s → Reached f (post_kr f m x s ret)
  send_done :
      {s : RdmaState} (m : Mem) (x : Run) (wc : ℕ)
      → Reached f s
      → Reached f (with_host s (on_send_done f m x s.host wc))
  recv_done :
      {s : RdmaState} (m : Mem) (x : Run) (wc : ℕ)
      → Reached f s
      → Reached f (with_host s (on_recv_done f m x s.host wc))
  inv_done :
      {s : RdmaState} (m : Mem) (x : Run) (wc : ℕ)
      → Reached f s
      → Reached f (with_host s (on_inv_done f m x s.host wc))
  handler_left :
      {s : RdmaState} (x : Run) → Reached f s → Reached f (with_host s (host_rx_exit x s.host))
  completed :
      {s : RdmaState} (x : Run) (rq : ℕ)
      → Reached f s
      → Reached f (with_host s (host_complete (config f) x s.host rq).1)
  nvme_completed :
      {s : RdmaState} (x : Run) (rq : ℕ)
      → Reached f s
      → Reached f (with_host s (nvme_done (config f) x s.host rq))
  blk_completed :
      {s : RdmaState} (x : Run) (rq : ℕ)
      → 0 < rq
      → Reached f s
      → Reached f (with_host s (blk_done (config f) x s.host rq))

host_rx_enter-IsConsistent :
    (x : Run) (s : State) (queue : ℕ)
    → IsConsistent s
    → IsConsistent (host_rx_enter x s queue 0 0 0)
unfolding host_rx_enter
host_rx_enter-IsConsistent x s queue ok = rx_put-IsConsistent x s _ ok

host_rx_exit-IsConsistent : (x : Run) (s : State) → IsConsistent s → IsConsistent (host_rx_exit x s)
unfolding host_rx_exit
host_rx_exit-IsConsistent x s ok = in_context x s _ ok (λ c. rx_put-IsConsistent x s _ ok)

module _ (f : Filter) (m : Mem) (x : Run) (s : State) (ok : IsConsistent s) where
  on_posted-IsConsistent : (qe ret : ℕ) → IsConsistent (on_posted f m x s qe ret)
  unfolding on_posted
  on_posted-IsConsistent qe ret =
      let uncounted =
        if-holds IsConsistent f.track_queues (uncount-IsConsistent s ok _ true false false) ok in
      if-holds IsConsistent _ ok (on_rec-IsConsistent _ uncounted _ _)

  on_send_done-IsConsistent : (wc : ℕ) → IsConsistent (on_send_done f m x s wc)
  unfolding on_send_done
  on_send_done-IsConsistent wc =
      if-holds IsConsistent _ ok (host_rx_enter-IsConsistent x _ _ (on_rec-IsConsistent s ok _ _))

  on_rec_by_cid-IsConsistent :
      (queue cid : ℕ) (g : HostRec → HostRec) → IsConsistent (on_rec_by_cid f m x s queue cid g)
  unfolding on_rec_by_cid
  on_rec_by_cid-IsConsistent queue cid g = elim (Option-cases (rq_by_cid s queue cid)) [
    | inl e ↦ rw (e, on_rec_by_cid) ok
    | inr (rq, e) ↦ rw (e, on_rec_by_cid) (on_rec-IsConsistent s ok rq g)
  ]

  rsp_arrived-IsConsistent : (wc : ℕ) → IsConsistent (rsp_arrived f m x s wc)
  unfolding rsp_arrived
  rsp_arrived-IsConsistent wc = elim (Option-cases (m.command_id (m.qe_data (m.wr_cqe wc)))) [
    | inl e ↦ rw (e, rsp_arrived) ok
    | inr (cid, e) ↦ rw (e, rsp_arrived) (on_rec_by_cid-IsConsistent _ cid _)
  ]

  on_recv_done-IsConsistent : (wc : ℕ) → IsConsistent (on_recv_done f m x s wc)
  unfolding on_recv_done
  on_recv_done-IsConsistent wc =
      if-holds IsConsistent _ ok (host_rx_enter-IsConsistent x _ _ (rsp_arrived-IsConsistent wc))

  on_inv_done-IsConsistent : (wc : ℕ) → IsConsistent (on_inv_done f m x s wc)
  unfolding on_inv_done
  on_inv_done-IsConsistent wc = if-holds IsConsistent _ ok (host_rx_enter-IsConsistent x s _ ok)

post_kr-IsConsistent :
    (f : Filter) (m : Mem) (x : Run) (s : RdmaState) (ret : ℕ)
    → IsConsistent s.host
    → IsConsistent (post_kr f m x s ret).host
unfolding post_kr
post_kr-IsConsistent f m x s ret ok =
    if-holds (λ (s : RdmaState). IsConsistent s.host) _
      (on_posted-IsConsistent f m x s.host ok _ ret) ok

-- In every state of the NVMe/RDMA initiator's maps, whatever hooks of its object ran in whatever
-- order on requests with an address other than 0, ntp_inflight is the number of slots with an
-- owner, and NTP_CNT_HOST_SAMPLED is the sum of NTP_CNT_HOST_EMITTED, NTP_CNT_RB_DROPS,
-- NTP_CNT_STALE and ntp_inflight.
pub Reached-IsConsistent_rdma_host :
    (f : Filter) (s : RdmaState) → Reached f s → IsConsistent s.host
unfolding rdma_loaded post_kp
Reached-IsConsistent_rdma_host f _ start = loaded-IsConsistent
Reached-IsConsistent_rdma_host f _ (armed r) =
    let ok = Reached-IsConsistent_rdma_host f _ r in
    record { width = ok.width; opened = ok.opened; balance = ok.balance }
Reached-IsConsistent_rdma_host f _ (queued x rq d r) =
    host_queue_rq-IsConsistent _ (Reached-IsConsistent_rdma_host f _ r) (config f) x rq d
Reached-IsConsistent_rdma_host f _ (set_up x rq h r) =
    setup_cmd-IsConsistent (config f) x _ rq h (Reached-IsConsistent_rdma_host f _ r)
Reached-IsConsistent_rdma_host f _ (posted m x qe ret r) =
    on_posted-IsConsistent f m x _ (Reached-IsConsistent_rdma_host f _ r) qe ret
Reached-IsConsistent_rdma_host f _ (post_entered m x qe r) = Reached-IsConsistent_rdma_host f _ r
Reached-IsConsistent_rdma_host f _ (post_left m x ret r) =
    post_kr-IsConsistent f m x _ ret (Reached-IsConsistent_rdma_host f _ r)
Reached-IsConsistent_rdma_host f _ (send_done m x wc r) =
    on_send_done-IsConsistent f m x _ (Reached-IsConsistent_rdma_host f _ r) wc
Reached-IsConsistent_rdma_host f _ (recv_done m x wc r) =
    on_recv_done-IsConsistent f m x _ (Reached-IsConsistent_rdma_host f _ r) wc
Reached-IsConsistent_rdma_host f _ (inv_done m x wc r) =
    on_inv_done-IsConsistent f m x _ (Reached-IsConsistent_rdma_host f _ r) wc
Reached-IsConsistent_rdma_host f _ (handler_left x r) =
    host_rx_exit-IsConsistent x _ (Reached-IsConsistent_rdma_host f _ r)
Reached-IsConsistent_rdma_host f _ (completed x rq r) =
    host_complete-IsConsistent (config f) x _ rq (Reached-IsConsistent_rdma_host f _ r)
Reached-IsConsistent_rdma_host f _ (nvme_completed x rq r) =
    nvme_done-IsConsistent _ (Reached-IsConsistent_rdma_host f _ r) (config f) x rq
Reached-IsConsistent_rdma_host f _ (blk_completed x rq h r) =
    blk_done-IsConsistent _ (Reached-IsConsistent_rdma_host f _ r) (config f) x rq h
