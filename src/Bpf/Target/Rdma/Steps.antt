-- ===== src/Bpf/Target/Rdma/Steps.antt =====
-- All that the programs of bpf/target.bpf.h and bpf/nvme_rdma_target.bpf.c can do to the maps of the
-- NVMe/RDMA target object, in any order and on any CPU.
use ntprof.Prelude.{
  ℕ, ◌<◌, ◌∙◌, ◌≡◌, refl, true, some, arith, if-holds, Option-cases, inl, inr, length-set,
  sum_by-set,
}
use Prim.Native.Nat.{bit_or}
use ntprof.Record.{Filter}
use ntprof.Bpf.Common.{Run, idle}
use ntprof.Bpf.Target.{
  Config, Request, State, TgtEntry, loaded, tgt_entry, entry_at, slot_of, free_entry, tgt_ctx_exit,
}
use ntprof.Bpf.Target.Finish.{on_exec, be_issue, be_done, req_complete, tgt_uncount}
use ntprof.Bpf.Target.Inv.{
  IsConsistent, occupied, in_range, loaded-IsConsistent, on_rec-IsConsistent, uncount-IsConsistent,
  tgt_emit-IsConsistent, count_resp_queued-IsConsistent,
}
use ntprof.Bpf.Target.Steps.{
  req_init-IsConsistent, on_exec-IsConsistent, be_issue-IsConsistent, be_done-IsConsistent,
  req_complete-IsConsistent, tgt_ctx_enter-IsConsistent, tgt_ctx_exit-IsConsistent,
}
use ntprof.Bpf.Target.Rdma.{
  Mem, RespCtx, RdmaState, with_target, note_part, config, rdma_req_init, on_recv_done, on_execute,
  on_read_done, on_queue_resp, rsp_part_done, on_queue_resp_exit, on_send_done, queue_resp_kp,
  queue_resp_kr, req_of_cqe,
}

abbrev no_resp : RespCtx
no_resp = record { tid = 0; req = 0 }

-- The maps as they are when the object is loaded.
unfoldable pub rdma_loaded : RdmaState
rdma_loaded = record { target = loaded; resp_ctx = λ cpu. no_resp }

-- The address of a request is not 0.
pub data Reached (f : Filter) : RdmaState → Type 0 where
  start : Reached f rdma_loaded
  armed :
      {s : RdmaState} → Reached f s → Reached f (with_target s (record (s.target) { armed = true }))
  received :
      {s : RdmaState} (m : Mem) (x : Run) (wc : ℕ)
      → Reached f s
      → Reached f (with_target s (on_recv_done f m x s.target wc))
  left :
      {s : RdmaState} (x : Run) → Reached f s → Reached f (with_target s (tgt_ctx_exit x s.target))
  arrived :
      {s : RdmaState} (m : Mem) (x : Run) (rq : Request)
      → 0 < rq.addr
      → Reached f s
      → Reached f (with_target s (rdma_req_init f m x s.target rq))
  started :
      {s : RdmaState} (m : Mem) (x : Run) (rsp : ℕ)
      → Reached f s
      → Reached f (with_target s (on_execute f m x s.target rsp))
  fetched :
      {s : RdmaState} (m : Mem) (x : Run) (wc : ℕ)
      → Reached f s
      → Reached f (with_target s (on_read_done f m x s.target wc))
  executed :
      {s : RdmaState} (x : Run) (rq : Request)
      → Reached f s
      → Reached f (with_target s (on_exec x s.target rq))
  issued :
      {s : RdmaState} (x : Run) (priv : ℕ)
      → Reached f s
      → Reached f (with_target s (be_issue x s.target priv))
  stored :
      {s : RdmaState} (x : Run) (priv : ℕ)
      → Reached f s
      → Reached f (with_target s (be_done x s.target priv))
  completed :
      {s : RdmaState} (x : Run) (req : ℕ)
      → Reached f s
      → Reached f (with_target s (req_complete x s.target req))
  response_queued :
      {s : RdmaState} (m : Mem) (x : Run) (req : ℕ)
      → Reached f s
      → Reached f (with_target s (on_queue_resp f m x s.target req))
  response_posted :
      {s : RdmaState} (m : Mem) (x : Run) (req : ℕ)
      → 0 < req
      → Reached f s
      → Reached f (with_target s (on_queue_resp_exit f m x s.target req))
  kp_entered :
      {s : RdmaState} (m : Mem) (x : Run) (req : ℕ)
      → Reached f s
      → Reached f (queue_resp_kp f m x s req)
  kp_left :
      {s : RdmaState} (m : Mem) (x : Run)
      → 0 < (s.resp_ctx x.cpu).req
      → Reached f s
      → Reached f (queue_resp_kr f m x s)
  sent :
      {s : RdmaState} (m : Mem) (x : Run) (wc : ℕ)
      → 0 < req_of_cqe m m.send_cqe_field wc
      → Reached f s
      → Reached f (with_target s (on_send_done f m x s.target wc))

-- The owner of a slot stays when a part is noted.
pub note_part-IsConsistent :
    (t : State) (req : ℕ) (e : TgtEntry) (part : ℕ)
    → tgt_entry t req ≡ some e
    → IsConsistent t
    → IsConsistent (note_part t req e part)
unfolding note_part tgt_entry occupied
note_part-IsConsistent t req e part found ok =
    let held : entry_at t (slot_of req) ≡ e = ground arith in
    let e' : TgtEntry = record e { parts = bit_or e.parts part } in
    let same : occupied e' ≡ occupied (entry_at t (slot_of req)) = rw held refl in
    record {
      width = length-set t.treqs (slot_of req) e' ∙ ok.width;
      opened = omega (
        arith,
        ok.opened,
        same,
        sum_by-set occupied t.treqs (slot_of req) e' free_entry (in_range t ok req),
      );
      balance = ok.balance;
    }

module _ (f : Filter) (m : Mem) (x : Run) (t : State) (ok : IsConsistent t) where
  on_recv_done-IsConsistent : (wc : ℕ) → IsConsistent (on_recv_done f m x t wc)
  unfolding on_recv_done
  on_recv_done-IsConsistent wc = tgt_ctx_enter-IsConsistent x t _ _ _ ok

  rdma_req_init-IsConsistent :
      (rq : Request) → 0 < rq.addr → IsConsistent (rdma_req_init f m x t rq)
  unfolding rdma_req_init
  rdma_req_init-IsConsistent rq h = req_init-IsConsistent (config f m x t) x t rq h ok

  on_execute-IsConsistent : (rsp : ℕ) → IsConsistent (on_execute f m x t rsp)
  unfolding on_execute
  on_execute-IsConsistent rsp = if-holds IsConsistent _ (on_rec-IsConsistent t ok _ _) ok

  on_read_done-IsConsistent : (wc : ℕ) → IsConsistent (on_read_done f m x t wc)
  unfolding on_read_done
  on_read_done-IsConsistent wc = if-holds IsConsistent _ (on_rec-IsConsistent t ok _ _) ok

  pub on_queue_resp-IsConsistent : (req : ℕ) → IsConsistent (on_queue_resp f m x t req)
  unfolding on_queue_resp
  on_queue_resp-IsConsistent req =
      let counted =
        if-holds IsConsistent f.track_queues (count_resp_queued-IsConsistent t ok req) ok in
      if-holds IsConsistent _ ok (on_rec-IsConsistent _ counted req _)

  pub rsp_part_done-IsConsistent :
      (req part : ℕ) → 0 < req → IsConsistent (rsp_part_done f m x t req part)
  unfolding rsp_part_done
  rsp_part_done-IsConsistent req part h = elim (Option-cases (tgt_entry t req)) [
    | inl e ↦ rw (e, rsp_part_done) ok
    | inr (e, found) ↦
        let noted = note_part-IsConsistent t req e part found ok in
        rw (found, rsp_part_done)
          (if-holds IsConsistent _ (tgt_emit-IsConsistent _ noted x req h) noted)
  ]

pub tgt_uncount-IsConsistent :
    (x : Run) (g : Config) (t : State) (req : ℕ)
    → IsConsistent t
    → IsConsistent (tgt_uncount x g t req)
unfolding tgt_uncount
tgt_uncount-IsConsistent x g t req ok =
    if-holds IsConsistent g.filter.track_queues (uncount-IsConsistent t ok req true true true) ok

module _ (f : Filter) (m : Mem) (x : Run) (t : State) (ok : IsConsistent t) where
  pub on_queue_resp_exit-IsConsistent :
      (req : ℕ) → 0 < req → IsConsistent (on_queue_resp_exit f m x t req)
  unfolding on_queue_resp_exit
  on_queue_resp_exit-IsConsistent req h =
      let stamped = on_rec-IsConsistent t ok req _ in
      let ended = rsp_part_done-IsConsistent f m x _ stamped req _ h in
      if-holds IsConsistent (idle f t.inflight) ok
        (tgt_uncount-IsConsistent x (config f m x t) _ req ended)

  pub on_send_done-IsConsistent :
      (wc : ℕ) → 0 < req_of_cqe m m.send_cqe_field wc → IsConsistent (on_send_done f m x t wc)
  unfolding on_send_done
  on_send_done-IsConsistent wc h =
      let stamped = on_rec-IsConsistent t ok (req_of_cqe m m.send_cqe_field wc) _ in
      if-holds IsConsistent _ (rsp_part_done-IsConsistent f m x _ stamped _ _ h) ok

queue_resp_kr-IsConsistent :
    (f : Filter) (m : Mem) (x : Run) (s : RdmaState)
    → 0 < (s.resp_ctx x.cpu).req
    → IsConsistent s.target
    → IsConsistent (queue_resp_kr f m x s).target
unfolding queue_resp_kr
queue_resp_kr-IsConsistent f m x s h ok =
    if-holds (λ (s : RdmaState). IsConsistent s.target) _
      (on_queue_resp_exit-IsConsistent f m x s.target ok _ h) ok

-- In every state of the NVMe/RDMA target's maps, whatever hooks of its object ran in whatever order
-- on commands with an address other than 0, ntp_inflight is the number of slots with an owner, and
-- NTP_CNT_TGT_SAMPLED is the sum of NTP_CNT_TGT_EMITTED, NTP_CNT_RB_DROPS, NTP_CNT_STALE and
-- ntp_inflight.
pub Reached-IsConsistent_rdma : (f : Filter) (s : RdmaState) → Reached f s → IsConsistent s.target
unfolding rdma_loaded queue_resp_kp
Reached-IsConsistent_rdma f _ start = loaded-IsConsistent
Reached-IsConsistent_rdma f _ (armed r) =
    let ok = Reached-IsConsistent_rdma f _ r in
    record { width = ok.width; opened = ok.opened; balance = ok.balance }
Reached-IsConsistent_rdma f _ (received m x wc r) =
    on_recv_done-IsConsistent f m x _ (Reached-IsConsistent_rdma f _ r) wc
Reached-IsConsistent_rdma f _ (left x r) =
    tgt_ctx_exit-IsConsistent x _ (Reached-IsConsistent_rdma f _ r)
Reached-IsConsistent_rdma f _ (arrived m x rq h r) =
    rdma_req_init-IsConsistent f m x _ (Reached-IsConsistent_rdma f _ r) rq h
Reached-IsConsistent_rdma f _ (started m x rsp r) =
    on_execute-IsConsistent f m x _ (Reached-IsConsistent_rdma f _ r) rsp
Reached-IsConsistent_rdma f _ (fetched m x wc r) =
    on_read_done-IsConsistent f m x _ (Reached-IsConsistent_rdma f _ r) wc
Reached-IsConsistent_rdma f _ (executed x rq r) =
    on_exec-IsConsistent x _ rq (Reached-IsConsistent_rdma f _ r)
Reached-IsConsistent_rdma f _ (issued x priv r) =
    be_issue-IsConsistent x _ priv (Reached-IsConsistent_rdma f _ r)
Reached-IsConsistent_rdma f _ (stored x priv r) =
    be_done-IsConsistent x _ priv (Reached-IsConsistent_rdma f _ r)
Reached-IsConsistent_rdma f _ (completed x req r) =
    req_complete-IsConsistent x _ req (Reached-IsConsistent_rdma f _ r)
Reached-IsConsistent_rdma f _ (response_queued m x req r) =
    on_queue_resp-IsConsistent f m x _ (Reached-IsConsistent_rdma f _ r) req
Reached-IsConsistent_rdma f _ (response_posted m x req h r) =
    on_queue_resp_exit-IsConsistent f m x _ (Reached-IsConsistent_rdma f _ r) req h
Reached-IsConsistent_rdma f _ (kp_entered m x req r) =
    on_queue_resp-IsConsistent f m x _ (Reached-IsConsistent_rdma f _ r) req
Reached-IsConsistent_rdma f _ (kp_left m x h r) =
    queue_resp_kr-IsConsistent f m x _ h (Reached-IsConsistent_rdma f _ r)
Reached-IsConsistent_rdma f _ (sent m x wc h r) =
    on_send_done-IsConsistent f m x _ (Reached-IsConsistent_rdma f _ r) wc h
