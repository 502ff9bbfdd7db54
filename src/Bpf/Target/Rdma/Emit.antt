-- ===== src/Bpf/Target/Rdma/Emit.antt =====
-- The two ends of a response over RDMA, in either order: on_queue_resp_exit and on_send_done of
-- bpf/nvme_rdma_target.bpf.c.
use ntprof.Prelude.{ℕ, ◌<◌, ◌≡◌, refl, true, false, some, nonzero, arith}
use ntprof.Record.{Filter}
use ntprof.Bpf.Common.{Run, idle}
use ntprof.Bpf.Target.{State, TgtEntry, tgt_entry, on_rec}
use ntprof.Bpf.Target.Inv.{IsConsistent}
use ntprof.Bpf.Target.Tcp.Emit.{Sent, open_record}
use ntprof.Bpf.Target.Rdma.{
  Mem, rsp_posted, rsp_send_done, posted_rec, send_done_rec, config, rsp_part_done,
  on_queue_resp_exit, on_send_done, req_of_cqe,
}
use ntprof.Bpf.Target.Rdma.Held.{
  Held, Sent-Held, stamped-Held, Held-trans, uncounted-Held, uncounted-Sent, first_part, last_part,
}

module _ (f : Filter) (m : Mem) (x : Run) (t : State) (req : ℕ) (e : TgtEntry) where
  busy :
      IsConsistent t
      → 0 < req
      → tgt_entry t req ≡ some e
      → (idle f t.inflight ≡ false) × (nonzero t.inflight ≡ true)
  busy ok h found =
      let open_one = open_record t ok req h e found in
      (ground (arith, open_one), ground (arith, open_one))

  posted_first :
      IsConsistent t
      → 0 < req
      → tgt_entry t req ≡ some e
      → e.parts ≡ 0
      → Held t
          (on_queue_resp_exit f m x t req)
          req
          (record e { rec = posted_rec x.now e.rec; parts = rsp_posted })
  unfolding on_queue_resp_exit Held
  posted_first ok h found none_yet =
      let u = on_rec t req (posted_rec x.now) in
      let e' : TgtEntry = record e { rec = posted_rec x.now e.rec } in
      let a = stamped-Held t req e (posted_rec x.now) ok h found in
      let b = first_part f m x u req e' rsp_posted rsp_posted a.0 h a.1 (rw none_yet refl) refl in
      let c = Held-trans t u _ req e' _ a b in
      let d =
        uncounted-Held x (config f m x t) (rsp_part_done f m x u req rsp_posted) req _ c.0 c.1 in
      rw ((busy ok h found).0) (Held-trans t _ _ req _ _ c d)

  posted_last :
      IsConsistent t
      → 0 < req
      → tgt_entry t req ≡ some e
      → e.parts ≡ rsp_send_done
      → Sent x t req (posted_rec x.now e.rec) (on_queue_resp_exit f m x t req)
  unfolding on_queue_resp_exit Held
  posted_last ok h found sent =
      let u = on_rec t req (posted_rec x.now) in
      let e' : TgtEntry = record e { rec = posted_rec x.now e.rec } in
      let a = stamped-Held t req e (posted_rec x.now) ok h found in
      let b = last_part f m x u req e' rsp_posted a.0 h a.1 (rw sent refl) in
      rw ((busy ok h found).0)
        (uncounted-Sent x x (config f m x t) t _ req _ (Sent-Held x t u _ req e' e'.rec a b))

  module _ (wc : ℕ) (own : req_of_cqe m m.send_cqe_field wc ≡ req) where
    done_first :
        IsConsistent t
        → 0 < req
        → tgt_entry t req ≡ some e
        → e.parts ≡ 0
        → Held t
            (on_send_done f m x t wc)
            req
            (record e { rec = send_done_rec x.now e.rec; parts = rsp_send_done })
    unfolding on_send_done Held
    done_first ok h found none_yet =
        let u = on_rec t req (send_done_rec x.now) in
        let e' : TgtEntry = record e { rec = send_done_rec x.now e.rec } in
        let a = stamped-Held t req e (send_done_rec x.now) ok h found in
        let b =
          first_part f m x u req e' rsp_send_done rsp_send_done a.0 h a.1 (rw none_yet refl) refl in
        rw ((busy ok h found).1, own) (Held-trans t u _ req e' _ a b)

    done_last :
        IsConsistent t
        → 0 < req
        → tgt_entry t req ≡ some e
        → e.parts ≡ rsp_posted
        → Sent x t req (send_done_rec x.now e.rec) (on_send_done f m x t wc)
    unfolding on_send_done Held
    done_last ok h found posted =
        let u = on_rec t req (send_done_rec x.now) in
        let e' : TgtEntry = record e { rec = send_done_rec x.now e.rec } in
        let a = stamped-Held t req e (send_done_rec x.now) ok h found in
        let b = last_part f m x u req e' rsp_send_done a.0 h a.1 (rw posted refl) in
        rw ((busy ok h found).1, own) (Sent-Held x t u _ req e' e'.rec a b)

-- In a consistent state with a record open for a request whose address is not 0, no end of whose
-- response was seen, the return of nvmet_rdma_queue_response and the handler of the send
-- completion, whichever runs first, send out one record between them: it has the times of both, it
-- goes into the ring buffer unless the ring buffer is full at the second one, ntp_inflight falls by
-- one, and the request has no record after both.
pub ends-Sent :
    (f : Filter) (m m' : Mem) (x x' : Run) (t : State) (req wc : ℕ) (e : TgtEntry)
    → IsConsistent t
    → 0 < req
    → req_of_cqe m' m'.send_cqe_field wc ≡ req
    → tgt_entry t req ≡ some e
    → e.parts ≡ 0
    → Sent x' t req
        (send_done_rec x'.now (posted_rec x.now e.rec))
        (on_send_done f m' x' (on_queue_resp_exit f m x t req) wc)
      × Sent x t req
          (posted_rec x.now (send_done_rec x'.now e.rec))
          (on_queue_resp_exit f m x (on_send_done f m' x' t wc) req)
unfolding Held
ends-Sent f m m' x x' t req wc e ok h own found none_yet =
    let p : TgtEntry = record e { rec = posted_rec x.now e.rec; parts = rsp_posted } in
    let d : TgtEntry = record e { rec = send_done_rec x'.now e.rec; parts = rsp_send_done } in
    let posted = posted_first f m x t req e ok h found none_yet in
    let sent = done_first f m' x' t req e wc own ok h found none_yet in
    (
      Sent-Held x' t (on_queue_resp_exit f m x t req) _ req p _ posted
          (done_last f m' x' _ req p wc own posted.0 h posted.1 refl),
      Sent-Held x t (on_send_done f m' x' t wc) _ req d _ sent
          (posted_last f m x _ req d sent.0 h sent.1 refl),
    )
