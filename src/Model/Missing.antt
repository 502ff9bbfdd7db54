-- ===== src/Model/Missing.antt =====
-- Which host events ntp_breakdown of src/model.c cannot do without.
use ntprof.Prelude.{
  ◌≡◌, ◌≢◌, ◌↔◌, ◌⊎◌, inl, inr, refl, ap, Bool, true, false, not, ◌&&◌, ◌||◌, List, [], ◌∷◌, Option,
  ℕ, nonzero, Bool-cases, arith,
}
use ntprof.Model.Breakdown.{incomplete_host, have_all, io_class_of}
use ntprof.Model.Comp.{IoClass, read, write_inline, write_r2t}
use ntprof.Model.Errors.{required, breakdown-missing, breakdown-present}
use ntprof.Model.Run.{breakdown, is_rdma}
use ntprof.Model.Sum.{fresh}
use ntprof.Record.{HostTs, HostRec, TgtRec}

-- Whether a host record needs an event, over RDMA or TCP: the ends of the submission and of the
-- completion always; over TCP a read the arrival of its data in place of that of the response, and
-- a write after R2T the R2T and the start of its data as well.
abbrev pub needs : Bool → IoClass → HostTs → Bool
needs rdma c HostTs.queue_rq = true
needs rdma c HostTs.cmd_sent = true
needs rdma c HostTs.rsp_proc = true
needs rdma c HostTs.blk_done = true
needs false read HostTs.rsp_arr = false
needs rdma c HostTs.rsp_arr = true
needs false read HostTs.c2h_arr = true
needs false read HostTs.c2h_proc = true
needs false write_r2t HostTs.r2t_arr = true
needs false write_r2t HostTs.r2t_proc = true
needs false write_r2t HostTs.data_start = true
needs rdma c e = false

abbrev all_events : List HostTs
all_events =
    HostTs.start ∷ HostTs.queue_rq ∷ HostTs.cmd_sent ∷ HostTs.r2t_arr ∷ HostTs.r2t_proc
    ∷ HostTs.data_start ∷ HostTs.data_sent ∷ HostTs.c2h_arr ∷ HostTs.c2h_proc ∷ HostTs.rsp_arr
    ∷ HostTs.rsp_proc ∷ HostTs.nvme_done ∷ HostTs.blk_done ∷ HostTs.send_done ∷ HostTs.c2h_last_arr
    ∷ HostTs.c2h_done ∷ []

abbrev all_of : (HostTs → Bool) → List HostTs → Bool
all_of p [] = true
all_of p (e ∷ es) = p e && all_of p es

all_of-at : (p : HostTs → Bool) (e : HostTs) → all_of p all_events ≡ true → p e ≡ true
all_of-at p HostTs.start h = ground (arith, h)
all_of-at p HostTs.queue_rq h = ground (arith, h)
all_of-at p HostTs.cmd_sent h = ground (arith, h)
all_of-at p HostTs.r2t_arr h = ground (arith, h)
all_of-at p HostTs.r2t_proc h = ground (arith, h)
all_of-at p HostTs.data_start h = ground (arith, h)
all_of-at p HostTs.data_sent h = ground (arith, h)
all_of-at p HostTs.c2h_arr h = ground (arith, h)
all_of-at p HostTs.c2h_proc h = ground (arith, h)
all_of-at p HostTs.rsp_arr h = ground (arith, h)
all_of-at p HostTs.rsp_proc h = ground (arith, h)
all_of-at p HostTs.nvme_done h = ground (arith, h)
all_of-at p HostTs.blk_done h = ground (arith, h)
all_of-at p HostTs.send_done h = ground (arith, h)
all_of-at p HostTs.c2h_last_arr h = ground (arith, h)
all_of-at p HostTs.c2h_done h = ground (arith, h)

-- A complete record has every event that it needs.
complete-needs :
    (rdma : Bool) (c : IoClass) (ts : HostTs → ℕ)
    → have_all ts (required rdma c) ≡ true
    → all_of (λ e. not (needs rdma c e) || nonzero (ts e)) all_events ≡ true
unfolding have_all
complete-needs true c ts h = ground (arith, h)
complete-needs false read ts h = ground (arith, h)
complete-needs false write_inline ts h = ground (arith, h)
complete-needs false write_r2t ts h = ground (arith, h)

-- And asks for no others.
required-needs : (rdma : Bool) (c : IoClass) → all_of (needs rdma c) (required rdma c) ≡ true
required-needs true c = refl
required-needs false read = refl
required-needs false write_inline = refl
required-needs false write_r2t = refl

-- An event of the list that is not there.
absent :
    (p : HostTs → Bool) (ts : HostTs → ℕ) (es : List HostTs)
    → all_of p es ≡ true
    → have_all ts es ≡ false
    → (e : HostTs) × (p e ≡ true) × (ts e ≡ 0)
unfolding have_all
absent p ts [] a h = cc
absent p ts (e ∷ es) a h = elim (Bool-cases (nonzero (ts e))) [
  | inl n ↦ absent p ts es (ground (arith, a)) (rw n at h)
  | inr n ↦ (e, ground (arith, a), ground (arith, n))
]

-- The result is incomplete_host exactly if the host record lacks, which is to say has at 0, one of
-- these times: queue_rq, cmd_sent, rsp_proc or blk_done; rsp_arr, but for a TCP read; for a TCP
-- read c2h_arr or c2h_proc; for a TCP write after R2T r2t_arr, r2t_proc or data_start. If it is
-- incomplete_host, the breakdown holds nothing but the class. Both hold for every target record and
-- none.
pub breakdown-incomplete_host :
    (h : HostRec) (t : Option TgtRec)
    → (((breakdown h t).0 ≡ incomplete_host) ↔ (
        (e : HostTs) × (needs (is_rdma h.hdr.transport) (io_class_of h) e ≡ true) × (h.ts e ≡ 0)))
      × (((breakdown h t).0 ≢ incomplete_host) ⊎ ((breakdown h t).1 ≡ fresh (io_class_of h)))
breakdown-incomplete_host h t =
    let rdma = is_rdma h.hdr.transport in
    let c = io_class_of h in
    elim (Bool-cases (have_all h.ts (required rdma c))) [
      | inl f ↦
          let ne = breakdown-present h t f in
          let all = complete-needs rdma c h.ts f in
          (
            (
              λ a. absurd (ne a),
              λ (e, n, z).
                  let there = all_of-at (λ e. not (needs rdma c e) || nonzero (h.ts e)) e all in
                  absurd (ground (arith, there, n, z)),
            ),
            inl ne,
          )
      | inr f ↦
          let m = breakdown-missing h t f in
          (
            (
              λ a. absent (needs rdma c) h.ts (required rdma c) (required-needs rdma c) f,
              λ b. ap (λ r. r.0) m,
            ),
            inr (ap (λ r. r.1) m),
          )
    ]
