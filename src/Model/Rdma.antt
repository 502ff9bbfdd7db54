-- ===== src/Model/Rdma.antt =====
-- NVMe/RDMA: `rdma_host_side` and `rdma_target_side` of src/model.c.
use ntprof.Prelude.{
  ℕ, Bool, true, false, List, [], ◌∷◌, ◌&&◌, ◌||◌, not, Option, none, some, ltb, nonzero,
  if◌then◌else◌,
}
use ntprof.Prelude.Int.{ℤ, pos, ◌+ℤ◌, ◌-ℤ◌}
use ntprof.Model.Comp.{write_r2t, Comp}
use ntprof.Model.Breakdown.{Breakdown, set, d, have_all, backend_details}
use ntprof.Model.Host.{common_host}
use ntprof.Model.Target.{split_remote}
use ntprof.Record.{HostTs, TgtTs, HostRec, TgtRec, stamp_tgt}

abbrev pub host_req_rdma : List HostTs
host_req_rdma =
    HostTs.queue_rq ∷ HostTs.cmd_sent ∷ HostTs.rsp_arr ∷ HostTs.rsp_proc ∷ HostTs.blk_done ∷ []

abbrev pub tgt_req_rdma : List TgtTs
tgt_req_rdma = TgtTs.cmd_arr ∷ TgtTs.cmd_proc ∷ TgtTs.exec ∷ TgtTs.complete ∷ []

unfoldable pub rdma_host_side : HostRec → Breakdown → Breakdown
unfolding common_host
rdma_host_side h b =
    let H = h.ts in
    let b₁ = common_host h b in
    let b₂ = set b₁ Comp.remote (d (H HostTs.rsp_arr) (H HostTs.cmd_sent)) in
    let b₃ = set b₂ Comp.host_rx (d (H HostTs.rsp_proc) (H HostTs.rsp_arr)) in
    set b₃ Comp.tr_cmpl (pos 0)

-- A posting after its own send completion was another command's.
unfoldable pub drop_foreign_posting : (TgtTs → ℕ) → TgtTs → ℕ
drop_foreign_posting T =
    if nonzero (T TgtTs.send_done) && ltb (T TgtTs.send_done) (T TgtTs.rsp_sent)
    then stamp_tgt (stamp_tgt T TgtTs.c2h_sent 0) TgtTs.rsp_sent 0
    else T

-- The posting was not seen: the end of the request stands in for it.
unfoldable pub estimate_posting : Bool → (TgtTs → ℕ) → TgtTs → ℕ
estimate_posting write T =
    let T₁ = stamp_tgt T TgtTs.rsp_sent (T TgtTs.complete) in
    if write then T₁ else stamp_tgt T₁ TgtTs.c2h_sent (T TgtTs.complete)

-- The early returns of `rdma_target_side`, and its repairs of the copied times: the times that
-- are used and whether the posting is estimated; `none` where the record cannot be used.
unfoldable pub rdma_times : TgtRec → Option ((TgtTs → ℕ) × Bool)
unfolding have_all drop_foreign_posting estimate_posting
rdma_times t =
    let fetch = t.hdr.flags.rdma_read in
    let T = drop_foreign_posting t.ts in
    if not (have_all t.ts tgt_req_rdma)
      || fetch && (not (nonzero (t.ts TgtTs.r2t_sent)) || not (nonzero (t.ts TgtTs.data_proc)))
    then none
    else if nonzero (T TgtTs.rsp_sent)
    then some (T, false)
    else if nonzero (T TgtTs.send_done)
    then some (estimate_posting t.hdr.flags.write T, true)
    else none

-- The rest of `rdma_target_side`, over the times that are used.
unfoldable pub rdma_split : TgtRec → (TgtTs → ℕ) → Breakdown → Breakdown
unfolding split_remote backend_details
rdma_split t T b =
    let fetch = t.hdr.flags.rdma_read in
    let fetch_ns = if◌then◌else◌ {A = ℤ} fetch (d (T TgtTs.data_proc) (T TgtTs.r2t_sent)) (pos 0) in
    let b₁ = set b Comp.tgt_rx (d (T TgtTs.cmd_proc) (T TgtTs.cmd_arr)) in
    let fetched_sub =
      d (T TgtTs.r2t_sent) (T TgtTs.cmd_proc) +ℤ d (T TgtTs.exec) (T TgtTs.data_proc) in
    let b₂ =
      if fetch
      then set (record (set b₁ Comp.tgt_sub fetched_sub) { io_class = write_r2t }) Comp.net_data
          fetch_ns
      else set b₁ Comp.tgt_sub (d (T TgtTs.exec) (T TgtTs.cmd_proc)) in
    -- a read's RDMA WRITE and response, posted until the send completion
    let b₃ =
      if not t.hdr.flags.write && nonzero (T TgtTs.c2h_sent) && nonzero (T TgtTs.send_done)
      then set b₂ Comp.net_data (d (T TgtTs.send_done) (T TgtTs.c2h_sent))
      else b₂ in
    let b₄ = set b₃ Comp.tgt_be (d (T TgtTs.complete) (T TgtTs.exec)) in
    let b₅ = set b₄ Comp.tgt_cmpl (d (T TgtTs.rsp_sent) (T TgtTs.complete)) in
    let residence = d (T TgtTs.rsp_sent) (T TgtTs.cmd_arr) -ℤ fetch_ns in
    backend_details T (split_remote residence b₅)

unfoldable pub rdma_target_side : TgtRec → Breakdown → Bool × Breakdown
unfolding rdma_times rdma_split
rdma_target_side t b = elim (rdma_times t) [
  | none ↦ (false, b)
  | some (T, estimated) ↦
      (true, rdma_split t T (if estimated then record b { post_estimated = true } else b))
]
