-- ===== src/Model/Host.antt =====
-- The host side of the model: `host_complete`, `common_host`, `read_data_phase` and `host_side`
-- of src/model.c.
use ntprof.Prelude.{Bool, List, [], ◌∷◌, ◌&&◌, leb, nonzero, if◌then◌else◌}
use ntprof.Prelude.Int.{pos, ◌+ℤ◌}
use ntprof.Model.Comp.{IoClass, read, write_inline, write_r2t, Comp}
use ntprof.Model.Breakdown.{Breakdown, set, add, d, have_all, data_phase}
use ntprof.Record.{HostTs, HostRec}

abbrev pub host_req_read : List HostTs
host_req_read =
    HostTs.queue_rq ∷ HostTs.cmd_sent ∷ HostTs.c2h_arr ∷ HostTs.c2h_proc ∷ HostTs.rsp_proc
    ∷ HostTs.blk_done ∷ []

abbrev pub host_req_inline : List HostTs
host_req_inline =
    HostTs.queue_rq ∷ HostTs.cmd_sent ∷ HostTs.rsp_arr ∷ HostTs.rsp_proc ∷ HostTs.blk_done ∷ []

abbrev pub host_req_r2t : List HostTs
host_req_r2t =
    HostTs.queue_rq ∷ HostTs.cmd_sent ∷ HostTs.r2t_arr ∷ HostTs.r2t_proc ∷ HostTs.data_start
    ∷ HostTs.rsp_arr ∷ HostTs.rsp_proc ∷ HostTs.blk_done ∷ []

unfoldable pub host_complete : HostRec → IoClass → Bool
unfolding have_all
host_complete h read = have_all h.ts host_req_read
host_complete h write_inline = have_all h.ts host_req_inline
host_complete h write_r2t = have_all h.ts host_req_r2t

-- What every transport shares on the host: blk-mq at both ends, submission.
unfoldable pub common_host : HostRec → Breakdown → Breakdown
common_host h b =
    let H = h.ts in
    let b₁ = set b Comp.tr_sub (d (H HostTs.cmd_sent) (H HostTs.queue_rq)) in
    let b₂ = set b₁ Comp.blk_cmpl (d (H HostTs.blk_done) (H HostTs.rsp_proc)) in
    let b₃ =
      if nonzero (H HostTs.start) && leb (H HostTs.start) (H HostTs.queue_rq)
      then set (set b₂ Comp.blk_sub (d (H HostTs.queue_rq) (H HostTs.start))) Comp.e2e
          (d (H HostTs.blk_done) (H HostTs.start))
      else set b₂ Comp.e2e (d (H HostTs.blk_done) (H HostTs.queue_rq)) in
    if nonzero (H HostTs.nvme_done)
    then set b₃ Comp.cmpl_ipi (d (H HostTs.nvme_done) (H HostTs.rsp_proc))
    else b₃

-- NVMe/TCP read, from the transport's first copy of its data to the response.
unfoldable pub read_data_phase : HostRec → Breakdown → Breakdown
unfolding data_phase
read_data_phase h b =
    let H = h.ts in
    let (timed, b') =
      data_phase (H HostTs.c2h_proc) (H HostTs.c2h_done) (H HostTs.rsp_proc) h.c2h_busy_ns
        Comp.host_data Comp.host_wait b in
    if timed
    then set b' Comp.tr_cmpl (d (H HostTs.rsp_proc) (H HostTs.c2h_done))
    else set b' Comp.tr_cmpl (d (H HostTs.rsp_proc) (H HostTs.c2h_proc))

-- The `switch` of `host_side`.
unfoldable pub host_class : HostRec → IoClass → Breakdown → Breakdown
unfolding read_data_phase
host_class h read b =
    let H = h.ts in
    let b₁ = set b Comp.remote (d (H HostTs.c2h_arr) (H HostTs.cmd_sent)) in
    let b₂ = set b₁ Comp.host_rx (d (H HostTs.c2h_proc) (H HostTs.c2h_arr)) in read_data_phase h b₂
host_class h write_inline b =
    let H = h.ts in
    let b₁ = set b Comp.remote (d (H HostTs.rsp_arr) (H HostTs.cmd_sent)) in
    let b₂ = set b₁ Comp.host_rx (d (H HostTs.rsp_proc) (H HostTs.rsp_arr)) in
    set b₂ Comp.tr_cmpl (pos 0)
host_class h write_r2t b =
    let H = h.ts in
    let b₁ = add b Comp.tr_sub (d (H HostTs.data_start) (H HostTs.r2t_proc)) in
    let b₂ =
      set b₁ Comp.remote
        (d (H HostTs.r2t_arr) (H HostTs.cmd_sent) +ℤ d (H HostTs.rsp_arr) (H HostTs.data_start)) in
    let b₃ =
      set b₂ Comp.host_rx
        (d (H HostTs.r2t_proc) (H HostTs.r2t_arr) +ℤ d (H HostTs.rsp_proc) (H HostTs.rsp_arr)) in
    set b₃ Comp.tr_cmpl (pos 0)

-- NVMe/TCP, the host side alone.
unfoldable pub host_side : HostRec → Breakdown → Breakdown
unfolding common_host host_class
host_side h b = let b' = common_host h b in host_class h b'.io_class b'
