-- ===== src/Model/Target.antt =====
-- The target side of the model over TCP: `target_complete`, `write_data_phase` and `target_side`
-- of src/model.c.
use ntprof.Prelude.{Bool, List, [], ◌∷◌, if◌then◌else◌}
use ntprof.Prelude.Int.{ℤ, ◌+ℤ◌, ◌-ℤ◌}
use ntprof.Model.Comp.{IoClass, read, write_inline, write_r2t, Comp}
use ntprof.Model.Breakdown.{Breakdown, set, clear, d, have_all, data_phase, backend_details}
use ntprof.Record.{TgtTs, TgtRec}

abbrev pub tgt_req_read : List TgtTs
tgt_req_read = TgtTs.cmd_arr ∷ TgtTs.cmd_proc ∷ TgtTs.exec ∷ TgtTs.complete ∷ TgtTs.c2h_sent ∷ []

abbrev pub tgt_req_inline : List TgtTs
tgt_req_inline = TgtTs.cmd_arr ∷ TgtTs.cmd_proc ∷ TgtTs.exec ∷ TgtTs.complete ∷ TgtTs.rsp_sent ∷ []

abbrev pub tgt_req_r2t : List TgtTs
tgt_req_r2t =
    TgtTs.cmd_arr ∷ TgtTs.cmd_proc ∷ TgtTs.r2t_sent ∷ TgtTs.data_arr ∷ TgtTs.data_proc ∷ TgtTs.exec
    ∷ TgtTs.complete ∷ TgtTs.rsp_sent ∷ []

unfoldable pub target_complete : TgtRec → IoClass → Bool
unfolding have_all
target_complete t read = have_all t.ts tgt_req_read
target_complete t write_inline = have_all t.ts tgt_req_inline
target_complete t write_r2t = have_all t.ts tgt_req_r2t

-- NVMe/TCP write after R2T, from the H2C data PDU's header parsed to the command's execution.
-- The result is the part of that span that is the transport's submission.
unfoldable pub write_data_phase : TgtRec → Breakdown → ℤ × Breakdown
unfolding data_phase
write_data_phase t b =
    let T = t.ts in
    let (timed, b') =
      data_phase (T TgtTs.data_proc) (T TgtTs.data_done) (T TgtTs.exec) t.h2c_busy_ns Comp.tgt_data
        Comp.tgt_wait b in
    if timed
    then (d (T TgtTs.exec) (T TgtTs.data_done), b')
    else (d (T TgtTs.exec) (T TgtTs.data_proc), b')

-- The `switch` of `target_side`, with the residence time that it computes.
unfoldable pub target_class : TgtRec → IoClass → Breakdown → ℤ × Breakdown
unfolding write_data_phase
target_class t read b =
    let T = t.ts in
    let b₁ = set b Comp.tgt_rx (d (T TgtTs.cmd_proc) (T TgtTs.cmd_arr)) in
    let b₂ = set b₁ Comp.tgt_sub (d (T TgtTs.exec) (T TgtTs.cmd_proc)) in
    let b₃ = set b₂ Comp.tgt_cmpl (d (T TgtTs.c2h_sent) (T TgtTs.complete)) in
    (d (T TgtTs.c2h_sent) (T TgtTs.cmd_arr), b₃)
target_class t write_inline b =
    let T = t.ts in
    let b₁ = set b Comp.tgt_rx (d (T TgtTs.cmd_proc) (T TgtTs.cmd_arr)) in
    let b₂ = set b₁ Comp.tgt_sub (d (T TgtTs.exec) (T TgtTs.cmd_proc)) in
    let b₃ = set b₂ Comp.tgt_cmpl (d (T TgtTs.rsp_sent) (T TgtTs.complete)) in
    (d (T TgtTs.rsp_sent) (T TgtTs.cmd_arr), b₃)
target_class t write_r2t b =
    let T = t.ts in
    let b₁ =
      set b Comp.tgt_rx
        (d (T TgtTs.cmd_proc) (T TgtTs.cmd_arr) +ℤ d (T TgtTs.data_proc) (T TgtTs.data_arr)) in
    let (rest, b₂) = write_data_phase t b₁ in
    let b₃ = set b₂ Comp.tgt_sub (d (T TgtTs.r2t_sent) (T TgtTs.cmd_proc) +ℤ rest) in
    let b₄ = set b₃ Comp.tgt_cmpl (d (T TgtTs.rsp_sent) (T TgtTs.complete)) in
    (d (T TgtTs.r2t_sent) (T TgtTs.cmd_arr) +ℤ d (T TgtTs.rsp_sent) (T TgtTs.data_arr), b₄)

-- What ends `target_side` and `rdma_target_side`: the remote time is split.
unfoldable pub split_remote : ℤ → Breakdown → Breakdown
split_remote residence b = clear (set b Comp.net (b.comp Comp.remote -ℤ residence)) Comp.remote

unfoldable pub target_side : TgtRec → Breakdown → Breakdown
unfolding target_class split_remote backend_details
target_side t b =
    let T = t.ts in
    let b₁ = set b Comp.tgt_be (d (T TgtTs.complete) (T TgtTs.exec)) in
    let (residence, b₂) = target_class t b₁.io_class b₁ in
    backend_details T (split_remote residence b₂)
