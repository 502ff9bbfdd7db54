-- ===== src/Model/Run.antt =====
-- The entry point of the model: `ntp_breakdown` of src/model.c.
use ntprof.Prelude.{Bool, true, false, ◌&&◌, not, Option, none, some, if◌then◌else◌}
use ntprof.Model.Comp.{IoClass, read, write_inline, write_r2t}
use ntprof.Model.Breakdown.{
  Breakdown, ModelErr, ok, incomplete_host, incomplete_target, empty, io_class_of, have_all,
}
use ntprof.Model.Host.{host_complete, host_side}
use ntprof.Model.Target.{target_complete, target_side}
use ntprof.Model.Rdma.{host_req_rdma, rdma_host_side, rdma_target_side}
use ntprof.Model.Stages.{stages}
use ntprof.Record.{Transport, tcp, rdma, HostRec, TgtRec}

abbrev pub is_rdma : Transport → Bool
is_rdma tcp = false
is_rdma rdma = true

abbrev pub is_r2t : IoClass → Bool
is_r2t read = false
is_r2t write_inline = false
is_r2t write_r2t = true

-- two conditions, each as 0 or 1, compared
abbrev pub same : Bool → Bool → Bool
same true x = x
same false x = not x

abbrev pub Outcome : Type 0
Outcome = ModelErr × Breakdown

-- What is done after the target record was tried: `out` is what the trial left.
abbrev pub joined_or : Bool → Breakdown → Outcome
joined_or usable out =
    if usable then (ok, stages (record out { joined = true })) else (incomplete_target, stages out)

-- `same_dir && t is RDMA && rdma_target_side(t, out)`, and what it leaves in `out`.
abbrev pub rdma_tried : HostRec → TgtRec → Breakdown → Bool × Breakdown
rdma_tried h t out =
    let same_dir = same (not t.hdr.flags.write) (not h.hdr.flags.write) in
    if same_dir && is_rdma t.hdr.transport then rdma_target_side t out else (false, out)

-- The RDMA branch.
unfoldable pub breakdown_rdma : HostRec → Option TgtRec → Breakdown → Outcome
breakdown_rdma h t out =
    if not (have_all h.ts host_req_rdma)
    then (incomplete_host, out)
    else let b = rdma_host_side h out in
      elim t [
        | none ↦ (ok, stages b)
        | some t ↦ let (usable, b') = rdma_tried h t b in joined_or usable b'
      ]

-- `same_class && target_complete(t, class)`
abbrev pub is_usable : TgtRec → IoClass → Bool
is_usable t c = same t.hdr.flags.r2t (is_r2t c) && target_complete t c

-- The TCP branch.
unfoldable pub breakdown_tcp : HostRec → Option TgtRec → Breakdown → Outcome
breakdown_tcp h t out =
    if not (host_complete h out.io_class)
    then (incomplete_host, out)
    else let b = host_side h out in
      elim t [
        | none ↦ (ok, stages b)
        | some t ↦
            let usable = is_usable t out.io_class in
            joined_or usable (if usable then target_side t b else b)
      ]

unfoldable pub breakdown : HostRec → Option TgtRec → Outcome
unfolding breakdown_rdma breakdown_tcp
breakdown h t =
    let out = record empty { io_class = io_class_of h } in
    if is_rdma h.hdr.transport then breakdown_rdma h t out else breakdown_tcp h t out
