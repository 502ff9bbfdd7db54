-- ===== src/Model/Comp.antt =====
-- The components and stages of src/model.h, and the table `ntp_comps` of src/model.c.
use Prim.Native.String.{String}
use ntprof.Prelude.{ℕ, Bool, true, false, List, [], ◌∷◌}

-- The class of a command, by the way of its data.
pub data IoClass : Type 0 where
  read write_inline write_r2t : IoClass

-- Components, in path order, then the details that split a component.
pub data Comp : Type 0 where
  blk_sub tr_sub net tgt_rx tgt_sub tgt_wait tgt_data tgt_be tgt_cmpl host_rx host_wait : Comp
  host_data tr_cmpl blk_cmpl remote e2e : Comp
  tgt_be_sub tgt_dev tgt_be_cmpl cmpl_ipi net_data : Comp

abbrev pub comp_index : Comp → ℕ
comp_index Comp.blk_sub = 0
comp_index Comp.tr_sub = 1
comp_index Comp.net = 2
comp_index Comp.tgt_rx = 3
comp_index Comp.tgt_sub = 4
comp_index Comp.tgt_wait = 5
comp_index Comp.tgt_data = 6
comp_index Comp.tgt_be = 7
comp_index Comp.tgt_cmpl = 8
comp_index Comp.host_rx = 9
comp_index Comp.host_wait = 10
comp_index Comp.host_data = 11
comp_index Comp.tr_cmpl = 12
comp_index Comp.blk_cmpl = 13
comp_index Comp.remote = 14
comp_index Comp.e2e = 15
comp_index Comp.tgt_be_sub = 16
comp_index Comp.tgt_dev = 17
comp_index Comp.tgt_be_cmpl = 18
comp_index Comp.cmpl_ipi = 19
comp_index Comp.net_data = 20

-- Stage groups: each is a sum of components.
pub data Stage : Type 0 where
  s1 s2 s3_s5 s6 s7_s9 : Stage

abbrev pub stage_index : Stage → ℕ
stage_index Stage.s1 = 0
stage_index Stage.s2 = 1
stage_index Stage.s3_s5 = 2
stage_index Stage.s6 = 3
stage_index Stage.s7_s9 = 4

pub record CompInfo : Type 0 where
  pub name : String
  pub stage : String
  pub desc : String
  pub detail : Bool

abbrev info : String → String → String → Bool → CompInfo
info n s d b = record { name = n; stage = s; desc = d; detail = b }

unfoldable pub comps : Comp → CompInfo
comps Comp.blk_sub = info "blk_submission" "host_block_layer" "host block layer, submission" false
comps Comp.tr_sub = info "transport_submission" "host_driver" "host driver, submission" false
comps Comp.net = info "network" "network" "network: wire and NICs (computed)" false
comps Comp.tgt_rx = info "target_rx_stack" "network" "network: target receive path" false
comps Comp.tgt_sub =
    info "target_transport_submission" "target_driver" "target driver, submission" false
comps Comp.tgt_wait = info "target_data_wait" "network" "network: rest of the data arriving" false
comps Comp.tgt_data =
    info "target_data_processing" "target_driver" "target driver, processing the data" false
comps Comp.tgt_be = info "target_subsystem" "storage" "storage: target block layer and drive" false
comps Comp.tgt_cmpl =
    info "target_transport_completion" "target_driver" "target driver, completion" false
comps Comp.host_rx = info "host_rx_stack" "network" "network: host receive path" false
comps Comp.host_wait = info "host_data_wait" "network" "network: rest of the data arriving" false
comps Comp.host_data =
    info "host_data_processing" "host_driver" "host driver, processing the data" false
comps Comp.tr_cmpl = info "transport_completion" "host_driver" "host driver, completion" false
comps Comp.blk_cmpl = info "blk_completion" "host_block_layer" "host block layer, completion" false
comps Comp.remote = info "remote" "network_and_target" "network and target (no target record)" false
comps Comp.e2e = info "end_to_end" "end_to_end" "end to end" false
comps Comp.tgt_be_sub = info "target_blk_submission" "storage" "target block layer, submission" true
comps Comp.tgt_dev = info "target_device" "storage" "drive" true
comps Comp.tgt_be_cmpl =
    info "target_blk_completion" "storage" "target block layer, completion" true
comps Comp.cmpl_ipi = info "completion_ipi" "host_block_layer" "handoff to nvme_complete_rq" true
comps Comp.net_data = info "net_data_transfer" "network" "data transfer (RDMA, at the target)" true

unfoldable pub stage_keys : Stage → String
stage_keys Stage.s1 = "host_block_layer"
stage_keys Stage.s2 = "host_driver"
stage_keys Stage.s3_s5 = "network"
stage_keys Stage.s6 = "target_driver"
stage_keys Stage.s7_s9 = "storage"

-- Every component, in the order of the enum.
abbrev pub all_comps : List Comp
all_comps =
    Comp.blk_sub ∷ Comp.tr_sub ∷ Comp.net ∷ Comp.tgt_rx ∷ Comp.tgt_sub ∷ Comp.tgt_wait
    ∷ Comp.tgt_data ∷ Comp.tgt_be ∷ Comp.tgt_cmpl ∷ Comp.host_rx ∷ Comp.host_wait ∷ Comp.host_data
    ∷ Comp.tr_cmpl ∷ Comp.blk_cmpl ∷ Comp.remote ∷ Comp.e2e ∷ Comp.tgt_be_sub ∷ Comp.tgt_dev
    ∷ Comp.tgt_be_cmpl ∷ Comp.cmpl_ipi ∷ Comp.net_data ∷ []
