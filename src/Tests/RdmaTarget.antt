-- ===== src/Tests/RdmaTarget.antt =====
-- The NVMe/RDMA target on a concrete kernel memory: a read command from its receive completion to
-- both ends of its response.
use ntprof.Prelude.{◌≡◌, refl, true, false, some, arith, at}
use ntprof.Bpf.Target.{
  TgtEntry, tgt_entry, entry_at, slot_of, loaded, get_tqstat, uncount, on_rec, tgt_ctx_enter,
}
use ntprof.Bpf.Common.{read_cmd, type_matches, sampled, ntp_slot}
use ntprof.Bpf.Target.Arrive.{
  wanted, req_init, count_command, emit_reused, init_read, take_slot, open_slot, new_entry, new_rec,
}
use ntprof.Bpf.Target.Finish.{tgt_emit}
use ntprof.Bpf.Target.Inv.{IsConsistent}
use ntprof.Bpf.Target.Tcp.Emit.{Sent}
use ntprof.Bpf.Target.Rdma.{
  Mem, RdmaState, with_target, rdma_req_init, on_recv_done, config, posted_rec, send_done_rec,
  on_queue_resp_exit, on_send_done, req_of_cqe, req_of_rsp,
}
use ntprof.Bpf.Target.Rdma.Steps.{Reached, rdma_loaded, Reached-IsConsistent_rdma}
use ntprof.Bpf.Target.Rdma.Emit.{ends-Sent}
use ntprof.Tests.Hooks.{every_command, on_cpu, nvmet_req}

-- A rsp at 4000 with its nvmet_req at 4096.
abbrev memory : Mem
memory = record {
  wc_queue = λ a. 32;
  wr_cqe = λ a. 4016;
  inline_data = λ a. false;
  transfer_len = λ a. 4096;
  skb_tstamp = λ a. 0;
  req_field = 96;
  read_cqe_field = 48;
  send_cqe_field = 16;
}

abbrev received : RdmaState
received =
    let s = with_target rdma_loaded (record (rdma_loaded.target) { armed = true }) in
    with_target s (on_recv_done every_command memory on_cpu s.target 700)

abbrev served : RdmaState
served = with_target received (rdma_req_init every_command memory on_cpu received.target nvmet_req)

served-Reached : Reached every_command served
served-Reached =
    Reached.arrived memory on_cpu nvmet_req (omega arith)
      (Reached.received memory on_cpu 700 (Reached.armed Reached.start))

Reached-IsConsistent_rdma_example : IsConsistent served.target
Reached-IsConsistent_rdma_example = Reached-IsConsistent_rdma every_command served served-Reached

cqe_owned : req_of_cqe memory memory.send_cqe_field 800 ≡ 4096
unfolding req_of_cqe req_of_rsp
cqe_owned = refl

abbrev held : TgtEntry
held = entry_at served.target (slot_of 4096)

held-found : tgt_entry served.target 4096 ≡ some held
unfolding rdma_req_init on_recv_done tgt_ctx_enter config at read_cmd wanted rdma_loaded loaded
    req_init count_command emit_reused init_read take_slot open_slot new_entry new_rec get_tqstat
    uncount tgt_emit on_rec tgt_entry type_matches sampled ntp_slot
held-found = refl

no_part : held.parts ≡ 0
unfolding rdma_req_init on_recv_done tgt_ctx_enter config at read_cmd wanted rdma_loaded loaded
    req_init count_command emit_reused init_read take_slot open_slot new_entry new_rec get_tqstat
    uncount tgt_emit on_rec tgt_entry type_matches sampled ntp_slot
no_part = refl

ends-Sent_example :
    let done = send_done_rec on_cpu.now in
    let posted = posted_rec on_cpu.now in
    Sent on_cpu served.target 4096 (done (posted held.rec)) (
      on_send_done every_command memory on_cpu
        (on_queue_resp_exit every_command memory on_cpu served.target 4096)
        800)
    × Sent on_cpu served.target 4096 (posted (done held.rec)) (
        on_queue_resp_exit every_command memory on_cpu
          (on_send_done every_command memory on_cpu served.target 800)
          4096)
ends-Sent_example =
    ends-Sent every_command memory memory on_cpu on_cpu served.target 4096 800 held
      (Reached-IsConsistent_rdma every_command served served-Reached) (omega arith) cqe_owned
      held-found no_part
