-- ===== src/Tests/RdmaHost.antt =====
-- The NVMe/RDMA initiator on a concrete kernel memory: a read command that is queued, posted and
-- answered.
use ntprof.Prelude.{true, some, arith}
use ntprof.Bpf.Inv.{IsConsistent}
use ntprof.Bpf.Host.Submit.{host_queue_rq, setup_cmd}
use ntprof.Bpf.Host.Complete.{blk_done}
use ntprof.Bpf.Rdma.{Mem, RdmaState, config, on_posted, on_send_done, on_recv_done}
use ntprof.Bpf.Rdma.Steps.{Reached, Reached-IsConsistent_rdma_host, rdma_loaded, with_host}
use ntprof.Tests.Hooks.{every_command, on_cpu, request}

-- A request at 4096 with its nvme_rdma_request at 5000, its sqe at 5024, and a response of cid 7.
abbrev memory : Mem
memory = record {
  wc_queue = λ a. 8192;
  wr_cqe = λ a. 5024;
  qe_data = λ a. 9000;
  command_id = λ a. some 7;
  sqe_field = 24;
  request_size = 904;
}

abbrev queued : RdmaState
queued =
    let s = with_host rdma_loaded (record (rdma_loaded.host) { armed = true }) in
    let s₁ = with_host s (host_queue_rq (config every_command) on_cpu s.host 4096 8192) in
    with_host s₁ (setup_cmd (config every_command) on_cpu s₁.host request)

abbrev answered : RdmaState
answered =
    let s = with_host queued (on_posted every_command memory on_cpu queued.host 5024 0) in
    let s₁ = with_host s (on_send_done every_command memory on_cpu s.host 700) in
    with_host s₁ (on_recv_done every_command memory on_cpu s₁.host 800)

abbrev finished : RdmaState
finished = with_host answered (blk_done (config every_command) on_cpu answered.host 4096)

finished-Reached : Reached every_command finished
finished-Reached = Reached.blk_completed on_cpu 4096 (omega arith) (
    Reached.recv_done memory on_cpu 800 (
      Reached.send_done memory on_cpu 700 (
        Reached.posted memory on_cpu 5024 0 (
          Reached.set_up on_cpu request (omega arith)
            (Reached.queued on_cpu 4096 8192 (Reached.armed Reached.start))))))

Reached-IsConsistent_rdma_host_example : IsConsistent finished.host
Reached-IsConsistent_rdma_host_example =
    Reached-IsConsistent_rdma_host every_command finished finished-Reached
