-- ===== src/Tests/Hooks.antt =====
-- The BPF programs on a host and a target that run from the start.
use ntprof.Prelude.{
  ◌+◌, ◌<◌, ◌≤◌, ◌≡◌, true, false, some, none, [], length, length-replicate, arith,
}
use ntprof.Bpf.Common.{Run, NvmeCmd, rec_slots, skb_arrival, skb_stamp_max_age_ns}
use ntprof.Bpf.Host.{
  Config, Request, State, loaded, free_cid, host_entry, host_rec, host_rec_by_cid,
}
use ntprof.Bpf.Host.Complete.{blk_done}
use ntprof.Bpf.Host.Submit.{Via, setup_cmd, take_slot, new_rec, new_entry}
use ntprof.Bpf.Inv.{IsConsistent, loaded-IsConsistent}
use ntprof.Bpf.Lookup.{skb_arrival-bounds, take_slot-host_rec, blk_done-blk_done}
use ntprof.Bpf.Steps.{Reached, Reached-IsConsistent}
use ntprof.Bpf.Target
use ntprof.Bpf.Tcp.{host_queue_of}
use ntprof.Record.{Filter, Transport}
use ntprof.Tests.Records.{read_id}

abbrev pub every_command : Filter
every_command = record {
  sample_every = 1;
  io_type = 2;
  n_sizes = 0;
  ctrl_filter = false;
  track_queues = true;
  min_bytes = 0;
  max_bytes = 0;
  sizes = [];
  ctrl_mask = [];
  nsid = 0;
  real_minus_mono = 5000;
  npids = 0;
  pids = [];
}

abbrev tcp_host : Config
tcp_host = record {
  filter = every_command;
  transport = Transport.tcp;
  hooks_queue_rq = false;
  queue_of = host_queue_of;
}

abbrev pub on_cpu : Run
on_cpu = record {
  cpu = 1;
  tid = 77;
  now = 1000;
  delivered = true;
  qstats_room = true;
  counted_room = true;
}

abbrev read_cmd : NvmeCmd
read_cmd = record { opcode = 2; command_id = 7; nsid = 1; slba = 2048; length = 7 }

abbrev pub request : Request
request = record {
  addr = 4096;
  cmd = some read_cmd;
  data_len = 4096;
  instance_no = 0;
  cntlid = 1;
  driver_data = 8192;
  queue_num = 1;
  disk_name = [];
  start_time_ns = 900;
  pdu_queue = 8192;
  sk_user_data = 8192;
}

abbrev armed_host : State
armed_host = record loaded { armed = true }

abbrev sampled_host : State
sampled_host = setup_cmd tcp_host on_cpu armed_host request

sampled_host-Reached : Reached tcp_host sampled_host
sampled_host-Reached = Reached.set_up on_cpu request (omega arith) (Reached.armed Reached.start)

Reached-IsConsistent_example : IsConsistent (blk_done tcp_host on_cpu sampled_host 4096)
Reached-IsConsistent_example =
    Reached-IsConsistent tcp_host _
      (Reached.blk_completed on_cpu 4096 (omega arith) sampled_host-Reached)

blk_done-blk_done_example :
    (host_entry (blk_done tcp_host on_cpu sampled_host 4096) 4096 ≡ none)
    × (blk_done tcp_host on_cpu (blk_done tcp_host on_cpu sampled_host 4096) 4096
        ≡ blk_done tcp_host on_cpu sampled_host 4096)
blk_done-blk_done_example =
    blk_done-blk_done tcp_host on_cpu sampled_host
      (Reached-IsConsistent tcp_host sampled_host sampled_host-Reached) on_cpu 4096 (omega arith)

abbrev direct : Via tcp_host
direct = record { queue = 8192; ts = 0; q_unsent = 0; q_inflight = 0 }

loaded-width : length loaded.cid_idx ≡ rec_slots
unfolding loaded
loaded-width = length-replicate rec_slots free_cid

take_slot-host_rec_example :
    (host_rec (take_slot tcp_host on_cpu loaded direct read_id request) 4096
      ≡ some (new_rec tcp_host on_cpu direct read_id request))
    × (host_rec_by_cid
          (take_slot tcp_host on_cpu loaded direct read_id request)
          (new_entry tcp_host on_cpu direct read_id request).queue
          7
        ≡ some (new_rec tcp_host on_cpu direct read_id request))
take_slot-host_rec_example =
    take_slot-host_rec tcp_host on_cpu loaded direct read_id request loaded-IsConsistent
      loaded-width

skb_arrival-bounds_example :
    (skb_arrival every_command 5900 1000 ≤ 1000)
    × (1000 < skb_arrival every_command 5900 1000 + skb_stamp_max_age_ns)
skb_arrival-bounds_example = skb_arrival-bounds every_command 5900 1000

abbrev pub nvmet_req : Target.Request
nvmet_req = record {
  addr = 4096;
  sq = 64;
  qid = 2;
  cntlid = 1;
  cmd = some read_cmd;
  transfer_len = 4096;
}
