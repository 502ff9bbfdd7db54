-- ===== src/Tests/TcpTarget.antt =====
-- The NVMe/TCP target on a concrete kernel memory: a read command, and a write's data.
use ntprof.Prelude.{
  ℕ, ◌+◌, ◌<◌, ◌≤◌, ◌≡◌, refl, true, false, some, [], ◌∷◌, arith, ◌==◌, if◌then◌else◌, at,
}
use ntprof.Record.{TgtRec, RecKind, Transport, TgtTs, tgt_index, no_flags, no_id}
use ntprof.Bpf.Target.{TgtEntry, tgt_entry, entry_at, slot_of, loaded, get_tqstat, uncount, on_rec}
use ntprof.Bpf.Common.{read_cmd, type_matches, sampled, ntp_slot}
use ntprof.Bpf.Target.Arrive.{
  wanted, req_init, count_command, emit_reused, init_read, take_slot, open_slot, new_entry, new_rec,
}
use ntprof.Bpf.Target.Finish.{tgt_emit}
use ntprof.Bpf.Target.Inv.{IsConsistent}
use ntprof.Bpf.Target.Tcp.{
  Mem, send_response, TcpState, tcp_req_init, remember_queue, config, takes, tgt_is_ours,
  queue_of_sq, req_of,
}
use ntprof.Bpf.Target.Tcp.Send.{on_sendmsg, rsp_sent_rec, sending}
use ntprof.Bpf.Target.Tcp.Steps.{Reached, Reached-IsConsistent_tcp, tcp_loaded, with_target}
use ntprof.Bpf.Target.Tcp.Busy.{Copy, copy_all, copy_all-busy, end_of}
use ntprof.Bpf.Target.Tcp.Emit.{Sent, on_sendmsg-Sent}
use ntprof.Tests.Hooks.{every_command, on_cpu, nvmet_req}

-- One queue at 32 with its sq at 64, its socket at 500, the sock at 600, and a command at 4000
-- whose nvmet_req is at 4096.
abbrev memory : Mem
memory = record {
  skb_sk = λ a. 600;
  skb_tstamp = λ a. 0;
  sk_user_data = λ a. 32;
  sock_sk = λ a. 600;
  queue_sock = λ a. 500;
  receives_data = λ a. false;
  queue_cmd = λ a. 4000;
  snd_cmd = λ a. 4000;
  sqhd_disabled = λ a. false;
  cmd_queue = λ a. 32;
  cmd_offset = λ a. 0;
  cmd_state = λ a. send_response;
  rbytes_done = λ a. 0;
  req_opcode = λ a. 2;
  req_transfer_len = λ a. 4096;
  req_field = 96;
  sq_field = 32;
  kept = λ a. true;
}

abbrev served_tcp : TcpState
served_tcp =
    tcp_req_init every_command memory on_cpu
      (with_target tcp_loaded (record (tcp_loaded.target) { armed = true })) nvmet_req

served_tcp-Reached : Reached every_command served_tcp
served_tcp-Reached =
    Reached.arrived memory on_cpu nvmet_req (omega arith) (Reached.armed Reached.start)

remembered : sending every_command memory on_cpu served_tcp 500 ≡ 4000
unfolding sending tcp_req_init config takes tgt_is_ours queue_of_sq remember_queue at read_cmd
    wanted tcp_loaded loaded
remembered = refl

Reached-IsConsistent_tcp_example : IsConsistent served_tcp.target
Reached-IsConsistent_tcp_example =
    Reached-IsConsistent_tcp every_command served_tcp served_tcp-Reached

sent_owned : 0 < req_of memory (sending every_command memory on_cpu served_tcp 500)
unfolding req_of
sent_owned = rw remembered (omega arith)

abbrev held : TgtEntry
held = entry_at served_tcp.target (slot_of 4096)

abbrev sent_cmd : ℕ
sent_cmd = sending every_command memory on_cpu served_tcp 500

held-found : tgt_entry served_tcp.target (req_of memory sent_cmd) ≡ some held
unfolding tcp_req_init config takes tgt_is_ours queue_of_sq remember_queue at read_cmd wanted
    tcp_loaded loaded req_init count_command emit_reused init_read take_slot open_slot new_entry
    new_rec get_tqstat uncount tgt_emit on_rec tgt_entry type_matches sampled ntp_slot sending
    req_of
held-found = refl

on_sendmsg-Sent_example :
    Sent on_cpu served_tcp.target
      (req_of memory sent_cmd)
      (rsp_sent_rec on_cpu.now held.rec)
      (on_sendmsg every_command memory on_cpu served_tcp 500).target
on_sendmsg-Sent_example =
    on_sendmsg-Sent every_command memory on_cpu served_tcp 500 held
      (Reached-IsConsistent_tcp every_command served_tcp served_tcp-Reached)
      (rw remembered (omega arith)) sent_owned refl held-found

-- A write after an R2T, its first data header parsed at 100.
abbrev awaiting : TgtRec
awaiting = record {
  hdr = record {
    kind = RecKind.target;
    transport = Transport.tcp;
    flags = record no_flags { write = true; r2t = true };
    cpu = 0;
  };
  id = no_id;
  bytes = 0;
  q_outstanding = 0;
  q_resp_queue = 0;
  ts = λ e. if tgt_index e == 5 then 100 else 0;
  h2c_busy_ns = 0;
  h2c_skbs = 0;
}

abbrev second_copy : Copy
second_copy = record { enter = 300; now = 350; inside = false; arrival = 290 }

abbrev first_copy : Copy
first_copy = record { enter = 120; now = 150; inside = true; arrival = 90 }

copy_all-busy_example :
    let r' = copy_all awaiting (first_copy ∷ second_copy ∷ []) in
    (r'.h2c_skbs ≡ 2)
    × (r'.ts TgtTs.data_done ≡ 350)
    × (r'.h2c_busy_ns + 100 ≤ r'.ts TgtTs.data_done)
unfolding end_of
copy_all-busy_example =
    copy_all-busy awaiting first_copy (second_copy ∷ []) refl (omega arith) refl (refl, refl)
      (omega arith, omega arith, omega arith, (omega arith, omega arith, omega arith, tt))
      (omega arith)
