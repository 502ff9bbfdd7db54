-- ===== src/Bpf/Target/Tcp/Send.antt =====
-- The responses of bpf/nvme_tcp_target.bpf.c: queued, and sent on the socket.
use ntprof.Prelude.{
  ℕ, Bool, true, not, ◌&&◌, ◌||◌, none, some, nonzero, ltb, ◌==◌, if◌then◌else◌, is_some,
}
use ntprof.Record.{Filter, TgtRec, TgtTs, nvme_cmd_write, stamp_tgt}
use ntprof.Bpf.Common.{Run, stamp_once, idle}
use ntprof.Bpf.Target.{Config, State, tgt_entry, on_rec, count_resp_queued}
use ntprof.Bpf.Target.Finish.{tgt_finish}
use ntprof.Bpf.Target.Tcp.{
  Mem, TcpState, SendState, send_data_pdu, send_r2t, send_data, send_ddgst, send_response, cmd_of,
  req_of, config,
}

-- `ntp_stamp_once` on an event of a record
abbrev pub once : TgtTs → ℕ → TgtRec → TgtRec
once e now r = record r { ts = stamp_tgt r.ts e (stamp_once (r.ts e) now) }

unfoldable pub rsp_sent_rec : ℕ → TgtRec → TgtRec
rsp_sent_rec now r = record r { ts = stamp_tgt r.ts TgtTs.rsp_sent now }

unfoldable pub data_success_rec : TgtRec → TgtRec
data_success_rec r = record r {
  hdr = record (r.hdr) { flags = record (r.hdr.flags) { data_success = true } };
}

module _ (filter : Filter) (m : Mem) (x : Run) where
  -- A write whose data has not all arrived: the response is an R2T.
  unfoldable pub needs_data_in : ℕ → Bool
  unfolding cmd_of
  needs_data_in req =
      m.req_opcode req == nvme_cmd_write
      && ltb (m.rbytes_done (cmd_of m req)) (m.req_transfer_len req)

  unfoldable pub on_queue_resp : TcpState → ℕ → TcpState
  unfolding needs_data_in count_resp_queued on_rec stamp_once tgt_entry
  on_queue_resp s req =
      let t = s.target in
      let counted = if filter.track_queues then count_resp_queued t req else t in
      if idle filter t.inflight
      then s
      else if (filter.track_queues || is_some (tgt_entry t req)) && needs_data_in req
      then record s { target = on_rec t req (once TgtTs.r2t_queued x.now) }
      else record s { target = on_rec counted req (once TgtTs.rsp_queued x.now) }

  -- The PDU of a command goes out.
  unfoldable pub send_pdu : Config → State → ℕ → SendState → Bool → State
  unfolding on_rec stamp_once tgt_finish rsp_sent_rec data_success_rec
  send_pdu g t req send_r2t last = on_rec t req (once TgtTs.r2t_sent x.now)
  send_pdu g t req send_data_pdu last =
      let t' = on_rec t req (once TgtTs.c2h_sent x.now) in
      if last then tgt_finish x g (on_rec t' req data_success_rec) req else t'
  send_pdu g t req send_response last = tgt_finish x g (on_rec t req (rsp_sent_rec x.now)) req
  send_pdu g t req send_data last = t
  send_pdu g t req send_ddgst last = t

  -- The command whose PDU starts to go out on the socket, or 0.
  unfoldable pub sending : TcpState → ℕ → ℕ
  sending s sock =
      let queue = m.sk_user_data (m.sock_sk sock) in
      let cmd = m.snd_cmd queue in
      elim (s.tqueues queue) [
        | none ↦ 0
        | some qsock ↦ if qsock == sock && not (nonzero (m.cmd_offset cmd)) then cmd else 0
      ]

  unfoldable pub on_sendmsg : TcpState → ℕ → TcpState
  unfolding sending send_pdu req_of tgt_entry config
  on_sendmsg s sock =
      let cmd = sending s sock in
      let req = req_of m cmd in
      if idle filter s.target.inflight
        || not (nonzero cmd)
        || not (is_some (tgt_entry s.target req) || filter.track_queues)
      then s
      else record s {
        target =
            send_pdu (config filter m x s) s.target req (m.cmd_state cmd)
              (m.sqhd_disabled (m.sk_user_data (m.sock_sk sock)));
      }
