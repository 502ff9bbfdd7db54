-- ===== src/Bpf/Tcp/Send.antt =====
-- The send path of bpf/nvme_tcp_host.bpf.c.
use ntprof.Prelude.{ℕ, Bool, true, false, not, ◌&&◌, ◌||◌, nonzero, ◌==◌, if◌then◌else◌, at}
use ntprof.Record.{HostRec, HostTs, stamp_host}
use ntprof.Bpf.Common.{Run, stamp_once, idle}
use ntprof.Bpf.Host.{Config, State, on_rec, uncount}
use ntprof.Bpf.Tcp.{Mem, TcpState, TsendCtx, rq_from_pdu}

-- What a request that was sent completely means to its record.
unfoldable pub sent_rec : ℕ → HostRec → HostRec
sent_rec now r =
    if not (nonzero (r.ts HostTs.cmd_sent))
    then record r { ts = stamp_host r.ts HostTs.cmd_sent now }
    else if nonzero (r.ts HostTs.r2t_proc)
    then record r { ts = stamp_host r.ts HostTs.data_sent now }
    else r

unfoldable pub data_start_rec : ℕ → HostRec → HostRec
unfolding stamp_once
data_start_rec now r =
    if nonzero (r.ts HostTs.r2t_proc)
    then record r {
      ts = stamp_host r.ts HostTs.data_start (stamp_once (r.ts HostTs.data_start) now);
    }
    else r

module _ (g : Config) (m : Mem) (x : Run) where
  -- `ret` is the int that the function returned.
  unfoldable pub on_send_done : State → ℕ → ℕ → Bool → State
  unfolding on_rec uncount sent_rec
  on_send_done s req ret cmd_pdu =
      let rq = rq_from_pdu m req in
      let s₁ = if cmd_pdu && g.filter.track_queues then uncount s rq true false false else s in
      if not (ret == 1) || idle g.filter s.inflight
      then s
      else if nonzero (m.queue_request (m.req_queue req))
      then s₁
      else on_rec s₁ rq (sent_rec x.now)

  unfoldable pub on_send_h2c : State → ℕ → State
  unfolding on_rec data_start_rec
  on_send_h2c s req =
      if nonzero s.inflight then on_rec s (rq_from_pdu m req) (data_start_rec x.now) else s

  unfoldable pub send_enter : TcpState → ℕ → TcpState
  unfolding at
  send_enter s req = record s { send_ctx = at x.cpu (record { tid = x.tid; req = req }) s.send_ctx }

  unfoldable pub send_exit : TcpState → ℕ → Bool → TcpState
  unfolding at on_send_done
  send_exit s ret cmd_pdu =
      let c = s.send_ctx x.cpu in
      if c.tid == x.tid
      then record s {
        send_ctx = at x.cpu (record c { tid = 0 }) s.send_ctx;
        host = on_send_done s.host c.req ret cmd_pdu;
      }
      else s

  unfoldable pub tsend_found : TcpState → TsendCtx → ℕ → TcpState
  unfolding at on_send_h2c
  tsend_found s c req = record s {
    tsend_ctx = at x.cpu (record c { req = req; cmd_pdu = m.sends_cmd_pdu req }) s.tsend_ctx;
    host = on_send_h2c s.host req;
  }

  unfoldable pub try_send_enter : TcpState → ℕ → TcpState
  unfolding at tsend_found
  try_send_enter s queue =
      let c = record (s.tsend_ctx x.cpu) { tid = x.tid; queue = queue; req = 0 } in
      let s₁ = record s { tsend_ctx = at x.cpu c s.tsend_ctx } in
      let req = m.queue_request queue in
      if idle g.filter s.host.inflight then s else if nonzero req then tsend_found s₁ c req else s₁

  unfoldable pub on_sock_send : TcpState → ℕ → TcpState
  unfolding tsend_found
  on_sock_send s sock =
      let c = s.tsend_ctx x.cpu in
      let req = m.queue_request c.queue in
      if idle g.filter s.host.inflight || not (c.tid == x.tid) || nonzero c.req
      then s
      else if m.sock_queue sock == c.queue && nonzero req
      then tsend_found s c req
      else s

  unfoldable pub try_send_exit : TcpState → ℕ → TcpState
  unfolding at uncount on_send_done
  try_send_exit s ret =
      let c = s.tsend_ctx x.cpu in
      let s₁ = record s { tsend_ctx = at x.cpu (record c { tid = 0 }) s.tsend_ctx } in
      let went_out = not (m.queue_request c.queue == c.req) || not (m.sends_cmd_pdu c.req) in
      let h =
        if c.cmd_pdu && g.filter.track_queues && went_out
        then uncount s.host (rq_from_pdu m c.req) true false false
        else s.host in
      if c.tid == x.tid
      then if nonzero c.req then record s₁ { host = on_send_done h c.req ret false } else s₁
      else s
