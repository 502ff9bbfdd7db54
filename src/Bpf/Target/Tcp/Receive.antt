-- ===== src/Bpf/Target/Tcp/Receive.antt =====
-- The receive path of bpf/nvme_tcp_target.bpf.c.
use ntprof.Prelude.{
  ℕ, ◌+◌, ◌-◌, ◌%◌, ◌^◌, Bool, true, not, ◌&&◌, ◌||◌, none, some, nonzero, ltb, ◌==◌, if◌then◌else◌,
  at,
}
use ntprof.Record.{Filter, TgtRec, TgtTs, stamp_tgt}
use ntprof.Bpf.Common.{Run, skb_arrival}
use ntprof.Bpf.Target.{on_rec}
use ntprof.Bpf.Target.Tcp.{Mem, TcpRx, TcpState, rx_get, req_of, rx_arrival}

-- From when a copy counts: the first one that starts inside an skb from the header's parsing.
unfoldable pub copy_from : ℕ → Bool → TgtRec → ℕ
copy_from enter inside r =
    if not (nonzero r.h2c_skbs) && inside then r.ts TgtTs.data_proc else enter

unfoldable pub add_copy : ℕ → ℕ → ℕ → TgtRec → TgtRec
add_copy from arrival now r = record r {
  h2c_busy_ns = (r.h2c_busy_ns + (now - from)) % 2 ^ 64;
  h2c_skbs = (r.h2c_skbs + 1) % 2 ^ 32;
  ts = stamp_tgt (stamp_tgt r.ts TgtTs.data_done now) TgtTs.data_last_arr arrival;
}

-- The data of a write after an R2T, copied from `enter` to `now`, in its record.
unfoldable pub copied_rec : ℕ → Bool → ℕ → ℕ → TgtRec → TgtRec
unfolding copy_from add_copy
copied_rec enter inside arrival now r =
    let from = copy_from enter inside r in
    if not r.hdr.flags.r2t
      || not (nonzero (r.ts TgtTs.data_proc))
      || nonzero (r.ts TgtTs.exec)
      || ltb now from
    then r
    else add_copy from arrival now r

-- The header of a data PDU in a record.
unfoldable pub h2c_rec : ℕ → ℕ → TgtRec → TgtRec
h2c_rec arrival now r =
    let f = r.hdr.flags in
    if not (nonzero (r.ts TgtTs.r2t_sent))
    then record r { hdr = record (r.hdr) { flags = record f { inline_data = true } } }
    else if nonzero (r.ts TgtTs.data_proc)
    then r
    else record r {
      hdr = record (r.hdr) { flags = record f { r2t = true } };
      ts = stamp_tgt (stamp_tgt r.ts TgtTs.data_arr arrival) TgtTs.data_proc now;
    }

module _ (filter : Filter) (m : Mem) (x : Run) where
  unfoldable pub on_copy : TcpState → ℕ → Bool → TcpState
  unfolding at
  on_copy s skb inside = record s {
    tcp_rx =
        at x.cpu
          (record {
            tid = x.tid;
            skb = skb;
            sk = m.skb_sk skb;
            enter = if nonzero s.target.inflight then x.now else 0;
            inside = inside;
          })
          s.tcp_rx;
  }

  -- The command whose data the queue of the socket receives, or 0.
  unfoldable pub receiving : ℕ → ℕ
  receiving sk =
      let queue = m.sk_user_data sk in
      if nonzero queue && m.sock_sk (m.queue_sock queue) == sk && m.receives_data queue
      then m.queue_cmd queue
      else 0

  -- The copy is over; `ret` is what it returned, 0 if it succeeded.
  unfoldable pub copy_done : TcpState → TcpRx → ℕ → TcpState
  unfolding at receiving on_rec copied_rec skb_arrival req_of
  copy_done s r ret =
      let s₁ = record s { tcp_rx = at x.cpu (record r { enter = 0 }) s.tcp_rx } in
      let cmd = receiving r.sk in
      if not (nonzero r.enter) || nonzero ret || not (nonzero cmd) then s₁ else record s₁ {
        target =
            on_rec s.target (req_of m cmd)
              (copied_rec r.enter r.inside (skb_arrival filter (m.skb_tstamp r.skb) x.now) x.now);
      }

  unfoldable pub on_copy_done : TcpState → ℕ → TcpState
  unfolding copy_done
  on_copy_done s ret =
      if nonzero s.target.inflight
      then elim (rx_get x s) [ none ↦ s | some r ↦ copy_done s r ret ]
      else s

  unfoldable pub on_h2c : TcpState → ℕ → TcpState
  unfolding on_rec h2c_rec rx_arrival req_of
  on_h2c s cmd =
      let sk = m.sock_sk (m.queue_sock (m.cmd_queue cmd)) in
      if nonzero s.target.inflight
      then record s {
        target = on_rec s.target (req_of m cmd) (h2c_rec (rx_arrival filter m x s sk x.now) x.now);
      }
      else s
