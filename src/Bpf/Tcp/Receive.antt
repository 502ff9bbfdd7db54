-- ===== src/Bpf/Tcp/Receive.antt =====
-- The receive path of bpf/nvme_tcp_host.bpf.c.
use ntprof.Prelude.{ℕ, true, not, ◌&&◌, Option, none, some, nonzero, ◌==◌, if◌then◌else◌}
use ntprof.Record.{HostRec, HostTs, stamp_host}
use ntprof.Bpf.Common.{Run, idle, skb_arrival}
use ntprof.Bpf.Host.{
  Config, State, HostEntry, HostRx, host_entry, on_rec, rx_get, rx_put, rq_by_cid, host_rx_enter,
  data_done_rec, data_done_rx,
}
use ntprof.Bpf.Host.Complete.{host_complete}
use ntprof.Bpf.Tcp.{Mem, TcpPdu, c2h_data, rq_from_pdu}

-- The end of a call that copied the data of `data_rq`.
unfoldable pub end_call : HostRx → ℕ → State → State
unfolding on_rec data_done_rec
end_call c now s = if nonzero c.data_rq then on_rec s c.data_rq (data_done_rec c now) else s

-- The first copy of a read's data stamps its first data.
unfoldable pub first_data_rec : HostRx → ℕ → HostRec → HostRec
first_data_rec c now r =
    if nonzero (r.ts HostTs.c2h_proc)
    then r
    else record r { ts = stamp_host (stamp_host r.ts HostTs.c2h_arr c.arrival) HostTs.c2h_proc now }

unfoldable pub r2t_rec : HostRx → ℕ → HostRec → HostRec
r2t_rec c now r =
    let f = r.hdr.flags in
    if nonzero (r.ts HostTs.r2t_proc)
    then record r { hdr = record (r.hdr) { flags = record f { multi_r2t = true } } }
    else record r {
      hdr = record (r.hdr) { flags = record f { r2t = true } };
      ts = stamp_host (stamp_host r.ts HostTs.r2t_arr c.arrival) HostTs.r2t_proc now;
    }

unfoldable pub success_rec : HostRec → HostRec
success_rec r =
    let f = r.hdr.flags in
    if nonzero (r.ts HostTs.c2h_proc)
    then record r { hdr = record (r.hdr) { flags = record f { data_success = true } } }
    else r

module _ (g : Config) (m : Mem) (x : Run) where
  unfoldable pub on_recv_skb : State → ℕ → State
  unfolding host_rx_enter skb_arrival
  on_recv_skb s skb =
      if idle g.filter s.inflight
      then s
      else host_rx_enter x s (m.skb_queue skb) skb (skb_arrival g.filter (m.skb_tstamp skb) x.now)
          x.now

  unfoldable pub on_recv_skb_exit : State → State
  unfolding end_call
  on_recv_skb_exit s = elim (rx_get x s) [
    | none ↦ s
    | some c ↦
        let c' : HostRx = elim (host_entry s c.data_rq) [ none ↦ c | some e ↦ data_done_rx c ] in
        rx_put x (end_call c x.now s) (record (if nonzero c.data_rq then c' else c) { tid = 0 })
  ]

  -- The copy is of the data of the read whose entry is `e`.
  unfoldable pub copy_of : State → HostRx → HostEntry → State
  unfolding on_rec end_call first_data_rec
  copy_of s c e =
      let s₁ =
        on_rec s e.rq (λ r. record r { ts = stamp_host r.ts HostTs.c2h_last_arr c.arrival }) in
      let started = nonzero (e.rec.ts HostTs.c2h_proc) && not (nonzero c.data_rq) in
      if c.data_rq == e.rq
      then s₁
      else rx_put x (on_rec (end_call c x.now s₁) e.rq (first_data_rec c x.now))
          (record c { data_rq = e.rq; busy_from = if started then c.enter else x.now })

  -- The entry of the read that the C2H data PDU of the queue names.
  unfoldable pub copied_entry : State → ℕ → Option HostEntry
  unfolding rq_by_cid host_entry
  copied_entry s queue = elim (m.queue_pdu queue) [
    | none ↦ none
    | some pdu ↦ elim (rq_by_cid s queue pdu.command_id) [
      | none ↦ none
      | some rq ↦ if pdu.type == c2h_data then host_entry s rq else none
    ]
  ]

  unfoldable pub on_copy : State → ℕ → State
  unfolding copy_of copied_entry
  on_copy s skb = if idle g.filter s.inflight then s else elim (rx_get x s) [
    | none ↦ s
    | some c ↦ elim (copied_entry s c.queue) [
      | none ↦ s
      | some e ↦ if c.skb == skb then copy_of s c e else s
    ]
  ]

  unfoldable pub on_r2t : State → ℕ → State
  unfolding on_rec r2t_rec
  on_r2t s req = elim (rx_get x s) [
    | none ↦ s
    | some c ↦ on_rec s (rq_from_pdu m req) (r2t_rec c x.now)
  ]

  -- The type of the PDU that the queue is at, 0 if it cannot be read.
  abbrev pdu_type : Option TcpPdu → ℕ
  pdu_type none = 0
  pdu_type (some pdu) = pdu.type

  unfoldable pub on_complete : State → ℕ → State
  unfolding host_complete on_rec success_rec
  on_complete s rq =
      let (found, s₁) = host_complete g x s rq in
      elim (rx_get x s₁) [
        | none ↦ s₁
        | some c ↦
            if found && pdu_type (m.queue_pdu c.queue) == c2h_data
            then on_rec s₁ rq success_rec
            else s₁
      ]
