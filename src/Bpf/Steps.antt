-- ===== src/Bpf/Steps.antt =====
-- All that can happen to the maps of the NVMe/TCP initiator object, in any order and on any CPU:
-- the programs of bpf/host.bpf.h and bpf/nvme_tcp_host.bpf.c, one run of a hook after another.
use ntprof.Prelude.{
  ℕ, ◌<◌, subst, Bool, true, false, ◌&&◌, ◌||◌, not, Option, none, some, nonzero, ◌==◌, if-holds,
  Bool-cases, Option-cases, inl, inr,
}
use ntprof.Record.{CmdId, nvme_cmd_write}
use ntprof.Bpf.Common.{Run, read_cmd, is_rw, idle}
use ntprof.Bpf.Host.{
  Config, Request, State, HostEntry, HostRx, loaded, uncount, rx_get, rx_put, host_rx_enter,
}
use ntprof.Bpf.Host.Submit.{
  Via, host_queue_rq, setup_via, count_submitted, wanted, setup_read, setup_cmd,
}
use ntprof.Bpf.Host.Complete.{host_complete, nvme_done, blk_done}
use ntprof.Bpf.Tcp.{Mem, rq_from_pdu}
use ntprof.Bpf.Tcp.Send.{on_send_done, on_send_h2c}
use ntprof.Bpf.Tcp.Receive.{
  on_recv_skb, on_recv_skb_exit, end_call, copy_of, copied_entry, on_copy, on_r2t, on_complete,
}
use ntprof.Bpf.Inv.{
  IsConsistent, loaded-IsConsistent, on_rec-IsConsistent, uncount-IsConsistent,
  host_queue_rq-IsConsistent, take_slot-IsConsistent, blk_done-IsConsistent, nvme_done-IsConsistent,
}

-- The steps on the maps of bpf/host.bpf.h; the address of a request is not 0.
pub data Reached (g : Config) : State → Type 0 where
  start : Reached g loaded
  armed : {s : State} → Reached g s → Reached g (record s { armed = true })
  queued :
      {s : State} (x : Run) (rq driver_data : ℕ)
      → Reached g s
      → Reached g (host_queue_rq g x s rq driver_data)
  set_up :
      {s : State} (x : Run) (rq : Request)
      → 0 < rq.addr
      → Reached g s
      → Reached g (setup_cmd g x s rq)
  nvme_completed : {s : State} (x : Run) (rq : ℕ) → Reached g s → Reached g (nvme_done g x s rq)
  blk_completed :
      {s : State} (x : Run) (rq : ℕ) → 0 < rq → Reached g s → Reached g (blk_done g x s rq)
  send_done :
      {s : State} (m : Mem) (x : Run) (req ret : ℕ) (cmd_pdu : Bool)
      → Reached g s
      → Reached g (on_send_done g m x s req ret cmd_pdu)
  send_h2c :
      {s : State} (m : Mem) (x : Run) (req : ℕ) → Reached g s → Reached g (on_send_h2c g m x s req)
  send_uncounted :
      {s : State} (m : Mem) (req : ℕ)
      → Reached g s
      → Reached g (uncount s (rq_from_pdu m req) true false false)
  skb_received :
      {s : State} (m : Mem) (x : Run) (skb : ℕ) → Reached g s → Reached g (on_recv_skb g m x s skb)
  skb_finished :
      {s : State} (m : Mem) (x : Run) → Reached g s → Reached g (on_recv_skb_exit g m x s)
  copied : {s : State} (m : Mem) (x : Run) (skb : ℕ) → Reached g s → Reached g (on_copy g m x s skb)
  r2t_received :
      {s : State} (m : Mem) (x : Run) (req : ℕ) → Reached g s → Reached g (on_r2t g m x s req)
  response_parsed :
      {s : State} (m : Mem) (x : Run) (rq : ℕ) → Reached g s → Reached g (on_complete g m x s rq)

pub rx_put-IsConsistent :
    (x : Run) (s : State) (c : HostRx) → IsConsistent s → IsConsistent (rx_put x s c)
rx_put-IsConsistent x s c ok = record { width = ok.width; opened = ok.opened; balance = ok.balance }

count_submitted-IsConsistent :
    (g : Config) (s : State) (id : CmdId) (bytes : ℕ)
    → IsConsistent s
    → IsConsistent (count_submitted g s id bytes)
unfolding count_submitted
count_submitted-IsConsistent g s id bytes ok = elim (Bool-cases (id.opcode == nvme_cmd_write)) [
  | inl h ↦
      rw (h, count_submitted)
        (record { width = ok.width; opened = ok.opened; balance = ok.balance })
  | inr h ↦
      rw (h, count_submitted)
        (record { width = ok.width; opened = ok.opened; balance = ok.balance })
]

setup_read-IsConsistent :
    (g : Config) (x : Run) (s : State) (v : Via g) (id : CmdId) (rq : Request)
    → 0 < rq.addr
    → IsConsistent s
    → IsConsistent (setup_read g x s v id rq)
unfolding setup_read
setup_read-IsConsistent g x s v id rq h ok =
    let counted = count_submitted-IsConsistent g s id rq.data_len ok in
    if-holds IsConsistent (not (is_rw id.opcode)) ok (
      if-holds IsConsistent (wanted g id rq) (take_slot-IsConsistent _ counted g x v id rq h)
        counted)

abbrev AllConsistent : {V : Type 0} → Option (V × State) → Type 0
AllConsistent none = Unit
AllConsistent (some (v, s)) = IsConsistent s

setup_via-AllConsistent :
    (g : Config) (x : Run) (s : State) (rq : Request)
    → IsConsistent s
    → AllConsistent {V = Via g} (setup_via g x s rq)
unfolding setup_via
setup_via-AllConsistent g x s rq ok =
    let p = s.pend x.cpu in
    elim (Bool-cases
      ((g.hooks_queue_rq || g.filter.track_queues) && p.tid == x.tid && p.rq == rq.addr)) [
        | inl h ↦
            rw (h, setup_via)
              (record { width = ok.width; opened = ok.opened; balance = ok.balance })
        | inr h ↦ elim (Bool-cases (s.armed && nonzero (g.queue_of rq))) [
          | inl k ↦ rw (h, k, setup_via) ok
          | inr k ↦ rw (h, k, setup_via) tt
        ]
      ]

pub setup_cmd-IsConsistent :
    (g : Config) (x : Run) (s : State) (rq : Request)
    → 0 < rq.addr
    → IsConsistent s
    → IsConsistent (setup_cmd g x s rq)
unfolding setup_cmd
setup_cmd-IsConsistent g x s rq h ok = elim (Option-cases (setup_via g x s rq)) [
  | inl e ↦ rw (e, setup_cmd) ok
  | inr ((v, s'), e) ↦ elim (Option-cases (read_cmd rq.cmd)) [
    | inl f ↦ rw (e, f, setup_cmd) (subst AllConsistent e (setup_via-AllConsistent g x s rq ok))
    | inr (id, f) ↦
        rw (e, f, setup_cmd)
          (setup_read-IsConsistent g x s' v id rq h
            (subst AllConsistent e (setup_via-AllConsistent g x s rq ok)))
  ]
]

pub host_complete-IsConsistent :
    (g : Config) (x : Run) (s : State) (rq : ℕ)
    → IsConsistent s
    → IsConsistent (host_complete g x s rq).1
unfolding host_complete
host_complete-IsConsistent g x s rq ok =
    let uncounted =
      if-holds IsConsistent g.filter.track_queues (uncount-IsConsistent s ok rq true true true)
        ok in
    elim (Bool-cases ((s.rx_ctx x.cpu).tid == x.tid)) [
      | inl h ↦
          rw (h, host_complete)
            (if-holds (λ (r : Bool × State). IsConsistent r.1) (idle g.filter s.inflight) ok
              (if-holds (λ (r : Bool × State). IsConsistent r.1) _
                (rx_put-IsConsistent x _ _ (on_rec-IsConsistent _ uncounted rq _)) uncounted))
      | inr h ↦
          rw (h, host_complete)
            (if-holds (λ (r : Bool × State). IsConsistent r.1) (idle g.filter s.inflight) ok ok)
    ]

end_call-IsConsistent :
    (c : HostRx) (now : ℕ) (s : State) → IsConsistent s → IsConsistent (end_call c now s)
unfolding end_call
end_call-IsConsistent c now s ok =
    if-holds IsConsistent (nonzero c.data_rq) (on_rec-IsConsistent s ok c.data_rq _) ok

on_send_done-IsConsistent :
    (g : Config) (m : Mem) (x : Run) (s : State) (req ret : ℕ) (b : Bool)
    → IsConsistent s
    → IsConsistent (on_send_done g m x s req ret b)
unfolding on_send_done
on_send_done-IsConsistent g m x s req ret b ok =
    let uncounted =
      if-holds IsConsistent (b && g.filter.track_queues)
        (uncount-IsConsistent s ok (rq_from_pdu m req) true false false) ok in
    if-holds IsConsistent _ ok
      (if-holds IsConsistent _ uncounted (on_rec-IsConsistent _ uncounted _ _))

on_send_h2c-IsConsistent :
    (g : Config) (m : Mem) (x : Run) (s : State) (req : ℕ)
    → IsConsistent s
    → IsConsistent (on_send_h2c g m x s req)
unfolding on_send_h2c
on_send_h2c-IsConsistent g m x s req ok = if-holds IsConsistent _ (on_rec-IsConsistent s ok _ _) ok

on_recv_skb-IsConsistent :
    (g : Config) (m : Mem) (x : Run) (s : State) (skb : ℕ)
    → IsConsistent s
    → IsConsistent (on_recv_skb g m x s skb)
unfolding on_recv_skb host_rx_enter
on_recv_skb-IsConsistent g m x s skb ok = if-holds IsConsistent _ ok (rx_put-IsConsistent x s _ ok)

-- What a hook does in its receive context, and nothing without one.
pub in_context :
    (x : Run) (s : State) (f : HostRx → State)
    → IsConsistent s
    → ((c : HostRx) → IsConsistent (f c))
    → IsConsistent (elim (rx_get x s) as (λ o. State) [ none ↦ s | some c ↦ f c ])
in_context x s f ok h = elim (Bool-cases ((s.rx_ctx x.cpu).tid == x.tid)) [
  | inl e ↦ rw e (h _)
  | inr e ↦ rw e ok
]

on_recv_skb_exit-IsConsistent :
    (g : Config) (m : Mem) (x : Run) (s : State)
    → IsConsistent s
    → IsConsistent (on_recv_skb_exit g m x s)
unfolding on_recv_skb_exit
on_recv_skb_exit-IsConsistent g m x s ok =
    in_context x s _ ok (λ c. rx_put-IsConsistent x _ _ (end_call-IsConsistent c x.now s ok))

copy_of-IsConsistent :
    (g : Config) (m : Mem) (x : Run) (s : State) (c : HostRx) (e : HostEntry)
    → IsConsistent s
    → IsConsistent (copy_of g m x s c e)
unfolding copy_of
copy_of-IsConsistent g m x s c e ok =
    let stamped = on_rec-IsConsistent s ok e.rq _ in
    if-holds IsConsistent (c.data_rq == e.rq) stamped (
      rx_put-IsConsistent x _ _
        (on_rec-IsConsistent _ (end_call-IsConsistent c x.now _ stamped) e.rq _))

on_copy-IsConsistent :
    (g : Config) (m : Mem) (x : Run) (s : State) (skb : ℕ)
    → IsConsistent s
    → IsConsistent (on_copy g m x s skb)
unfolding on_copy
on_copy-IsConsistent g m x s skb ok = if-holds IsConsistent (idle g.filter s.inflight) ok (
    in_context x s _ ok (λ c. elim (Option-cases (copied_entry g m x s c.queue)) [
      | inl e ↦ rw e ok
      | inr (e', e) ↦
          rw e (if-holds IsConsistent (c.skb == skb) (copy_of-IsConsistent g m x s c e' ok) ok)
    ]))

on_r2t-IsConsistent :
    (g : Config) (m : Mem) (x : Run) (s : State) (req : ℕ)
    → IsConsistent s
    → IsConsistent (on_r2t g m x s req)
unfolding on_r2t
on_r2t-IsConsistent g m x s req ok = in_context x s _ ok (λ c. on_rec-IsConsistent s ok _ _)

on_complete-IsConsistent :
    (g : Config) (m : Mem) (x : Run) (s : State) (rq : ℕ)
    → IsConsistent s
    → IsConsistent (on_complete g m x s rq)
unfolding on_complete
on_complete-IsConsistent g m x s rq ok =
    let done = host_complete-IsConsistent g x s rq ok in
    in_context x (host_complete g x s rq).1 _ done
      (λ c. if-holds IsConsistent _ (on_rec-IsConsistent _ done rq _) done)

-- In every state of the NVMe/TCP initiator's maps, whatever hooks of its object ran in whatever
-- order on requests with an address other than 0, ntp_inflight is the number of slots with an
-- owner, and NTP_CNT_HOST_SAMPLED is the sum of NTP_CNT_HOST_EMITTED, NTP_CNT_RB_DROPS,
-- NTP_CNT_STALE and ntp_inflight.
pub Reached-IsConsistent : (g : Config) (s : State) → Reached g s → IsConsistent s
Reached-IsConsistent g _ start = loaded-IsConsistent
Reached-IsConsistent g _ (armed r) =
    let ok = Reached-IsConsistent g _ r in
    record { width = ok.width; opened = ok.opened; balance = ok.balance }
Reached-IsConsistent g _ (queued x rq d r) =
    host_queue_rq-IsConsistent _ (Reached-IsConsistent g _ r) g x rq d
Reached-IsConsistent g _ (set_up x rq h r) =
    setup_cmd-IsConsistent g x _ rq h (Reached-IsConsistent g _ r)
Reached-IsConsistent g _ (nvme_completed x rq r) =
    nvme_done-IsConsistent _ (Reached-IsConsistent g _ r) g x rq
Reached-IsConsistent g _ (blk_completed x rq h r) =
    blk_done-IsConsistent _ (Reached-IsConsistent g _ r) g x rq h
Reached-IsConsistent g _ (send_done m x req ret b r) =
    on_send_done-IsConsistent g m x _ req ret b (Reached-IsConsistent g _ r)
Reached-IsConsistent g _ (send_h2c m x req r) =
    on_send_h2c-IsConsistent g m x _ req (Reached-IsConsistent g _ r)
Reached-IsConsistent g _ (send_uncounted m req r) =
    uncount-IsConsistent _ (Reached-IsConsistent g _ r) _ true false false
Reached-IsConsistent g _ (skb_received m x skb r) =
    on_recv_skb-IsConsistent g m x _ skb (Reached-IsConsistent g _ r)
Reached-IsConsistent g _ (skb_finished m x r) =
    on_recv_skb_exit-IsConsistent g m x _ (Reached-IsConsistent g _ r)
Reached-IsConsistent g _ (copied m x skb r) =
    on_copy-IsConsistent g m x _ skb (Reached-IsConsistent g _ r)
Reached-IsConsistent g _ (r2t_received m x req r) =
    on_r2t-IsConsistent g m x _ req (Reached-IsConsistent g _ r)
Reached-IsConsistent g _ (response_parsed m x rq r) =
    on_complete-IsConsistent g m x _ rq (Reached-IsConsistent g _ r)
