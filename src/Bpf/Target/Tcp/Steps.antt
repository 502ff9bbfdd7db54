-- ===== src/Bpf/Target/Tcp/Steps.antt =====
-- All that the programs of bpf/target.bpf.h and bpf/nvme_tcp_target.bpf.c can do to the maps of the
-- NVMe/TCP target object, in any order and on any CPU.
use ntprof.Prelude.{ℕ, ◌<◌, Bool, true, false, none, nonzero, ◌==◌, if-holds, Bool-cases, inl, inr}
use ntprof.Record.{Filter}
use ntprof.Bpf.Common.{Run}
use ntprof.Bpf.Target.{Config, Request, State, loaded}
use ntprof.Bpf.Target.Finish.{on_exec, be_issue, be_done, req_complete}
use ntprof.Bpf.Target.Inv.{
  IsConsistent, loaded-IsConsistent, on_rec-IsConsistent, count_resp_queued-IsConsistent,
}
use ntprof.Bpf.Target.Steps.{
  req_init-IsConsistent, tgt_finish-IsConsistent, on_exec-IsConsistent, be_issue-IsConsistent,
  be_done-IsConsistent, req_complete-IsConsistent,
}
use ntprof.Bpf.Target.Tcp.{
  Mem, SendState, send_data_pdu, send_r2t, send_data, send_ddgst, send_response, TcpRx, TcpState,
  remember_queue, tcp_req_init, req_of, config,
}
use ntprof.Bpf.Target.Tcp.Receive.{on_copy, copy_done, on_copy_done, on_h2c}
use ntprof.Bpf.Target.Tcp.Send.{on_queue_resp, send_pdu, sending, on_sendmsg}

abbrev no_rx : TcpRx
no_rx = record { tid = 0; skb = 0; sk = 0; enter = 0; inside = false }

-- The maps as they are when the object is loaded.
unfoldable pub tcp_loaded : TcpState
tcp_loaded = record { target = loaded; tcp_rx = λ cpu. no_rx; tqueues = λ queue. none }

abbrev pub with_target : TcpState → State → TcpState
with_target s t = record s { target = t }

-- The address of a request is not 0.
pub data Reached (f : Filter) : TcpState → Type 0 where
  start : Reached f tcp_loaded
  armed :
      {s : TcpState} → Reached f s → Reached f (with_target s (record (s.target) { armed = true }))
  arrived :
      {s : TcpState} (m : Mem) (x : Run) (rq : Request)
      → 0 < rq.addr
      → Reached f s
      → Reached f (tcp_req_init f m x s rq)
  copying :
      {s : TcpState} (m : Mem) (x : Run) (skb : ℕ) (inside : Bool)
      → Reached f s
      → Reached f (on_copy f m x s skb inside)
  copied :
      {s : TcpState} (m : Mem) (x : Run) (ret : ℕ)
      → Reached f s
      → Reached f (on_copy_done f m x s ret)
  header_parsed :
      {s : TcpState} (m : Mem) (x : Run) (cmd : ℕ) → Reached f s → Reached f (on_h2c f m x s cmd)
  executed :
      {s : TcpState} (x : Run) (rq : Request)
      → Reached f s
      → Reached f (with_target s (on_exec x s.target rq))
  issued :
      {s : TcpState} (x : Run) (priv : ℕ)
      → Reached f s
      → Reached f (with_target s (be_issue x s.target priv))
  stored :
      {s : TcpState} (x : Run) (priv : ℕ)
      → Reached f s
      → Reached f (with_target s (be_done x s.target priv))
  completed :
      {s : TcpState} (x : Run) (req : ℕ)
      → Reached f s
      → Reached f (with_target s (req_complete x s.target req))
  response_queued :
      {s : TcpState} (m : Mem) (x : Run) (req : ℕ)
      → Reached f s
      → Reached f (on_queue_resp f m x s req)
  sent :
      {s : TcpState} (m : Mem) (x : Run) (sock : ℕ)
      → 0 < req_of m (sending f m x s sock)
      → Reached f s
      → Reached f (on_sendmsg f m x s sock)

module _ (f : Filter) (m : Mem) (x : Run) (s : TcpState) (ok : IsConsistent s.target) where
  tcp_req_init-IsConsistent :
      (rq : Request) → 0 < rq.addr → IsConsistent (tcp_req_init f m x s rq).target
  unfolding tcp_req_init remember_queue
  tcp_req_init-IsConsistent rq h =
      let ready = req_init-IsConsistent (config f m x s) x s.target rq h ok in
      if-holds (λ (s : TcpState). IsConsistent s.target) _ ready ready

  on_copy-IsConsistent :
      (skb : ℕ) (inside : Bool) → IsConsistent (on_copy f m x s skb inside).target
  unfolding on_copy
  on_copy-IsConsistent skb inside = ok

  copy_done-IsConsistent : (r : TcpRx) (ret : ℕ) → IsConsistent (copy_done f m x s r ret).target
  unfolding copy_done
  copy_done-IsConsistent r ret =
      if-holds (λ (s : TcpState). IsConsistent s.target) _ ok (on_rec-IsConsistent s.target ok _ _)

  on_copy_done-IsConsistent : (ret : ℕ) → IsConsistent (on_copy_done f m x s ret).target
  unfolding on_copy_done
  on_copy_done-IsConsistent ret = elim (Bool-cases ((s.tcp_rx x.cpu).tid == x.tid)) [
    | inl e ↦
        rw (e, on_copy_done)
          (if-holds (λ (s : TcpState). IsConsistent s.target) (nonzero s.target.inflight)
            (copy_done-IsConsistent _ ret) ok)
    | inr e ↦
        rw (e, on_copy_done)
          (if-holds (λ (s : TcpState). IsConsistent s.target) (nonzero s.target.inflight) ok ok)
  ]

  on_h2c-IsConsistent : (cmd : ℕ) → IsConsistent (on_h2c f m x s cmd).target
  unfolding on_h2c
  on_h2c-IsConsistent cmd =
      if-holds (λ (s : TcpState). IsConsistent s.target) (nonzero s.target.inflight)
        (on_rec-IsConsistent s.target ok _ _) ok

  on_queue_resp-IsConsistent : (req : ℕ) → IsConsistent (on_queue_resp f m x s req).target
  unfolding on_queue_resp
  on_queue_resp-IsConsistent req =
      let counted =
        if-holds IsConsistent f.track_queues (count_resp_queued-IsConsistent s.target ok req) ok in
      if-holds (λ (s : TcpState). IsConsistent s.target) _ ok
        (if-holds (λ (s : TcpState). IsConsistent s.target) _
          (on_rec-IsConsistent s.target ok req _) (on_rec-IsConsistent _ counted req _))

send_pdu-IsConsistent :
    (f : Filter) (m : Mem) (x : Run) (g : Config) (t : State) (req : ℕ) (st : SendState)
    (last : Bool)
    → 0 < req
    → IsConsistent t
    → IsConsistent (send_pdu f m x g t req st last)
unfolding send_pdu
send_pdu-IsConsistent f m x g t req send_r2t last h ok = on_rec-IsConsistent t ok req _
send_pdu-IsConsistent f m x g t req send_data_pdu last h ok =
    let stamped = on_rec-IsConsistent t ok req _ in
    if-holds IsConsistent last
      (tgt_finish-IsConsistent g x _ req h (on_rec-IsConsistent _ stamped req _)) stamped
send_pdu-IsConsistent f m x g t req send_response last h ok =
    tgt_finish-IsConsistent g x _ req h (on_rec-IsConsistent t ok req _)
send_pdu-IsConsistent f m x g t req send_data last h ok = ok
send_pdu-IsConsistent f m x g t req send_ddgst last h ok = ok

on_sendmsg-IsConsistent :
    (f : Filter) (m : Mem) (x : Run) (s : TcpState) (sock : ℕ)
    → 0 < req_of m (sending f m x s sock)
    → IsConsistent s.target
    → IsConsistent (on_sendmsg f m x s sock).target
unfolding on_sendmsg
on_sendmsg-IsConsistent f m x s sock h ok =
    if-holds (λ (s : TcpState). IsConsistent s.target) _ ok
      (send_pdu-IsConsistent f m x (config f m x s) s.target _ _ _ h ok)

-- In every state of the NVMe/TCP target's maps, whatever hooks of its object ran in whatever order
-- on commands with an address other than 0, ntp_inflight is the number of slots with an owner, and
-- NTP_CNT_TGT_SAMPLED is the sum of NTP_CNT_TGT_EMITTED, NTP_CNT_RB_DROPS, NTP_CNT_STALE and
-- ntp_inflight.
pub Reached-IsConsistent_tcp : (f : Filter) (s : TcpState) → Reached f s → IsConsistent s.target
unfolding tcp_loaded
Reached-IsConsistent_tcp f _ start = loaded-IsConsistent
Reached-IsConsistent_tcp f _ (armed r) =
    let ok = Reached-IsConsistent_tcp f _ r in
    record { width = ok.width; opened = ok.opened; balance = ok.balance }
Reached-IsConsistent_tcp f _ (arrived m x rq h r) =
    tcp_req_init-IsConsistent f m x _ (Reached-IsConsistent_tcp f _ r) rq h
Reached-IsConsistent_tcp f _ (copying m x skb i r) =
    on_copy-IsConsistent f m x _ (Reached-IsConsistent_tcp f _ r) skb i
Reached-IsConsistent_tcp f _ (copied m x ret r) =
    on_copy_done-IsConsistent f m x _ (Reached-IsConsistent_tcp f _ r) ret
Reached-IsConsistent_tcp f _ (header_parsed m x cmd r) =
    on_h2c-IsConsistent f m x _ (Reached-IsConsistent_tcp f _ r) cmd
Reached-IsConsistent_tcp f _ (executed x rq r) =
    on_exec-IsConsistent x _ rq (Reached-IsConsistent_tcp f _ r)
Reached-IsConsistent_tcp f _ (issued x priv r) =
    be_issue-IsConsistent x _ priv (Reached-IsConsistent_tcp f _ r)
Reached-IsConsistent_tcp f _ (stored x priv r) =
    be_done-IsConsistent x _ priv (Reached-IsConsistent_tcp f _ r)
Reached-IsConsistent_tcp f _ (completed x req r) =
    req_complete-IsConsistent x _ req (Reached-IsConsistent_tcp f _ r)
Reached-IsConsistent_tcp f _ (response_queued m x req r) =
    on_queue_resp-IsConsistent f m x _ (Reached-IsConsistent_tcp f _ r) req
Reached-IsConsistent_tcp f _ (sent m x sock h r) =
    on_sendmsg-IsConsistent f m x _ sock h (Reached-IsConsistent_tcp f _ r)
