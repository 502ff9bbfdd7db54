-- ===== src/Bpf/Target/Tcp.antt =====
-- The NVMe/TCP target: what the hooks of bpf/nvme_tcp_target.bpf.c read of the kernel, their maps,
-- and the arrival of a command.
use ntprof.Prelude.{
  ℕ, ◌+◌, ◌-◌, ◌%◌, ◌^◌, Bool, true, false, not, ◌&&◌, ◌||◌, Option, none, some, nonzero, ◌==◌,
  if◌then◌else◌, at,
}
use ntprof.Record.{Filter, Transport}
use ntprof.Bpf.Common.{Run, read_cmd, skb_arrival}
use ntprof.Bpf.Target.{Config, Request, State}
use ntprof.Bpf.Target.Arrive.{wanted, req_init}
pub mod Receive
pub mod Send
pub mod Steps
pub mod Busy
pub mod Emit

-- enum nvmet_tcp_send_state
pub data SendState : Type 0 where
  send_data_pdu send_r2t send_data send_ddgst send_response : SendState

-- The kernel's memory while a hook runs, by address. `sk` is a struct sock, `sock` a struct
-- socket, `queue` a struct nvmet_tcp_queue, `cmd` a struct nvmet_tcp_cmd. `kept` says which
-- entries the LRU map of queues keeps when one is added.
pub record Mem : Type 0 where
  pub skb_sk : ℕ → ℕ
  pub skb_tstamp : ℕ → ℕ
  pub sk_user_data : ℕ → ℕ
  pub sock_sk : ℕ → ℕ
  pub queue_sock : ℕ → ℕ
  pub receives_data : ℕ → Bool
  pub queue_cmd : ℕ → ℕ
  pub snd_cmd : ℕ → ℕ
  pub sqhd_disabled : ℕ → Bool
  pub cmd_queue : ℕ → ℕ
  pub cmd_offset : ℕ → ℕ
  pub cmd_state : ℕ → SendState
  pub rbytes_done : ℕ → ℕ
  pub req_opcode : ℕ → ℕ
  pub req_transfer_len : ℕ → ℕ
  pub req_field : ℕ
  pub sq_field : ℕ
  pub kept : ℕ → Bool

-- container_of() in both directions, and of the queue that a target nvmet_sq is embedded in
unfoldable pub cmd_of : Mem → ℕ → ℕ
cmd_of m req = (req + (2 ^ 64 - m.req_field)) % 2 ^ 64

unfoldable pub req_of : Mem → ℕ → ℕ
req_of m cmd = (cmd + m.req_field) % 2 ^ 64

unfoldable pub queue_of_sq : Mem → ℕ → ℕ
queue_of_sq m sq = (sq + (2 ^ 64 - m.sq_field)) % 2 ^ 64

-- `inside` says that the copy started inside the skb's data, `offset > 0`.
pub record TcpRx : Type 0 where
  pub tid : ℕ
  pub skb : ℕ
  pub sk : ℕ
  pub enter : ℕ
  pub inside : Bool

-- The target's maps, what each CPU's thread last read from a socket, and the queues whose sends
-- are looked at, with their sockets.
pub record TcpState : Type 0 where
  pub target : State
  pub tcp_rx : ℕ → TcpRx
  pub tqueues : ℕ → Option ℕ

-- NTP_CTX_GET(tcp_rx)
abbrev pub rx_get : Run → TcpState → Option TcpRx
rx_get x s = if (s.tcp_rx x.cpu).tid == x.tid then some (s.tcp_rx x.cpu) else none

-- The filter of the program stands among its parameters.
module _ (filter : Filter) (m : Mem) (x : Run) where
  -- When what this thread parses from a socket arrived.
  unfoldable pub rx_arrival : TcpState → ℕ → ℕ → ℕ
  unfolding skb_arrival
  rx_arrival s sk now = elim (rx_get x s) [
    | none ↦ now
    | some r ↦ if r.sk == sk then skb_arrival filter (m.skb_tstamp r.skb) now else now
  ]

  unfoldable pub remember_queue : TcpState → ℕ → TcpState
  unfolding at
  remember_queue s queue = record s {
    tqueues = at queue (some (m.queue_sock queue)) (λ k. if m.kept k then s.tqueues k else none);
  }

  -- The queue's socket points back to it.
  unfoldable pub tgt_is_ours : Request → Bool
  unfolding queue_of_sq
  tgt_is_ours rq =
      let queue = queue_of_sq m rq.sq in m.sk_user_data (m.sock_sk (m.queue_sock queue)) == queue

  -- The program's parameters for target.bpf.h while it runs.
  unfoldable pub config : TcpState → Config
  unfolding tgt_is_ours rx_arrival queue_of_sq
  config s = record {
    filter = filter;
    transport = Transport.tcp;
    is_ours = tgt_is_ours;
    arrival_of = λ rq now. rx_arrival s (m.sock_sk (m.queue_sock (queue_of_sq m rq.sq))) now;
  }

  -- The command is sampled: the hook comes to tgt_sampled().
  unfoldable pub takes : TcpState → Request → Bool
  unfolding read_cmd wanted config
  takes s rq = elim (read_cmd rq.cmd) [ none ↦ false | some id ↦ wanted (config s) x id ]

  -- The hook of target.bpf.h with this transport's tgt_is_ours() and tgt_sampled().
  unfoldable pub tcp_req_init : TcpState → Request → TcpState
  unfolding config takes tgt_is_ours remember_queue req_init queue_of_sq
  tcp_req_init s rq =
      let s₁ = record s { target = req_init (config s) x s.target rq } in
      let seen = s.target.armed && nonzero rq.qid && tgt_is_ours rq in
      if seen && (filter.track_queues || takes s rq)
      then remember_queue s₁ (queue_of_sq m rq.sq)
      else s₁
