-- ===== src/Bpf/Tcp.antt =====
-- The NVMe/TCP initiator: what the hooks of bpf/nvme_tcp_host.bpf.c read of the kernel.
use ntprof.Prelude.{ℕ, ◌+◌, ◌-◌, ◌%◌, ◌^◌, ◌&&◌, Bool, Option, nonzero, ◌==◌, if◌then◌else◌}
use ntprof.Bpf.Host.{Request, State}
pub mod Send
pub mod Receive

pub record TcpPdu : Type 0 where
  pub type : ℕ
  pub command_id : ℕ

-- nvme_tcp_c2h_data
abbrev pub c2h_data : ℕ
c2h_data = 0x7

-- The kernel's memory while a hook runs, by address: of a struct nvme_tcp_request, its queue and
-- whether its state is NVME_TCP_SEND_CMD_PDU; of a queue, its request and its PDU header, if it
-- can be read; of an skb, its socket's sk_user_data and its tstamp; of a socket, its sk_user_data.
pub record Mem : Type 0 where
  pub req_queue : ℕ → ℕ
  pub sends_cmd_pdu : ℕ → Bool
  pub queue_request : ℕ → ℕ
  pub queue_pdu : ℕ → Option TcpPdu
  pub skb_queue : ℕ → ℕ
  pub skb_tstamp : ℕ → ℕ
  pub sock_queue : ℕ → ℕ
  pub request_size : ℕ

unfoldable pub rq_from_pdu : Mem → ℕ → ℕ
rq_from_pdu m pdu = (pdu + (2 ^ 64 - m.request_size)) % 2 ^ 64

-- The queue of a request whose socket points back to it, else 0.
unfoldable pub host_queue_of : Request → ℕ
host_queue_of rq =
    if nonzero rq.pdu_queue && rq.sk_user_data == rq.pdu_queue then rq.pdu_queue else 0

pub record SendCtx : Type 0 where
  pub tid : ℕ
  pub req : ℕ

pub record TsendCtx : Type 0 where
  pub tid : ℕ
  pub queue : ℕ
  pub req : ℕ
  pub cmd_pdu : Bool

-- The host's maps, and the contexts of the send path for each CPU.
pub record TcpState : Type 0 where
  pub host : State
  pub send_ctx : ℕ → SendCtx
  pub tsend_ctx : ℕ → TsendCtx
