-- ===== src/Tests/Records.antt =====
-- Records of one NVMe/TCP read, with times in ns.
use ntprof.Prelude.{ℕ, ◌<◌, ◌^◌, [], true, arith}
use ntprof.Record.{RecKind, Transport, HostTs, TgtTs, CmdId, HostRec, TgtRec, no_flags}

abbrev pub read_id : CmdId
read_id = record { slba = 2048; nsid = 1; cntlid = 1; qid = 2; cid = 7; nlb = 7; opcode = 2 }

abbrev host_times : HostTs → ℕ
host_times HostTs.start = 100
host_times HostTs.queue_rq = 110
host_times HostTs.cmd_sent = 125
host_times HostTs.r2t_arr = 0
host_times HostTs.r2t_proc = 0
host_times HostTs.data_start = 0
host_times HostTs.data_sent = 0
host_times HostTs.c2h_arr = 400
host_times HostTs.c2h_proc = 420
host_times HostTs.rsp_arr = 0
host_times HostTs.rsp_proc = 500
host_times HostTs.nvme_done = 505
host_times HostTs.blk_done = 520
host_times HostTs.send_done = 0
host_times HostTs.c2h_last_arr = 460
host_times HostTs.c2h_done = 490

abbrev tgt_times : TgtTs → ℕ
tgt_times TgtTs.cmd_arr = 9000
tgt_times TgtTs.cmd_proc = 9010
tgt_times TgtTs.r2t_queued = 0
tgt_times TgtTs.r2t_sent = 0
tgt_times TgtTs.data_arr = 0
tgt_times TgtTs.data_proc = 0
tgt_times TgtTs.exec = 9015
tgt_times TgtTs.be_issue = 9020
tgt_times TgtTs.be_done = 9150
tgt_times TgtTs.complete = 9160
tgt_times TgtTs.rsp_queued = 0
tgt_times TgtTs.c2h_sent = 9180
tgt_times TgtTs.rsp_sent = 9190
tgt_times TgtTs.send_done = 0
tgt_times TgtTs.data_last_arr = 0
tgt_times TgtTs.data_done = 0

abbrev pub host_read : HostRec
host_read = record {
  hdr = record { kind = RecKind.host; transport = Transport.tcp; flags = no_flags; cpu = 3 };
  id = read_id;
  bytes = 4096;
  ctrl_instance = 0;
  q_unsent = 0;
  q_inflight = 0;
  disk = [];
  ts = host_times;
  c2h_busy_ns = 30;
  c2h_skbs = 2;
}

abbrev pub tgt_read : TgtRec
tgt_read = record {
  hdr = record { kind = RecKind.target; transport = Transport.tcp; flags = no_flags; cpu = 1 };
  id = read_id;
  bytes = 4096;
  q_outstanding = 0;
  q_resp_queue = 0;
  ts = tgt_times;
  h2c_busy_ns = 0;
  h2c_skbs = 0;
}

-- A target record of a write after R2T, which no read can use.
abbrev pub tgt_r2t : TgtRec
tgt_r2t = record tgt_read {
  hdr = record (tgt_read.hdr) { flags = record no_flags { write = true; r2t = true } };
}

pub host_read-small : (e : HostTs) → host_read.ts e < 2 ^ 63
host_read-small HostTs.start = omega arith
host_read-small HostTs.queue_rq = omega arith
host_read-small HostTs.cmd_sent = omega arith
host_read-small HostTs.r2t_arr = omega arith
host_read-small HostTs.r2t_proc = omega arith
host_read-small HostTs.data_start = omega arith
host_read-small HostTs.data_sent = omega arith
host_read-small HostTs.c2h_arr = omega arith
host_read-small HostTs.c2h_proc = omega arith
host_read-small HostTs.rsp_arr = omega arith
host_read-small HostTs.rsp_proc = omega arith
host_read-small HostTs.nvme_done = omega arith
host_read-small HostTs.blk_done = omega arith
host_read-small HostTs.send_done = omega arith
host_read-small HostTs.c2h_last_arr = omega arith
host_read-small HostTs.c2h_done = omega arith

pub tgt_read-small : (e : TgtTs) → tgt_read.ts e < 2 ^ 63
tgt_read-small TgtTs.cmd_arr = omega arith
tgt_read-small TgtTs.cmd_proc = omega arith
tgt_read-small TgtTs.r2t_queued = omega arith
tgt_read-small TgtTs.r2t_sent = omega arith
tgt_read-small TgtTs.data_arr = omega arith
tgt_read-small TgtTs.data_proc = omega arith
tgt_read-small TgtTs.exec = omega arith
tgt_read-small TgtTs.be_issue = omega arith
tgt_read-small TgtTs.be_done = omega arith
tgt_read-small TgtTs.complete = omega arith
tgt_read-small TgtTs.rsp_queued = omega arith
tgt_read-small TgtTs.c2h_sent = omega arith
tgt_read-small TgtTs.rsp_sent = omega arith
tgt_read-small TgtTs.send_done = omega arith
tgt_read-small TgtTs.data_last_arr = omega arith
tgt_read-small TgtTs.data_done = omega arith
