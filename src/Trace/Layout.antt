-- ===== src/Trace/Layout.antt =====
-- The structs of a record file as bytes: struct ntp_host_rec and struct ntp_tgt_rec of bpf/ntprof.h,
-- struct ntp_file_header of src/trace_file.h. Padding is 0, as in a struct cleared by memset. Of the
-- bytes read, a transport other than RDMA counts as TCP, as in src/model.c.
use ntprof.Prelude.{
  ℕ, ◌+◌, ◌*◌, ◌/◌, ◌%◌, Bool, ◌==◌, if◌then◌else◌, List, [], ◌∷◌, ◌++◌, take, drop, get_or,
}
use ntprof.Record.{
  RecKind, Transport, Flags, RecHdr, CmdId, HostRec, TgtRec, HostTs, TgtTs, host_index, tgt_index,
}
use ntprof.Trace.Bytes.{put, get}

unfoldable pub kind_byte : RecKind → ℕ
kind_byte RecKind.host = 1
kind_byte RecKind.target = 2

unfoldable pub transport_byte : Transport → ℕ
transport_byte Transport.tcp = 1
transport_byte Transport.rdma = 2

abbrev pub bit_value : Bool → ℕ
bit_value b = if b then 1 else 0

unfoldable pub flags_word : Flags → ℕ
flags_word f =
    bit_value f.write
    + bit_value f.inline_data * 2
    + bit_value f.r2t * 4
    + bit_value f.data_success * 8
    + bit_value f.multi_r2t * 16
    + bit_value f.queues * 32
    + bit_value f.rdma_read * 64
    + bit_value f.spdk * 128
    + bit_value f.reused * 256

abbrev pub bit : ℕ → ℕ → Bool
bit w p = w / p % 2 == 1

unfoldable pub flags_of : ℕ → Flags
flags_of w = record {
  write = bit w 1;
  inline_data = bit w 2;
  r2t = bit w 4;
  data_success = bit w 8;
  multi_r2t = bit w 16;
  queues = bit w 32;
  rdma_read = bit w 64;
  spdk = bit w 128;
  reused = bit w 256;
}

-- The fields of struct ntp_rec_hdr, then of struct ntp_cmd_id.
abbrev pub id_fields : RecHdr → CmdId → List (ℕ × ℕ) → List (ℕ × ℕ)
id_fields h id rest =
    (1, kind_byte h.kind)
    ∷ (1, transport_byte h.transport)
    ∷ (2, flags_word h.flags)
    ∷ (4, h.cpu)
    ∷ (8, id.slba)
    ∷ (4, id.nsid)
    ∷ (2, id.cntlid)
    ∷ (2, id.qid)
    ∷ (2, id.cid)
    ∷ (2, id.nlb)
    ∷ (1, id.opcode)
    ∷ (3, 0)
    ∷ rest

-- The fields before `disk`.
unfoldable pub host_front : HostRec → List (ℕ × ℕ)
host_front r =
    id_fields r.hdr r.id
      ((4, r.bytes) ∷ (4, r.ctrl_instance) ∷ (2, r.q_unsent) ∷ (2, r.q_inflight) ∷ (4, 0) ∷ [])

abbrev pub host_events : List HostTs
host_events =
    HostTs.start ∷ HostTs.queue_rq ∷ HostTs.cmd_sent ∷ HostTs.r2t_arr ∷ HostTs.r2t_proc
    ∷ HostTs.data_start ∷ HostTs.data_sent ∷ HostTs.c2h_arr ∷ HostTs.c2h_proc ∷ HostTs.rsp_arr
    ∷ HostTs.rsp_proc ∷ HostTs.nvme_done ∷ HostTs.blk_done ∷ HostTs.send_done ∷ HostTs.c2h_last_arr
    ∷ HostTs.c2h_done ∷ []

abbrev pub tgt_events : List TgtTs
tgt_events =
    TgtTs.cmd_arr ∷ TgtTs.cmd_proc ∷ TgtTs.r2t_queued ∷ TgtTs.r2t_sent ∷ TgtTs.data_arr
    ∷ TgtTs.data_proc ∷ TgtTs.exec ∷ TgtTs.be_issue ∷ TgtTs.be_done ∷ TgtTs.complete
    ∷ TgtTs.rsp_queued ∷ TgtTs.c2h_sent ∷ TgtTs.rsp_sent ∷ TgtTs.send_done ∷ TgtTs.data_last_arr
    ∷ TgtTs.data_done ∷ []

-- `ts`, the time the transport spent on the data, and the number of skbs.
abbrev pub rest_fields {ℓ} : {E : Type ℓ} → (E → ℕ) → ℕ → ℕ → List E → List (ℕ × ℕ)
rest_fields ts busy skbs [] = (8, busy) ∷ (4, skbs) ∷ (4, 0) ∷ []
rest_fields ts busy skbs (e ∷ es) = (8, ts e) ∷ rest_fields ts busy skbs es

unfoldable pub host_rest : HostRec → List (ℕ × ℕ)
host_rest r = rest_fields r.ts r.c2h_busy_ns r.c2h_skbs host_events

unfoldable pub host_bytes : HostRec → List ℕ
host_bytes r = put (host_front r) ++ (r.disk ++ put (host_rest r))

unfoldable pub tgt_fields : TgtRec → List (ℕ × ℕ)
tgt_fields r = id_fields r.hdr r.id (
    (4, r.bytes)
    ∷ (2, r.q_outstanding)
    ∷ (2, r.q_resp_queue)
    ∷ rest_fields r.ts r.h2c_busy_ns r.h2c_skbs tgt_events)

unfoldable pub tgt_bytes : TgtRec → List ℕ
tgt_bytes r = put (tgt_fields r)

abbrev pub rest_widths : List ℕ
rest_widths = 8 ∷ 8 ∷ 8 ∷ 8 ∷ 8 ∷ 8 ∷ 8 ∷ 8 ∷ 8 ∷ 8 ∷ 8 ∷ 8 ∷ 8 ∷ 8 ∷ 8 ∷ 8 ∷ 8 ∷ 4 ∷ 4 ∷ []

abbrev id_widths : List ℕ → List ℕ
id_widths ws = 1 ∷ 1 ∷ 2 ∷ 4 ∷ 8 ∷ 4 ∷ 2 ∷ 2 ∷ 2 ∷ 2 ∷ 1 ∷ 3 ∷ ws

abbrev pub host_widths : List ℕ
host_widths = id_widths (4 ∷ 4 ∷ 2 ∷ 2 ∷ 4 ∷ [])

abbrev pub tgt_widths : List ℕ
tgt_widths = id_widths (4 ∷ 2 ∷ 2 ∷ rest_widths)

unfoldable pub transport_of : ℕ → Transport
transport_of b = if b == 2 then Transport.rdma else Transport.tcp

-- The field with the index `i`.
abbrev nth : List ℕ → ℕ → ℕ
nth vs i = get_or vs i 0

unfoldable pub hdr_of : RecKind → List ℕ → RecHdr
hdr_of k f = record {
  kind = k;
  transport = transport_of (nth f 1);
  flags = flags_of (nth f 2);
  cpu = nth f 3;
}

unfoldable pub id_of : List ℕ → CmdId
id_of f = record {
  slba = nth f 4;
  nsid = nth f 5;
  cntlid = nth f 6;
  qid = nth f 7;
  cid = nth f 8;
  nlb = nth f 9;
  opcode = nth f 10;
}

-- The record of the fields before `disk`, of the disk, and of the fields after it.
unfoldable pub host_from : List ℕ → List ℕ → List ℕ → HostRec
unfolding hdr_of id_of
host_from f disk t = record {
  hdr = hdr_of RecKind.host f;
  id = id_of f;
  bytes = nth f 12;
  ctrl_instance = nth f 13;
  q_unsent = nth f 14;
  q_inflight = nth f 15;
  disk = disk;
  ts = λ e. nth t (host_index e);
  c2h_busy_ns = nth t 16;
  c2h_skbs = nth t 17;
}

-- The bytes as a struct ntp_host_rec.
unfoldable pub host_of : List ℕ → HostRec
host_of bs = host_from (get host_widths bs) (take 32 (drop 48 bs)) (get rest_widths (drop 80 bs))

unfoldable pub tgt_from : List ℕ → TgtRec
unfolding hdr_of id_of
tgt_from f = record {
  hdr = hdr_of RecKind.target f;
  id = id_of f;
  bytes = nth f 12;
  q_outstanding = nth f 13;
  q_resp_queue = nth f 14;
  ts = λ e. nth f (15 + tgt_index e);
  h2c_busy_ns = nth f 31;
  h2c_skbs = nth f 32;
}

unfoldable pub tgt_of : List ℕ → TgtRec
tgt_of bs = tgt_from (get tgt_widths bs)

-- struct ntp_file_header
pub record FileHeader : Type 0 where
  pub magic : List ℕ
  pub version : ℕ
  pub header_size : ℕ
  pub host_rec_size : ℕ
  pub tgt_rec_size : ℕ
  pub role : ℕ
  pub transport : ℕ
  pub sample_every : ℕ
  pub start_mono_ns : ℕ
  pub start_real_ns : ℕ
  pub hostname : List ℕ
  pub kernel : List ℕ

unfoldable pub header_fields : FileHeader → List (ℕ × ℕ)
header_fields h =
    (4, h.version)
    ∷ (4, h.header_size)
    ∷ (4, h.host_rec_size)
    ∷ (4, h.tgt_rec_size)
    ∷ (4, h.role)
    ∷ (4, h.transport)
    ∷ (4, h.sample_every)
    ∷ (4, 0)
    ∷ (8, h.start_mono_ns)
    ∷ (8, h.start_real_ns)
    ∷ []

unfoldable pub header_bytes : FileHeader → List ℕ
header_bytes h = h.magic ++ (put (header_fields h) ++ (h.hostname ++ h.kernel))

abbrev pub header_widths : List ℕ
header_widths = 4 ∷ 4 ∷ 4 ∷ 4 ∷ 4 ∷ 4 ∷ 4 ∷ 4 ∷ 8 ∷ 8 ∷ []

unfoldable pub header_from : List ℕ → List ℕ → List ℕ → List ℕ → FileHeader
header_from magic f hostname kernel = record {
  magic = magic;
  version = nth f 0;
  header_size = nth f 1;
  host_rec_size = nth f 2;
  tgt_rec_size = nth f 3;
  role = nth f 4;
  transport = nth f 5;
  sample_every = nth f 6;
  start_mono_ns = nth f 8;
  start_real_ns = nth f 9;
  hostname = hostname;
  kernel = kernel;
}

unfoldable pub header_of : List ℕ → FileHeader
header_of bs =
    header_from (take 8 bs) (get header_widths (drop 8 bs)) (take 64 (drop 56 bs))
      (take 64 (drop 120 bs))
