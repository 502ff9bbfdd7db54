-- ===== src/Trace/Fields.antt =====
-- Each struct of a record file is read back from its bytes.
use ntprof.Prelude.{
  ℕ, ◌+◌, ◌*◌, ◌/◌, ◌%◌, ◌≤◌, ◌≡◌, refl, sym, ap, ◌∙◌, Bool, List, [], ◌++◌, take, drop, length,
  length-append, get_or, arith,
}
use ntprof.Record.{RecKind, Transport, Flags, HostRec, TgtRec, HostTs, TgtTs, host_index, tgt_index}
use mathlib.Core.List.{append_assoc}
use ntprof.Trace.Bytes.{
  values, drop-drop, put, get, AllFit, get-put, length-put, take-append_length, drop-append_length,
}
use ntprof.Trace.Layout.{
  bit_value, bit, flags_word, flags_of, transport_byte, transport_of, host_front, host_rest,
  host_bytes, host_widths, rest_widths, tgt_widths, header_widths, host_from, tgt_from, header_from,
  host_of, hdr_of, id_of, tgt_fields, tgt_bytes, tgt_of, header_fields, header_bytes, header_of,
  FileHeader,
}

bit_value-le : (b : Bool) → bit_value b ≤ 1
bit_value-le b = ground arith

bit-value : (w p : ℕ) (b : Bool) → w / p % 2 ≡ bit_value b → bit w p ≡ b
bit-value w p b h = rw h (ground arith)

binary :
    (v0 v1 v2 v3 v4 v5 v6 v7 v8 : ℕ)
    → v0 ≤ 1
    → v1 ≤ 1
    → v2 ≤ 1
    → v3 ≤ 1
    → v4 ≤ 1
    → v5 ≤ 1
    → v6 ≤ 1
    → v7 ≤ 1
    → v8 ≤ 1
    → let w = v0 + v1 * 2 + v2 * 4 + v3 * 8 + v4 * 16 + v5 * 32 + v6 * 64 + v7 * 128 + v8 * 256 in
      (w / 1 % 2 ≡ v0)
      × (w / 2 % 2 ≡ v1)
      × (w / 4 % 2 ≡ v2)
      × (w / 8 % 2 ≡ v3)
      × (w / 16 % 2 ≡ v4)
      × (w / 32 % 2 ≡ v5)
      × (w / 64 % 2 ≡ v6)
      × (w / 128 % 2 ≡ v7)
      × (w / 256 % 2 ≡ v8)
binary v0 v1 v2 v3 v4 v5 v6 v7 v8 h0 h1 h2 h3 h4 h5 h6 h7 h8 = (
  omega arith,
  omega arith,
  omega arith,
  omega arith,
  omega arith,
  omega arith,
  omega arith,
  omega arith,
  omega arith,
)

flags_of-flags_word : (f : Flags) → flags_of (flags_word f) ≡ f
unfolding flags_of flags_word
flags_of-flags_word f =
    let w = flags_word f in
    let (b0, b1, b2, b3, b4, b5, b6, b7, b8) =
      binary (bit_value f.write) (bit_value f.inline_data) (bit_value f.r2t)
        (bit_value f.data_success) (bit_value f.multi_r2t) (bit_value f.queues)
        (bit_value f.rdma_read) (bit_value f.spdk) (bit_value f.reused) (bit_value-le f.write)
        (bit_value-le f.inline_data) (bit_value-le f.r2t) (bit_value-le f.data_success)
        (bit_value-le f.multi_r2t) (bit_value-le f.queues) (bit_value-le f.rdma_read)
        (bit_value-le f.spdk) (bit_value-le f.reused) in
    rw
      (
        bit-value w 1 f.write b0,
        bit-value w 2 f.inline_data b1,
        bit-value w 4 f.r2t b2,
        bit-value w 8 f.data_success b3,
        bit-value w 16 f.multi_r2t b4,
        bit-value w 32 f.queues b5,
        bit-value w 64 f.rdma_read b6,
        bit-value w 128 f.spdk b7,
        bit-value w 256 f.reused b8,
      )
      refl

transport_of-transport_byte : (t : Transport) → transport_of (transport_byte t) ≡ t
unfolding transport_of transport_byte
transport_of-transport_byte Transport.tcp = refl
transport_of-transport_byte Transport.rdma = refl

-- Each field of the record fits its width, and the name of the disk has its length.
pub record FitsHost (r : HostRec) : Type 0 where
  pub kind : r.hdr.kind ≡ RecKind.host
  pub front : AllFit (host_front r)
  pub disk : length r.disk ≡ 32
  pub rest : AllFit (host_rest r)

pub record FitsTarget (r : TgtRec) : Type 0 where
  pub kind : r.hdr.kind ≡ RecKind.target
  pub fields : AllFit (tgt_fields r)

module _ (r : HostRec) (z : List ℕ) where
  host_bytes-parts : host_bytes r ++ z ≡ put (host_front r) ++ (r.disk ++ (put (host_rest r) ++ z))
  unfolding host_bytes
  host_bytes-parts =
      append_assoc (put (host_front r)) (r.disk ++ put (host_rest r)) z
      ∙ ap (λ ys. put (host_front r) ++ ys) (append_assoc r.disk (put (host_rest r)) z)

  front-length : length (put (host_front r)) ≡ 48
  unfolding host_front
  front-length = length-put (host_front r)

  after_front : drop 48 (host_bytes r ++ z) ≡ r.disk ++ (put (host_rest r) ++ z)
  after_front = rw host_bytes-parts (drop-append_length 48 (put (host_front r)) _ front-length)

  after_disk : length r.disk ≡ 32 → drop 80 (host_bytes r ++ z) ≡ put (host_rest r) ++ z
  after_disk h =
      drop-drop 48 32 80 (host_bytes r ++ z) (omega arith)
      ∙ ap (drop 32) after_front
      ∙ drop-append_length 32 r.disk (put (host_rest r) ++ z) h

  disk_read : FitsHost r → take 32 (r.disk ++ (put (host_rest r) ++ z)) ≡ r.disk
  disk_read h = take-append_length 32 r.disk (put (host_rest r) ++ z) h.disk

  front-values : FitsHost r → get host_widths (host_bytes r ++ z) ≡ values (host_front r)
  unfolding host_front
  front-values h = rw host_bytes-parts (get-put (host_front r) _ h.front)

  rest-values : FitsHost r → get rest_widths (put (host_rest r) ++ z) ≡ values (host_rest r)
  unfolding host_rest
  rest-values h = get-put (host_rest r) z h.rest

host_times : (r : HostRec) (e : HostTs) → get_or (values (host_rest r)) (host_index e) 0 ≡ r.ts e
unfolding host_rest
host_times r HostTs.start = refl
host_times r HostTs.queue_rq = refl
host_times r HostTs.cmd_sent = refl
host_times r HostTs.r2t_arr = refl
host_times r HostTs.r2t_proc = refl
host_times r HostTs.data_start = refl
host_times r HostTs.data_sent = refl
host_times r HostTs.c2h_arr = refl
host_times r HostTs.c2h_proc = refl
host_times r HostTs.rsp_arr = refl
host_times r HostTs.rsp_proc = refl
host_times r HostTs.nvme_done = refl
host_times r HostTs.blk_done = refl
host_times r HostTs.send_done = refl
host_times r HostTs.c2h_last_arr = refl
host_times r HostTs.c2h_done = refl

host_from-values :
    (r : HostRec) → FitsHost r → host_from (values (host_front r)) r.disk (values (host_rest r)) ≡ r
unfolding host_from hdr_of id_of host_front host_rest
host_from-values r h = λ i. record {
  hdr = record {
    kind = sym h.kind i;
    transport = transport_of-transport_byte r.hdr.transport i;
    flags = flags_of-flags_word r.hdr.flags i;
    cpu = r.hdr.cpu;
  };
  id = r.id;
  bytes = r.bytes;
  ctrl_instance = r.ctrl_instance;
  q_unsent = r.q_unsent;
  q_inflight = r.q_inflight;
  disk = r.disk;
  ts = λ e. host_times r e i;
  c2h_busy_ns = r.c2h_busy_ns;
  c2h_skbs = r.c2h_skbs;
}

pub host_of-host_bytes : (r : HostRec) (z : List ℕ) → FitsHost r → host_of (host_bytes r ++ z) ≡ r
unfolding host_of
host_of-host_bytes r z h =
    rw
      (
        front-values r z h,
        after_disk r z h.disk,
        after_front r z,
        disk_read r z h,
        rest-values r z h,
      )
      (host_from-values r h)

tgt_times : (r : TgtRec) (e : TgtTs) → get_or (values (tgt_fields r)) (15 + tgt_index e) 0 ≡ r.ts e
unfolding tgt_fields
tgt_times r TgtTs.cmd_arr = refl
tgt_times r TgtTs.cmd_proc = refl
tgt_times r TgtTs.r2t_queued = refl
tgt_times r TgtTs.r2t_sent = refl
tgt_times r TgtTs.data_arr = refl
tgt_times r TgtTs.data_proc = refl
tgt_times r TgtTs.exec = refl
tgt_times r TgtTs.be_issue = refl
tgt_times r TgtTs.be_done = refl
tgt_times r TgtTs.complete = refl
tgt_times r TgtTs.rsp_queued = refl
tgt_times r TgtTs.c2h_sent = refl
tgt_times r TgtTs.rsp_sent = refl
tgt_times r TgtTs.send_done = refl
tgt_times r TgtTs.data_last_arr = refl
tgt_times r TgtTs.data_done = refl

tgt_from-values : (r : TgtRec) → FitsTarget r → tgt_from (values (tgt_fields r)) ≡ r
unfolding tgt_from hdr_of id_of tgt_fields
tgt_from-values r h = λ i. record {
  hdr = record {
    kind = sym h.kind i;
    transport = transport_of-transport_byte r.hdr.transport i;
    flags = flags_of-flags_word r.hdr.flags i;
    cpu = r.hdr.cpu;
  };
  id = r.id;
  bytes = r.bytes;
  q_outstanding = r.q_outstanding;
  q_resp_queue = r.q_resp_queue;
  ts = λ e. tgt_times r e i;
  h2c_busy_ns = r.h2c_busy_ns;
  h2c_skbs = r.h2c_skbs;
}

tgt-values :
    (r : TgtRec) (z : List ℕ)
    → FitsTarget r
    → get tgt_widths (tgt_bytes r ++ z) ≡ values (tgt_fields r)
unfolding tgt_bytes tgt_fields
tgt-values r z h = get-put (tgt_fields r) z h.fields

pub tgt_of-tgt_bytes : (r : TgtRec) (z : List ℕ) → FitsTarget r → tgt_of (tgt_bytes r ++ z) ≡ r
unfolding tgt_of
tgt_of-tgt_bytes r z h = rw (tgt-values r z h) (tgt_from-values r h)

-- The fields of the header fit their widths, and its texts have their lengths.
pub record FitsHeader (h : FileHeader) : Type 0 where
  pub magic : length h.magic ≡ 8
  pub fields : AllFit (header_fields h)
  pub hostname : length h.hostname ≡ 64
  pub kernel : length h.kernel ≡ 64

module _ (h : FileHeader) (ok : FitsHeader h) (z : List ℕ) where
  header_bytes-parts :
      header_bytes h ++ z ≡ h.magic ++ (put (header_fields h) ++ (h.hostname ++ (h.kernel ++ z)))
  unfolding header_bytes header_fields
  header_bytes-parts =
      append_assoc h.magic (put (header_fields h) ++ (h.hostname ++ h.kernel)) z
      ∙ ap (λ ys. h.magic ++ ys)
          (append_assoc (put (header_fields h)) (h.hostname ++ h.kernel) z
            ∙ ap (λ ys. put (header_fields h) ++ ys) (append_assoc h.hostname h.kernel z))

  numbers-length : length (put (header_fields h)) ≡ 48
  unfolding header_fields
  numbers-length = length-put (header_fields h)

  after_magic :
      drop 8 (header_bytes h ++ z) ≡ put (header_fields h) ++ (h.hostname ++ (h.kernel ++ z))
  after_magic = rw header_bytes-parts (drop-append_length 8 h.magic _ ok.magic)

  after_numbers : drop 56 (header_bytes h ++ z) ≡ h.hostname ++ (h.kernel ++ z)
  after_numbers =
      drop-drop 8 48 56 (header_bytes h ++ z) (omega arith)
      ∙ ap (drop 48) after_magic
      ∙ drop-append_length 48 (put (header_fields h)) _ numbers-length

  after_hostname : drop 120 (header_bytes h ++ z) ≡ h.kernel ++ z
  after_hostname =
      drop-drop 56 64 120 (header_bytes h ++ z) (omega arith)
      ∙ ap (drop 64) after_numbers
      ∙ drop-append_length 64 h.hostname (h.kernel ++ z) ok.hostname

  magic_read : take 8 (header_bytes h ++ z) ≡ h.magic
  magic_read = rw header_bytes-parts (take-append_length 8 h.magic _ ok.magic)

  numbers_read : get header_widths (drop 8 (header_bytes h ++ z)) ≡ values (header_fields h)
  unfolding header_fields
  numbers_read = rw after_magic (get-put (header_fields h) _ ok.fields)

  hostname_read : take 64 (drop 56 (header_bytes h ++ z)) ≡ h.hostname
  hostname_read = rw after_numbers (take-append_length 64 h.hostname _ ok.hostname)

  kernel_read : take 64 (drop 120 (header_bytes h ++ z)) ≡ h.kernel
  kernel_read = rw after_hostname (take-append_length 64 h.kernel z ok.kernel)

  header_from-values : header_from h.magic (values (header_fields h)) h.hostname h.kernel ≡ h
  unfolding header_from header_fields
  header_from-values = refl

  pub header_of-header_bytes : header_of (header_bytes h ++ z) ≡ h
  unfolding header_of
  header_of-header_bytes =
      rw (magic_read, numbers_read, hostname_read, kernel_read) header_from-values

pub length-header_bytes : (h : FileHeader) → FitsHeader h → length (header_bytes h) ≡ 184
unfolding header_bytes
length-header_bytes h ok = omega (
  arith,
  length-append h.magic (put (header_fields h) ++ (h.hostname ++ h.kernel)),
  length-append (put (header_fields h)) (h.hostname ++ h.kernel),
  length-append h.hostname h.kernel,
  numbers-length h ok [],
  ok.magic,
  ok.hostname,
  ok.kernel,
)
