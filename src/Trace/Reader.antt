-- ===== src/Trace/Reader.antt =====
-- Writing and reading a record file: src/trace_file.c. What the system does (opening, a short write or
-- read, the clocks, the names of the machine) stands among the arguments.
use ntprof.Prelude.{
  ℕ, zero, suc, ◌+◌, ◌-◌, ◌*◌, Bool, true, false, not, ◌&&◌, ◌||◌, ltb, leb, ◌==◌, if◌then◌else◌,
  Option, none, some, List, [], ◌∷◌, ◌++◌, take, drop, length, get_or, replicate,
}
use ntprof.Record.{HostRec, TgtRec}
use ntprof.Trace.Layout.{FileHeader, header_bytes, header_of, host_of, tgt_of}

-- NTP_FILE_MAGIC, with the 0 that ends it
abbrev pub file_magic : List ℕ
file_magic = 78 ∷ 84 ∷ 80 ∷ 82 ∷ 79 ∷ 70 ∷ 50 ∷ 0 ∷ []

abbrev pub file_version : ℕ
file_version = 5

-- The sizes of the structs, and where `ts` starts in the records.
abbrev pub header_size : ℕ
header_size = 184

abbrev pub host_rec_size : ℕ
host_rec_size = 224

abbrev pub tgt_rec_size : ℕ
tgt_rec_size = 184

abbrev pub host_ts_offset : ℕ
host_ts_offset = 80

abbrev pub tgt_ts_offset : ℕ
tgt_ts_offset = 40

-- The machine: gethostname() and the release of uname(), if they succeed, and the two clocks.
pub record Machine : Type 0 where
  pub hostname : Option (List ℕ)
  pub release : Option (List ℕ)
  pub now_mono_ns : ℕ
  pub now_real_ns : ℕ

-- A text in an array of 64 characters: at most 63, the rest 0.
unfoldable pub text64 : List ℕ → List ℕ
text64 cs = take 64 (take 63 cs ++ replicate 64 0)

abbrev pub unknown : List ℕ
unknown = 117 ∷ 110 ∷ 107 ∷ 110 ∷ 111 ∷ 119 ∷ 110 ∷ []

unfoldable pub header_init : Machine → ℕ → ℕ → ℕ → FileHeader
unfolding text64
header_init m role transport sample_every = record {
  magic = file_magic;
  version = file_version;
  header_size = header_size;
  host_rec_size = host_rec_size;
  tgt_rec_size = tgt_rec_size;
  role = role;
  transport = transport;
  sample_every = sample_every;
  start_mono_ns = m.now_mono_ns;
  start_real_ns = m.now_real_ns;
  hostname = elim m.hostname [ none ↦ text64 unknown | some cs ↦ text64 cs ];
  kernel = elim m.release [ none ↦ replicate 64 0 | some cs ↦ text64 cs ];
}

-- What is in the file so far, and the number of records.
pub record Writer : Type 0 where
  pub file : List ℕ
  pub records : ℕ

-- `fwrite`: all bytes go out, or fails after `some n` bytes.
unfoldable pub fwrite : Option ℕ → List ℕ → List ℕ → Bool × List ℕ
fwrite none bs file = (true, file ++ bs)
fwrite (some n) bs file = (false, file ++ take n bs)

-- `created` says whether fopen succeeds.
unfoldable pub writer_open : Bool → Option ℕ → FileHeader → Option Writer
unfolding fwrite
writer_open created io hdr =
    let (ok, file) = fwrite io (header_bytes hdr) [] in
    if created && ok then some (record { file = file; records = 0 }) else none

unfoldable pub writer_add : Option ℕ → Writer → List ℕ → Bool × Writer
unfolding fwrite
writer_add io w rec =
    let (ok, file) = fwrite io rec w.file in
    (ok, record { file = file; records = if ok then w.records + 1 else w.records })

-- The writer of an open file, or none; `closed` says whether fclose succeeds.
unfoldable pub writer_close : Bool → Option Writer → Bool × Option Writer
writer_close closed none = (true, none)
writer_close closed (some w) = (closed, none)

pub data ReadError : Type 0 where
  cannot_open not_ntprof other_version corrupt_record truncated_record : ReadError
  callback_failed read_failed out_of_fuel : ReadError

-- What a callback returns: 0, a positive number, or a negative one.
pub data Ret : Type 0 where
  go_on stop fail : Ret

-- The callbacks, which may be NULL, over a state of the caller.
pub record ReaderOps (S : Type 0) : Type 0 where
  pub host : Option (HostRec → S → Ret × S)
  pub target : Option (TgtRec → S → Ret × S)

-- A file's bytes; `broken` says that reading fails after them.
pub record File : Type 0 where
  pub bytes : List ℕ
  pub broken : Bool

unfoldable pub host_size : ℕ → ℕ
host_size version = if leb 4 version then host_rec_size else host_ts_offset + 14 * 8

unfoldable pub tgt_size : ℕ → ℕ
tgt_size version =
    if leb 5 version
    then tgt_rec_size
    else if leb 3 version
    then tgt_ts_offset + 14 * 8
    else tgt_ts_offset + 13 * 8

unfoldable pub same_bytes : List ℕ → List ℕ → Bool
same_bytes [] [] = true
same_bytes [] (y ∷ ys) = false
same_bytes (x ∷ xs) [] = false
same_bytes (x ∷ xs) (y ∷ ys) = x == y && same_bytes xs ys

-- The tests on the header after the magic.
unfoldable pub is_readable : FileHeader → Bool
unfolding host_size tgt_size
is_readable h =
    not (ltb h.version 2 || ltb file_version h.version)
    && h.header_size == header_size
    && h.host_rec_size == host_size h.version
    && h.tgt_rec_size == tgt_size h.version

-- One round of the loop: it ends, or goes on with the rest of the file.
pub data Round (S : Type 0) : Type 0 where
  ended : Option ReadError → S → Round S
  next : List ℕ → S → Round S

module _ {S : Type 0} (ops : ReaderOps S) where
  unfoldable pub after_call : List ℕ → Ret × S → Round S
  after_call rest (go_on, s) = next rest s
  after_call rest (stop, s) = ended none s
  after_call rest (fail, s) = ended (some callback_failed) s

  -- What a record lacks reads as 0.
  unfoldable pub rec_bytes : ℕ → List ℕ → List ℕ
  rec_bytes size bs = take size bs ++ replicate (host_rec_size - size) 0

  unfoldable pub host_round : List ℕ → List ℕ → S → Round S
  unfolding after_call
  host_round rec rest s = elim ops.host [
    | none ↦ next rest s
    | some f ↦ after_call rest (f (host_of rec) s)
  ]

  unfoldable pub target_round : List ℕ → List ℕ → S → Round S
  unfolding after_call
  target_round rec rest s = elim ops.target [
    | none ↦ next rest s
    | some f ↦ after_call rest (f (tgt_of rec) s)
  ]

  unfoldable pub round : ℕ → Bool → List ℕ → S → Round S
  unfolding host_round target_round rec_bytes host_size tgt_size
  round version broken bs s =
      let kind = get_or bs 0 0 in
      let size = if kind == 1 then host_size version else tgt_size version in
      if ltb (length bs) 8
      then ended (if broken then some read_failed else none) s
      else if not (kind == 1 || kind == 2)
      then ended (some corrupt_record) s
      else if ltb (length bs) size
      then ended (some truncated_record) s
      else if kind == 1
      then host_round (rec_bytes size bs) (drop size bs) s
      else target_round (rec_bytes size bs) (drop size bs) s

  unfoldable pub after_round : (List ℕ → S → Option ReadError × S) → Round S → Option ReadError × S
  after_round continue (ended e s) = (e, s)
  after_round continue (next rest s) = continue rest s

  unfoldable pub read_records : ℕ → ℕ → Bool → List ℕ → S → Option ReadError × S
  unfolding round after_round
  read_records zero version broken bs s = (some out_of_fuel, s)
  read_records (suc fuel) version broken bs s =
      after_round (λ rest s'. read_records fuel version broken rest s') (round version broken bs s)

  -- ntp_read_file. A round takes a byte at least, so the number of bytes is fuel enough.
  unfoldable pub read_file : Option File → S → Option ReadError × S
  unfolding read_records is_readable same_bytes
  read_file none s = (some cannot_open, s)
  read_file (some f) s =
      let h = header_of f.bytes in
      let all =
        read_records (suc (length f.bytes)) h.version f.broken (drop header_size f.bytes) s in
      if ltb (length f.bytes) header_size || not (same_bytes h.magic file_magic)
      then (some not_ntprof, s)
      else if not (is_readable h)
      then (some other_version, s)
      else all
