-- ===== src/Trace/Write.antt =====
-- What the writer of src/trace_file.c puts into a file is read back.
use ntprof.Prelude.{
  ℕ, ◌+◌, ◌^◌, ◌<◌, ◌≡◌, refl, sym, true, false, Option, Option-cases, inl, inr, none, some, List,
  [], ◌∷◌, ◌++◌, take, length, length-append, length-take, length-replicate, replicate, arith,
}
use mathlib.Core.List.{append_assoc, append-nil}
use ntprof.Record.{HostRec, TgtRec}
use ntprof.Trace.Bytes.{take_all}
use ntprof.Trace.Layout.{FileHeader, header_fields, header_bytes, host_bytes, tgt_bytes}
use ntprof.Trace.Versions.{host_seen, tgt_seen, length-host_bytes, length-tgt_bytes}
use ntprof.Trace.Records.{
  Rec, host_rec, tgt_rec, Fits, AllFitting, bytes_of, all_bytes, visitor, visit, visit_one,
}
use ntprof.Trace.Reader.{
  read_file, is_readable, Machine, header_init, unknown, text64, Writer, fwrite, writer_open,
  writer_add, host_size, tgt_size,
}
use ntprof.Trace.Files.{IsGood, read_file-versions}

-- The bytes of a struct.
unfoldable pub raw : Rec → List ℕ
raw (host_rec r) = host_bytes r
raw (tgt_rec r) = tgt_bytes r

-- The records are added one after the other, and each write succeeds.
unfoldable pub add_all : Writer → List Rec → Writer
unfolding writer_add fwrite raw
add_all w [] = w
add_all w (r ∷ rs) = add_all (writer_add none w (raw r)).1 rs

-- The file after it was opened and the records were added.
unfoldable pub write_all : FileHeader → List Rec → Option Writer
unfolding writer_open add_all
write_all hdr rs = elim (writer_open true none hdr) [ none ↦ none | some w ↦ some (add_all w rs) ]

module _ {S : Type 0} (fh : HostRec → S → S) (ft : TgtRec → S → S) where
  -- The callbacks on the records themselves.
  unfoldable pub visit_all : List Rec → S → S
  visit_all [] s = s
  visit_all (host_rec r ∷ rs) s = visit_all rs (fh r s)
  visit_all (tgt_rec r ∷ rs) s = visit_all rs (ft r s)

  visit-current : (rs : List Rec) (s : S) → visit fh ft 5 rs s ≡ visit_all rs s
  unfolding visit visit_one visit_all host_seen tgt_seen
  visit-current [] s = refl
  visit-current (host_rec r ∷ rs) s = visit-current rs (fh r s)
  visit-current (tgt_rec r ∷ rs) s = visit-current rs (ft r s)

raw-current : (r : Rec) → Fits r → bytes_of 5 r ≡ raw r
unfolding bytes_of raw host_size tgt_size
raw-current (host_rec r) h = take_all 224 (host_bytes r) (length-host_bytes r h)
raw-current (tgt_rec r) h = take_all 184 (tgt_bytes r) (length-tgt_bytes r)

add_all-file :
    (w : Writer) (rs : List Rec)
    → AllFitting rs
    → ((add_all w rs).file ≡ w.file ++ all_bytes 5 rs)
      × ((add_all w rs).records ≡ w.records + length rs)
unfolding add_all writer_add fwrite all_bytes
add_all-file w [] h = (sym (append-nil w.file), omega arith)
add_all-file w (r ∷ rs) (f, h) =
    let (file, count) = add_all-file (writer_add none w (raw r)).1 rs h in
    (
      rw (file, sym (raw-current r f)) (append_assoc w.file (bytes_of 5 r) (all_bytes 5 rs)),
      omega (arith, count),
    )

length-text64 : (cs : List ℕ) → length (text64 cs) ≡ 64
unfolding text64
length-text64 cs = omega (
  arith,
  length-take 64 (take 63 cs ++ replicate 64 0),
  length-append (take 63 cs) (replicate 64 0),
  length-replicate {A = ℕ} 64 0,
)

module _ (m : Machine) (role transport sample_every : ℕ) where
  abbrev header : FileHeader
  header = header_init m role transport sample_every

  -- The words of the header fit.
  pub record IsSized : Type 0 where
    pub role_fits : role < 2 ^ 32
    pub transport_fits : transport < 2 ^ 32
    pub every_fits : sample_every < 2 ^ 32
    pub mono_fits : m.now_mono_ns < 2 ^ 64
    pub real_fits : m.now_real_ns < 2 ^ 64

  hostname-length : length header.hostname ≡ 64
  unfolding header_init
  hostname-length = elim (Option-cases m.hostname) [
    | inl e ↦ rw (e, header_init) (length-text64 unknown)
    | inr (cs, e) ↦ rw (e, header_init) (length-text64 cs)
  ]

  kernel-length : length header.kernel ≡ 64
  unfolding header_init
  kernel-length = elim (Option-cases m.release) [
    | inl e ↦ rw (e, header_init) refl
    | inr (cs, e) ↦ rw (e, header_init) (length-text64 cs)
  ]

  header_init-IsGood : IsSized → IsGood header
  unfolding header_init header_fields is_readable host_size tgt_size
  header_init-IsGood b = record {
    fits = record {
      magic = refl;
      fields = (
        omega arith,
        (
          omega arith,
          (
            omega arith,
            (
              omega arith,
              (
                b.role_fits,
                (b.transport_fits, (b.every_fits, (omega arith, (b.mono_fits, (b.real_fits, tt))))),
              ),
            ),
          ),
        ),
      );
      hostname = hostname-length;
      kernel = kernel-length;
    };
    magic = refl;
    readable = refl;
  }

-- If the fields of the header and of the records fit their widths and every write succeeds, the
-- file that ntp_writer_open and ntp_writer_add make from the header of ntp_header_init counts its
-- records, and ntp_read_file returns 0 on it and gives the callbacks, which return 0, those records
-- in order.
pub read_file-write_all :
    {S : Type 0} (fh : HostRec → S → S) (ft : TgtRec → S → S) (m : Machine)
    (role transport sample_every : ℕ) (rs : List Rec) (s : S)
    → IsSized m role transport sample_every
    → AllFitting rs
    → (w : Writer) × (write_all (header_init m role transport sample_every) rs ≡ some w)
      × (w.records ≡ length rs)
      × (read_file (visitor fh ft) (some (record { bytes = w.file; broken = false })) s
          ≡ (none, visit_all fh ft rs s))
unfolding write_all writer_open fwrite header_init
read_file-write_all fh ft m role transport sample_every rs s b f =
    let h = header_init m role transport sample_every in
    let start : Writer = record { file = header_bytes h; records = 0 } in
    let (file, count) = add_all-file start rs f in
    (
      add_all start rs,
      refl,
      omega (arith, count),
      rw (file, sym (visit-current fh ft rs s))
          (read_file-versions fh ft h (header_init-IsGood m role transport sample_every b) rs s f),
    )
