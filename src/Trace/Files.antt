-- ===== src/Trace/Files.antt =====
-- A record file is read back as it was written, for each version: src/trace_file.c.
use ntprof.Prelude.{
  ℕ, suc, ◌+◌, ◌-◌, ◌<◌, ◌≤◌, ◌≡◌, refl, sym, ◌∙◌, Bool, true, false, ltb, ltb→lt, Bool-cases, inl,
  inr, if◌then◌else◌, none, some, List, [], ◌∷◌, ◌++◌, take, length, length-append, length-take,
  arith,
}
use mathlib.Core.List.{append-nil}
use ntprof.Record.{HostRec, TgtRec}
use ntprof.Trace.Bytes.{drop-append_length}
use ntprof.Trace.Layout.{FileHeader, header_bytes}
use ntprof.Trace.Fields.{FitsHeader, header_of-header_bytes, length-header_bytes}
use ntprof.Trace.Records.{
  Rec, host_rec, tgt_rec, Fits, AllFitting, bytes_of, all_bytes, size_of, length-bytes_of,
  host_size-le, tgt_size-le, visitor, visit, read_records-append, rest-short, rest-truncated,
}
use ntprof.Trace.Reader.{
  ReaderOps, truncated_record, read_records, read_file, is_readable, same_bytes, file_magic,
}

-- A header that the reader takes.
pub record IsGood (h : FileHeader) : Type 0 where
  pub fits : FitsHeader h
  pub magic : h.magic ≡ file_magic
  pub readable : is_readable h ≡ true

module _ {S : Type 0} (ops : ReaderOps S) (h : FileHeader) (ok : IsGood h) where
  is_magic : same_bytes h.magic file_magic ≡ true
  unfolding same_bytes
  is_magic = rw ok.magic refl

  pub read_file-body :
      (broken : Bool) (body : List ℕ) (s : S)
      → read_file ops (some (record { bytes = header_bytes h ++ body; broken = broken })) s
        ≡ read_records ops (suc (184 + length body)) h.version broken body s
  unfolding read_file
  read_file-body broken body s =
      let head = length-header_bytes h ok.fits in
      let len : length (header_bytes h ++ body) ≡ 184 + length body =
        omega (arith, length-append (header_bytes h) body, head) in
      let long : ltb (184 + length body) 184 ≡ false = ground arith in
      rw
        (
          header_of-header_bytes h ok.fits body,
          len,
          long,
          is_magic,
          ok.readable,
          drop-append_length 184 (header_bytes h) body head,
        )
        refl

size_of-positive : (version : ℕ) (r : Rec) → 0 < size_of version r
unfolding size_of
size_of-positive version (host_rec r) = omega (arith, host_size-le version)
size_of-positive version (tgt_rec r) = omega (arith, tgt_size-le version)

-- There are at least as many bytes as records.
length-all_bytes :
    (version : ℕ) (rs : List Rec) → AllFitting rs → length rs ≤ length (all_bytes version rs)
unfolding all_bytes
length-all_bytes version [] h = omega arith
length-all_bytes version (r ∷ rs) (f, h) = omega (
  arith,
  length-append (bytes_of version r) (all_bytes version rs),
  length-bytes_of version r f,
  size_of-positive version r,
  length-all_bytes version rs h,
)

module _ {S : Type 0} (fh : HostRec → S → S) (ft : TgtRec → S → S) (h : FileHeader)
    (ok : IsGood h) where
  -- The whole records of a file are read, then the rest, with fuel left.
  read_file-records :
      (rs : List Rec) (broken : Bool) (rest : List ℕ) (s : S)
      → AllFitting rs
      → (fuel : ℕ) × (read_file
            (visitor fh ft)
            (some (record {
              bytes = header_bytes h ++ (all_bytes h.version rs ++ rest);
              broken = broken;
            }))
            s
          ≡ read_records
              (visitor fh ft)
              (suc fuel)
              h.version
              broken
              rest
              (visit fh ft h.version rs s))
  read_file-records rs broken rest s f =
      let body = all_bytes h.version rs ++ rest in
      let enough = length-all_bytes h.version rs f in
      let fuel = 184 + length body - length rs in
      (
        fuel,
        read_file-body (visitor fh ft) h ok broken body s
            ∙ read_records-append fh ft rs (suc fuel) (suc (184 + length body)) h.version broken
                rest s f (omega (arith, enough, length-append (all_bytes h.version rs) rest)),
      )

  -- For a readable header of any of the versions 2 to 5 and records whose fields fit their widths,
  -- ntp_read_file returns 0 on the file with the bytes that the version has of each record, and
  -- gives the callbacks, which return 0, those records in order, with the fields that the version
  -- lacks 0.
  pub read_file-versions :
      (rs : List Rec) (s : S)
      → AllFitting rs
      → read_file
          (visitor fh ft)
          (some (record { bytes = header_bytes h ++ all_bytes h.version rs; broken = false }))
          s
        ≡ (none, visit fh ft h.version rs s)
  read_file-versions rs s f =
      let (fuel, whole) = read_file-records rs false [] s f in
      rw (sym (append-nil (all_bytes h.version rs))) (
        whole ∙ rest-short fh ft fuel h.version false [] (visit fh ft h.version rs s) (omega arith))

  -- If such a file ends with the first bytes of one more record, ntp_read_file gives the callbacks,
  -- which return 0, the whole records; then it returns 0 if there are fewer than 8 of these bytes,
  -- and reports a truncated record if there are 8 or more but not all.
  pub read_file-cut :
      (rs : List Rec) (r : Rec) (n : ℕ) (s : S)
      → AllFitting rs
      → Fits r
      → n < size_of h.version r
      → read_file
          (visitor fh ft)
          (some (record {
            bytes = header_bytes h ++ (all_bytes h.version rs ++ take n (bytes_of h.version r));
            broken = false;
          }))
          s
        ≡ ((if ltb n 8 then none else some truncated_record), visit fh ft h.version rs s)
  read_file-cut rs r n s f g l =
      let part = take n (bytes_of h.version r) in
      let (fuel, whole) = read_file-records rs false part s f in
      let len : length part ≡ n =
        omega (arith, length-take n (bytes_of h.version r), length-bytes_of h.version r g) in
      whole ∙ elim (Bool-cases (ltb n 8)) [
        | inl e ↦ rw e (
            rest-short fh ft fuel h.version false part (visit fh ft h.version rs s)
              (omega (arith, len, ltb→lt n 8 e)))
        | inr e ↦ rw e (
            rest-truncated fh ft fuel h.version n false r (visit fh ft h.version rs s) g
              (ground arith) l)
      ]
