-- ===== src/Trace/Records.antt =====
-- The loop of ntp_read_file over the bytes of whole records, and over what is left: src/trace_file.c.
use ntprof.Prelude.{
  ℕ, zero, suc, ◌+◌, ◌-◌, ◌<◌, ◌≤◌, ◌≡◌, refl, ap, ◌∙◌, Bool, false, ltb, lt→ltb, if◌then◌else◌,
  none, some, List, [], ◌∷◌, ◌++◌, take, drop, length, length-append, length-take, get_or,
  replicate, arith,
}
use mathlib.Core.List.{append_assoc}
use ntprof.Record.{HostRec, TgtRec}
use ntprof.Trace.Bytes.{put, put_le, take-append_length, drop-append_length}
use ntprof.Trace.Layout.{host_bytes, tgt_bytes, host_front, tgt_fields, host_of, tgt_of, kind_byte}
use ntprof.Trace.Fields.{FitsHost, FitsTarget}
use ntprof.Trace.Versions.{
  host_seen, tgt_seen, host_of-seen, tgt_of-seen, length-host_bytes, length-tgt_bytes,
}
use ntprof.Trace.Reader.{
  ReaderOps, go_on, truncated_record, read_failed, ended, next, after_call, after_round, rec_bytes,
  host_round, target_round, round, read_records, host_size, tgt_size,
}

-- A record of a file.
pub data Rec : Type 0 where
  host_rec : HostRec → Rec
  tgt_rec : TgtRec → Rec

abbrev pub Fits : Rec → Type 0
Fits (host_rec r) = FitsHost r
Fits (tgt_rec r) = FitsTarget r

abbrev pub AllFitting : List Rec → Type 0
AllFitting [] = Unit
AllFitting (r ∷ rs) = Fits r × AllFitting rs

-- The bytes of a record in a file of a version.
unfoldable pub bytes_of : ℕ → Rec → List ℕ
bytes_of version (host_rec r) = take (host_size version) (host_bytes r)
bytes_of version (tgt_rec r) = take (tgt_size version) (tgt_bytes r)

unfoldable pub all_bytes : ℕ → List Rec → List ℕ
all_bytes version [] = []
all_bytes version (r ∷ rs) = bytes_of version r ++ all_bytes version rs

unfoldable pub size_of : ℕ → Rec → ℕ
size_of version (host_rec r) = host_size version
size_of version (tgt_rec r) = tgt_size version

pub host_size-le : (version : ℕ) → (144 ≤ host_size version) × (host_size version ≤ 224)
unfolding host_size
host_size-le version = ground arith

pub tgt_size-le : (version : ℕ) → (144 ≤ tgt_size version) × (tgt_size version ≤ 184)
unfolding tgt_size
tgt_size-le version = ground arith

pub length-bytes_of :
    (version : ℕ) (r : Rec) → Fits r → length (bytes_of version r) ≡ size_of version r
unfolding bytes_of size_of
length-bytes_of version (host_rec r) h = omega (
  arith,
  length-take (host_size version) (host_bytes r),
  length-host_bytes r h,
  host_size-le version,
)
length-bytes_of version (tgt_rec r) h =
    omega
      (arith, length-take (tgt_size version) (tgt_bytes r), length-tgt_bytes r, tgt_size-le version)

first-take :
    (n : ℕ) (bs rest : List ℕ)
    → 0 < n
    → 0 < length bs
    → get_or (take n bs ++ rest) 0 0 ≡ get_or bs 0 0
first-take zero bs rest h p = absurd (omega arith)
first-take (suc n) [] rest h p = absurd (omega arith)
first-take (suc n) (b ∷ bs) rest h p = refl

first-host : (r : HostRec) → FitsHost r → get_or (host_bytes r) 0 0 ≡ 1
unfolding host_bytes host_front put put_le kind_byte
first-host r h = rw (h.kind) refl

first-target : (r : TgtRec) → FitsTarget r → get_or (tgt_bytes r) 0 0 ≡ 2
unfolding tgt_bytes tgt_fields put put_le kind_byte
first-target r h = rw (h.kind) refl

first-cut : (n : ℕ) (bs : List ℕ) → 0 < n → get_or (take n bs) 0 0 ≡ get_or bs 0 0
first-cut zero bs h = absurd (omega arith)
first-cut (suc n) [] h = refl
first-cut (suc n) (b ∷ bs) h = refl

unfoldable kind_of : Rec → ℕ
kind_of (host_rec r) = 1
kind_of (tgt_rec r) = 2

first-bytes_of : (version : ℕ) (r : Rec) → Fits r → get_or (bytes_of version r) 0 0 ≡ kind_of r
unfolding bytes_of kind_of
first-bytes_of version (host_rec r) h =
    first-cut (host_size version) (host_bytes r) (omega (arith, host_size-le version))
    ∙ first-host r h
first-bytes_of version (tgt_rec r) h =
    first-cut (tgt_size version) (tgt_bytes r) (omega (arith, tgt_size-le version))
    ∙ first-target r h

-- Callbacks that return 0.
unfoldable pub visitor : {S : Type 0} → (HostRec → S → S) → (TgtRec → S → S) → ReaderOps S
visitor fh ft = record {
  host = some (λ r s. (go_on, fh r s));
  target = some (λ r s. (go_on, ft r s));
}

module _ {S : Type 0} (fh : HostRec → S → S) (ft : TgtRec → S → S) where
  -- The callbacks on the records as a file of the version has them.
  unfoldable pub visit_one : ℕ → Rec → S → S
  unfolding host_seen tgt_seen
  visit_one version (host_rec r) s = fh (host_seen version r) s
  visit_one version (tgt_rec r) s = ft (tgt_seen version r) s

  unfoldable pub visit : ℕ → List Rec → S → S
  unfolding visit_one
  visit version [] s = s
  visit version (r ∷ rs) s = visit version rs (visit_one version r s)

  enough : (n size : ℕ) → size ≤ n → 8 ≤ size → (ltb n 8 ≡ false) × (ltb n size ≡ false)
  enough n size h p = (ground arith, ground arith)

  round-host :
      (version : ℕ) (broken : Bool) (bs : List ℕ) (s : S)
      → get_or bs 0 0 ≡ 1
      → host_size version ≤ length bs
      → round (visitor fh ft) version broken bs s
        ≡ next
            (drop (host_size version) bs)
            (fh (host_of (take (host_size version) bs ++ replicate (224 - host_size version) 0)) s)
  unfolding round host_round after_call rec_bytes visitor
  round-host version broken bs s k h =
      let (a, b) = enough (length bs) (host_size version) h (omega (arith, host_size-le version)) in
      rw (k, a, b) refl

  round-target :
      (version : ℕ) (broken : Bool) (bs : List ℕ) (s : S)
      → get_or bs 0 0 ≡ 2
      → tgt_size version ≤ length bs
      → round (visitor fh ft) version broken bs s
        ≡ next
            (drop (tgt_size version) bs)
            (ft (tgt_of (take (tgt_size version) bs ++ replicate (224 - tgt_size version) 0)) s)
  unfolding round target_round after_call rec_bytes visitor
  round-target version broken bs s k h =
      let (a, b) = enough (length bs) (tgt_size version) h (omega (arith, tgt_size-le version)) in
      rw (k, a, b) refl

  round-rec :
      (version : ℕ) (broken : Bool) (r : Rec) (rest : List ℕ) (s : S)
      → Fits r
      → round (visitor fh ft) version broken (bytes_of version r ++ rest) s
        ≡ next rest (visit_one version r s)
  unfolding bytes_of size_of visit_one
  round-rec version broken (host_rec r) rest s h =
      let size = host_size version in
      let bs = take size (host_bytes r) ++ rest in
      let len = length-bytes_of version (host_rec r) h in
      let first =
        first-take size (host_bytes r) rest (omega (arith, host_size-le version))
          (omega (arith, length-host_bytes r h))
        ∙ first-host r h in
      let long : size ≤ length bs =
        omega (arith, length-append (take size (host_bytes r)) rest, len) in
      round-host version broken bs s first long
      ∙ rw
          (
            drop-append_length size (take size (host_bytes r)) rest len,
            take-append_length size (take size (host_bytes r)) rest len,
            host_of-seen version r h,
          )
          refl
  round-rec version broken (tgt_rec r) rest s h =
      let size = tgt_size version in
      let bs = take size (tgt_bytes r) ++ rest in
      let len = length-bytes_of version (tgt_rec r) h in
      let first =
        first-take size (tgt_bytes r) rest (omega (arith, tgt_size-le version))
          (omega (arith, length-tgt_bytes r))
        ∙ first-target r h in
      let long : size ≤ length bs =
        omega (arith, length-append (take size (tgt_bytes r)) rest, len) in
      round-target version broken bs s first long
      ∙ rw
          (
            drop-append_length size (take size (tgt_bytes r)) rest len,
            take-append_length size (take size (tgt_bytes r)) rest len,
            tgt_of-seen version r h,
          )
          refl

  -- The loop over whole records, whatever follows them.
  pub read_records-append :
      (rs : List Rec) (fuel n version : ℕ) (broken : Bool) (rest : List ℕ) (s : S)
      → AllFitting rs
      → n ≡ length rs + fuel
      → read_records (visitor fh ft) n version broken (all_bytes version rs ++ rest) s
        ≡ read_records (visitor fh ft) fuel version broken rest (visit version rs s)
  unfolding all_bytes visit read_records after_round
  read_records-append [] fuel n version broken rest s h e =
      ap (λ n. read_records (visitor fh ft) n version broken rest s) (omega arith)
  read_records-append (r ∷ rs) fuel zero version broken rest s (f, h) e = absurd (omega arith)
  read_records-append (r ∷ rs) fuel (suc n) version broken rest s (f, h) e =
      let tail = all_bytes version rs ++ rest in
      rw
        (
          append_assoc (bytes_of version r) (all_bytes version rs) rest,
          round-rec version broken r tail s f,
        )
        (read_records-append rs fuel n version broken rest (visit_one version r s) h (omega arith))

  -- What is left at the end of the file is empty, or begins a record header that is cut.
  round-short :
      (version : ℕ) (broken : Bool) (rest : List ℕ) (s : S)
      → length rest < 8
      → round (visitor fh ft) version broken rest s
        ≡ ended (if broken then some read_failed else none) s
  unfolding round
  round-short version broken rest s h = rw (lt→ltb (length rest) 8 h) refl

  pub rest-short :
      (fuel version : ℕ) (broken : Bool) (rest : List ℕ) (s : S)
      → length rest < 8
      → read_records (visitor fh ft) (suc fuel) version broken rest s
        ≡ ((if broken then some read_failed else none), s)
  unfolding read_records after_round
  rest-short fuel version broken rest s h = rw (round-short version broken rest s h) refl

  -- The last record is cut after its header.
  round-cut :
      (version : ℕ) (broken : Bool) (bs : List ℕ) (r : Rec) (s : S)
      → get_or bs 0 0 ≡ kind_of r
      → 8 ≤ length bs
      → length bs < size_of version r
      → round (visitor fh ft) version broken bs s ≡ ended (some truncated_record) s
  unfolding round kind_of size_of
  round-cut version broken bs (host_rec r) s k h l =
      let long : ltb (length bs) 8 ≡ false = ground arith in
      rw (k, long, lt→ltb (length bs) (host_size version) l) refl
  round-cut version broken bs (tgt_rec r) s k h l =
      let long : ltb (length bs) 8 ≡ false = ground arith in
      rw (k, long, lt→ltb (length bs) (tgt_size version) l) refl

  pub rest-truncated :
      (fuel version n : ℕ) (broken : Bool) (r : Rec) (s : S)
      → Fits r
      → 8 ≤ n
      → n < size_of version r
      → read_records (visitor fh ft) (suc fuel) version broken (take n (bytes_of version r)) s
        ≡ (some truncated_record, s)
  unfolding read_records after_round
  rest-truncated fuel version n broken r s f h l =
      let bs = take n (bytes_of version r) in
      let len : length bs ≡ n =
        omega (arith, length-take n (bytes_of version r), length-bytes_of version r f) in
      let first = first-cut n (bytes_of version r) (omega arith) ∙ first-bytes_of version r f in
      rw (round-cut version broken bs r s first (omega (arith, len)) (omega (arith, len))) refl
