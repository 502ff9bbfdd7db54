-- ===== src/Trace/Ends.antt =====
-- Reading a record file ends: ntp_read_file of src/trace_file.c.
use ntprof.Prelude.{
  ℕ, zero, suc, ◌<◌, ◌≡◌, ◌≢◌, refl, ap, sym, ◌∙◌, Bool, true, false, not, ◌||◌, ltb, ◌==◌,
  if◌then◌else◌, if-holds, Bool-cases, inl, inr, Option, none, some, List, drop, length,
  length-drop, get_or, arith,
}
use mathlib.Core.Bool.{true≢false}
use ntprof.Trace.Layout.{host_of, tgt_of, header_of}
use ntprof.Trace.Reader.{
  ReaderOps, Ret, go_on, stop, fail, ReadError, out_of_fuel, Round, ended, next, after_call,
  after_round, rec_bytes, host_round, target_round, round, read_records, read_file, File, host_size,
  tgt_size, is_readable, same_bytes, file_magic, header_size,
}

is_fuel : Option ReadError → Bool
is_fuel none = false
is_fuel (some out_of_fuel) = true
is_fuel (some e) = false

-- The round takes bytes, or ends for a reason in the file.
data Advances {S : Type 0} (bs : List ℕ) : Round S → Type 0 where
  done : {e : Option ReadError} {s : S} → is_fuel e ≡ false → Advances bs (ended e s)
  more : {rest : List ℕ} {s : S} → length rest < length bs → Advances bs (next rest s)

module _ {S : Type 0} (ops : ReaderOps S) where
  after_call-Advances :
      (bs rest : List ℕ) (r : Ret × S)
      → length rest < length bs
      → Advances bs (after_call ops rest r)
  unfolding after_call is_fuel
  after_call-Advances bs rest (go_on, s) h = more h
  after_call-Advances bs rest (stop, s) h = done refl
  after_call-Advances bs rest (fail, s) h = done refl

  host_round-Advances :
      (bs rec rest : List ℕ) (s : S)
      → length rest < length bs
      → Advances bs (host_round ops rec rest s)
  unfolding host_round
  host_round-Advances bs rec rest s h =
      elim (ops.host)
        as (λ o.
          Advances bs
            (elim o [ none ↦ next rest s | some f ↦ after_call ops rest (f (host_of rec) s) ])) [
              | none ↦ more h
              | some f ↦ after_call-Advances bs rest _ h
            ]

  target_round-Advances :
      (bs rec rest : List ℕ) (s : S)
      → length rest < length bs
      → Advances bs (target_round ops rec rest s)
  unfolding target_round
  target_round-Advances bs rec rest s h =
      elim (ops.target)
        as (λ o.
          Advances bs
            (elim o [ none ↦ next rest s | some f ↦ after_call ops rest (f (tgt_of rec) s) ])) [
              | none ↦ more h
              | some f ↦ after_call-Advances bs rest _ h
            ]

  drop-shorter :
      (n : ℕ) (bs : List ℕ) → 0 < n → ltb (length bs) 8 ≡ false → length (drop n bs) < length bs
  drop-shorter n bs p h = ground (arith, length-drop n bs)

  size-positive :
      (version kind : ℕ) → 0 < (if kind == 1 then host_size version else tgt_size version)
  unfolding host_size tgt_size
  size-positive version kind = ground arith

  round-Advances :
      (version : ℕ) (broken : Bool) (bs : List ℕ) (s : S)
      → Advances bs (round ops version broken bs s)
  unfolding round is_fuel
  round-Advances version broken bs s =
      let kind = get_or bs 0 0 in
      let size = if kind == 1 then host_size version else tgt_size version in
      elim (Bool-cases (ltb (length bs) 8)) [
        | inl e ↦ rw (e, round) (done (if-holds (λ e. is_fuel e ≡ false) broken refl refl))
        | inr e ↦
            let shorter = drop-shorter size bs (size-positive version kind) e in
            rw (e, round)
              (if-holds (Advances bs) (not (kind == 1 || kind == 2)) (done refl) (
                if-holds (Advances bs) (ltb (length bs) size) (done refl) (
                  if-holds (Advances bs) (kind == 1)
                    (host_round-Advances bs (rec_bytes ops size bs) (drop size bs) s shorter)
                    (target_round-Advances bs (rec_bytes ops size bs) (drop size bs) s shorter))))
      ]

  after_round-ends :
      (bs : List ℕ) {r : Round S} (continue : List ℕ → S → Option ReadError × S)
      → Advances bs r
      → ((rest : List ℕ) (s : S) → length rest < length bs → is_fuel (continue rest s).0 ≡ false)
      → is_fuel (after_round ops continue r).0 ≡ false
  unfolding after_round
  after_round-ends bs continue (done f) ih = f
  after_round-ends bs continue (more f) ih = ih _ _ f

  -- With more fuel than bytes, the loop ends by itself.
  read_records-ends :
      (fuel version : ℕ) (broken : Bool) (bs : List ℕ) (s : S)
      → length bs < fuel
      → is_fuel (read_records ops fuel version broken bs s).0 ≡ false
  unfolding read_records
  read_records-ends zero version broken bs s h = absurd (omega arith)
  read_records-ends (suc fuel) version broken bs s h =
      after_round-ends bs _ (round-Advances version broken bs s)
        (λ rest s' h'. read_records-ends fuel version broken rest s' (omega arith))

read_file-not_fuel :
    {S : Type 0} (ops : ReaderOps S) (f : Option File) (s : S)
    → is_fuel (read_file ops f s).0 ≡ false
unfolding read_file is_fuel
read_file-not_fuel ops none s = refl
read_file-not_fuel {S = S} ops (some f) s =
    let h = header_of f.bytes in
    let loop =
      read_records-ends ops (suc (length f.bytes)) h.version f.broken (drop header_size f.bytes) s
        (omega (arith, length-drop header_size f.bytes)) in
    let IsEnd : Option ReadError × S → Type 0 = λ r. is_fuel r.0 ≡ false in
    if-holds IsEnd (ltb (length f.bytes) header_size || not (same_bytes h.magic file_magic)) refl
      (if-holds IsEnd (not (is_readable h)) refl loop)

not_fuel : (o : Option ReadError) → is_fuel o ≡ false → o ≢ some out_of_fuel
unfolding is_fuel
not_fuel o h e = true≢false (sym (ap is_fuel e) ∙ h)

-- On every file, readable or not, and for all callbacks, ntp_read_file ends: its loop never runs
-- out of as many rounds as the file has bytes, and one.
pub read_file-ends :
    {S : Type 0} (ops : ReaderOps S) (f : Option File) (s : S)
    → (read_file ops f s).0 ≢ some out_of_fuel
read_file-ends ops f s = not_fuel (read_file ops f s).0 (read_file-not_fuel ops f s)
