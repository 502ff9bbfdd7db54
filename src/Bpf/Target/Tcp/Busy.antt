-- ===== src/Bpf/Target/Tcp/Busy.antt =====
-- The time that the NVMe/TCP target spends copying a write's data, as src/model.c reads it: the
-- copies of bpf/nvme_tcp_target.bpf.c, one after the other.
use ntprof.Prelude.{
  ℕ, suc, ◌+◌, ◌^◌, ◌≤◌, ◌<◌, ◌≡◌, refl, sym, subst, Bool, true, arith, List, [], ◌∷◌, length,
}
use ntprof.Record.{TgtRec, TgtTs}
use ntprof.Bpf.Target.Tcp.Receive.{copied_rec, copy_from, add_copy}

-- A copy: when it started and ended, whether it started inside an skb, and the skb's arrival.
pub record Copy : Type 0 where
  pub enter : ℕ
  pub now : ℕ
  pub inside : Bool
  pub arrival : ℕ

-- The copies of a record, one after the other.
unfoldable pub copy_all : TgtRec → List Copy → TgtRec
unfolding copied_rec
copy_all r [] = r
copy_all r (c ∷ cs) = copy_all (copied_rec c.enter c.inside c.arrival c.now r) cs

-- Each copy starts after the one before ended, the first one after `t`, and ends below 2 ^ 63.
abbrev pub AreSerial : ℕ → List Copy → Type 0
AreSerial t [] = Unit
AreSerial t (c ∷ cs) = (t ≤ c.enter) × (c.enter ≤ c.now) × (c.now < 2 ^ 63) × AreSerial c.now cs

-- After `n` copies, the last of which ended at `t`, the copying fits between the header and `t`.
record Fits (proc t n : ℕ) (r : TgtRec) : Type 0 where
  solicited : r.hdr.flags.r2t ≡ true
  parsed : r.ts TgtTs.data_proc ≡ proc
  waiting : r.ts TgtTs.exec ≡ 0
  counted : r.h2c_skbs ≡ n
  fresh : n ≡ 0 → r.h2c_busy_ns ≡ 0
  within : r.h2c_busy_ns + proc ≤ t
  before : t < 2 ^ 63

add-zero : (n : ℕ) → n + 0 ≡ n
add-zero n = omega arith

add-suc : (a b : ℕ) → a + suc b ≡ suc a + b
add-suc a b = omega arith

-- A copy counts from a time after the earlier copies, and not before the header.
from-bounds :
    (r : TgtRec) (c : Copy) (proc t n : ℕ)
    → Fits proc t n r
    → t ≤ c.enter
    → c.enter ≤ c.now
    → (copy_from c.enter c.inside r ≤ c.now) × (r.h2c_busy_ns + proc ≤ copy_from c.enter c.inside r)
unfolding copy_from
from-bounds r c proc t n f a b = ground (arith, f.parsed, f.counted, f.fresh, f.within)

counts :
    (r : TgtRec) (c : Copy) (proc t n : ℕ)
    → 0 < proc
    → Fits proc t n r
    → copy_from c.enter c.inside r ≤ c.now
    → copied_rec c.enter c.inside c.arrival c.now r
      ≡ add_copy (copy_from c.enter c.inside r) c.arrival c.now r
unfolding copied_rec
counts r c proc t n p f b = rw (f.solicited) (ground (arith, f.parsed, f.waiting))

add_copy-Fits :
    (r : TgtRec) (from arrival now proc t n : ℕ)
    → Fits proc t n r
    → from ≤ now
    → r.h2c_busy_ns + proc ≤ from
    → now < 2 ^ 63
    → suc n < 2 ^ 32
    → Fits proc now (suc n) (add_copy from arrival now r)
unfolding add_copy
add_copy-Fits r from arrival now proc t n f a b l m = record {
  solicited = f.solicited;
  parsed = f.parsed;
  waiting = f.waiting;
  counted = omega (arith, f.counted);
  fresh = λ e. omega arith;
  within = omega arith;
  before = l;
}

-- The copying so far ends where the record says so.
abbrev Done : ℕ → ℕ → ℕ → TgtRec → Type 0
Done proc t n r = Fits proc t n r × (r.ts TgtTs.data_done ≡ t)

add_copy-Done :
    (r : TgtRec) (from arrival now proc n : ℕ)
    → Fits proc now n (add_copy from arrival now r)
    → Done proc now n (add_copy from arrival now r)
unfolding add_copy
add_copy-Done r from arrival now proc n h = (h, refl)

copied_rec-Done :
    (r : TgtRec) (c : Copy) (proc t n : ℕ)
    → 0 < proc
    → Fits proc t n r
    → t ≤ c.enter
    → c.enter ≤ c.now
    → c.now < 2 ^ 63
    → suc n < 2 ^ 32
    → Done proc c.now (suc n) (copied_rec c.enter c.inside c.arrival c.now r)
copied_rec-Done r c proc t n p f a b e l =
    let from = copy_from c.enter c.inside r in
    let (before_now, after) = from-bounds r c proc t n f a b in
    subst (Done proc c.now (suc n)) (sym (counts r c proc t n p f before_now)) (
      add_copy-Done r from c.arrival c.now proc (suc n)
        (add_copy-Fits r from c.arrival c.now proc t n f before_now after e l))

-- When the last of the copies after `t` ended.
unfoldable pub end_of : ℕ → List Copy → ℕ
end_of t [] = t
end_of t (c ∷ cs) = end_of c.now cs

copy_all-Done :
    (cs : List Copy) (r : TgtRec) (proc t n : ℕ)
    → 0 < proc
    → Done proc t n r
    → AreSerial t cs
    → n + length cs < 2 ^ 32
    → Done proc (end_of t cs) (n + length cs) (copy_all r cs)
unfolding copy_all end_of
copy_all-Done [] r proc t n p f s l = rw (add-zero n) f
copy_all-Done (c ∷ cs) r proc t n p (f, d) (a, b, e, s) l = rw (add-suc n (length cs)) (
    copy_all-Done cs (copied_rec c.enter c.inside c.arrival c.now r) proc c.now (suc n) p
      (copied_rec-Done r c proc t n p f a b e (omega arith)) s (omega arith))

-- For a write solicited by R2T whose data header was parsed and which was neither executed nor
-- copied yet, copies of its data one after the other, from the header on and below 2^63 ns, fewer
-- than 2^32 of them, are all counted, NTP_T_DATA_DONE is the end of the last, and h2c_busy_ns is at
-- most the time from NTP_T_DATA_PROC to there.
pub copy_all-busy :
    (r : TgtRec) (c : Copy) (cs : List Copy)
    → r.hdr.flags.r2t ≡ true
    → 0 < r.ts TgtTs.data_proc
    → r.ts TgtTs.exec ≡ 0
    → (r.h2c_skbs ≡ 0) × (r.h2c_busy_ns ≡ 0)
    → AreSerial (r.ts TgtTs.data_proc) (c ∷ cs)
    → length (c ∷ cs) < 2 ^ 32
    → let r' = copy_all r (c ∷ cs) in
      (r'.h2c_skbs ≡ length (c ∷ cs))
      × (r'.ts TgtTs.data_done ≡ end_of 0 (c ∷ cs))
      × (r'.h2c_busy_ns + r.ts TgtTs.data_proc ≤ r'.ts TgtTs.data_done)
unfolding copy_all end_of
copy_all-busy r c cs solicited p waiting (none_yet, idle) (a, b, e, s) l =
    let proc = r.ts TgtTs.data_proc in
    let start : Fits proc proc 0 r = record {
      solicited = solicited;
      parsed = refl;
      waiting = waiting;
      counted = none_yet;
      fresh = λ z. idle;
      within = omega arith;
      before = omega arith;
    } in
    let first = copied_rec-Done r c proc proc 0 p start a b e (omega arith) in
    let (f, d) =
      copy_all-Done cs (copied_rec c.enter c.inside c.arrival c.now r) proc c.now 1 p first s
        (omega arith) in
    (omega (arith, f.counted), d, omega (arith, f.within, d))
