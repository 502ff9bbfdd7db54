-- ===== src/Model/Breakdown.antt =====
-- `struct ntp_breakdown` and the helpers that write it: src/model.h and src/model.c.
-- A bit mask over an enum is a function from the enum to Bool. An int64_t is the integer that it
-- stands for; sums of them are exact (C leaves their overflow undefined).
use ntprof.Prelude.{
  ℕ, ◌+◌, ◌-◌, ◌%◌, ◌^◌, ◌<◌, ◌≡◌, Bool, true, false, List, [], ◌∷◌, ◌&&◌, ◌||◌, not, ltb, ◌==◌,
  nonzero, if◌then◌else◌, arith,
}
use ntprof.Prelude.Int.{ℤ, pos, pos_part, neg_part, signed64, ◌+ℤ◌, ◌-ℤ◌}
use ntprof.Model.Comp.{IoClass, read, write_inline, write_r2t, Comp, comp_index, Stage}
use ntprof.Record.{HostRec, TgtTs}

pub record Breakdown : Type 0 where
  pub io_class : IoClass
  pub joined : Bool
  pub post_estimated : Bool
  pub valid : Comp → Bool
  pub comp : Comp → ℤ
  pub stage : Stage → ℤ
  pub stage_valid : Stage → Bool

pub data ModelErr : Type 0 where
  ok incomplete_host incomplete_target : ModelErr

-- memset(out, 0, sizeof(*out))
abbrev pub empty : Breakdown
empty = record {
  io_class = read;
  joined = false;
  post_estimated = false;
  valid = λ c. false;
  comp = λ c. pos 0;
  stage = λ s. pos 0;
  stage_valid = λ s. false;
}

abbrev pub comp_valid : Breakdown → Comp → Bool
comp_valid b c = b.valid c

unfoldable pub io_class_of : HostRec → IoClass
io_class_of h =
    if not h.hdr.flags.write then read else if h.hdr.flags.r2t then write_r2t else write_inline

unfoldable pub have_all : {E : Type 0} → (E → ℕ) → List E → Bool
have_all ts [] = true
have_all ts (i ∷ idx) = nonzero (ts i) && have_all ts idx

-- `set(b, c, v)`
abbrev pub set : Breakdown → Comp → ℤ → Breakdown
set b c v = record b {
  comp = λ c'. if comp_index c == comp_index c' then v else b.comp c';
  valid = λ c'. (comp_index c == comp_index c') || b.valid c';
}

-- `valid &= ~(1u << c); comp[c] = 0`
abbrev pub clear : Breakdown → Comp → Breakdown
clear b c = record b {
  comp = λ c'. if comp_index c == comp_index c' then pos 0 else b.comp c';
  valid = λ c'. not (comp_index c == comp_index c') && b.valid c';
}

-- (int64_t)(later - earlier)
unfoldable pub d : ℕ → ℕ → ℤ
d later earlier = signed64 ((later + 2 ^ 64 - earlier) % 2 ^ 64)

-- Below 2 ^ 63 ns (292 years of uptime) the difference is exact, whichever time is later.
pub d_parts : (a b : ℕ) → a < 2 ^ 63 → b < 2 ^ 63 → pos_part (d a b) + b ≡ neg_part (d a b) + a
unfolding d
d_parts a b ha hb = ground arith

-- `comp[c] += v`
abbrev pub add : Breakdown → Comp → ℤ → Breakdown
add b c v = record b {
  comp = λ c'. if comp_index c == comp_index c' then b.comp c' +ℤ v else b.comp c';
}

-- The transport's own time within the span: no more than the span.
unfoldable pub busy_part : ℕ → ℕ → ℕ → ℤ
busy_part first done busy_ns =
    if ltb ((done + 2 ^ 64 - first) % 2 ^ 64) busy_ns then d done first else signed64 busy_ns

-- A TCP data phase, on the side that receives the data. The result is the C function's return
-- value and the breakdown that it leaves.
unfoldable pub data_phase : ℕ → ℕ → ℕ → ℕ → Comp → Comp → Breakdown → Bool × Breakdown
data_phase first done next busy_ns busy_c wait_c b =
    if not (nonzero busy_ns) || not (nonzero done) || ltb done first || ltb next done
    then (false, b)
    else (
      true,
      set (set b busy_c (busy_part first done busy_ns)) wait_c
          (d done first -ℤ busy_part first done busy_ns),
    )

-- The bdev backend's block request splits the target subsystem time.
unfoldable pub backend_details : (TgtTs → ℕ) → Breakdown → Breakdown
backend_details T b =
    if not (nonzero (T TgtTs.be_issue))
      || not (nonzero (T TgtTs.be_done))
      || ltb (T TgtTs.complete) (T TgtTs.be_done)
    then b
    else set
        (set (set b Comp.tgt_be_sub (d (T TgtTs.be_issue) (T TgtTs.exec))) Comp.tgt_dev
          (d (T TgtTs.be_done) (T TgtTs.be_issue)))
        Comp.tgt_be_cmpl (d (T TgtTs.complete) (T TgtTs.be_done))
