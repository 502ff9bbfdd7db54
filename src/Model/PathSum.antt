-- ===== src/Model/PathSum.antt =====
-- The sum over the path under the writes to a breakdown: src/model.c's `set`, and the clearing
-- of the remote time.
use ntprof.Prelude.{◌≡◌, refl, Bool, true, false}
use ntprof.Prelude.Int.{ℤ, ◌+ℤ◌, sum_laws, +ℤ_comm}
use ntprof.Model.Comp.{Comp, IoClass, comps}
use ntprof.Model.Breakdown.{Breakdown, set, clear}
use ntprof.Model.Sum.{path_sum, sum_values, is_path}

pub path_sum-set :
    (b : Breakdown) (c : Comp) (v : ℤ)
    → is_path c ≡ true
    → b.valid c ≡ false
    → path_sum (set b c v) ≡ path_sum b +ℤ v
unfolding sum_values comps
path_sum-set b Comp.e2e v p u = cc
path_sum-set b Comp.tgt_be_sub v p u = cc
path_sum-set b Comp.tgt_dev v p u = cc
path_sum-set b Comp.tgt_be_cmpl v p u = cc
path_sum-set b Comp.cmpl_ipi v p u = cc
path_sum-set b Comp.net_data v p u = cc
path_sum-set b _ v p u = rw u (simp (+ℤ_comm v, sum_laws))

pub path_sum-set_detail :
    (b : Breakdown) (c : Comp) (v : ℤ) → is_path c ≡ false → path_sum (set b c v) ≡ path_sum b
unfolding sum_values comps
path_sum-set_detail b Comp.e2e v p = refl
path_sum-set_detail b Comp.tgt_be_sub v p = refl
path_sum-set_detail b Comp.tgt_dev v p = refl
path_sum-set_detail b Comp.tgt_be_cmpl v p = refl
path_sum-set_detail b Comp.cmpl_ipi v p = refl
path_sum-set_detail b Comp.net_data v p = refl
path_sum-set_detail b _ v p = cc

pub path_sum-clear_remote :
    (b : Breakdown)
    → b.valid Comp.remote ≡ true
    → path_sum (clear b Comp.remote) +ℤ b.comp Comp.remote ≡ path_sum b
unfolding sum_values comps
path_sum-clear_remote b u = rw u (simp sum_laws)

-- The class of a breakdown is no part of its sum, and nor is a mark on its target record.
pub path_sum-class :
    (b : Breakdown) (c : IoClass) → path_sum (record b { io_class = c }) ≡ path_sum b
unfolding sum_values comps
path_sum-class b c = refl

pub path_sum-marks :
    (b : Breakdown) (e j : Bool)
    → path_sum (record b { post_estimated = e; joined = j }) ≡ path_sum b
unfolding sum_values comps
path_sum-marks b e j = refl
