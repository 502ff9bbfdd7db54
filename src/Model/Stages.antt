-- ===== src/Model/Stages.antt =====
-- Stage groups: `stage` and `stages` of src/model.c.
use ntprof.Prelude.{Option, none, some, List, [], ◌∷◌, ◌||◌, ◌==◌, if◌then◌else◌}
use ntprof.Prelude.Int.{ℤ, pos, ◌+ℤ◌}
use ntprof.Model.Comp.{Comp, Stage, stage_index}
use ntprof.Model.Breakdown.{Breakdown, comp_valid}

-- The first loop of `stage`: `none` where a part has no value (the early return).
unfoldable pub sum_parts : Breakdown → List Comp → ℤ → Option ℤ
sum_parts b [] sum = some sum
sum_parts b (c ∷ parts) sum = if comp_valid b c then sum_parts b parts (sum +ℤ b.comp c) else none

-- The second loop, over the parts that count where they are present.
unfoldable pub sum_extras : Breakdown → List Comp → ℤ → ℤ
sum_extras b [] sum = sum
sum_extras b (c ∷ extras) sum =
    sum_extras b extras (if comp_valid b c then sum +ℤ b.comp c else sum)

unfoldable pub stage : Breakdown → Stage → List Comp → List Comp → Breakdown
unfolding sum_parts sum_extras
stage b s parts extras = elim (sum_parts b parts (pos 0)) [
  | none ↦ b
  | some sum ↦ record b {
    stage = λ s'. if stage_index s == stage_index s' then sum_extras b extras sum else b.stage s';
    stage_valid = λ s'. (stage_index s == stage_index s') || b.stage_valid s';
  }
]

abbrev pub parts_of : Stage → List Comp
parts_of Stage.s1 = Comp.blk_sub ∷ Comp.blk_cmpl ∷ []
parts_of Stage.s2 = Comp.tr_sub ∷ Comp.tr_cmpl ∷ []
parts_of Stage.s3_s5 = Comp.net ∷ Comp.tgt_rx ∷ Comp.host_rx ∷ []
parts_of Stage.s6 = Comp.tgt_sub ∷ Comp.tgt_cmpl ∷ []
parts_of Stage.s7_s9 = Comp.tgt_be ∷ []

-- the TCP data phases, where a record has them
abbrev pub extras_of : Stage → List Comp
extras_of Stage.s1 = []
extras_of Stage.s2 = Comp.host_data ∷ []
extras_of Stage.s3_s5 = Comp.host_wait ∷ Comp.tgt_wait ∷ []
extras_of Stage.s6 = Comp.tgt_data ∷ []
extras_of Stage.s7_s9 = []

abbrev pub group : Breakdown → Stage → Breakdown
group b s = stage b s (parts_of s) (extras_of s)

unfoldable pub stages : Breakdown → Breakdown
unfolding stage
stages b =
    group (group (group (group (group b Stage.s1) Stage.s2) Stage.s3_s5) Stage.s6) Stage.s7_s9
