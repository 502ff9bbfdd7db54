-- ===== src/Model/Split.antt =====
-- A target record splits the remote time and keeps the sum: `write_data_phase`, `target_side` and
-- `rdma_target_side` of src/model.c.
use ntprof.Prelude.{
  ℕ, ◌^◌, ◌<◌, ◌≡◌, refl, ap, ◌∙◌, true, false, ◌||◌, not, arith, ltb, nonzero, Bool-cases, inl,
  inr,
}
use ntprof.Prelude.Int.{ℤ, ◌+ℤ◌, ◌-ℤ◌, diff, diff-add, diff-eq, signed64-diff, int_laws, +ℤ_assoc}
use ntprof.Model.Comp.{IoClass, read, write_inline, write_r2t, Comp, comps}
use ntprof.Model.Breakdown.{Breakdown, set, d, busy_part, backend_details}
use ntprof.Model.PathSum.{path_sum-set, path_sum-set_detail, path_sum-clear_remote}
use ntprof.Model.Sum.{path_sum}
use ntprof.Model.Target.{write_data_phase, target_class, split_remote, target_side}
use ntprof.Record.{TgtTs, TgtRec}

-- What the writes to the target's components leave alone: the end-to-end and the remote time.
abbrev pub Untouched : Breakdown → Breakdown → Type 0
Untouched b b' =
    (b'.valid Comp.e2e ≡ b.valid Comp.e2e)
    × (b'.comp Comp.e2e ≡ b.comp Comp.e2e)
    × (b'.valid Comp.remote ≡ b.valid Comp.remote)
    × (b'.comp Comp.remote ≡ b.comp Comp.remote)
    × (b'.valid Comp.net ≡ b.valid Comp.net)

-- No component that a target record gives has a value.
pub record NoTarget (b : Breakdown) : Type 0 where
  pub net : b.valid Comp.net ≡ false
  pub rx : b.valid Comp.tgt_rx ≡ false
  pub sub : b.valid Comp.tgt_sub ≡ false
  pub wait : b.valid Comp.tgt_wait ≡ false
  pub busy : b.valid Comp.tgt_data ≡ false
  pub be : b.valid Comp.tgt_be ≡ false
  pub cmpl : b.valid Comp.tgt_cmpl ≡ false

pub backend_details-sum :
    (T : TgtTs → ℕ) (b : Breakdown)
    → Untouched b (backend_details T b) × (path_sum (backend_details T b) ≡ path_sum b)
unfolding backend_details comps
backend_details-sum T b =
    elim (Bool-cases (
      not (nonzero (T TgtTs.be_issue))
      || not (nonzero (T TgtTs.be_done))
      || ltb (T TgtTs.complete) (T TgtTs.be_done))) [
        | inl e ↦ rw e ((refl, refl, refl, refl, refl), refl)
        | inr e ↦ rw e (
          (refl, refl, refl, refl, refl),
          path_sum-set_detail _ Comp.tgt_be_cmpl _ refl
              ∙ path_sum-set_detail _ Comp.tgt_dev _ refl
              ∙ path_sum-set_detail _ Comp.tgt_be_sub _ refl,
        )
      ]

regroup : (S p r q e : ℤ) → S +ℤ (p +ℤ r) +ℤ q +ℤ e ≡ S +ℤ r +ℤ p +ℤ q +ℤ e
regroup S p r q e = omega int_laws

cancel : (X r Y : ℤ) → X +ℤ r ≡ Y → X ≡ Y -ℤ r
cancel X r Y e = rw (← e) (omega int_laws)

pub settle : (X S D R r : ℤ) → X +ℤ D ≡ S +ℤ D +ℤ R → X +ℤ (r -ℤ R) -ℤ r ≡ S
settle X S D R r e = rw (cancel X D (S +ℤ D +ℤ R) e) (omega int_laws)

-- The network time is what is left of the remote time after the target's residence.
pub split_remote-sum :
    (b : Breakdown) (R : ℤ)
    → b.valid Comp.remote ≡ true
    → b.valid Comp.net ≡ false
    → path_sum (split_remote R b) ≡ path_sum b +ℤ (b.comp Comp.remote -ℤ R) -ℤ b.comp Comp.remote
unfolding split_remote comps
split_remote-sum b R hr hn =
    let v = b.comp Comp.remote -ℤ R in
    cancel _ _ _ (path_sum-clear_remote (set b Comp.net v) hr ∙ path_sum-set b Comp.net v refl hn)

pub path_sum-answer :
    (b : Breakdown) (v₁ v₂ v₃ : ℤ)
    → b.valid Comp.tgt_rx ≡ false
    → b.valid Comp.tgt_sub ≡ false
    → b.valid Comp.tgt_cmpl ≡ false
    → path_sum (set (set (set b Comp.tgt_rx v₁) Comp.tgt_sub v₂) Comp.tgt_cmpl v₃)
      ≡ path_sum b +ℤ v₁ +ℤ v₂ +ℤ v₃
unfolding comps
path_sum-answer b v₁ v₂ v₃ rx sub cmpl =
    path_sum-set _ Comp.tgt_cmpl v₃ refl cmpl
    ∙ ap (λ z. z +ℤ v₃)
        (path_sum-set _ Comp.tgt_sub v₂ refl sub
          ∙ ap (λ z. z +ℤ v₂) (path_sum-set b Comp.tgt_rx v₁ refl rx))

module _ (T : TgtTs → ℕ) (small : (e : TgtTs) → T e < 2 ^ 63) where
  pub dt : (x y : TgtTs) → d (T x) (T y) ≡ diff (T x) (T y)
  unfolding d
  dt x y = signed64-diff (T x) (T y) (small x) (small y)

  pub dt_chain : (x y z : TgtTs) → d (T x) (T y) +ℤ d (T y) (T z) ≡ d (T x) (T z)
  dt_chain x y z = simp (dt, diff-add) (diff-eq _ _ _ _ (omega arith))

  -- From an arrival to an answer, by way of the back end.
  pub dt_answer :
      (S : ℤ) (arr proc ex cm sent : TgtTs)
      → S +ℤ d (T proc) (T arr) +ℤ d (T ex) (T proc) +ℤ d (T sent) (T cm) +ℤ d (T cm) (T ex)
        ≡ S +ℤ d (T sent) (T arr)
  dt_answer S arr proc ex cm sent =
      simp +ℤ_assoc (ap (λ z. S +ℤ z) (simp (dt, diff-add) (diff-eq _ _ _ _ (omega arith))))

  -- The same, where the transport asks for the data and waits for it.
  pub dt_solicited :
      (S : ℤ)
      → S
          +ℤ (d (T TgtTs.cmd_proc) (T TgtTs.cmd_arr) +ℤ d (T TgtTs.data_proc) (T TgtTs.data_arr))
          +ℤ d (T TgtTs.exec) (T TgtTs.data_proc)
          +ℤ d (T TgtTs.r2t_sent) (T TgtTs.cmd_proc)
          +ℤ d (T TgtTs.rsp_sent) (T TgtTs.complete)
          +ℤ d (T TgtTs.complete) (T TgtTs.exec)
        ≡ S +ℤ (d (T TgtTs.r2t_sent) (T TgtTs.cmd_arr) +ℤ d (T TgtTs.rsp_sent) (T TgtTs.data_arr))
  dt_solicited S =
      simp +ℤ_assoc (ap (λ z. S +ℤ z) (simp (dt, diff-add) (diff-eq _ _ _ _ (omega arith))))

module _ (t : TgtRec) (small : (e : TgtTs) → t.ts e < 2 ^ 63) where
  write_data_phase-sum :
      (b : Breakdown)
      → b.valid Comp.tgt_wait ≡ false
      → b.valid Comp.tgt_data ≡ false
      → let (rest, b') = write_data_phase t b in
        Untouched b b'
        × (b'.valid Comp.tgt_sub ≡ b.valid Comp.tgt_sub)
        × (b'.valid Comp.tgt_cmpl ≡ b.valid Comp.tgt_cmpl)
        × (path_sum b' +ℤ rest ≡ path_sum b +ℤ d (t.ts TgtTs.exec) (t.ts TgtTs.data_proc))
  unfolding write_data_phase comps
  write_data_phase-sum b w e =
      elim (Bool-cases (
        not (nonzero t.h2c_busy_ns)
        || not (nonzero (t.ts TgtTs.data_done))
        || ltb (t.ts TgtTs.data_done) (t.ts TgtTs.data_proc)
        || ltb (t.ts TgtTs.exec) (t.ts TgtTs.data_done))) [
          | inl p ↦ rw p ((refl, refl, refl, refl, refl), refl, refl, refl)
          | inr p ↦
              let busy = busy_part (t.ts TgtTs.data_proc) (t.ts TgtTs.data_done) t.h2c_busy_ns in
              let span = d (t.ts TgtTs.data_done) (t.ts TgtTs.data_proc) in
              let b₁ = set b Comp.tgt_data busy in
              rw p (
                (refl, refl, refl, refl, refl),
                refl,
                refl,
                (rw
                    (
                      path_sum-set b₁ Comp.tgt_wait (span -ℤ busy) refl w,
                      path_sum-set b Comp.tgt_data busy refl e,
                      ← dt_chain t.ts small TgtTs.exec TgtTs.data_done TgtTs.data_proc,
                    )
                    (omega int_laws)),
              )
        ]

  -- The target's components, its subsystem time aside, add up to its residence.
  target_class-sum :
      (c : IoClass) (b : Breakdown)
      → b.valid Comp.tgt_rx ≡ false
      → b.valid Comp.tgt_sub ≡ false
      → b.valid Comp.tgt_cmpl ≡ false
      → b.valid Comp.tgt_wait ≡ false
      → b.valid Comp.tgt_data ≡ false
      → let (residence, b') = target_class t c b in
        Untouched b b'
        × (path_sum b' +ℤ d (t.ts TgtTs.complete) (t.ts TgtTs.exec) ≡ path_sum b +ℤ residence)
  unfolding target_class comps
  target_class-sum read b rx sub cmpl w e = (
    (refl, refl, refl, refl, refl),
    ap (λ z. z +ℤ d (t.ts TgtTs.complete) (t.ts TgtTs.exec)) (path_sum-answer b _ _ _ rx sub cmpl)
        ∙ dt_answer t.ts small (path_sum b) TgtTs.cmd_arr TgtTs.cmd_proc TgtTs.exec TgtTs.complete
            TgtTs.c2h_sent,
  )
  target_class-sum write_inline b rx sub cmpl w e = (
    (refl, refl, refl, refl, refl),
    ap (λ z. z +ℤ d (t.ts TgtTs.complete) (t.ts TgtTs.exec)) (path_sum-answer b _ _ _ rx sub cmpl)
        ∙ dt_answer t.ts small (path_sum b) TgtTs.cmd_arr TgtTs.cmd_proc TgtTs.exec TgtTs.complete
            TgtTs.rsp_sent,
  )
  target_class-sum write_r2t b rx sub cmpl w e =
      let v₁ =
        d (t.ts TgtTs.cmd_proc) (t.ts TgtTs.cmd_arr)
        +ℤ d (t.ts TgtTs.data_proc) (t.ts TgtTs.data_arr) in
      let b₁ = set b Comp.tgt_rx v₁ in
      let v₂ = d (t.ts TgtTs.r2t_sent) (t.ts TgtTs.cmd_proc) in
      let v₃ = d (t.ts TgtTs.rsp_sent) (t.ts TgtTs.complete) in
      let be = d (t.ts TgtTs.complete) (t.ts TgtTs.exec) in
      let (rest, b₂) = write_data_phase t b₁ in
      let (same, hs, hc, phase) = write_data_phase-sum b₁ w e in
      (
        same,
        ap (λ z. z +ℤ be)
              (path_sum-set (set b₂ Comp.tgt_sub (v₂ +ℤ rest)) Comp.tgt_cmpl v₃ refl (hc ∙ cmpl)
                ∙ ap (λ z. z +ℤ v₃) (path_sum-set b₂ Comp.tgt_sub (v₂ +ℤ rest) refl (hs ∙ sub)))
            ∙ regroup (path_sum b₂) v₂ rest v₃ be
            ∙ ap (λ z. z +ℤ v₂ +ℤ v₃ +ℤ be)
                (phase
                  ∙ ap (λ z. z +ℤ d (t.ts TgtTs.exec) (t.ts TgtTs.data_proc))
                      (path_sum-set b Comp.tgt_rx v₁ refl rx))
            ∙ dt_solicited t.ts small (path_sum b),
      )

  pub target_side-sum :
      (b : Breakdown)
      → NoTarget b
      → b.valid Comp.remote ≡ true
      → ((target_side t b).valid Comp.e2e ≡ b.valid Comp.e2e)
        × ((target_side t b).comp Comp.e2e ≡ b.comp Comp.e2e)
        × (path_sum (target_side t b) ≡ path_sum b)
  unfolding target_side comps
  target_side-sum b n hr =
      let D = d (t.ts TgtTs.complete) (t.ts TgtTs.exec) in
      let b₁ = set b Comp.tgt_be D in
      let (same, sum) = target_class-sum b.io_class b₁ n.rx n.sub n.cmpl n.wait n.busy in
      let (R, b₂) = target_class t b.io_class b₁ in
      let (same', sum') = backend_details-sum t.ts (split_remote R b₂) in
      (
        same'.0 ∙ same.0,
        same'.1 ∙ same.1,
        sum'
            ∙ split_remote-sum b₂ R (same.2 ∙ hr) (same.4 ∙ n.net)
            ∙ settle (path_sum b₂) (path_sum b) D R (b₂.comp Comp.remote)
                (sum ∙ ap (λ z. z +ℤ R) (path_sum-set b Comp.tgt_be D refl n.be)),
      )
