-- ===== src/Model/SplitRdma.antt =====
-- A target record splits the remote time over RDMA and keeps the sum: `rdma_target_side` of
-- src/model.c.
use ntprof.Prelude.{
  ℕ, ◌^◌, ◌<◌, ◌≡◌, refl, ap, ◌∙◌, Bool, true, false, ◌&&◌, not, arith, nonzero, if◌then◌else◌,
}
use ntprof.Prelude.Int.{
  ℤ, pos, ◌+ℤ◌, ◌-ℤ◌, diff-add, diff-sub, zero-diff, diff-eq, int_laws, +ℤ_assoc,
}
use ntprof.Model.Comp.{write_r2t, Comp, comps}
use ntprof.Model.Breakdown.{Breakdown, set, d}
use ntprof.Model.PathSum.{path_sum-set, path_sum-set_detail, path_sum-class}
use ntprof.Model.Sum.{path_sum}
use ntprof.Model.Rdma.{rdma_split}
use ntprof.Model.Split.{Untouched, NoTarget, backend_details-sum, split_remote-sum, dt}
use ntprof.Model.Target.{split_remote}
use ntprof.Record.{TgtTs, TgtRec}

-- The breakdown before the remote time is split, over plain values: a write that was fetched
-- (`fetch`), and a read whose data was timed (`timed`).
module _ (b : Breakdown) (rx fetched posted fetch_ns timed_ns be cmpl : ℤ) where
  abbrev sub_of : Bool → ℤ
  sub_of fetch = if fetch then fetched else posted

  abbrev with_sub : Bool → Breakdown
  with_sub fetch =
      let b₁ = set b Comp.tgt_rx rx in
      if fetch
      then set (record (set b₁ Comp.tgt_sub fetched) { io_class = write_r2t }) Comp.net_data
          fetch_ns
      else set b₁ Comp.tgt_sub posted

  abbrev with_data : Bool → Bool → Breakdown
  with_data fetch timed =
      let b₂ = with_sub fetch in if timed then set b₂ Comp.net_data timed_ns else b₂

  abbrev with_all : Bool → Bool → Breakdown
  with_all fetch timed = set (set (with_data fetch timed) Comp.tgt_be be) Comp.tgt_cmpl cmpl

  with_sub-sum :
      (fetch : Bool) → NoTarget b → path_sum (with_sub fetch) ≡ path_sum b +ℤ rx +ℤ sub_of fetch
  unfolding comps
  with_sub-sum true n =
      path_sum-set_detail _ Comp.net_data fetch_ns refl
      ∙ path_sum-class (set (set b Comp.tgt_rx rx) Comp.tgt_sub fetched) write_r2t
      ∙ path_sum-set (set b Comp.tgt_rx rx) Comp.tgt_sub fetched refl n.sub
      ∙ ap (λ z. z +ℤ fetched) (path_sum-set b Comp.tgt_rx rx refl n.rx)
  with_sub-sum false n =
      path_sum-set (set b Comp.tgt_rx rx) Comp.tgt_sub posted refl n.sub
      ∙ ap (λ z. z +ℤ posted) (path_sum-set b Comp.tgt_rx rx refl n.rx)

  with_data-sum :
      (fetch timed : Bool)
      → NoTarget b
      → Untouched b (with_data fetch timed)
        × ((with_data fetch timed).valid Comp.tgt_be ≡ false)
        × ((with_data fetch timed).valid Comp.tgt_cmpl ≡ false)
        × (path_sum (with_data fetch timed) ≡ path_sum b +ℤ rx +ℤ sub_of fetch)
  unfolding comps
  with_data-sum true true n = (
    (refl, refl, refl, refl, refl),
    n.be,
    n.cmpl,
    path_sum-set_detail _ Comp.net_data timed_ns refl ∙ with_sub-sum true n,
  )
  with_data-sum false true n = (
    (refl, refl, refl, refl, refl),
    n.be,
    n.cmpl,
    path_sum-set_detail _ Comp.net_data timed_ns refl ∙ with_sub-sum false n,
  )
  with_data-sum true false n = ((refl, refl, refl, refl, refl), n.be, n.cmpl, with_sub-sum true n)
  with_data-sum false false n = ((refl, refl, refl, refl, refl), n.be, n.cmpl, with_sub-sum false n)

  with_all-sum :
      (fetch timed : Bool)
      → NoTarget b
      → Untouched b (with_all fetch timed)
        × (path_sum (with_all fetch timed) ≡ path_sum b +ℤ rx +ℤ sub_of fetch +ℤ be +ℤ cmpl)
  unfolding comps
  with_all-sum fetch timed n =
      let b₃ = with_data fetch timed in
      let (same, hb, hc, sum) = with_data-sum fetch timed n in
      (
        same,
        path_sum-set (set b₃ Comp.tgt_be be) Comp.tgt_cmpl cmpl refl hc
            ∙ ap (λ z. z +ℤ cmpl) (path_sum-set b₃ Comp.tgt_be be refl hb ∙ ap (λ z. z +ℤ be) sum),
      )

-- The sum, the end-to-end time and its validity are those of `b`.
abbrev pub Keeps : Breakdown → Breakdown → Type 0
Keeps b b' =
    (b'.valid Comp.e2e ≡ b.valid Comp.e2e)
    × (b'.comp Comp.e2e ≡ b.comp Comp.e2e)
    × (path_sum b' ≡ path_sum b)

settle_all : (X S V R r : ℤ) → X ≡ S +ℤ V → V ≡ R → X +ℤ (r -ℤ R) -ℤ r ≡ S
settle_all X S V R r e f = rw (e, f) (omega int_laws)

module _ (t : TgtRec) (T : TgtTs → ℕ) (small : (e : TgtTs) → T e < 2 ^ 63) where
  abbrev timed : Bool
  timed = not t.hdr.flags.write && nonzero (T TgtTs.c2h_sent) && nonzero (T TgtTs.send_done)

  -- The target's components add up to its residence, the RDMA READ of a write left out.
  residence :
      (fetch : Bool)
      → d (T TgtTs.cmd_proc) (T TgtTs.cmd_arr)
          +ℤ ((if fetch
                then d (T TgtTs.r2t_sent) (T TgtTs.cmd_proc) +ℤ d (T TgtTs.exec) (T TgtTs.data_proc)
                else d (T TgtTs.exec) (T TgtTs.cmd_proc))
              +ℤ (d (T TgtTs.complete) (T TgtTs.exec) +ℤ d (T TgtTs.rsp_sent) (T TgtTs.complete)))
        ≡ d (T TgtTs.rsp_sent) (T TgtTs.cmd_arr)
          -ℤ (if fetch then d (T TgtTs.data_proc) (T TgtTs.r2t_sent) else pos 0)
  residence true = simp (dt T small, diff-add, diff-sub) (diff-eq _ _ _ _ (omega arith))
  residence false = simp (dt T small, zero-diff, diff-add, diff-sub) (diff-eq _ _ _ _ (omega arith))

  pub rdma_split-Keeps :
      (b : Breakdown) → NoTarget b → b.valid Comp.remote ≡ true → Keeps b (rdma_split t T b)
  unfolding rdma_split comps
  rdma_split-Keeps b n hr =
      let fetch = t.hdr.flags.rdma_read in
      let rx = d (T TgtTs.cmd_proc) (T TgtTs.cmd_arr) in
      let fetched =
        d (T TgtTs.r2t_sent) (T TgtTs.cmd_proc) +ℤ d (T TgtTs.exec) (T TgtTs.data_proc) in
      let posted = d (T TgtTs.exec) (T TgtTs.cmd_proc) in
      let fetch_ns =
        if◌then◌else◌ {A = ℤ} fetch (d (T TgtTs.data_proc) (T TgtTs.r2t_sent)) (pos 0) in
      let timed_ns = d (T TgtTs.send_done) (T TgtTs.c2h_sent) in
      let be = d (T TgtTs.complete) (T TgtTs.exec) in
      let cmpl = d (T TgtTs.rsp_sent) (T TgtTs.complete) in
      let R = d (T TgtTs.rsp_sent) (T TgtTs.cmd_arr) -ℤ fetch_ns in
      let b₅ = with_all b rx fetched posted fetch_ns timed_ns be cmpl fetch timed in
      let (same, sum) = with_all-sum b rx fetched posted fetch_ns timed_ns be cmpl fetch timed n in
      let (same', sum') = backend_details-sum T (split_remote R b₅) in
      (
        same'.0 ∙ same.0,
        same'.1 ∙ same.1,
        sum'
            ∙ split_remote-sum b₅ R (same.2 ∙ hr) (same.4 ∙ n.net)
            ∙ settle_all (path_sum b₅) (path_sum b) _ R (b₅.comp Comp.remote) (sum ∙ simp +ℤ_assoc)
                (residence fetch),
      )
