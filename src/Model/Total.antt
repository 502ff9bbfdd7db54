-- ===== src/Model/Total.antt =====
-- The components of a breakdown add up to the end-to-end time, for every transport and class,
-- with and without a target record: `ntp_breakdown` of src/model.c.
use ntprof.Prelude.{
  ℕ, ◌^◌, ◌<◌, ◌≡◌, ◌≢◌, refl, sym, ◌∙◌, Bool, true, false, ◌&&◌, ◌||◌, not, arith, ltb, nonzero,
  Bool-cases, Option-cases, inl, inr, Option, none, some, ◌==◌, if-holds,
}
use ntprof.Prelude.Int.{pos}
use ntprof.Model.Breakdown.{Breakdown, incomplete_host, have_all, io_class_of}
use ntprof.Model.Comp.{IoClass, Comp, Stage, comps}
use ntprof.Model.Host.{host_side, host_complete}
use ntprof.Model.Rdma.{
  rdma_times, rdma_target_side, rdma_host_side, drop_foreign_posting, estimate_posting,
  host_req_rdma, tgt_req_rdma,
}
use ntprof.Model.Run.{breakdown, breakdown_rdma, breakdown_tcp, joined_or, is_rdma}
use ntprof.Model.Split.{NoTarget, target_side-sum}
use ntprof.Model.SplitRdma.{Keeps, rdma_split-Keeps}
use ntprof.Model.Stages.{stage, stages, sum_parts, group, parts_of}
use ntprof.Model.Sum.{
  path_sum, sum_values, fresh, IsHostForm, host_side-form, rdma_host_side-IsHostForm,
}
use ntprof.Record.{HostTs, TgtTs, HostRec, TgtRec, stamp_tgt, tgt_index}

-- Every time of the record is below 2 ^ 63 ns.
abbrev pub IsSmallTarget : Option TgtRec → Type 0
IsSmallTarget none = Unit
IsSmallTarget (some t) = (e : TgtTs) → t.ts e < 2 ^ 63

-- The end-to-end time has a value, and the path adds up to it.
abbrev pub AddsUp : Breakdown → Type 0
AddsUp b = (b.valid Comp.e2e ≡ true) × (path_sum b ≡ b.comp Comp.e2e)

AddsUp-keep : (b b' : Breakdown) → AddsUp b → Keeps b b' → AddsUp b'
AddsUp-keep b b' (v, s) (kv, kc, ks) = (kv ∙ v, ks ∙ s ∙ sym kc)

form-AddsUp : (c : IoClass) (b : Breakdown) → IsHostForm c b → AddsUp b
form-AddsUp c b (class, timed, remote, unset, total) = (timed, rw timed at total)

form-NoTarget : (c : IoClass) (b : Breakdown) → IsHostForm c b → NoTarget b
form-NoTarget c b (class, timed, remote, unset, total) = record {
  net = cc;
  rx = cc;
  sub = cc;
  wait = cc;
  busy = cc;
  be = cc;
  cmpl = cc;
}

group-Keeps : (b : Breakdown) (s : Stage) → Keeps b (group b s)
unfolding stage sum_values comps
group-Keeps b s = elim (Option-cases (sum_parts b (parts_of s) (pos 0))) [
  | inl e ↦ rw (e, stage) (refl, refl, refl)
  | inr (z, e) ↦ rw (e, stage) (refl, refl, refl)
]

Keeps-trans : (a b c : Breakdown) → Keeps a b → Keeps b c → Keeps a c
Keeps-trans a b c (v, e, s) (v', e', s') = (v' ∙ v, e' ∙ e, s' ∙ s)

pub stages-Keeps : (b : Breakdown) → Keeps b (stages b)
unfolding stages
stages-Keeps b = Keeps-trans _ _ _ (group-Keeps b Stage.s1) (
    Keeps-trans _ _ _ (group-Keeps _ Stage.s2) (
      Keeps-trans _ _ _ (group-Keeps _ Stage.s3_s5)
        (Keeps-trans _ _ _ (group-Keeps _ Stage.s6) (group-Keeps _ Stage.s7_s9))))

stamp-small :
    (T : TgtTs → ℕ) (e : TgtTs) (v : ℕ)
    → ((x : TgtTs) → T x < 2 ^ 63)
    → v < 2 ^ 63
    → (x : TgtTs) → stamp_tgt T e v x < 2 ^ 63
stamp-small T e v h k x = elim (Bool-cases (tgt_index e == tgt_index x)) [
  | inl p ↦ rw p k
  | inr p ↦ rw p (h x)
]

-- The times that `rdma_target_side` uses.
abbrev AreSmall : Option ((TgtTs → ℕ) × Bool) → Type 0
AreSmall none = Unit
AreSmall (some (T, estimated)) = (x : TgtTs) → T x < 2 ^ 63

drop_foreign_posting-small :
    (T : TgtTs → ℕ) → ((x : TgtTs) → T x < 2 ^ 63) → (x : TgtTs) → drop_foreign_posting T x < 2 ^ 63
unfolding drop_foreign_posting
drop_foreign_posting-small T h x =
    elim (Bool-cases (nonzero (T TgtTs.send_done) && ltb (T TgtTs.send_done) (T TgtTs.rsp_sent))) [
      | inl p ↦ rw p (
          stamp-small _ TgtTs.rsp_sent 0 (stamp-small T TgtTs.c2h_sent 0 h (omega arith))
            (omega arith) x)
      | inr p ↦ rw p (h x)
    ]

estimate_posting-small :
    (write : Bool) (T : TgtTs → ℕ)
    → ((x : TgtTs) → T x < 2 ^ 63)
    → (x : TgtTs) → estimate_posting write T x < 2 ^ 63
unfolding estimate_posting
estimate_posting-small true T h x = stamp-small T TgtTs.rsp_sent _ h (h TgtTs.complete) x
estimate_posting-small false T h x =
    stamp-small _ TgtTs.c2h_sent _ (stamp-small T TgtTs.rsp_sent _ h (h TgtTs.complete))
      (h TgtTs.complete) x

rdma_times-AreSmall : (t : TgtRec) → ((x : TgtTs) → t.ts x < 2 ^ 63) → AreSmall (rdma_times t)
unfolding rdma_times
rdma_times-AreSmall t h =
    let T = drop_foreign_posting t.ts in
    let small = drop_foreign_posting-small t.ts h in
    elim (Bool-cases (
      not (have_all t.ts tgt_req_rdma)
      || t.hdr.flags.rdma_read
        && (not (nonzero (t.ts TgtTs.r2t_sent)) || not (nonzero (t.ts TgtTs.data_proc))))) [
          | inl p ↦ rw p tt
          | inr p ↦ elim (Bool-cases (nonzero (T TgtTs.rsp_sent))) [
            | inl q ↦ rw (p, q) small
            | inr q ↦ elim (Bool-cases (nonzero (T TgtTs.send_done))) [
              | inl r ↦ rw (p, q, r) (estimate_posting-small t.hdr.flags.write T small)
              | inr r ↦ rw (p, q, r) tt
            ]
          ]
        ]

rdma_target_side-Keeps :
    (t : TgtRec) (b : Breakdown) (o : Option ((TgtTs → ℕ) × Bool))
    → AreSmall o
    → rdma_times t ≡ o
    → NoTarget b
    → b.valid Comp.remote ≡ true
    → Keeps b (rdma_target_side t b).1
unfolding rdma_target_side sum_values comps
rdma_target_side-Keeps t b none h e n hr = rw (e, rdma_target_side) (refl, refl, refl)
rdma_target_side-Keeps t b (some (T, true)) h e n hr =
    rw (e, rdma_target_side)
      (rdma_split-Keeps t T h (record b { post_estimated = true })
        (record {
          net = n.net;
          rx = n.rx;
          sub = n.sub;
          wait = n.wait;
          busy = n.busy;
          be = n.be;
          cmpl = n.cmpl;
        })
        hr)
rdma_target_side-Keeps t b (some (T, false)) h e n hr =
    rw (e, rdma_target_side) (rdma_split-Keeps t T h b n hr)

mark-Keeps : (b : Breakdown) (j : Bool) → Keeps b (record b { joined = j })
unfolding sum_values comps
mark-Keeps b j = (refl, refl, refl)

joined_or-AddsUp :
    (usable : Bool) (b b' : Breakdown) → AddsUp b → Keeps b b' → AddsUp (joined_or usable b').1
joined_or-AddsUp true b b' h k =
    AddsUp-keep b _ h
      (Keeps-trans b b' _ k (Keeps-trans b' _ _ (mark-Keeps b' true) (stages-Keeps _)))
joined_or-AddsUp false b b' h k = AddsUp-keep b _ h (Keeps-trans b b' _ k (stages-Keeps b'))

Keeps-refl : (b : Breakdown) → Keeps b b
unfolding sum_values comps
Keeps-refl b = (refl, refl, refl)

module _ (h : HostRec) (small : (e : HostTs) → h.ts e < 2 ^ 63) where
  rdma-AddsUp :
      (t : Option TgtRec) (c : IoClass)
      → IsSmallTarget t
      → have_all h.ts host_req_rdma ≡ true
      → AddsUp (breakdown_rdma h t (fresh c)).1
  unfolding breakdown_rdma
  rdma-AddsUp none c st e =
      rw e
        (AddsUp-keep _ _ (form-AddsUp c _ (rdma_host_side-IsHostForm h small c)) (stages-Keeps _))
  rdma-AddsUp (some t) c st e =
      let form = rdma_host_side-IsHostForm h small c in
      let b = rdma_host_side h (fresh c) in
      let keeps =
        rdma_target_side-Keeps t b (rdma_times t) (rdma_times-AreSmall t st) refl
          (form-NoTarget c b form) form.2 in
      rw e (
        joined_or-AddsUp _ b _ (form-AddsUp c b form)
          (if-holds (λ (r : Bool × Breakdown). Keeps b r.1) _ keeps (Keeps-refl b)))

  tcp-AddsUp :
      (t : Option TgtRec) (c : IoClass)
      → IsSmallTarget t
      → host_complete h c ≡ true
      → AddsUp (breakdown_tcp h t (fresh c)).1
  unfolding breakdown_tcp
  tcp-AddsUp none c st e =
      rw e (AddsUp-keep _ _ (form-AddsUp c _ (host_side-form h small c)) (stages-Keeps _))
  tcp-AddsUp (some t) c st e =
      let form = host_side-form h small c in
      let b = host_side h (fresh c) in
      rw e (
        joined_or-AddsUp _ b _ (form-AddsUp c b form) (
          if-holds (Keeps b) _ (target_side-sum t st b (form-NoTarget c b form) form.2)
            (Keeps-refl b)))

  -- If all times of both records are below 2^63 ns and the host record is complete, the breakdown
  -- has an end-to-end time and its valid components that are not details add up to it exactly, for
  -- TCP and RDMA, reads and both kinds of writes, and an absent, used or unusable target record.
  pub breakdown-AddsUp :
      (t : Option TgtRec)
      → IsSmallTarget t
      → (breakdown h t).0 ≢ incomplete_host
      → AddsUp (breakdown h t).1
  unfolding breakdown
  breakdown-AddsUp t st ne = elim (Bool-cases (is_rdma h.hdr.transport)) [
    | inl r ↦ rw r (elim (Bool-cases (have_all h.ts host_req_rdma)) [
      | inl e ↦ rdma-AddsUp t (io_class_of h) st e
      | inr e ↦ absurd (ne (rw (r, breakdown_rdma, e)))
    ])
    | inr r ↦ rw r (elim (Bool-cases (host_complete h (io_class_of h))) [
      | inl e ↦ tcp-AddsUp t (io_class_of h) st e
      | inr e ↦ absurd (ne (rw (r, breakdown_tcp, e)))
    ])
  ]
