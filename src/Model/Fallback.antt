-- ===== src/Model/Fallback.antt =====
-- What ntp_breakdown of src/model.c gives for a target record that it cannot use.
use ntprof.Prelude.{
  ℕ, ◌∙◌, ◌&&◌, ◌||◌, not, ltb, nonzero, leb, ◌≡◌, refl, sym, subst, Bool, true, false, none, some,
  List, [], ◌∷◌, map, replicate, Bool-cases, Option-cases, inl, inr,
}
use ntprof.Prelude.Int.{pos}
use ntprof.Model.Breakdown.{Breakdown, ok, incomplete_host, incomplete_target, have_all, data_phase}
use ntprof.Model.Comp.{IoClass, read, write_inline, write_r2t, Comp, Stage}
use ntprof.Model.Errors.{rdma_tried-idle, target_side-idle}
use ntprof.Model.Host.{common_host, host_class, host_side, host_complete, read_data_phase}
use ntprof.Model.Rdma.{host_req_rdma, rdma_host_side}
use ntprof.Model.Run.{Outcome, joined_or, breakdown, breakdown_rdma, breakdown_tcp, is_rdma}
use ntprof.Model.Stages.{stage, stages, group, parts_of, sum_parts}
use ntprof.Model.Sum.{fresh}
use ntprof.Record.{HostTs, HostRec, TgtRec}

-- All the components that come from a target record.
abbrev pub from_target : List Comp
from_target =
    Comp.net ∷ Comp.tgt_rx ∷ Comp.tgt_sub ∷ Comp.tgt_wait ∷ Comp.tgt_data ∷ Comp.tgt_be
    ∷ Comp.tgt_cmpl ∷ Comp.tgt_be_sub ∷ Comp.tgt_dev ∷ Comp.tgt_be_cmpl ∷ Comp.net_data ∷ []

-- Nothing in the breakdown comes from a target record.
pub record IsBare (b : Breakdown) : Type 0 where
  pub no_target : map b.valid from_target ≡ replicate 11 false
  pub alone : b.joined ≡ false
  pub exact : b.post_estimated ≡ false

-- And the remote time is one component.
pub record IsHostOnly (b : Breakdown) : Type 0 where
  pub remote : b.valid Comp.remote ≡ true
  pub bare : IsBare b

valid-IsBare :
    (b : Breakdown)
    → map b.valid from_target ≡ replicate 11 false
    → b.joined ≡ false
    → b.post_estimated ≡ false
    → IsBare b
valid-IsBare b p q r = record { no_target = p; alone = q; exact = r }

remote-IsHostOnly : (b : Breakdown) → b.valid Comp.remote ≡ true → IsBare b → IsHostOnly b
remote-IsHostOnly b p q = record { remote = p; bare = q }

common_host-IsBare : (h : HostRec) (c : IoClass) → IsBare (common_host h (fresh c))
unfolding common_host
common_host-IsBare h c =
    let started = nonzero (h.ts HostTs.start) && leb (h.ts HostTs.start) (h.ts HostTs.queue_rq) in
    elim (Bool-cases started) [
      | inl s ↦ elim (Bool-cases (nonzero (h.ts HostTs.nvme_done))) [
        | inl n ↦ rw (s, n, common_host) (valid-IsBare _ refl refl refl)
        | inr n ↦ rw (s, n, common_host) (valid-IsBare _ refl refl refl)
      ]
      | inr s ↦ elim (Bool-cases (nonzero (h.ts HostTs.nvme_done))) [
        | inl n ↦ rw (s, n, common_host) (valid-IsBare _ refl refl refl)
        | inr n ↦ rw (s, n, common_host) (valid-IsBare _ refl refl refl)
      ]
    ]

-- A component of the host leaves the breakdown so.
keep-IsHostOnly :
    (b b' : Breakdown)
    → map b'.valid from_target ≡ map b.valid from_target
    → b'.joined ≡ b.joined
    → b'.post_estimated ≡ b.post_estimated
    → b'.valid Comp.remote ≡ true
    → IsBare b
    → IsHostOnly b'
keep-IsHostOnly b b' p q r v k =
    remote-IsHostOnly b' v (valid-IsBare b' (p ∙ k.no_target) (q ∙ k.alone) (r ∙ k.exact))

rdma_host_side-IsHostOnly : (h : HostRec) (c : IoClass) → IsHostOnly (rdma_host_side h (fresh c))
unfolding rdma_host_side
rdma_host_side-IsHostOnly h c =
    keep-IsHostOnly (common_host h (fresh c)) _ refl refl refl refl (common_host-IsBare h c)

data_phase-IsHostOnly :
    (b : Breakdown) (first done next busy_ns : ℕ)
    → IsHostOnly b
    → IsHostOnly (data_phase first done next busy_ns Comp.host_data Comp.host_wait b).1
unfolding data_phase
data_phase-IsHostOnly b first done next busy_ns k =
    elim (Bool-cases
      (not (nonzero busy_ns) || not (nonzero done) || ltb done first || ltb next done)) [
        | inl e ↦ rw (e, data_phase) k
        | inr e ↦ rw (e, data_phase) (keep-IsHostOnly b _ refl refl refl k.remote k.bare)
      ]

read_data_phase-IsHostOnly :
    (h : HostRec) (b : Breakdown) → IsHostOnly b → IsHostOnly (read_data_phase h b)
unfolding read_data_phase
read_data_phase-IsHostOnly h b k =
    let H = h.ts in
    let r =
      data_phase (H HostTs.c2h_proc) (H HostTs.c2h_done) (H HostTs.rsp_proc) h.c2h_busy_ns
        Comp.host_data Comp.host_wait b in
    let p =
      data_phase-IsHostOnly b (H HostTs.c2h_proc) (H HostTs.c2h_done) (H HostTs.rsp_proc)
        h.c2h_busy_ns k in
    elim (Bool-cases r.0) [
      | inl e ↦ rw (e, read_data_phase) (keep-IsHostOnly r.1 _ refl refl refl p.remote p.bare)
      | inr e ↦ rw (e, read_data_phase) (keep-IsHostOnly r.1 _ refl refl refl p.remote p.bare)
    ]

host_class-IsHostOnly :
    (h : HostRec) (c : IoClass) (b : Breakdown) → IsBare b → IsHostOnly (host_class h c b)
unfolding host_class
host_class-IsHostOnly h read b k =
    read_data_phase-IsHostOnly h _ (keep-IsHostOnly b _ refl refl refl refl k)
host_class-IsHostOnly h write_inline b k = keep-IsHostOnly b _ refl refl refl refl k
host_class-IsHostOnly h write_r2t b k = keep-IsHostOnly b _ refl refl refl refl k

host_side-IsHostOnly : (h : HostRec) (c : IoClass) → IsHostOnly (host_side h (fresh c))
unfolding host_side
host_side-IsHostOnly h c = host_class-IsHostOnly h _ _ (common_host-IsBare h c)

group-IsHostOnly : (b : Breakdown) (s : Stage) → IsHostOnly b → IsHostOnly (group b s)
unfolding stage
group-IsHostOnly b s k = elim (Option-cases (sum_parts b (parts_of s) (pos 0))) [
  | inl e ↦ rw (e, stage) k
  | inr (z, e) ↦ rw (e, stage) (keep-IsHostOnly b _ refl refl refl k.remote k.bare)
]

stages-IsHostOnly : (b : Breakdown) → IsHostOnly b → IsHostOnly (stages b)
unfolding stages
stages-IsHostOnly b k = group-IsHostOnly _ Stage.s7_s9 (
    group-IsHostOnly _ Stage.s6 (
      group-IsHostOnly _ Stage.s3_s5 (group-IsHostOnly _ Stage.s2 (group-IsHostOnly b Stage.s1 k))))

-- What the host record alone gives is what a target record that is not used leaves.
abbrev FallsBack : Outcome → Outcome → Type 0
FallsBack alone tried = (alone ≡ (ok, tried.1)) × IsHostOnly tried.1

joined_or-FallsBack :
    (u : Bool) (b b' : Breakdown)
    → IsHostOnly b
    → (u ≡ false → b' ≡ b)
    → (joined_or u b').0 ≡ incomplete_target
    → FallsBack (ok, stages b) (joined_or u b')
joined_or-FallsBack true b b' h same e = cc
joined_or-FallsBack false b b' h same e =
    subst (λ (b' : Breakdown). FallsBack (ok, stages b) (incomplete_target, stages b'))
      (sym (same refl)) (refl, stages-IsHostOnly b h)

rdma-FallsBack :
    (h : HostRec) (t : TgtRec) (c : IoClass)
    → (breakdown_rdma h (some t) (fresh c)).0 ≡ incomplete_target
    → FallsBack (breakdown_rdma h none (fresh c)) (breakdown_rdma h (some t) (fresh c))
unfolding breakdown_rdma
rdma-FallsBack h t c e = elim (Bool-cases (have_all h.ts host_req_rdma)) [
  | inl f ↦
      let b = rdma_host_side h (fresh c) in
      rw f (
        joined_or-FallsBack _ b _ (rdma_host_side-IsHostOnly h c) (rdma_tried-idle h t b)
          (rw f at e))
  | inr f ↦ let e' : incomplete_host ≡ incomplete_target = rw f at e in cc
]

tcp-FallsBack :
    (h : HostRec) (t : TgtRec) (c : IoClass)
    → (breakdown_tcp h (some t) (fresh c)).0 ≡ incomplete_target
    → FallsBack (breakdown_tcp h none (fresh c)) (breakdown_tcp h (some t) (fresh c))
unfolding breakdown_tcp
tcp-FallsBack h t c e = elim (Bool-cases (host_complete h c)) [
  | inl f ↦
      let b = host_side h (fresh c) in
      rw f
        (joined_or-FallsBack _ b _ (host_side-IsHostOnly h c) (target_side-idle _ t b) (rw f at e))
  | inr f ↦ let e' : incomplete_host ≡ incomplete_target = rw f at e in cc
]

-- Where the result is incomplete_target, the host record alone gives ok and the same breakdown; it
-- has the remote time as one component, no component that comes from a target record, and is marked
-- neither as joined nor as estimated.
pub breakdown-fallback :
    (h : HostRec) (t : TgtRec)
    → (breakdown h (some t)).0 ≡ incomplete_target
    → (breakdown h none ≡ (ok, (breakdown h (some t)).1)) × IsHostOnly (breakdown h (some t)).1
unfolding breakdown
breakdown-fallback h t e = elim (Bool-cases (is_rdma h.hdr.transport)) [
  | inl r ↦ rw r (rdma-FallsBack h t _ (rw r at e))
  | inr r ↦ rw r (tcp-FallsBack h t _ (rw r at e))
]
