-- ===== src/Model/Errors.antt =====
-- What `ntp_breakdown` of src/model.c returns, and what it leaves in each case.
use ntprof.Prelude.{
  ◌≡◌, ◌≢◌, ◌↔◌, if-holds, if◌then◌else◌, ap, refl, Bool, true, false, arith, List, Bool-cases, inl,
  inr, Option, none, some, Option-cases, ◌∙◌,
}
use ntprof.Model.Breakdown.{Breakdown, ok, incomplete_host, have_all, io_class_of}
use ntprof.Model.Comp.{IoClass, read, write_inline, write_r2t, Stage}
use ntprof.Model.Host.{
  common_host, host_class, host_side, host_complete, host_req_read, host_req_inline, host_req_r2t,
}
use ntprof.Model.Rdma.{host_req_rdma, rdma_host_side, rdma_times, rdma_target_side}
use ntprof.Model.Target.{target_side}
use ntprof.Model.Run.{joined_or, rdma_tried, breakdown, breakdown_rdma, breakdown_tcp, is_rdma}
use ntprof.Model.Stages.{stage, stages, group, parts_of, sum_parts}
use ntprof.Prelude.Int.{pos}
use ntprof.Model.Sum.{fresh}
use ntprof.Record.{HostTs, HostRec, TgtRec}

-- The host events that a record needs, by its transport and class.
abbrev pub required : Bool → IoClass → List HostTs
required true c = host_req_rdma
required false read = host_req_read
required false write_inline = host_req_inline
required false write_r2t = host_req_r2t

host_complete-eq :
    (h : HostRec) (c : IoClass) → host_complete h c ≡ have_all h.ts (required false c)
unfolding host_complete
host_complete-eq h read = refl
host_complete-eq h write_inline = refl
host_complete-eq h write_r2t = refl

rdma-missing :
    (h : HostRec) (t : Option TgtRec) (b : Breakdown)
    → have_all h.ts host_req_rdma ≡ false
    → breakdown_rdma h t b ≡ (incomplete_host, b)
unfolding breakdown_rdma
rdma-missing h t b e = rw e

tcp-missing :
    (h : HostRec) (t : Option TgtRec) (b : Breakdown)
    → host_complete h b.io_class ≡ false
    → breakdown_tcp h t b ≡ (incomplete_host, b)
unfolding breakdown_tcp
tcp-missing h t b e = rw e

-- Without one of the events that its transport and class need, a host record gives
-- `incomplete_host` and a breakdown that holds nothing but the class, whatever the target record.
pub breakdown-missing :
    (h : HostRec) (t : Option TgtRec)
    → have_all h.ts (required (is_rdma h.hdr.transport) (io_class_of h)) ≡ false
    → breakdown h t ≡ (incomplete_host, fresh (io_class_of h))
unfolding breakdown
breakdown-missing h t e = elim (Bool-cases (is_rdma h.hdr.transport)) [
  | inl r ↦ rw r (rdma-missing h t _ (rw r at e))
  | inr r ↦ rw r (tcp-missing h t _ (rw (host_complete-eq h (io_class_of h)) (rw r at e)))
]

rdma-present :
    (h : HostRec) (t : Option TgtRec) (b : Breakdown)
    → have_all h.ts host_req_rdma ≡ true
    → (breakdown_rdma h t b).0 ≢ incomplete_host
unfolding breakdown_rdma
rdma-present h none b e = rw e (λ p. cc)
rdma-present h (some t) b e = rw e (ground arith)

tcp-present :
    (h : HostRec) (t : Option TgtRec) (b : Breakdown)
    → host_complete h b.io_class ≡ true
    → (breakdown_tcp h t b).0 ≢ incomplete_host
unfolding breakdown_tcp
tcp-present h none b e = rw e (λ p. cc)
tcp-present h (some t) b e = rw e (ground arith)

-- With all the host events that its transport and class need, a record never gives
-- `incomplete_host`.
pub breakdown-present :
    (h : HostRec) (t : Option TgtRec)
    → have_all h.ts (required (is_rdma h.hdr.transport) (io_class_of h)) ≡ true
    → (breakdown h t).0 ≢ incomplete_host
unfolding breakdown
breakdown-present h t e = elim (Bool-cases (is_rdma h.hdr.transport)) [
  | inl r ↦ rw r (rdma-present h t _ (rw r at e))
  | inr r ↦ rw r (tcp-present h t _ (rw (host_complete-eq h (io_class_of h)) (rw r at e)))
]

rdma_target_side-idle :
    (t : TgtRec) (b : Breakdown) → (rdma_target_side t b).0 ≡ false → (rdma_target_side t b).1 ≡ b
unfolding rdma_target_side
rdma_target_side-idle t b e = elim (Option-cases (rdma_times t)) [
  | inl o ↦ rw (o, rdma_target_side) refl
  | inr (T, o) ↦ let e' : true ≡ false = rw (o, rdma_target_side) at e in cc
]

-- A target record that is not put to use leaves the host's breakdown as it is.
pub rdma_tried-idle :
    (h : HostRec) (t : TgtRec) (b : Breakdown)
    → (rdma_tried h t b).0 ≡ false
    → (rdma_tried h t b).1 ≡ b
rdma_tried-idle h t b =
    if-holds (λ (r : Bool × Breakdown). r.0 ≡ false → r.1 ≡ b) _ (rdma_target_side-idle t b)
      (λ e. refl)

pub target_side-idle :
    (u : Bool) (t : TgtRec) (b : Breakdown) → u ≡ false → (if u then target_side t b else b) ≡ b
target_side-idle u t b e = rw e refl

joined-group : (b : Breakdown) (s : Stage) → (group b s).joined ≡ b.joined
unfolding stage
joined-group b s = elim (Option-cases (sum_parts b (parts_of s) (pos 0))) [
  | inl e ↦ rw (e, stage)
  | inr (z, e) ↦ rw (e, stage)
]

joined-stages : (b : Breakdown) → (stages b).joined ≡ b.joined
unfolding stages
joined-stages b = simp joined-group

joined-common_host : (h : HostRec) (b : Breakdown) → (common_host h b).joined ≡ b.joined
unfolding common_host
joined-common_host h b = ground arith

joined-rdma_host_side : (h : HostRec) (b : Breakdown) → (rdma_host_side h b).joined ≡ b.joined
unfolding rdma_host_side
joined-rdma_host_side h b = joined-common_host h b

joined-host_class :
    (h : HostRec) (c : IoClass) (b : Breakdown) → (host_class h c b).joined ≡ b.joined
unfolding host_class
joined-host_class h read b = ground arith
joined-host_class h write_inline b = refl
joined-host_class h write_r2t b = refl

joined-host_side : (h : HostRec) (b : Breakdown) → (host_side h b).joined ≡ b.joined
unfolding host_side
joined-host_side h b = joined-host_class h _ _ ∙ joined-common_host h b

joined_or-joined :
    (u : Bool) (b b' : Breakdown)
    → b.joined ≡ false
    → (u ≡ false → b' ≡ b)
    → ((joined_or u b').1.joined ≡ true) ↔ ((joined_or u b').0 ≡ ok)
joined_or-joined true b b' e same = (λ _. refl, λ _. joined-stages _)
joined_or-joined false b b' e same =
    (λ p. cc (p, joined-stages b', ap (λ (b : Breakdown). b.joined) (same refl), e), λ p. cc)

-- A breakdown with a target record is marked as joined exactly when the result is ok.
pub breakdown-joined :
    (h : HostRec) (t : TgtRec)
    → ((breakdown h (some t)).1.joined ≡ true) ↔ ((breakdown h (some t)).0 ≡ ok)
unfolding breakdown breakdown_rdma breakdown_tcp
breakdown-joined h t = elim (Bool-cases (is_rdma h.hdr.transport)) [
  | inl r ↦ elim (Bool-cases (have_all h.ts host_req_rdma)) [
    | inl c ↦
        let b = rdma_host_side h (fresh (io_class_of h)) in
        rw (r, c) (joined_or-joined _ b _ (joined-rdma_host_side h _) (rdma_tried-idle h t b))
    | inr c ↦ rw (r, c) (λ p. cc, λ p. cc)
  ]
  | inr r ↦ elim (Bool-cases (host_complete h (io_class_of h))) [
    | inl c ↦
        let b = host_side h (fresh (io_class_of h)) in
        rw (r, c) (joined_or-joined _ b _ (joined-host_side h _) (target_side-idle _ t b))
    | inr c ↦ rw (r, c) (λ p. cc, λ p. cc)
  ]
]
