-- ===== src/Model/Sum.antt =====
-- The components of a breakdown add up: the sum over the path, and what each side adds to it.
use ntprof.Prelude.{
  ℕ, ◌^◌, ◌<◌, ◌≡◌, refl, Bool, true, false, List, [], ◌∷◌, ◌&&◌, not, ◌==◌, ◌||◌, ◌≢◌, map,
  replicate, if◌then◌else◌, arith, leb, nonzero, ltb,
}
use ntprof.Prelude.Int.{
  ℤ, pos, pos_part, neg_part, ◌+ℤ◌, ◌-ℤ◌, +ℤ_parts, -ℤ_parts, eq_of_parts, sub-add-add, diff,
  zero-diff, diff-add, diff-sub, diff-eq, signed64-diff, eq-diff,
}
use ntprof.Model.Comp.{IoClass, read, write_inline, write_r2t, Comp, comp_index, comps, all_comps}
use ntprof.Model.Breakdown.{Breakdown, empty, d}
use ntprof.Model.Host.{host_side}
use ntprof.Model.Rdma.{rdma_host_side}
use ntprof.Record.{HostTs, HostRec}

-- What a component counts for: its value where it is valid.
abbrev pub value : Breakdown → Comp → ℤ
value b c = if b.valid c then b.comp c else pos 0

-- The components on the path: neither the end-to-end time nor a detail that splits another.
abbrev pub is_path : Comp → Bool
unfolding comps
is_path c = not (comps c).detail && not (comp_index c == comp_index Comp.e2e)

unfoldable pub sum_values : Breakdown → List Comp → ℤ
sum_values b [] = pos 0
sum_values b (c ∷ cs) = if is_path c then value b c +ℤ sum_values b cs else sum_values b cs

abbrev pub path_sum : Breakdown → ℤ
path_sum b = sum_values b all_comps

-- The breakdown that `ntp_breakdown` starts from.
abbrev pub fresh : IoClass → Breakdown
fresh c = record empty { io_class = c }

-- The components that only a target record gives.
abbrev pub target_comps : List Comp
target_comps =
    Comp.net ∷ Comp.tgt_rx ∷ Comp.tgt_sub ∷ Comp.tgt_wait ∷ Comp.tgt_data ∷ Comp.tgt_be
    ∷ Comp.tgt_cmpl ∷ []

-- A breakdown of the host side alone: its class, an end-to-end time and a remote time, no
-- component of the target, and a path that adds up.
abbrev pub IsHostForm : IoClass → Breakdown → Type 0
IsHostForm c b =
    (b.io_class ≡ c)
    × (b.valid Comp.e2e ≡ true)
    × (b.valid Comp.remote ≡ true)
    × (map b.valid target_comps ≡ replicate 7 false)
    × (path_sum b ≡ value b Comp.e2e)

pub ruleset differences = (sub-add-add, zero-diff, diff-add, diff-sub)

module _ (h : HostRec) (small : (e : HostTs) → h.ts e < 2 ^ 63) where
  H : HostTs → ℕ
  H = h.ts

  dh : (x y : HostTs) → d (h.ts x) (h.ts y) ≡ diff (h.ts x) (h.ts y)
  unfolding d
  dh x y = signed64-diff (h.ts x) (h.ts y) (small x) (small y)

  abbrev started : Bool
  started = nonzero (h.ts HostTs.start) && leb (h.ts HostTs.start) (h.ts HostTs.queue_rq)

  host_side-write :
      (c : IoClass) (n s : Bool)
      → c ≢ read
      → nonzero (h.ts HostTs.nvme_done) ≡ n
      → started ≡ s
      → IsHostForm c (host_side h (fresh c))
  unfolding sum_values host_side comps
  host_side-write read n s w p q = absurd (w refl)
  host_side-write write_inline true true w p q =
      rw (p, q) (refl, refl, refl, refl, simp (dh, differences) (diff-eq _ _ _ _ (omega arith)))
  host_side-write _ true true w p q =
      rw (p, q) (refl, refl, refl, refl, simp (dh, differences) (diff-eq _ _ _ _ (omega arith)))
  host_side-write _ false true w p q =
      rw (p, q) (refl, refl, refl, refl, simp (dh, differences) (diff-eq _ _ _ _ (omega arith)))
  host_side-write _ _ _ w p q =
      rw (p, q) (refl, refl, refl, refl, simp (dh, differences) (diff-eq _ _ _ _ (omega arith)))

  rdma_host_side-form :
      (c : IoClass) (n s : Bool)
      → nonzero (h.ts HostTs.nvme_done) ≡ n
      → started ≡ s
      → IsHostForm c (rdma_host_side h (fresh c))
  unfolding sum_values rdma_host_side comps
  rdma_host_side-form c true true p q =
      rw (p, q) (refl, refl, refl, refl, simp (dh, differences) (diff-eq _ _ _ _ (omega arith)))
  rdma_host_side-form c false true p q =
      rw (p, q) (refl, refl, refl, refl, simp (dh, differences) (diff-eq _ _ _ _ (omega arith)))
  rdma_host_side-form c _ _ p q =
      rw (p, q) (refl, refl, refl, refl, simp (dh, differences) (diff-eq _ _ _ _ (omega arith)))

  abbrev phased : Bool
  phased =
      not (nonzero h.c2h_busy_ns)
      || not (nonzero (h.ts HostTs.c2h_done))
      || ltb (h.ts HostTs.c2h_done) (h.ts HostTs.c2h_proc)
      || ltb (h.ts HostTs.rsp_proc) (h.ts HostTs.c2h_done)

  host_side-read :
      (n s f : Bool)
      → nonzero (h.ts HostTs.nvme_done) ≡ n
      → started ≡ s
      → phased ≡ f
      → IsHostForm read (host_side h (fresh read))
  unfolding sum_values host_side comps
  host_side-read true true true p q r =
      rw (p, q, r) (refl, refl, refl, refl, simp (dh, differences) (diff-eq _ _ _ _ (omega arith)))
  host_side-read true false true p q r =
      rw (p, q, r) (refl, refl, refl, refl, simp (dh, differences) (diff-eq _ _ _ _ (omega arith)))
  host_side-read false true true p q r =
      rw (p, q, r) (refl, refl, refl, refl, simp (dh, differences) (diff-eq _ _ _ _ (omega arith)))
  host_side-read false false true p q r =
      rw (p, q, r) (refl, refl, refl, refl, simp (dh, differences) (diff-eq _ _ _ _ (omega arith)))
  host_side-read _ _ _ p q r =
      rw (p, q, r) (refl, refl, refl, refl, simp (dh, differences) (diff-eq _ _ _ _ (omega arith)))

  -- Every form of the host side.
  pub host_side-form : (c : IoClass) → IsHostForm c (host_side h (fresh c))
  host_side-form read = host_side-read _ _ _ refl refl refl
  host_side-form write_inline = host_side-write write_inline _ _ (λ e. cc) refl refl
  host_side-form write_r2t = host_side-write write_r2t _ _ (λ e. cc) refl refl

  pub rdma_host_side-IsHostForm : (c : IoClass) → IsHostForm c (rdma_host_side h (fresh c))
  rdma_host_side-IsHostForm c = rdma_host_side-form c _ _ refl refl
