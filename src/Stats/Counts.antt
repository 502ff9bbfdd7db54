-- ===== src/Stats/Counts.antt =====
-- The counts of `struct ntp_group` of src/stats.c.
use ntprof.Prelude.{
  ℕ, ◌+◌, ◌≤◌, ◌≡◌, ◌≢◌, refl, List, [], ◌∷◌, Option, none, some, arith, sum_by, false, Bool-cases,
  inl, inr, length,
}
use ntprof.Model.Breakdown.{
  Breakdown, ModelErr, ok, incomplete_host, incomplete_target, have_all, io_class_of,
}
use ntprof.Model.Errors.{breakdown-joined}
use ntprof.Model.Host.{host_complete}
use ntprof.Model.Rdma.{host_req_rdma}
use ntprof.Model.Run.{breakdown, breakdown_rdma, breakdown_tcp, is_rdma}
use ntprof.Record.{HostRec, TgtRec}
use ntprof.Stats.{
  Stats, Group, GroupKey, new_group, same_key, on_group, add_record, count_record, add_samples,
  stats_add, key_for,
}

-- The records of all groups.
unfoldable pub total : Stats → ℕ
total s = sum_by (λ (g : Group). g.records) s.groups

-- A record is in at most one of three ways in the counts of its group.
abbrev pub IsCounted : Group → Type 0
IsCounted g = g.bad_host + g.bad_target + g.joined ≤ g.records

abbrev pub AreCounted : List Group → Type 0
AreCounted [] = Unit
AreCounted (g ∷ gs) = IsCounted g × AreCounted gs

-- A run of `ntp_stats_add` over records.
unfoldable pub add_all : Stats → List (HostRec × Option TgtRec) → Stats
add_all s [] = s
add_all s ((h, t) ∷ rs) = add_all (stats_add s h t) rs

on_group-records :
    (k : GroupKey) (f : Group → Group) (gs : List Group)
    → ((g : Group) → (f g).records ≡ g.records + 1)
    → sum_by (λ (g : Group). g.records) (on_group k f gs) ≡ sum_by (λ (g : Group). g.records) gs + 1
unfolding on_group sum_by
on_group-records k f [] h = omega (arith, h (new_group k))
on_group-records k f (g ∷ gs) h = elim (Bool-cases (same_key g.key k)) [
  | inl e ↦ rw e (omega (arith, h g))
  | inr e ↦ rw e (omega (arith, on_group-records k f gs h))
]

on_group-AreCounted :
    (k : GroupKey) (f : Group → Group) (gs : List Group)
    → ((g : Group) → IsCounted g → IsCounted (f g))
    → AreCounted gs
    → AreCounted (on_group k f gs)
unfolding on_group
on_group-AreCounted k f [] h a = (h (new_group k) (omega arith), tt)
on_group-AreCounted k f (g ∷ gs) h (a, b) = elim (Bool-cases (same_key g.key k)) [
  | inl e ↦ rw e (h g a, b)
  | inr e ↦ rw e (a, on_group-AreCounted k f gs h b)
]

add_record-records :
    (h : HostRec) (t : Option TgtRec) (err : ModelErr) (b : Breakdown) (g : Group)
    → (add_record h t err b g).records ≡ g.records + 1
unfolding add_record count_record add_samples
add_record-records h t ok b g = refl
add_record-records h t incomplete_host b g = refl
add_record-records h t incomplete_target b g = refl

add_record-IsCounted :
    (h : HostRec) (t : Option TgtRec) (err : ModelErr) (b : Breakdown) (g : Group)
    → (err ≡ incomplete_target → b.joined ≡ false)
    → IsCounted g
    → IsCounted (add_record h t err b g)
unfolding add_record count_record add_samples
add_record-IsCounted h t ok b g e c = ground arith
add_record-IsCounted h t incomplete_host b g e c = omega arith
add_record-IsCounted h t incomplete_target b g e c = rw (e refl) (omega arith)

without_target : (h : HostRec) → (breakdown h none).0 ≢ incomplete_target
unfolding breakdown breakdown_rdma breakdown_tcp
without_target h = elim (Bool-cases (is_rdma h.hdr.transport)) [
  | inl r ↦ elim (Bool-cases (have_all h.ts host_req_rdma)) [
    | inl e ↦ rw (r, e) (λ p. cc)
    | inr e ↦ rw (r, e) (λ p. cc)
  ]
  | inr r ↦ elim (Bool-cases (host_complete h (io_class_of h))) [
    | inl e ↦ rw (r, e) (λ p. cc)
    | inr e ↦ rw (r, e) (λ p. cc)
  ]
]

unused-joined :
    (h : HostRec) (t : Option TgtRec)
    → (breakdown h t).0 ≡ incomplete_target
    → (breakdown h t).1.joined ≡ false
unused-joined h none e = absurd (without_target h e)
unused-joined h (some t) e = elim (Bool-cases (breakdown h (some t)).1.joined) [
  | inl j ↦ let o = (breakdown-joined h t).0 j in cc
  | inr j ↦ j
]

module _ (s : Stats) (h : HostRec) (t : Option TgtRec) where
  pub stats_add-total : total (stats_add s h t) ≡ total s + 1
  unfolding stats_add total
  stats_add-total =
      on_group-records (key_for s h) (add_record h t (breakdown h t).0 (breakdown h t).1) s.groups
        (λ g. add_record-records h t (breakdown h t).0 (breakdown h t).1 g)

  stats_add-AreCounted : AreCounted s.groups → AreCounted (stats_add s h t).groups
  unfolding stats_add
  stats_add-AreCounted c =
      on_group-AreCounted (key_for s h) (add_record h t (breakdown h t).0 (breakdown h t).1)
        s.groups
        (λ g. add_record-IsCounted h t (breakdown h t).0 (breakdown h t).1 g (unused-joined h t)) c

-- From statistics in which no group's bad_host, bad_target and joined together exceed its records,
-- adding a list of records with or without target records keeps it so, and the records of all
-- groups grow by the length of the list.
pub add_all-AreCounted :
    (s : Stats) (rs : List (HostRec × Option TgtRec))
    → AreCounted s.groups
    → (total (add_all s rs) ≡ total s + length rs) × AreCounted (add_all s rs).groups
unfolding add_all
add_all-AreCounted s [] c = (omega arith, c)
add_all-AreCounted s ((h, t) ∷ rs) c =
    let (n, d) = add_all-AreCounted (stats_add s h t) rs (stats_add-AreCounted s h t c) in
    (omega (arith, n, stats_add-total s h t), d)
