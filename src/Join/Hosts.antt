-- ===== src/Join/Hosts.antt =====
-- What becomes of the host records in the joiner of src/join.c.
use ntprof.Prelude.{
  ℕ, ◌+◌, ◌≤◌, ◌≡◌, refl, Option, nonzero, ◌&&◌, ◌==◌, if◌then◌else◌, Option-cases, Bool-cases, inl,
  inr, List, length, is_some, arith,
}
use ntprof.Join.Counts.{IsBalanced}
use ntprof.Join.Joiner.{
  Joiner, tgt_layout, host_layout, add_target, target_arrives, host_arrives, release_hosts, expire,
}
use ntprof.Join.Queue.{push, table_push-push, table_push-pending}
use ntprof.Join.Table.{table_take, table_push}
use ntprof.Join.Take.{table_take-queue, table_expire-queue}
use ntprof.Record.{HostRec, TgtRec}

-- The host records that the joiner has seen: matched, given up or waiting.
unfoldable pub seen : Joiner → ℕ
seen j = j.st.matched + j.st.host_unmatched + j.hosts.pending

abbrev pub found_count {ℓ} : {A : Type ℓ} → Option A → ℕ
found_count o = if is_some o then 1 else 0

push-le : {R : Type 0} (bound : ℕ) (q : List R) (r : R) → (push bound q r).0 ≤ 1
unfolding push
push-le bound q r = elim (Bool-cases (nonzero bound && length q == bound)) [
  | inl e ↦ rw (e, push) (omega arith)
  | inr e ↦ rw (e, push) (omega arith)
]

given_up : (dropped u : ℕ) → dropped ≤ 1 → (if nonzero dropped then u + 1 else u) ≡ u + dropped
given_up dropped u h = ground arith

module _ (j : Joiner) (ok : IsBalanced j) where
  dropped-le : (h : HostRec) → (table_push host_layout j.hosts h j.max_per_key).0 ≤ 1
  dropped-le h =
      let (ok', d, q) = table_push-push host_layout j.hosts ok.hosts_ok h j.max_per_key in
      rw d (push-le j.max_per_key _ h)

  pub host_arrives-seen :
      (h : HostRec)
      → (seen (host_arrives j h).1 ≡ seen j + 1)
        × ((host_arrives j h).1.st.matched ≡ j.st.matched + found_count (host_arrives j h).0)
        × (j.st.host_unmatched ≤ (host_arrives j h).1.st.host_unmatched)
  unfolding host_arrives seen
  host_arrives-seen h = elim (Option-cases (table_take tgt_layout j.targets h.id).0) [
    | inl f ↦
        let pushed = table_push-pending host_layout j.hosts ok.hosts_ok h j.max_per_key in
        let one =
          given_up (table_push host_layout j.hosts h j.max_per_key).0 j.st.host_unmatched
            (dropped-le h) in
        rw (f, host_arrives) (omega (arith, pushed, one), omega arith, omega (arith, one))
    | inr (t, f) ↦ rw (f, host_arrives) (omega arith, refl, omega arith)
  ]

  pub target_arrives-seen :
      (t : TgtRec)
      → (seen (target_arrives j t).1 ≡ seen j)
        × ((target_arrives j t).1.st.matched ≡ j.st.matched + found_count (target_arrives j t).0)
        × ((target_arrives j t).1.st.host_unmatched ≡ j.st.host_unmatched)
  unfolding target_arrives add_target seen
  target_arrives-seen t =
      let (ok', e, n, q) = table_take-queue host_layout j.hosts ok.hosts_ok t.id in
      elim (Option-cases (table_take host_layout j.hosts t.id).0) [
        | inl f ↦ rw (f, target_arrives, add_target) (omega (arith, rw f at n), omega arith, refl)
        | inr (h, f) ↦ rw (f, target_arrives) (omega (arith, rw f at n), refl, refl)
      ]

  pub release_hosts-seen :
      (b : ℕ)
      → (seen (release_hosts j b).1 ≡ seen j)
        × ((release_hosts j b).1.hosts.pending + length (release_hosts j b).0 ≡ j.hosts.pending)
        × ((release_hosts j b).1.st.matched ≡ j.st.matched)
        × ((release_hosts j b).1.st.host_unmatched
            ≡ j.st.host_unmatched + length (release_hosts j b).0)
  unfolding release_hosts seen
  release_hosts-seen b =
      let (ok', n, q) = table_expire-queue host_layout j.hosts ok.hosts_ok b in
      (omega (arith, n), n, refl, refl)

  pub expire-seen :
      (b : ℕ)
      → (seen (expire j b).1 ≡ seen j)
        × ((expire j b).1.st.matched ≡ j.st.matched)
        × ((expire j b).1.st.host_unmatched ≡ j.st.host_unmatched)
  unfolding expire seen
  expire-seen b = (refl, refl, refl)
