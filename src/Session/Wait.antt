-- ===== src/Session/Wait.antt =====
-- How long a host record waits in a recording: src/record.c.
use ntprof.Prelude.{
  ℕ, ◌+◌, ◌-◌, ◌%◌, ◌^◌, ◌≤◌, ◌<◌, ◌≡◌, sym, subst, ltb, Option, none, some, Option-cases,
  Bool-cases, inl, inr, List, [], ◌∷◌, arith,
}
use ntprof.Join.Counts
use ntprof.Join.Joiner.{Joiner, host_layout, release_hosts, expire}
use ntprof.Join.Queue.{queue}
use ntprof.Join.Table.{split_old}
use ntprof.Join.Take.{table_expire-queue}
use ntprof.Record.{HostRec, HostTs}
use ntprof.Session.{Session, with_joiner, release, expire_targets, tick, drain, host_wait_ns}
use ntprof.Session.Balance.{IsAccounted, accounted, add_unmatched-total}

-- No record of the list completed before `t`.
abbrev pub AllSince : ℕ → List HostRec → Type 0
AllSince t [] = Unit
AllSince t (h ∷ hs) = (t ≤ h.ts HostTs.blk_done) × AllSince t hs

-- No host record that waits completed before `t`.
abbrev pub WaitSince : ℕ → Option Joiner → Type 0
WaitSince t none = Unit
WaitSince t (some j) = (k : ℕ) → AllSince t (queue j.hosts k)

split_old-AllSince : (t : ℕ) (hs : List HostRec) → AllSince t (split_old host_layout.age t hs).1
unfolding split_old
split_old-AllSince t [] = tt
split_old-AllSince t (h ∷ hs) = elim (Bool-cases (ltb (h.ts HostTs.blk_done) t)) [
  | inl e ↦ rw (e, split_old) (split_old-AllSince t hs)
  | inr e ↦ rw (e, split_old) (ground arith, split_old-AllSince t hs)
]

release_hosts-WaitSince :
    (j : Joiner) → Counts.IsBalanced j → (t : ℕ) → WaitSince t (some (release_hosts j t).1)
unfolding release_hosts
release_hosts-WaitSince j ok t k =
    let (ok', n, q) = table_expire-queue host_layout j.hosts ok.hosts_ok t in
    subst (AllSince t) (sym (q k)) (split_old-AllSince t (queue j.hosts k))

release-WaitSince : (s : Session) → IsAccounted s → (t : ℕ) → WaitSince t (release s t).joiner
unfolding release
release-WaitSince s ok t = elim (Option-cases s.joiner) [
  | inl e ↦ rw (e, release) (rw e tt)
  | inr (j, e) ↦
      let (tables, n, m, r) = accounted s ok e in
      let (count, same_joiner, same_records) =
        add_unmatched-total (with_joiner s (release_hosts j t).1) (release_hosts j t).0 in
      rw (e, release, same_joiner) (release_hosts-WaitSince j tables t)
]

-- Target records that expire leave the host records.
expire_targets-WaitSince :
    (s : Session) (t b : ℕ) → WaitSince t s.joiner → WaitSince t (expire_targets s b).joiner
unfolding expire_targets expire
expire_targets-WaitSince s t b w = elim (Option-cases s.joiner) [
  | inl e ↦ rw (e, expire_targets) w
  | inr (j, e) ↦ rw (e, expire_targets, expire) (rw e at w)
]

-- At the end of an interval at a time of 64 bits and at least HOST_WAIT_NS, every host record that
-- still waits completed at most HOST_WAIT_NS before, and after the final release none waits that
-- completed before UINT64_MAX.
pub tick-WaitSince :
    (s : Session) (now : ℕ)
    → IsAccounted s
    → host_wait_ns ≤ now
    → now < 2 ^ 64
    → WaitSince (now - host_wait_ns) (tick s now).joiner × WaitSince (2 ^ 64 - 1) (drain s).joiner
unfolding tick drain
tick-WaitSince s now ok a b =
    let wait : (now + (2 ^ 64 - host_wait_ns)) % 2 ^ 64 ≡ now - host_wait_ns = omega arith in
    (
      rw wait (expire_targets-WaitSince _ _ _ (release-WaitSince s ok (now - host_wait_ns))),
      release-WaitSince s ok (2 ^ 64 - 1),
    )
