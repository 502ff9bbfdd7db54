-- ===== src/Session/Balance.antt =====
-- Where the host records of a recording go: src/record.c.
use ntprof.Prelude.{
  ℕ, ◌+◌, ◌≤◌, ◌≡◌, refl, subst, Bool, true, false, Option, none, some, ◌&&◌, ◌==◌, if-holds,
  Option-cases, inl, inr, List, [], ◌∷◌, length, arith, sum_by, get_or,
}
use ntprof.Join.Counts
use ntprof.Join.Hosts.{
  seen, host_arrives-seen, target_arrives-seen, release_hosts-seen, expire-seen,
}
use ntprof.Join.Joiner.{Joiner, joiner_new, host_arrives, target_arrives, release_hosts}
use ntprof.Join.Table.{table_init, empty_table}
use ntprof.Record.{HostRec, TgtRec}
use ntprof.Session.{
  Session, session_new, add_host, add_unmatched, with_joiner, on_host, on_target, save, on_record,
  release, expire_targets, tick, drain,
}
use ntprof.Stats.{stats_init, stats_reset}
use ntprof.Stats.Counts.{total, stats_add-total}
use ntprof.Trace.Layout.{host_of, tgt_of}
use ntprof.Trace.Reader.{Writer}

-- `n` host records came in and `r` are in the statistics: all of them without a joiner; with one,
-- each is matched, given up or waiting, and those in the statistics are the matched ones and some of
-- those given up.
abbrev pub Accounted : Option Joiner → ℕ → ℕ → Type 0
Accounted none n r = r ≡ n
Accounted (some j) n r =
    Counts.IsBalanced j
    × (n ≡ seen j)
    × (j.st.matched ≤ r)
    × (r ≤ j.st.matched + j.st.host_unmatched)

unfoldable pub IsAccounted : Session → Type 0
IsAccounted s = Accounted s.joiner s.host_records (total s.total)

add_host-total :
    (s : Session) (h : HostRec) (t : Option TgtRec)
    → total (add_host s h t).total ≡ total s.total + 1
unfolding add_host
add_host-total s h t = stats_add-total s.total h t

pub add_unmatched-total :
    (s : Session) (hs : List HostRec)
    → (total (add_unmatched s hs).total ≡ total s.total + length hs)
      × ((add_unmatched s hs).joiner ≡ s.joiner)
      × ((add_unmatched s hs).host_records ≡ s.host_records)
unfolding add_unmatched add_host
add_unmatched-total s [] = (omega arith, refl, refl)
add_unmatched-total s (h ∷ hs) =
    let (n, j, r) = add_unmatched-total (add_host s h none) hs in
    (omega (arith, n, add_host-total s h none), j, r)

module _ (s : Session) (ok : IsAccounted s) where
  pub accounted : {o : Option Joiner} → s.joiner ≡ o → Accounted o s.host_records (total s.total)
  unfolding IsAccounted
  accounted e = subst (λ o. Accounted o s.host_records (total s.total)) e ok

  on_host-IsAccounted : (h : HostRec) → IsAccounted (on_host s h)
  unfolding on_host IsAccounted
  on_host-IsAccounted h = elim (Option-cases s.joiner) [
    | inl e ↦ rw (e, on_host) (rw e (omega (arith, accounted e, stats_add-total s.total h none)))
    | inr (j, e) ↦
        let (tables, n, m, r) = accounted e in
        let (sum, hits, kept) = host_arrives-seen j tables h in
        let tables' = Counts.host_arrives-IsBalanced j tables h in
        elim (Option-cases (host_arrives j h).0) [
          | inl f ↦
              rw (e, f, on_host)
                (tables', omega arith, omega (arith, rw f at hits), omega (arith, rw f at hits))
          | inr (t, f) ↦
              rw (e, f, on_host)
                (
                  tables',
                  omega arith,
                  omega (arith, rw f at hits, stats_add-total s.total h (some t)),
                  omega (arith, rw f at hits, stats_add-total s.total h (some t)),
                )
        ]
  ]

  on_target-IsAccounted : (t : TgtRec) → IsAccounted (on_target s t)
  unfolding on_target IsAccounted
  on_target-IsAccounted t = elim (Option-cases s.joiner) [
    | inl e ↦ rw (e, on_target) ok
    | inr (j, e) ↦
        let (tables, n, m, r) = accounted e in
        let (sum, hits, kept) = target_arrives-seen j tables t in
        let tables' = Counts.target_arrives-IsBalanced j tables t in
        elim (Option-cases (target_arrives j t).0) [
          | inl f ↦
              rw (e, f, on_target)
                (tables', omega arith, omega (arith, rw f at hits), omega (arith, rw f at hits))
          | inr (h, f) ↦
              rw (e, f, on_target)
                (
                  tables',
                  omega arith,
                  omega (arith, rw f at hits, stats_add-total s.total h (some t)),
                  omega (arith, rw f at hits, stats_add-total s.total h (some t)),
                )
        ]
  ]

  save-IsAccounted : (io : Option ℕ) (bytes : List ℕ) → IsAccounted (save io s bytes)
  unfolding save IsAccounted
  save-IsAccounted io bytes = elim (Option-cases s.writer) [
    | inl e ↦ rw (e, save) ok
    | inr (w, e) ↦ rw (e, save) ok
  ]

  pub release-IsAccounted : (before_ns : ℕ) → IsAccounted (release s before_ns)
  unfolding release IsAccounted
  release-IsAccounted before_ns = elim (Option-cases s.joiner) [
    | inl e ↦ rw (e, release) ok
    | inr (j, e) ↦
        let (tables, n, m, r) = accounted e in
        let (sum, left, hits, given) = release_hosts-seen j tables before_ns in
        let (count, same_joiner, same_records) =
          add_unmatched-total (with_joiner s (release_hosts j before_ns).1)
            (release_hosts j before_ns).0 in
        rw (e, release, same_joiner, same_records)
          (
            Counts.release_hosts-IsBalanced j tables before_ns,
            omega arith,
            omega (arith, count),
            omega (arith, count),
          )
  ]

  expire_targets-IsAccounted : (before_ns : ℕ) → IsAccounted (expire_targets s before_ns)
  unfolding expire_targets IsAccounted
  expire_targets-IsAccounted before_ns = elim (Option-cases s.joiner) [
    | inl e ↦ rw (e, expire_targets) ok
    | inr (j, e) ↦
        let (tables, n, m, r) = accounted e in
        let (sum, hits, kept) = expire-seen j tables before_ns in
        rw (e, expire_targets)
          (Counts.expire-IsBalanced j tables before_ns, omega arith, omega arith, omega arith)
  ]

malformed-IsAccounted :
    (s : Session) → IsAccounted s → IsAccounted (record s { malformed = s.malformed + 1 })
unfolding IsAccounted
malformed-IsAccounted s ok = ok

reset-IsAccounted :
    (s : Session) → IsAccounted s → IsAccounted (record s { interval = stats_reset s.interval })
unfolding IsAccounted
reset-IsAccounted s ok = ok

on_record-IsAccounted :
    (s : Session)
    → IsAccounted s
    → (io : Option ℕ) (bytes : List ℕ) → IsAccounted (on_record io s bytes)
unfolding on_record
on_record-IsAccounted s ok io bytes =
    let kind = get_or bytes 0 0 in
    if-holds IsAccounted (kind == 1 && length bytes == 224)
      (save-IsAccounted _ (on_host-IsAccounted s ok (host_of bytes)) io bytes)
      (if-holds IsAccounted (kind == 2 && length bytes == 184)
        (save-IsAccounted _ (on_target-IsAccounted s ok (tgt_of bytes)) io bytes)
        (malformed-IsAccounted s ok))

tick-IsAccounted : (s : Session) → IsAccounted s → (now : ℕ) → IsAccounted (tick s now)
unfolding tick
tick-IsAccounted s ok now =
    reset-IsAccounted _ (expire_targets-IsAccounted _ (release-IsAccounted s ok _) _)

-- The sessions that a recording goes through.
pub data Reached (start : Session) : Session → Type 0 where
  began : Reached start start
  came :
      {s : Session} (io : Option ℕ) (bytes : List ℕ)
      → Reached start s
      → Reached start (on_record io s bytes)
  ticked : {s : Session} (now : ℕ) → Reached start s → Reached start (tick s now)
  drained : {s : Session} → Reached start s → Reached start (drain s)

session_new-IsAccounted :
    (both : Bool) (writer : Option Writer) (by_type by_size by_session : Bool) (sample_every : ℕ)
    → IsAccounted (session_new both writer by_type by_size by_session sample_every)
unfolding session_new IsAccounted stats_init total seen joiner_new table_init empty_table sum_by
session_new-IsAccounted true writer by_type by_size by_session sample_every =
    (Counts.joiner_new-IsBalanced 64, refl, omega arith, omega arith)
session_new-IsAccounted false writer by_type by_size by_session sample_every = refl

-- In every session that records from the ring buffer, interval ends and the final release lead to:
-- without a joiner, the statistics have as many records as host records came in; with one, the host
-- records that came in are those matched, those given up and those that wait, and the records in
-- the statistics are at least the matched ones and at most the matched and given up ones.
pub Reached-IsAccounted :
    (both : Bool) (writer : Option Writer) (by_type by_size by_session : Bool) (sample_every : ℕ)
    (s : Session)
    → Reached (session_new both writer by_type by_size by_session sample_every) s
    → IsAccounted s
unfolding drain
Reached-IsAccounted both w t z n e _ began = session_new-IsAccounted both w t z n e
Reached-IsAccounted both w t z n e _ (came io bytes r) =
    on_record-IsAccounted _ (Reached-IsAccounted both w t z n e _ r) io bytes
Reached-IsAccounted both w t z n e _ (ticked now r) =
    tick-IsAccounted _ (Reached-IsAccounted both w t z n e _ r) now
Reached-IsAccounted both w t z n e _ (drained r) =
    release-IsAccounted _ (Reached-IsAccounted both w t z n e _ r) _
