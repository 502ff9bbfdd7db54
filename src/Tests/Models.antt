-- ===== src/Tests/Models.antt =====
-- src/model.c and src/stats.c on an NVMe/TCP read.
use ntprof.Prelude.{
  c_string, arith, List, [], ◌∷◌, Option, ◌+◌, ◌≡◌, ◌≢◌, ◌↔◌, ◌⊎◌, refl, true, false, some, none,
}
use ntprof.Prelude.Int.{pos, ◌-ℤ◌}
use ntprof.Model.Breakdown.{
  data_phase, empty, ok, incomplete_host, incomplete_target, have_all, io_class_of, d,
}
use ntprof.Model.Comp.{Comp}
use ntprof.Model.Errors.{required, breakdown-present, breakdown-joined}
use ntprof.Model.Fallback.{IsHostOnly, breakdown-fallback}
use ntprof.Model.Missing.{needs, breakdown-incomplete_host}
use ntprof.Model.Host.{host_complete, host_side}
use ntprof.Model.Stages.{stages}
use ntprof.Model.Target.{target_complete, target_side}
use ntprof.Model.Phase.{data_phase_exact}
use ntprof.Model.Run.{breakdown, is_rdma}
use ntprof.Model.Sum.{fresh}
use ntprof.Model.Total.{AddsUp, breakdown-AddsUp}
use ntprof.Stats.{stats_init, session_name, session_text, skip_digits}
use ntprof.Stats.Counts.{total, AreCounted, add_all, add_all-AreCounted}
use ntprof.Record.{HostRec, TgtRec, HostTs, stamp_host}
use ntprof.Tests.Records.{host_read, tgt_read, tgt_r2t, host_read-small, tgt_read-small}

breakdown-read : (breakdown host_read (some tgt_read)).1.comp Comp.net ≡ pos 95
unfolding breakdown host_complete io_class_of target_complete stages target_side host_side ◌-ℤ◌ d
breakdown-read = refl

host_read-present :
    have_all host_read.ts (required (is_rdma host_read.hdr.transport) (io_class_of host_read))
    ≡ true
unfolding have_all io_class_of
host_read-present = refl

breakdown-AddsUp_example : AddsUp (breakdown host_read (some tgt_read)).1
breakdown-AddsUp_example =
    breakdown-AddsUp host_read host_read-small (some tgt_read) tgt_read-small
      (breakdown-present host_read (some tgt_read) host_read-present)

-- The response of the read was not processed.
abbrev unanswered : HostRec
unanswered = record host_read { ts = stamp_host host_read.ts HostTs.rsp_proc 0 }

unanswered-class : (breakdown unanswered (some tgt_read)).0 ≡ incomplete_host
unfolding breakdown host_complete have_all io_class_of
unanswered-class = refl

breakdown-incomplete_host_example :
    (((breakdown unanswered (some tgt_read)).0 ≡ incomplete_host) ↔ (
      (e : HostTs) × (needs (is_rdma unanswered.hdr.transport) (io_class_of unanswered) e ≡ true)
      × (unanswered.ts e ≡ 0)))
    × (((breakdown unanswered (some tgt_read)).0 ≢ incomplete_host)
        ⊎ ((breakdown unanswered (some tgt_read)).1 ≡ fresh (io_class_of unanswered)))
breakdown-incomplete_host_example = breakdown-incomplete_host unanswered (some tgt_read)

unusable : (breakdown host_read (some tgt_r2t)).0 ≡ incomplete_target
unfolding breakdown host_complete io_class_of
unusable = refl

breakdown-fallback_example :
    (breakdown host_read none ≡ (ok, (breakdown host_read (some tgt_r2t)).1))
    × IsHostOnly (breakdown host_read (some tgt_r2t)).1
breakdown-fallback_example = breakdown-fallback host_read tgt_r2t unusable

breakdown-joined_example :
    ((breakdown host_read (some tgt_read)).1.joined ≡ true)
    ↔ ((breakdown host_read (some tgt_read)).0 ≡ ok)
breakdown-joined_example = breakdown-joined host_read tgt_read

abbrev two_reads : List (HostRec × Option TgtRec)
two_reads = (host_read, some tgt_read) ∷ (host_read, some tgt_r2t) ∷ []

nothing-AreCounted : AreCounted (stats_init true true false).groups
unfolding stats_init
nothing-AreCounted = tt

add_all-AreCounted_example :
    (total (add_all (stats_init true true false) two_reads)
      ≡ total (stats_init true true false) + 2)
    × AreCounted (add_all (stats_init true true false) two_reads).groups
add_all-AreCounted_example =
    add_all-AreCounted (stats_init true true false) two_reads nothing-AreCounted

data_phase_runs : (data_phase 420 490 500 30 Comp.host_data Comp.host_wait empty).0 ≡ true
unfolding data_phase
data_phase_runs = refl

data_phase_exact_example :
    ((data_phase 420 490 500 30 Comp.host_data Comp.host_wait empty).1.comp Comp.host_data ≡ pos 30)
    × ((data_phase 420 490 500 30 Comp.host_data Comp.host_wait empty).1.comp Comp.host_wait
        ≡ pos 40)
data_phase_exact_example =
    data_phase_exact 420 490 500 30 Comp.host_data Comp.host_wait empty (omega arith) refl
      data_phase_runs

-- "nvme1c10n3" and "nvme1c2n3" in arrays that are padded with NULs are one session.
one_session :
    session_name (110 ∷ 118 ∷ 109 ∷ 101 ∷ 49 ∷ 99 ∷ 49 ∷ 48 ∷ 110 ∷ 51 ∷ 0 ∷ 0 ∷ []) 32
    ≡ session_name (110 ∷ 118 ∷ 109 ∷ 101 ∷ 49 ∷ 99 ∷ 50 ∷ 110 ∷ 51 ∷ 0 ∷ 0 ∷ 0 ∷ []) 32
unfolding session_name session_text c_string skip_digits
one_session = refl
