-- ===== src/Tests/Sessions.antt =====
-- A recording of one host record, and the two files of a run.
use ntprof.Prelude.{◌-◌, ◌^◌, ◌≡◌, refl, true, false, none, [], ◌∷◌, arith}
use ntprof.Offline.{load_run, has_host_role}
use ntprof.Offline.Order.{written, load_run-order}
use ntprof.Session.{Session, session_new, on_record, tick, drain, host_wait_ns}
use ntprof.Session.Balance.{Reached, IsAccounted, Reached-IsAccounted}
use ntprof.Session.Wait.{WaitSince, tick-WaitSince}
use ntprof.Stats.{stats_init}
use ntprof.Trace.Layout.{host_bytes}
use ntprof.Trace.Reader.{header_init}
use ntprof.Trace.Records.{host_rec, tgt_rec}
use ntprof.Tests.Records.{tgt_read}
use ntprof.Tests.Traces.{named, named-FitsHost, tgt_read-FitsTarget, old_header, old_header-IsGood}

abbrev both_roles : Session
both_roles = session_new true none true true false 10

abbrev one_host : Session
one_host = on_record none both_roles (host_bytes named)

one_host-Reached : Reached both_roles one_host
one_host-Reached = Reached.came none (host_bytes named) Reached.began

Reached-IsAccounted_example : IsAccounted (drain one_host)
Reached-IsAccounted_example =
    Reached-IsAccounted true none true true false 10 (drain one_host)
      (Reached.drained one_host-Reached)

tick-WaitSince_example :
    WaitSince (200000000 - host_wait_ns) (tick one_host 200000000).joiner
    × WaitSince (2 ^ 64 - 1) (drain one_host).joiner
tick-WaitSince_example =
    tick-WaitSince one_host 200000000
      (Reached-IsAccounted true none true true false 10 one_host one_host-Reached) (omega arith)
      (omega arith)

target_role : has_host_role (old_header 2) ≡ false
unfolding has_host_role header_init
target_role = refl

load_run-order_example :
    load_run
      (written (old_header 1) (host_rec named ∷ [])
        ∷ written (old_header 2) (tgt_rec tgt_read ∷ [])
        ∷ [])
      (stats_init true true false)
    ≡ load_run
        (written (old_header 2) (tgt_rec tgt_read ∷ [])
          ∷ written (old_header 1) (host_rec named ∷ [])
          ∷ [])
        (stats_init true true false)
load_run-order_example =
    load_run-order (old_header 1) (old_header 2) (host_rec named ∷ []) (tgt_rec tgt_read ∷ [])
      (stats_init true true false)
      (old_header-IsGood 1 (omega arith), old_header-IsGood 2 (omega arith))
      ((named-FitsHost, tt), (tgt_read-FitsTarget, tt)) tt tt target_role
