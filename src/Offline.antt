-- ===== src/Offline.antt =====
-- Joining the record files of a run: load_run of src/offline.c.
use ntprof.Prelude.{
  ℕ, ◌+◌, ◌/◌, ◌%◌, Bool, true, false, not, ◌&&◌, ◌==◌, if◌then◌else◌, Option, none, some, is_some,
  List, [], ◌∷◌, ◌++◌,
}
use mathlib.Core.Option
use ntprof.Record.{HostRec, TgtRec}
use ntprof.Join.Joiner.{Joiner, joiner_new, add_target, match_host}
use ntprof.Stats.{Stats, stats_add}
use ntprof.Trace.Layout.{FileHeader, header_of}
use ntprof.Trace.Reader.{ReaderOps, ReadError, File, read_file}
use ntprof.Trace.Records.{visitor}
pub mod Order

-- `struct run`; `host_hdr` is none while `have_host_hdr` is false.
pub record RunState : Type 0 where
  pub joiner : Joiner
  pub hosts : List HostRec
  pub targets : ℕ
  pub host_hdr : Option FileHeader

unfoldable pub run_new : RunState
run_new = record { joiner = joiner_new 0; hosts = []; targets = 0; host_hdr = none }

unfoldable pub on_host : HostRec → RunState → RunState
on_host h r = record r { hosts = r.hosts ++ h ∷ [] }

unfoldable pub on_target : TgtRec → RunState → RunState
on_target t r = record r { joiner = add_target r.joiner t; targets = r.targets + 1 }

-- role & NTP_ROLE_HOST
unfoldable pub has_host_role : FileHeader → Bool
has_host_role h = h.role % 2 == 1

unfoldable pub keep_header : FileHeader → RunState → RunState
unfolding has_host_role
keep_header h r =
    if has_host_role h && not (is_some r.host_hdr) then record r { host_hdr = some h } else r

abbrev header_read : Option File → Option FileHeader
header_read none = none
header_read (some f) = some (header_of f.bytes)

-- One file: its records, and its header; none if it cannot be read.
unfoldable pub load_file : Option File → RunState → Option RunState
unfolding keep_header
load_file f r =
    let (err, r') = read_file (visitor on_host on_target) f r in
    elim (header_read f) [
      | none ↦ none
      | some h ↦ if is_some err then none else some (keep_header h r')
    ]

unfoldable pub load_files : List (Option File) → RunState → Option RunState
unfolding load_file
load_files [] r = some r
load_files (f ∷ fs) r = elim (load_file f r) [ none ↦ none | some r' ↦ load_files fs r' ]

-- The host records in the order in which they were read: each takes its target record.
unfoldable pub join_hosts : List HostRec → Joiner → Stats → Joiner × Stats
join_hosts [] j stats = (j, stats)
join_hosts (h ∷ hs) j stats =
    let (found, j') = match_host j h in join_hosts hs j' (stats_add stats h found)

unfoldable pub join_run : Stats → RunState → RunState × Stats
unfolding join_hosts
join_run stats r =
    let (j, stats') = join_hosts r.hosts r.joiner stats in (record r { joiner = j }, stats')

-- load_run: the run and the statistics, or none for -1.
unfoldable pub load_run : List (Option File) → Stats → Option (RunState × Stats)
load_run fs stats = Option.map (join_run stats) (load_files fs run_new)
