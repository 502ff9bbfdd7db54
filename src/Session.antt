-- ===== src/Session.antt =====
-- A recording: `struct session` of src/record.c, which the records of the ring buffer go through. The
-- records saved go through the writer of Trace; what fwrite and the clock do stands among the
-- arguments.
use ntprof.Prelude.{
  ℕ, ◌+◌, ◌-◌, ◌*◌, ◌%◌, ◌^◌, Bool, true, false, ◌&&◌, ◌==◌, if◌then◌else◌, Option, none, some,
  List, [], ◌∷◌, length, get_or,
}
use ntprof.Record.{HostRec, TgtRec}
use ntprof.Join.Joiner.{Joiner, joiner_new, host_arrives, target_arrives, release_hosts, expire}
use ntprof.Stats.{Stats, stats_init, stats_reset, stats_add}
use ntprof.Trace.Layout.{host_of, tgt_of}
use ntprof.Trace.Reader.{Writer, writer_add, host_rec_size, tgt_rec_size}
pub mod Balance
pub mod Wait

abbrev pub targets_per_key : ℕ
targets_per_key = 64

abbrev pub host_wait_ns : ℕ
host_wait_ns = 100 * 1000000

abbrev pub target_expiry_ns : ℕ
target_expiry_ns = 10 * 1000000000

-- `writer` is none unless records are saved, `joiner` unless both roles are recorded.
pub record Session : Type 0 where
  pub writer : Option Writer
  pub write_errors : ℕ
  pub joiner : Option Joiner
  pub interval : Stats
  pub total : Stats
  pub host_records : ℕ
  pub target_records : ℕ
  pub malformed : ℕ

-- What `record` starts with.
unfoldable pub session_new : Bool → Option Writer → Bool → Bool → Bool → ℕ → Session
unfolding stats_init joiner_new
session_new both writer by_type by_size by_session sample_every =
    let stats = record (stats_init by_type by_size by_session) { sample_every = sample_every } in
    record {
      writer = writer;
      write_errors = 0;
      joiner = if both then some (joiner_new targets_per_key) else none;
      interval = stats;
      total = stats;
      host_records = 0;
      target_records = 0;
      malformed = 0;
    }

unfoldable pub add_host : Session → HostRec → Option TgtRec → Session
add_host s h t = record s { interval = stats_add s.interval h t; total = stats_add s.total h t }

-- The calls of `add_unmatched`.
unfoldable pub add_unmatched : Session → List HostRec → Session
unfolding add_host
add_unmatched s [] = s
add_unmatched s (h ∷ hs) = add_unmatched (add_host s h none) hs

abbrev pub with_joiner : Session → Joiner → Session
with_joiner s j = record s { joiner = some j }

unfoldable pub on_host : Session → HostRec → Session
unfolding add_host
on_host s h =
    let s₁ = record s { host_records = s.host_records + 1 } in
    elim s.joiner [
      | none ↦ add_host s₁ h none
      | some j ↦
          let (found, j') = host_arrives j h in
          elim found [ none ↦ with_joiner s₁ j' | some t ↦ add_host (with_joiner s₁ j') h (some t) ]
    ]

unfoldable pub on_target : Session → TgtRec → Session
unfolding add_host
on_target s t =
    let s₁ = record s { target_records = s.target_records + 1 } in
    elim s.joiner [
      | none ↦ s₁
      | some j ↦
          let (found, j') = target_arrives j t in
          elim found [ none ↦ with_joiner s₁ j' | some h ↦ add_host (with_joiner s₁ j') h (some t) ]
    ]

-- The record goes into the file; `io` is the outcome of fwrite.
unfoldable pub save : Option ℕ → Session → List ℕ → Session
save io s bytes = elim s.writer [
  | none ↦ s
  | some w ↦
      let (ok, w') = writer_add io w bytes in
      record s {
        writer = some w';
        write_errors = if ok then s.write_errors else s.write_errors + 1;
      }
]

-- `bytes` is what came from the ring buffer.
unfoldable pub on_record : Option ℕ → Session → List ℕ → Session
unfolding on_host on_target save
on_record io s bytes =
    let kind = get_or bytes 0 0 in
    if kind == 1 && length bytes == host_rec_size
    then save io (on_host s (host_of bytes)) bytes
    else if kind == 2 && length bytes == tgt_rec_size
    then save io (on_target s (tgt_of bytes)) bytes
    else record s { malformed = s.malformed + 1 }

unfoldable pub release : Session → ℕ → Session
unfolding add_unmatched
release s before_ns = elim s.joiner [
  | none ↦ s
  | some j ↦ let (hosts, j') = release_hosts j before_ns in add_unmatched (with_joiner s j') hosts
]

unfoldable pub expire_targets : Session → ℕ → Session
expire_targets s before_ns = elim s.joiner [
  | none ↦ s
  | some j ↦ with_joiner s (expire j before_ns).1
]

-- The end of an interval at `now`; the times are 64 bits wide.
unfoldable pub tick : Session → ℕ → Session
unfolding release expire_targets stats_reset
tick s now =
    let s₁ = release s ((now + (2 ^ 64 - host_wait_ns)) % 2 ^ 64) in
    let s₂ = expire_targets s₁ ((now + (2 ^ 64 - target_expiry_ns)) % 2 ^ 64) in
    record s₂ { interval = stats_reset s₂.interval }

-- The end of the recording: all host records that wait are released.
unfoldable pub drain : Session → Session
unfolding release
drain s = release s (2 ^ 64 - 1)
