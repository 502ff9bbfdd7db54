-- ===== src/Bpf/Host/Complete.antt =====
-- Completion: `host_complete` and the hooks that end a record, of bpf/host.bpf.h.
use ntprof.Prelude.{
  ℕ, ◌+◌, Bool, true, false, not, ◌&&◌, ◌||◌, none, some, nonzero, ◌==◌, if◌then◌else◌, ◌∷◌, get_or,
  set, is_some,
}
use ntprof.Record.{HostRec, HostTs, Transport, stamp_host}
use ntprof.Bpf.Common.{Run, stamp_once, dec64, idle}
use ntprof.Bpf.Host.{
  Config, State, HostEntry, HostRx, host_entry, host_rec, on_rec, uncount, rx_get, rx_put, slot_of,
  cid_slot_of, data_done_rec, data_done_rx, free_cid,
}

-- What `host_complete` writes to the record of a completed request.
unfoldable pub completed_rec : Run → HostRx → ℕ → HostRec → HostRec
unfolding data_done_rec
completed_rec x c rq r =
    let arrived = if nonzero c.arrival then stamp_host r.ts HostTs.rsp_arr c.arrival else r.ts in
    let r' = record r { ts = stamp_host arrived HostTs.rsp_proc x.now } in
    if c.data_rq == rq then data_done_rec c x.now r' else r'

module _ (g : Config) where
  -- Whether there is a record is the result of the function.
  unfoldable pub host_complete : Run → State → ℕ → Bool × State
  unfolding host_rec on_rec uncount completed_rec
  host_complete x s rq = if idle g.filter s.inflight then (false, s) else elim (rx_get x s) [
    | none ↦ (false, s)
    | some c ↦
        let s₁ = if g.filter.track_queues then uncount s rq true true true else s in
        if is_some (host_rec s₁ rq)
        then (
          true,
          rx_put x (on_rec s₁ rq (completed_rec x c rq))
              (if c.data_rq == rq then data_done_rx c else c),
        )
        else (false, s₁)
  ]

  unfoldable pub nvme_done : Run → State → ℕ → State
  unfolding on_rec stamp_once
  nvme_done x s rq =
      if nonzero s.inflight
      then on_rec s rq (λ r. record r {
        ts = stamp_host r.ts HostTs.nvme_done (stamp_once (r.ts HostTs.nvme_done) x.now);
      })
      else s

  is_tcp : Transport → Bool
  is_tcp Transport.tcp = true
  is_tcp Transport.rdma = false

  -- The record as it goes to user space.
  unfoldable pub final_rec : Run → HostRec → HostRec
  unfolding is_tcp
  final_rec x r =
      let f = r.hdr.flags in
      record r {
        ts = stamp_host r.ts HostTs.blk_done x.now;
        hdr = record (r.hdr) {
          flags = record f {
            inline_data = f.inline_data || is_tcp g.transport && f.write && not f.r2t;
          };
          cpu = x.cpu;
        };
      }

  -- The ring buffer takes the record, or is full.
  unfoldable pub output : Run → State → HostRec → State
  output x s r =
      let c = s.counters in
      if x.delivered
      then record s {
        counters = record c { host_emitted = c.host_emitted + 1 };
        events = r ∷ s.events;
      }
      else record s { counters = record c { rb_drops = c.rb_drops + 1 } }

  -- The entry after its record went out: the slot is free.
  unfoldable pub closed : Run → HostEntry → HostEntry
  unfolding final_rec
  closed x e = record e { rq = 0; rec = final_rec x e.rec }

  unfoldable pub finish : Run → State → ℕ → HostEntry → State
  unfolding output closed cid_slot_of
  finish x s rq e =
      let slot = cid_slot_of e.queue e.rec.id.cid in
      let c = get_or s.cid_idx slot free_cid in
      record (output x s (closed x e).rec) {
        reqs = set s.reqs (slot_of rq) (closed x e);
        cid_idx = if c.rq == e.rq then set s.cid_idx slot (record c { rq = 0 }) else s.cid_idx;
        inflight = dec64 s.inflight;
      }

  unfoldable pub blk_done : Run → State → ℕ → State
  unfolding host_entry finish
  blk_done x s rq = elim (host_entry s rq) [
    | none ↦ s
    | some e ↦ if nonzero s.inflight then finish x s rq e else s
  ]
