-- ===== src/Bpf/Host/Submit.antt =====
-- Submission: `host_queue_rq` and the nvme_setup_cmd hook of bpf/host.bpf.h.
use ntprof.Prelude.{
  ℕ, ◌+◌, ◌/◌, ◌%◌, ◌^◌, Bool, true, not, ◌&&◌, ◌||◌, List, Option, none, some, leb, nonzero, ◌==◌,
  if◌then◌else◌, at, get_or, set, is_some,
}
use ntprof.Record.{CmdId, HostRec, RecKind, HostTs, no_flags, nvme_cmd_write, stamp_host}
use ntprof.Bpf.Common.{
  Run, read_cmd, is_rw, sampled, size_matches, type_matches, clamp_u16, inc64, inc32,
}
use ntprof.Bpf.Host.{
  Config, Request, State, HostEntry, Pending, get_qstat, slot_of, entry_at, cid_slot_of, empty_rec,
}

module _ (g : Config) where
  -- The part of `host_queue_rq` that counts the request in its queue's occupancy.
  unfoldable pub count_request : Run → State → Pending → State
  unfolding get_qstat at
  count_request x s p =
      let (found, qstats) = get_qstat x s.qstats p.queue in
      elim found [
        | none ↦ record s { pend = at x.cpu p s.pend; qstats = qstats }
        | some qs ↦
            if is_some (s.counted p.rq)
            then record s { pend = at x.cpu p s.pend; qstats = qstats }
            else record s {
              pend =
                  at x.cpu
                    (record p {
                      q_unsent = clamp_u16 qs.unsent;
                      q_inflight = clamp_u16 qs.inflight;
                    })
                    s.pend;
              counted =
                  if x.counted_room
                  then at p.rq (some (record { queue = p.queue; unsent = true; inflight = true }))
                      s.counted
                  else s.counted;
              qstats =
                  at p.queue
                    (some (record { unsent = inc32 qs.unsent; inflight = inc32 qs.inflight }))
                    qstats;
            }
      ]

  -- The arguments are the request of `bd` and the driver data of `hctx`.
  unfoldable pub host_queue_rq : Run → State → ℕ → ℕ → State
  unfolding count_request at
  host_queue_rq x s rq driver_data =
      let p : Pending = record {
        tid = x.tid;
        rq = rq;
        queue = 0;
        ts = x.now;
        q_unsent = 0;
        q_inflight = 0;
      } in
      if not s.armed
      then s
      else if g.filter.track_queues
      then count_request x s (record p { queue = driver_data })
      else record s { pend = at x.cpu p s.pend }

  -- How the request came here: the locals queue, ts, q_unsent and q_inflight.
  pub record Via : Type 0 where
    pub queue : ℕ
    pub ts : ℕ
    pub q_unsent : ℕ
    pub q_inflight : ℕ

  -- The first part of the hook; none where the hook returns.
  unfoldable pub setup_via : Run → State → Request → Option (Via × State)
  unfolding at
  setup_via x s rq =
      let p = s.pend x.cpu in
      if (g.hooks_queue_rq || g.filter.track_queues) && p.tid == x.tid && p.rq == rq.addr
      then some (
        record { queue = p.queue; ts = p.ts; q_unsent = p.q_unsent; q_inflight = p.q_inflight },
        record s { pend = at x.cpu (record p { tid = 0 }) s.pend },
      )
      else if s.armed && nonzero (g.queue_of rq)
      then some (record { queue = g.queue_of rq; ts = 0; q_unsent = 0; q_inflight = 0 }, s)
      else none

  -- Throughput over all commands.
  unfoldable pub count_submitted : State → CmdId → ℕ → State
  count_submitted s id bytes =
      let c = s.counters in
      record s {
        counters =
            if id.opcode == nvme_cmd_write
            then record c {
              host_write_ios = c.host_write_ios + 1;
              host_write_bytes = c.host_write_bytes + bytes;
            }
            else record c {
              host_read_ios = c.host_read_ios + 1;
              host_read_bytes = c.host_read_bytes + bytes;
            };
      }

  -- The bit of a controller in `ctrl_mask`.
  unfoldable pub in_ctrl_mask : List ℕ → ℕ → Bool
  in_ctrl_mask mask n = leb n 255 && nonzero (get_or mask (n / 2 ^ 6 % 4) 0 / 2 ^ (n % 64) % 2)

  -- The tests after which the hook takes a slot for the command.
  unfoldable pub wanted : CmdId → Request → Bool
  unfolding in_ctrl_mask
  wanted id rq =
      let f = g.filter in
      type_matches f id.opcode
      && sampled f id.cid id.slba id.nlb
      && size_matches f rq.data_len
      && (not f.ctrl_filter || in_ctrl_mask f.ctrl_mask rq.instance_no)
      && (not (nonzero f.nsid) || id.nsid == f.nsid)

  unfoldable pub new_rec : Run → Via → CmdId → Request → HostRec
  new_rec x v id rq = record {
    hdr = record {
      kind = RecKind.host;
      transport = g.transport;
      flags = record no_flags {
        write = id.opcode == nvme_cmd_write;
        queues = g.filter.track_queues;
      };
      cpu = 0;
    };
    id = record id { cntlid = rq.cntlid; qid = (rq.queue_num + 1) % 2 ^ 16 };
    bytes = rq.data_len;
    ctrl_instance = rq.instance_no;
    q_unsent = v.q_unsent;
    q_inflight = v.q_inflight;
    disk = rq.disk_name;
    ts =
        stamp_host (stamp_host empty_rec.ts HostTs.start rq.start_time_ns) HostTs.queue_rq
          (if nonzero v.ts then v.ts else x.now);
    c2h_busy_ns = 0;
    c2h_skbs = 0;
  }

  -- The counters and the number of open records, when a slot with the owner `old` is taken.
  unfoldable pub open_slot : State → ℕ → State
  open_slot s old =
      let c = s.counters in
      if nonzero old
      then record s {
        counters = record c { stale = c.stale + 1; host_sampled = c.host_sampled + 1 };
      }
      else record s {
        inflight = inc64 s.inflight;
        counters = record c { host_sampled = c.host_sampled + 1 };
      }

  -- What is written to the slot.
  unfoldable pub new_entry : Run → Via → CmdId → Request → HostEntry
  unfolding new_rec
  new_entry x v id rq = record {
    rq = rq.addr;
    queue = if nonzero v.queue then v.queue else rq.driver_data;
    rec = new_rec x v id rq;
  }

  unfoldable pub take_slot : Run → State → Via → CmdId → Request → State
  unfolding open_slot new_entry cid_slot_of
  take_slot x s v id rq =
      let e = new_entry x v id rq in
      let slot = slot_of rq.addr in
      record (open_slot s (entry_at s slot).rq) {
        reqs = set s.reqs slot e;
        cid_idx =
            set s.cid_idx (cid_slot_of e.queue id.cid)
              (record { queue = e.queue; rq = rq.addr; cid = id.cid });
      }

  -- After the command is read: the counts, the filter, the slot.
  unfoldable pub setup_read : Run → State → Via → CmdId → Request → State
  unfolding count_submitted wanted take_slot
  setup_read x s v id rq =
      let s' = count_submitted s id rq.data_len in
      if not (is_rw id.opcode) then s else if wanted id rq then take_slot x s' v id rq else s'

  unfoldable pub setup_cmd : Run → State → Request → State
  unfolding setup_via setup_read read_cmd
  setup_cmd x s rq = elim (setup_via x s rq) [
    | none ↦ s
    | some (v, s') ↦ elim (read_cmd rq.cmd) [ none ↦ s' | some id ↦ setup_read x s' v id rq ]
  ]
