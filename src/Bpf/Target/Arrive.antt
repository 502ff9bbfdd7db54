-- ===== src/Bpf/Target/Arrive.antt =====
-- The arrival of a command: the nvmet_req_init hook of bpf/target.bpf.h.
use ntprof.Prelude.{
  Bool, ℕ, ◌+◌, true, false, ◌&&◌, none, some, nonzero, ◌==◌, if◌then◌else◌, at, set, is_some,
}
use ntprof.Record.{CmdId, TgtRec, RecKind, TgtTs, no_flags, nvme_cmd_write, stamp_tgt}
use ntprof.Bpf.Common.{Run, read_cmd, is_rw, sampled, type_matches, clamp_u16, inc64, inc32}
use ntprof.Bpf.Target.{
  Config, Request, State, TgtEntry, on_rec, uncount, get_tqstat, slot_of, entry_at,
}
use ntprof.Bpf.Target.Finish.{tgt_emit}

-- The locals q_outstanding and q_resp_queue.
pub record Occupancy : Type 0 where
  pub outstanding : ℕ
  pub resp_queue : ℕ

module _ (g : Config) (x : Run) where
  -- Exact occupancy: the command is counted; the previous one on the nvmet_req no longer is. The
  -- queue's entry is made before that, and read after it.
  unfoldable pub count_command : State → Request → Occupancy × State
  unfolding get_tqstat uncount at
  count_command s rq =
      let (found, tqstats) = get_tqstat x s.tqstats rq.sq in
      let s₁ = uncount (record s { tqstats = tqstats }) rq.addr true true true in
      let nothing : Occupancy = record { outstanding = 0; resp_queue = 0 } in
      if is_some found
      then elim (s₁.tqstats rq.sq) [
        | none ↦ (nothing, s₁)
        | some qs ↦ (
          record { outstanding = clamp_u16 qs.outstanding; resp_queue = clamp_u16 qs.resp_queue },
          record s₁ {
            tcounted =
                if x.counted_room
                then at rq.addr
                    (some (record { sq = rq.sq; outstanding = true; resp_queued = false }))
                    s₁.tcounted
                else s₁.tcounted;
            tqstats = at rq.sq (some (record qs { outstanding = inc32 qs.outstanding })) s₁.tqstats;
          },
        )
      ]
      else (nothing, s₁)

  -- A record of the previous command that is still open goes out, marked.
  unfoldable pub emit_reused : State → ℕ → State
  unfolding tgt_emit on_rec
  emit_reused s req =
      let mark : TgtRec → TgtRec =
        λ r. record r { hdr = record (r.hdr) { flags = record (r.hdr.flags) { reused = true } } } in
      if nonzero s.inflight then tgt_emit x (on_rec s req mark) req else s

  unfoldable pub new_rec : Occupancy → CmdId → Request → TgtRec
  new_rec o id rq = record {
    hdr = record {
      kind = RecKind.target;
      transport = g.transport;
      flags = record no_flags {
        write = id.opcode == nvme_cmd_write;
        queues = g.filter.track_queues;
      };
      cpu = 0;
    };
    id = record id { cntlid = rq.cntlid; qid = rq.qid };
    bytes = 0;
    q_outstanding = o.outstanding;
    q_resp_queue = o.resp_queue;
    ts = stamp_tgt (stamp_tgt (λ e. 0) TgtTs.cmd_arr (g.arrival_of rq x.now)) TgtTs.cmd_proc x.now;
    h2c_busy_ns = 0;
    h2c_skbs = 0;
  }

  unfoldable pub new_entry : Occupancy → CmdId → Request → TgtEntry
  unfolding new_rec
  new_entry o id rq = record { req = rq.addr; parts = 0; rec = new_rec o id rq }

  -- The counters and the number of open records, when a slot with the owner `old` is taken.
  unfoldable pub open_slot : State → ℕ → State
  open_slot s old =
      let c = s.counters in
      if nonzero old
      then record s { counters = record c { stale = c.stale + 1; tgt_sampled = c.tgt_sampled + 1 } }
      else record s {
        inflight = inc64 s.inflight;
        counters = record c { tgt_sampled = c.tgt_sampled + 1 };
      }

  unfoldable pub take_slot : State → Occupancy → CmdId → Request → State
  unfolding open_slot new_entry
  take_slot s o id rq =
      let slot = slot_of rq.addr in
      record (open_slot s (entry_at s slot).req) { treqs = set s.treqs slot (new_entry o id rq) }

  -- The tests after which the hook takes a slot for the command.
  unfoldable pub wanted : CmdId → Bool
  wanted id =
      let f = g.filter in
      is_rw id.opcode && type_matches f id.opcode && sampled f id.cid id.slba id.nlb

  -- From the command on: the filter and the slot.
  unfoldable pub init_read : State → Occupancy → CmdId → Request → State
  unfolding wanted take_slot
  init_read s o id rq = if wanted id then take_slot s o id rq else s

  abbrev pub count_cmd : State → State
  count_cmd s = record s { counters = record (s.counters) { tgt_cmds = s.counters.tgt_cmds + 1 } }

  unfoldable pub req_init : State → Request → State
  unfolding count_command emit_reused init_read read_cmd
  req_init s rq =
      let nothing : Occupancy = record { outstanding = 0; resp_queue = 0 } in
      let (o, s₁) = if g.filter.track_queues then count_command s rq else (nothing, s) in
      let s₂ = emit_reused (count_cmd s₁) rq.addr in
      if s.armed && nonzero rq.qid && g.is_ours rq
      then elim (read_cmd rq.cmd) [ none ↦ s₂ | some id ↦ init_read s₂ o id rq ]
      else s
