-- ===== src/Bpf/Target/Finish.antt =====
-- The hooks of the backend and of the response of bpf/target.bpf.h.
use ntprof.Prelude.{ℕ, ◌+◌, true, none, some, nonzero, if◌then◌else◌, ◌∷◌, set}
use ntprof.Record.{TgtRec, TgtTs, stamp_tgt}
use ntprof.Bpf.Common.{Run, stamp_once, dec64}
use ntprof.Bpf.Target.{Config, Request, State, TgtEntry, tgt_entry, on_rec, uncount, slot_of}

module _ (x : Run) where
  -- The record as it goes out.
  unfoldable pub out_rec : TgtRec → TgtRec
  out_rec r = record r { hdr = record (r.hdr) { cpu = x.cpu } }

  -- The entry after its record went out: the slot is free.
  unfoldable pub closed : TgtEntry → TgtEntry
  unfolding out_rec
  closed e = record e { req = 0; rec = out_rec e.rec }

  -- The ring buffer takes the record, or is full.
  unfoldable pub output : State → TgtRec → State
  output s r =
      let c = s.counters in
      if x.delivered
      then record s {
        counters = record c { tgt_emitted = c.tgt_emitted + 1 };
        events = r ∷ s.events;
      }
      else record s { counters = record c { rb_drops = c.rb_drops + 1 } }

  unfoldable pub emit_entry : State → ℕ → TgtEntry → State
  unfolding output closed
  emit_entry s req e = record (output s (closed e).rec) {
    treqs = set s.treqs (slot_of req) (closed e);
    inflight = dec64 s.inflight;
  }

  unfoldable pub tgt_emit : State → ℕ → State
  unfolding tgt_entry emit_entry
  tgt_emit s req = elim (tgt_entry s req) [ none ↦ s | some e ↦ emit_entry s req e ]

  unfoldable pub tgt_uncount : Config → State → ℕ → State
  unfolding uncount
  tgt_uncount g s req = if g.filter.track_queues then uncount s req true true true else s

  unfoldable pub tgt_finish : Config → State → ℕ → State
  unfolding tgt_uncount tgt_emit
  tgt_finish g s req = tgt_emit (tgt_uncount g s req) req

  unfoldable pub exec_rec : Request → TgtRec → TgtRec
  exec_rec rq r =
      if nonzero (r.ts TgtTs.exec)
      then r
      else record r { ts = stamp_tgt r.ts TgtTs.exec x.now; bytes = rq.transfer_len }

  unfoldable pub on_exec : State → Request → State
  unfolding on_rec exec_rec
  on_exec s rq = if nonzero s.inflight then on_rec s rq.addr (exec_rec rq) else s

  abbrev once_rec : TgtTs → TgtRec → TgtRec
  once_rec e r = record r { ts = stamp_tgt r.ts e (stamp_once (r.ts e) x.now) }

  -- `priv` is the bi_private of the request's bio: the nvmet_req, or 0.
  unfoldable pub be_issue : State → ℕ → State
  unfolding on_rec stamp_once
  be_issue s priv =
      if nonzero s.inflight
      then if nonzero priv then on_rec s priv (once_rec TgtTs.be_issue) else s
      else s

  unfoldable pub be_done : State → ℕ → State
  unfolding on_rec
  be_done s priv =
      if nonzero s.inflight
      then if nonzero priv
        then on_rec s priv (λ r. record r { ts = stamp_tgt r.ts TgtTs.be_done x.now })
        else s
      else s

  unfoldable pub req_complete : State → ℕ → State
  unfolding on_rec stamp_once
  req_complete s req = if nonzero s.inflight then on_rec s req (once_rec TgtTs.complete) else s
