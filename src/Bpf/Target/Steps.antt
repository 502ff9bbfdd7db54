-- ===== src/Bpf/Target/Steps.antt =====
-- The hooks of bpf/target.bpf.h keep the maps of a target object consistent.
use ntprof.Prelude.{
  ℕ, ◌<◌, true, nonzero, ◌==◌, if◌then◌else◌, if-holds, Bool-cases, Option-cases, inl, inr, is_some,
}
use ntprof.Record.{CmdId, TgtRec}
use ntprof.Bpf.Common.{Run, read_cmd}
use ntprof.Bpf.Target.{
  Config, Request, State, on_rec, uncount, tgt_ctx_enter, tgt_ctx_exit, get_tqstat,
}
use ntprof.Bpf.Target.Arrive.{Occupancy, count_command, emit_reused, init_read, req_init, count_cmd}
use ntprof.Bpf.Target.Finish.{tgt_uncount, tgt_finish, on_exec, be_issue, be_done, req_complete}
use ntprof.Bpf.Target.Inv.{
  IsConsistent, on_rec-IsConsistent, uncount-IsConsistent, take_slot-IsConsistent,
  tgt_emit-IsConsistent,
}

count_command-IsConsistent :
    (g : Config) (x : Run) (s : State) (rq : Request)
    → IsConsistent s
    → IsConsistent (count_command g x s rq).1
unfolding count_command
count_command-IsConsistent g x s rq ok =
    let s₀ = record s { tqstats = (get_tqstat x s.tqstats rq.sq).1 } in
    let s₁ = uncount s₀ rq.addr true true true in
    let ok₁ : IsConsistent s₁ =
      uncount-IsConsistent s₀
        (record { width = ok.width; opened = ok.opened; balance = ok.balance }) rq.addr true true
        true in
    if-holds (λ (r : Occupancy × State). IsConsistent r.1)
      (is_some (get_tqstat x s.tqstats rq.sq).0)
      (elim (Option-cases (s₁.tqstats rq.sq)) [
        | inl e ↦ rw e ok₁
        | inr (qs, e) ↦
            rw e (record { width = ok₁.width; opened = ok₁.opened; balance = ok₁.balance })
      ])
      ok₁

count_cmd-IsConsistent :
    (g : Config) (x : Run) (s : State) → IsConsistent s → IsConsistent (count_cmd g x s)
count_cmd-IsConsistent g x s ok = record {
  width = ok.width;
  opened = ok.opened;
  balance = ok.balance;
}

emit_reused-IsConsistent :
    (g : Config) (x : Run) (s : State) (req : ℕ)
    → 0 < req
    → IsConsistent s
    → IsConsistent (emit_reused g x s req)
unfolding emit_reused
emit_reused-IsConsistent g x s req h ok =
    if-holds IsConsistent (nonzero s.inflight)
      (tgt_emit-IsConsistent _ (on_rec-IsConsistent s ok req _) x req h) ok

init_read-IsConsistent :
    (g : Config) (x : Run) (s : State) (o : Occupancy) (id : CmdId) (rq : Request)
    → 0 < rq.addr
    → IsConsistent s
    → IsConsistent (init_read g x s o id rq)
unfolding init_read
init_read-IsConsistent g x s o id rq h ok =
    if-holds IsConsistent _ (take_slot-IsConsistent s ok g x o id rq h) ok

pub req_init-IsConsistent :
    (g : Config) (x : Run) (s : State) (rq : Request)
    → 0 < rq.addr
    → IsConsistent s
    → IsConsistent (req_init g x s rq)
unfolding req_init
req_init-IsConsistent g x s rq h ok =
    let nothing : Occupancy = record { outstanding = 0; resp_queue = 0 } in
    let counted : IsConsistent
        (if g.filter.track_queues then count_command g x s rq else (nothing, s)).1 =
      if-holds (λ (r : Occupancy × State). IsConsistent r.1) g.filter.track_queues
        (count_command-IsConsistent g x s rq ok) ok in
    let ready = emit_reused-IsConsistent g x _ rq.addr h (count_cmd-IsConsistent g x _ counted) in
    elim (Option-cases (read_cmd rq.cmd)) [
      | inl e ↦ rw (e, req_init) (if-holds IsConsistent _ ready ok)
      | inr (id, e) ↦
          rw (e, req_init)
            (if-holds IsConsistent _ (init_read-IsConsistent g x _ _ id rq h ready) ok)
    ]

pub tgt_finish-IsConsistent :
    (g : Config) (x : Run) (s : State) (req : ℕ)
    → 0 < req
    → IsConsistent s
    → IsConsistent (tgt_finish x g s req)
unfolding tgt_finish tgt_uncount
tgt_finish-IsConsistent g x s req h ok =
    tgt_emit-IsConsistent _
      (if-holds IsConsistent g.filter.track_queues (uncount-IsConsistent s ok req true true true)
        ok)
      x req h

pub on_exec-IsConsistent :
    (x : Run) (s : State) (rq : Request) → IsConsistent s → IsConsistent (on_exec x s rq)
unfolding on_exec
on_exec-IsConsistent x s rq ok = if-holds IsConsistent _ (on_rec-IsConsistent s ok _ _) ok

backend-IsConsistent :
    (s : State) (priv : ℕ) (f : TgtRec → TgtRec)
    → IsConsistent s
    → IsConsistent (if nonzero s.inflight then if nonzero priv then on_rec s priv f else s else s)
backend-IsConsistent s priv f ok =
    if-holds IsConsistent _ (if-holds IsConsistent _ (on_rec-IsConsistent s ok priv f) ok) ok

pub be_issue-IsConsistent :
    (x : Run) (s : State) (priv : ℕ) → IsConsistent s → IsConsistent (be_issue x s priv)
unfolding be_issue
be_issue-IsConsistent x s priv ok = backend-IsConsistent s priv _ ok

pub be_done-IsConsistent :
    (x : Run) (s : State) (priv : ℕ) → IsConsistent s → IsConsistent (be_done x s priv)
unfolding be_done
be_done-IsConsistent x s priv ok = backend-IsConsistent s priv _ ok

pub req_complete-IsConsistent :
    (x : Run) (s : State) (req : ℕ) → IsConsistent s → IsConsistent (req_complete x s req)
unfolding req_complete
req_complete-IsConsistent x s req ok = if-holds IsConsistent _ (on_rec-IsConsistent s ok req _) ok

pub tgt_ctx_enter-IsConsistent :
    (x : Run) (s : State) (queue sk arrival : ℕ)
    → IsConsistent s
    → IsConsistent (tgt_ctx_enter x s queue sk arrival)
unfolding tgt_ctx_enter
tgt_ctx_enter-IsConsistent x s queue sk arrival ok = record {
  width = ok.width;
  opened = ok.opened;
  balance = ok.balance;
}

pub tgt_ctx_exit-IsConsistent :
    (x : Run) (s : State) → IsConsistent s → IsConsistent (tgt_ctx_exit x s)
unfolding tgt_ctx_exit
tgt_ctx_exit-IsConsistent x s ok = elim (Bool-cases ((s.tgt_ctx x.cpu).tid == x.tid)) [
  | inl e ↦
      rw (e, tgt_ctx_exit) (record { width = ok.width; opened = ok.opened; balance = ok.balance })
  | inr e ↦ rw (e, tgt_ctx_exit) ok
]
