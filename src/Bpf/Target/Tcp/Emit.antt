-- ===== src/Bpf/Target/Tcp/Emit.antt =====
-- What happens to a record when the response of its command is sent: on_sendmsg of
-- bpf/nvme_tcp_target.bpf.c and tgt_finish of bpf/target.bpf.h.
use ntprof.Prelude.{
  ℕ, ◌+◌, ◌<◌, ◌≡◌, refl, sym, ap, subst, ◌∙◌, Bool, true, false, ◌||◌, not, Option, none, some,
  nonzero, ◌==◌, if◌then◌else◌, Bool-cases, Option-cases, inl, inr, arith, is_some, ◌∷◌,
  get_or-le-sum_by,
}
use ntprof.Record.{Filter, TgtRec}
use ntprof.Bpf.Common.{Run, idle}
use ntprof.Bpf.Slots.{dec64-small}
use ntprof.Bpf.Lookup.{written, zero_other}
use ntprof.Bpf.Target.{
  Config, State, TgtEntry, tgt_entry, entry_at, slot_of, free_entry, on_rec, uncount,
}
use ntprof.Bpf.Target.Finish.{
  out_rec, closed, output, emit_entry, tgt_emit, tgt_uncount, tgt_finish,
}
use ntprof.Bpf.Target.Inv.{
  IsConsistent, occupied, occupied-owned, owned, in_range, inflight-small, uncount-IsConsistent,
  on_rec-IsConsistent,
}
use ntprof.Bpf.Target.Tcp.{Mem, send_response, TcpState, req_of, config}
use ntprof.Bpf.Target.Tcp.Send.{rsp_sent_rec, send_pdu, sending, on_sendmsg}

-- What a hook leaves: the record `r` of `req` went out, or the ring buffer was full.
unfoldable pub Sent : Run → State → ℕ → TgtRec → State → Type 0
Sent x t req r t' =
    (tgt_entry t' req ≡ none)
    × (t'.inflight + 1 ≡ t.inflight)
    × (t'.events ≡ (if x.delivered then out_rec x r ∷ t.events else t.events))

module _ (t : State) (ok : IsConsistent t) (req : ℕ) (h : 0 < req) where
  pub entry-owner :
      (e : TgtEntry)
      → tgt_entry t req ≡ some e
      → (entry_at t (slot_of req) ≡ e) × ((e.req == req) ≡ true)
  unfolding tgt_entry
  entry-owner e f = ground arith

  pub open_record : (e : TgtEntry) → tgt_entry t req ≡ some e → 0 < t.inflight
  open_record e f =
      let (at_slot, own) = entry-owner e f in
      let slot = slot_of req in
      let held = get_or-le-sum_by occupied t.treqs slot free_entry (in_range t ok req) in
      let one = occupied-owned (entry_at t slot) (
        owned (entry_at t slot) req
          (subst (λ (e : TgtEntry). (e.req == req) ≡ true) (sym at_slot) own) h) in
      omega (arith, ok.opened, held, one)

  freed : (x : Run) (e : TgtEntry) → tgt_entry (emit_entry x t req e) req ≡ none
  unfolding tgt_entry emit_entry closed
  freed x e =
      rw
        (
          written t.treqs (slot_of req) (closed x e) free_entry (in_range t ok req),
          zero_other req h,
        )
        refl

  put_out :
      (x : Run) (e : TgtEntry)
      → (emit_entry x t req e).events
        ≡ (if x.delivered then out_rec x e.rec ∷ t.events else t.events)
  unfolding emit_entry output closed
  put_out x e = elim (Bool-cases x.delivered) [
    | inl d ↦ rw (d, emit_entry, output) refl
    | inr d ↦ rw (d, emit_entry, output) refl
  ]

  pub emitted :
      (x : Run) (e : TgtEntry) → tgt_entry t req ≡ some e → Sent x t req e.rec (tgt_emit x t req)
  unfolding Sent tgt_emit emit_entry
  emitted x e f =
      let count = dec64-small t.inflight (open_record e f) (inflight-small t ok) in
      rw (f, tgt_emit) (freed x e, count, put_out x e)

-- Counting does not touch the records.
pub uncount-same :
    (t : State) (req : ℕ) (a b forget : Bool)
    → (tgt_entry (uncount t req a b forget) req ≡ tgt_entry t req)
      × ((uncount t req a b forget).inflight ≡ t.inflight)
      × ((uncount t req a b forget).events ≡ t.events)
unfolding uncount tgt_entry
uncount-same t req a b forget = elim (Option-cases (t.tcounted req)) [
  | inl c ↦ rw (c, uncount) (refl, refl, refl)
  | inr (k, c) ↦ rw (c, uncount) (refl, refl, refl)
]

pub tgt_finish-Sent :
    (x : Run) (g : Config) (t : State) (req : ℕ) (e : TgtEntry)
    → IsConsistent t
    → 0 < req
    → tgt_entry t req ≡ some e
    → Sent x t req e.rec (tgt_finish x g t req)
unfolding tgt_finish tgt_uncount Sent
tgt_finish-Sent x g t req e ok h f =
    let u = uncount t req true true true in
    let (same, count, events) = uncount-same t req true true true in
    let (gone, less, out) =
      emitted u (uncount-IsConsistent t ok req true true true) req h x e (same ∙ f) in
    elim (Bool-cases g.filter.track_queues) [
      | inl q ↦
          rw (q, tgt_finish, tgt_uncount)
            (
              gone,
              less ∙ count,
              out ∙ ap (λ es. if x.delivered then out_rec x e.rec ∷ es else es) events,
            )
      | inr q ↦ rw (q, tgt_finish, tgt_uncount) (emitted t ok req h x e f)
    ]

-- A write to an open record leaves it open.
pub on_rec-same :
    (t : State) (req : ℕ) (e : TgtEntry) (f : TgtRec → TgtRec)
    → IsConsistent t
    → 0 < req
    → tgt_entry t req ≡ some e
    → (tgt_entry (on_rec t req f) req ≡ some (record e { rec = f e.rec }))
      × ((on_rec t req f).inflight ≡ t.inflight)
      × ((on_rec t req f).events ≡ t.events)
unfolding on_rec tgt_entry
on_rec-same t req e f ok h found =
    let (at_slot, own) = entry-owner t ok req h e found in
    let here =
      written t.treqs (slot_of req) (record e { rec = f e.rec }) free_entry (in_range t ok req) in
    rw (found, on_rec) (rw (here, own) refl, refl, refl)

send_response-Sent :
    (f : Filter) (m : Mem) (x : Run) (g : Config) (t : State) (req : ℕ) (e : TgtEntry) (last : Bool)
    → IsConsistent t
    → 0 < req
    → tgt_entry t req ≡ some e
    → Sent x t req (rsp_sent_rec x.now e.rec) (send_pdu f m x g t req send_response last)
unfolding send_pdu Sent
send_response-Sent f m x g t req e last ok h found =
    let stamp = rsp_sent_rec x.now in
    let (held, count, events) = on_rec-same t req e stamp ok h found in
    let (gone, less, out) =
      tgt_finish-Sent x g (on_rec t req stamp) req (record e { rec = stamp e.rec })
        (on_rec-IsConsistent t ok req stamp) h held in
    (
      gone,
      less ∙ count,
      out ∙ ap (λ es. if x.delivered then out_rec x (stamp e.rec) ∷ es else es) events,
    )

goes_on :
    (f : Filter) (open_records cmd : ℕ) (o : Option TgtEntry) (e : TgtEntry)
    → 0 < open_records
    → 0 < cmd
    → o ≡ some e
    → (idle f open_records || not (nonzero cmd) || not (is_some o || f.track_queues)) ≡ false
goes_on f open_records cmd o e a b h = rw h (ground arith)

-- In a consistent state, when the response of a command whose record is open starts to go out on a
-- remembered queue, ntp_inflight falls by one, the record has no slot after it, and it goes into
-- the ring buffer with the time of the response, unless the ring buffer is full.
pub on_sendmsg-Sent :
    (f : Filter) (m : Mem) (x : Run) (s : TcpState) (sock : ℕ) (e : TgtEntry)
    → IsConsistent s.target
    → 0 < sending f m x s sock
    → 0 < req_of m (sending f m x s sock)
    → m.cmd_state (sending f m x s sock) ≡ send_response
    → tgt_entry s.target (req_of m (sending f m x s sock)) ≡ some e
    → Sent x s.target
        (req_of m (sending f m x s sock))
        (rsp_sent_rec x.now e.rec)
        (on_sendmsg f m x s sock).target
unfolding on_sendmsg
on_sendmsg-Sent f m x s sock e ok h p st found =
    let cmd = sending f m x s sock in
    let guard =
      goes_on f s.target.inflight cmd _ e (open_record s.target ok (req_of m cmd) p e found) h
        found in
    rw (guard, st)
      (send_response-Sent f m x (config f m x s) s.target (req_of m cmd) e
        (m.sqhd_disabled (m.sk_user_data (m.sock_sk sock))) ok p found)
