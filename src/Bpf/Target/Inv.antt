-- ===== src/Bpf/Target/Inv.antt =====
-- The records that a target object has open, over the hooks of bpf/target.bpf.h.
use ntprof.Prelude.{
  ℕ, zero, suc, ◌+◌, ◌^◌, ◌≤◌, ◌<◌, ◌≡◌, refl, ◌∙◌, Bool, true, false, List, [], ◌∷◌, nonzero, ◌==◌,
  if◌then◌else◌, if-holds, length, set, replicate, arith, Bool-cases, Option-cases, inl, inr,
  length-set, length-replicate, sum_by, sum_by-set,
}
use ntprof.Record.{CmdId, TgtRec}
use ntprof.Bpf.Common.{Run, rec_slots}
use ntprof.Bpf.Slots.{ntp_slot-lt, dec64-small}
use ntprof.Bpf.Target.{
  Config, Request, State, TgtEntry, loaded, free_entry, slot_of, entry_at, tgt_entry, on_rec,
  uncount, count_resp_queued,
}
use ntprof.Bpf.Target.Arrive.{Occupancy, open_slot, take_slot, new_entry}
use ntprof.Bpf.Target.Finish.{closed, output, emit_entry, tgt_emit}

unfoldable pub occupied : TgtEntry → ℕ
occupied e = if nonzero e.req then 1 else 0

-- The number of open records is `ntp_inflight`, and each sampled command has its record emitted,
-- dropped, replaced or open.
pub record IsConsistent (s : State) : Type 0 where
  pub width : length s.treqs ≡ rec_slots
  pub opened : s.inflight ≡ sum_by occupied s.treqs
  pub balance :
      s.counters.tgt_sampled
      ≡ s.counters.tgt_emitted + s.counters.rb_drops + s.counters.stale + s.inflight

none-occupied : (n : ℕ) → 0 ≡ sum_by occupied (replicate n free_entry)
unfolding sum_by occupied
none-occupied zero = refl
none-occupied (suc n) = omega (arith, none-occupied n)

occupied-le : (es : List TgtEntry) → sum_by occupied es ≤ length es
unfolding sum_by occupied
occupied-le [] = omega arith
occupied-le (e ∷ es) = ground (arith, occupied-le es)

pub loaded-IsConsistent : IsConsistent loaded
unfolding loaded
loaded-IsConsistent = record {
  width = length-replicate rec_slots free_entry;
  opened = none-occupied rec_slots;
  balance = refl;
}

pub occupied-owned : (e : TgtEntry) → nonzero e.req ≡ true → occupied e ≡ 1
unfolding occupied
occupied-owned e h = rw h refl

occupied-free : (e : TgtEntry) → nonzero e.req ≡ false → occupied e ≡ 0
unfolding occupied
occupied-free e h = rw h refl

new_entry-occupied :
    (g : Config) (x : Run) (v : Occupancy) (id : CmdId) (rq : Request)
    → 0 < rq.addr
    → occupied (new_entry g x v id rq) ≡ 1
unfolding new_entry
new_entry-occupied g x v id rq h = occupied-owned _ (ground arith)

closed-occupied : (x : Run) (e : TgtEntry) → occupied (closed x e) ≡ 0
unfolding closed occupied
closed-occupied x e = refl

pub owned : (e : TgtEntry) (rq : ℕ) → (e.req == rq) ≡ true → 0 < rq → nonzero e.req ≡ true
owned e rq a h = ground arith

module _ (s : State) (ok : IsConsistent s) where
  pub in_range : (rq : ℕ) → slot_of rq < length s.treqs
  in_range rq = rw ok.width (ntp_slot-lt rq)

  pub inflight-small : s.inflight < 2 ^ 63
  inflight-small = omega (arith, ok.opened, ok.width, occupied-le s.treqs)

  -- A hook that writes one entry without changing its owner.
  pub on_rec-IsConsistent : (rq : ℕ) (f : TgtRec → TgtRec) → IsConsistent (on_rec s rq f)
  unfolding on_rec tgt_entry occupied
  on_rec-IsConsistent rq f =
      let e = entry_at s (slot_of rq) in
      let e' : TgtEntry = record e { rec = f e.rec } in
      elim (Bool-cases (e.req == rq)) [
        | inl h ↦
            rw (h, on_rec, tgt_entry)
              (record {
                width = length-set s.treqs (slot_of rq) e' ∙ ok.width;
                opened = omega (
                  arith,
                  ok.opened,
                  sum_by-set occupied s.treqs (slot_of rq) e' free_entry (in_range rq),
                );
                balance = ok.balance;
              })
        | inr h ↦ rw (h, on_rec, tgt_entry) ok
      ]

  pub uncount-IsConsistent : (rq : ℕ) (a b forget : Bool) → IsConsistent (uncount s rq a b forget)
  unfolding uncount
  uncount-IsConsistent rq a b forget = elim (Option-cases (s.tcounted rq)) [
    | inl e ↦ rw (e, uncount) ok
    | inr (c, e) ↦
        rw (e, uncount) (record { width = ok.width; opened = ok.opened; balance = ok.balance })
  ]

  occupied-set :
      (rq : ℕ) (e : TgtEntry)
      → sum_by occupied (set s.treqs (slot_of rq) e) + occupied (entry_at s (slot_of rq))
        ≡ sum_by occupied s.treqs + occupied e
  occupied-set rq e = sum_by-set occupied s.treqs (slot_of rq) e free_entry (in_range rq)

  -- Taking a slot opens a record, or replaces the one of its owner.
  pub take_slot-IsConsistent :
      (g : Config) (x : Run) (v : Occupancy) (id : CmdId) (rq : Request)
      → 0 < rq.addr
      → IsConsistent (take_slot g x s v id rq)
  unfolding take_slot open_slot
  take_slot-IsConsistent g x v id rq h =
      let slot = slot_of rq.addr in
      let e' = new_entry g x v id rq in
      let sum = occupied-set rq.addr e' in
      let one : occupied e' ≡ 1 = new_entry-occupied g x v id rq h in
      elim (Bool-cases (nonzero (entry_at s slot).req)) [
        | inl e ↦
            rw (e, take_slot, open_slot)
              (record {
                width = length-set s.treqs slot e' ∙ ok.width;
                opened = omega (arith, ok.opened, sum, one, occupied-owned (entry_at s slot) e);
                balance = omega (arith, ok.balance);
              })
        | inr e ↦
            rw (e, take_slot, open_slot)
              (record {
                width = length-set s.treqs slot e' ∙ ok.width;
                opened =
                    omega (
                      arith,
                      ok.opened,
                      sum,
                      one,
                      inflight-small,
                      occupied-free (entry_at s slot) e,
                    );
                balance = omega (arith, ok.balance, inflight-small);
              })
      ]

  emit_entry-IsConsistent :
      (x : Run) (rq : ℕ)
      → nonzero (entry_at s (slot_of rq)).req ≡ true
      → IsConsistent (emit_entry x s rq (entry_at s (slot_of rq)))
  unfolding emit_entry output
  emit_entry-IsConsistent x rq h =
      let slot = slot_of rq in
      let e' = closed x (entry_at s slot) in
      let sum = occupied-set rq e' in
      let zero_now : occupied e' ≡ 0 = closed-occupied x (entry_at s slot) in
      let one = occupied-owned (entry_at s slot) h in
      let less =
        dec64-small s.inflight (omega (arith, sum, zero_now, one, ok.opened)) inflight-small in
      elim (Bool-cases x.delivered) [
        | inl d ↦
            rw (d, emit_entry, output)
              (record {
                width = length-set s.treqs slot e' ∙ ok.width;
                opened = omega (arith, ok.opened, sum, zero_now, one, less);
                balance = omega (arith, ok.balance, less);
              })
        | inr d ↦
            rw (d, emit_entry, output)
              (record {
                width = length-set s.treqs slot e' ∙ ok.width;
                opened = omega (arith, ok.opened, sum, zero_now, one, less);
                balance = omega (arith, ok.balance, less);
              })
      ]

  pub tgt_emit-IsConsistent : (x : Run) (req : ℕ) → 0 < req → IsConsistent (tgt_emit x s req)
  unfolding tgt_emit tgt_entry
  tgt_emit-IsConsistent x req h =
      let e = entry_at s (slot_of req) in
      elim (Bool-cases (e.req == req)) [
        | inl a ↦ rw (a, tgt_emit, tgt_entry) (emit_entry-IsConsistent x req (owned e req a h))
        | inr a ↦ rw (a, tgt_emit, tgt_entry) ok
      ]

  pub count_resp_queued-IsConsistent : (req : ℕ) → IsConsistent (count_resp_queued s req)
  unfolding count_resp_queued
  count_resp_queued-IsConsistent req = elim (Option-cases (s.tcounted req)) [
    | inl e ↦ rw (e, count_resp_queued) ok
    | inr (c, e) ↦
        rw (e, count_resp_queued)
          (if-holds IsConsistent c.resp_queued ok
            (record { width = ok.width; opened = ok.opened; balance = ok.balance }))
  ]
