-- ===== src/Bpf/Inv.antt =====
-- The records that a host object has open, over the hooks of bpf/host.bpf.h.
use ntprof.Prelude.{
  ℕ, zero, suc, ◌+◌, ◌^◌, ◌≤◌, ◌<◌, ◌≡◌, refl, ◌∙◌, Bool, true, false, not, List, [], ◌∷◌, nonzero,
  ◌==◌, if◌then◌else◌, if-holds, length, set, replicate, arith, Bool-cases, Option-cases, inl, inr,
  is_some, length-set, length-replicate, sum_by, sum_by-set,
}
use ntprof.Record.{CmdId, HostRec}
use ntprof.Bpf.Common.{Run, rec_slots}
use ntprof.Bpf.Slots.{ntp_slot-lt, dec64-small}
use ntprof.Bpf.Host.{
  Config, Request, State, HostEntry, Pending, loaded, free_entry, slot_of, entry_at, host_entry,
  on_rec, uncount, get_qstat,
}
use ntprof.Bpf.Host.Submit.{Via, count_request, host_queue_rq, open_slot, take_slot, new_entry}
use ntprof.Bpf.Host.Complete.{nvme_done, output, blk_done, finish, closed}

unfoldable pub occupied : HostEntry → ℕ
occupied e = if nonzero e.rq then 1 else 0

-- The number of open records is `ntp_inflight`, and each sampled command has its record emitted,
-- dropped, replaced or open.
pub record IsConsistent (s : State) : Type 0 where
  pub width : length s.reqs ≡ rec_slots
  pub opened : s.inflight ≡ sum_by occupied s.reqs
  pub balance :
      s.counters.host_sampled
      ≡ s.counters.host_emitted + s.counters.rb_drops + s.counters.stale + s.inflight

none-occupied : (n : ℕ) → 0 ≡ sum_by occupied (replicate n free_entry)
unfolding sum_by occupied
none-occupied zero = refl
none-occupied (suc n) = omega (arith, none-occupied n)

occupied-le : (es : List HostEntry) → sum_by occupied es ≤ length es
unfolding sum_by occupied
occupied-le [] = omega arith
occupied-le (e ∷ es) = ground (arith, occupied-le es)

pub loaded-IsConsistent : IsConsistent loaded
unfolding loaded
loaded-IsConsistent = record {
  width = length-replicate rec_slots free_entry;
  opened = none-occupied rec_slots;
  balance = refl;
}

pub occupied-owned : (e : HostEntry) → nonzero e.rq ≡ true → occupied e ≡ 1
unfolding occupied
occupied-owned e h = rw h refl

occupied-free : (e : HostEntry) → nonzero e.rq ≡ false → occupied e ≡ 0
unfolding occupied
occupied-free e h = rw h refl

new_entry-occupied :
    (g : Config) (x : Run) (v : Via g) (id : CmdId) (rq : Request)
    → 0 < rq.addr
    → occupied (new_entry g x v id rq) ≡ 1
unfolding new_entry
new_entry-occupied g x v id rq h = occupied-owned _ (ground arith)

closed-occupied : (g : Config) (x : Run) (e : HostEntry) → occupied (closed g x e) ≡ 0
unfolding closed occupied
closed-occupied g x e = refl

pub owned : (e : HostEntry) (rq : ℕ) → (e.rq == rq) ≡ true → 0 < rq → nonzero e.rq ≡ true
owned e rq a h = ground arith

module _ (s : State) (ok : IsConsistent s) where
  in_range : (rq : ℕ) → slot_of rq < length s.reqs
  in_range rq = rw ok.width (ntp_slot-lt rq)

  inflight-small : s.inflight < 2 ^ 63
  inflight-small = omega (arith, ok.opened, ok.width, occupied-le s.reqs)

  -- A hook that writes one entry without changing its owner.
  pub on_rec-IsConsistent : (rq : ℕ) (f : HostRec → HostRec) → IsConsistent (on_rec s rq f)
  unfolding on_rec host_entry occupied
  on_rec-IsConsistent rq f =
      let e = entry_at s (slot_of rq) in
      let e' : HostEntry = record e { rec = f e.rec } in
      elim (Bool-cases (e.rq == rq)) [
        | inl h ↦
            rw (h, on_rec, host_entry)
              (record {
                width = length-set s.reqs (slot_of rq) e' ∙ ok.width;
                opened = omega (
                  arith,
                  ok.opened,
                  sum_by-set occupied s.reqs (slot_of rq) e' free_entry (in_range rq),
                );
                balance = ok.balance;
              })
        | inr h ↦ rw (h, on_rec, host_entry) ok
      ]

  pub uncount-IsConsistent : (rq : ℕ) (a b forget : Bool) → IsConsistent (uncount s rq a b forget)
  unfolding uncount
  uncount-IsConsistent rq a b forget = elim (Option-cases (s.counted rq)) [
    | inl e ↦ rw (e, uncount) ok
    | inr (c, e) ↦
        rw (e, uncount) (record { width = ok.width; opened = ok.opened; balance = ok.balance })
  ]

  count_request-IsConsistent :
      (g : Config) (x : Run) (p : Pending) → IsConsistent (count_request g x s p)
  unfolding count_request
  count_request-IsConsistent g x p = elim (Option-cases (get_qstat x s.qstats p.queue).0) [
    | inl e ↦
        rw (e, count_request)
          (record { width = ok.width; opened = ok.opened; balance = ok.balance })
    | inr (qs, e) ↦
        rw (e, count_request)
          (if-holds IsConsistent (is_some (s.counted p.rq))
            (record { width = ok.width; opened = ok.opened; balance = ok.balance })
            (record { width = ok.width; opened = ok.opened; balance = ok.balance }))
  ]

  pub host_queue_rq-IsConsistent :
      (g : Config) (x : Run) (rq driver_data : ℕ)
      → IsConsistent (host_queue_rq g x s rq driver_data)
  unfolding host_queue_rq
  host_queue_rq-IsConsistent g x rq driver_data = if-holds IsConsistent (not s.armed) ok (
      if-holds IsConsistent g.filter.track_queues (count_request-IsConsistent g x _)
        (record { width = ok.width; opened = ok.opened; balance = ok.balance }))

  occupied-set :
      (rq : ℕ) (e : HostEntry)
      → sum_by occupied (set s.reqs (slot_of rq) e) + occupied (entry_at s (slot_of rq))
        ≡ sum_by occupied s.reqs + occupied e
  occupied-set rq e = sum_by-set occupied s.reqs (slot_of rq) e free_entry (in_range rq)

  -- Taking a slot opens a record, or replaces the one of its owner.
  pub take_slot-IsConsistent :
      (g : Config) (x : Run) (v : Via g) (id : CmdId) (rq : Request)
      → 0 < rq.addr
      → IsConsistent (take_slot g x s v id rq)
  unfolding take_slot open_slot
  take_slot-IsConsistent g x v id rq h =
      let slot = slot_of rq.addr in
      let e' = new_entry g x v id rq in
      let sum = occupied-set rq.addr e' in
      let one : occupied e' ≡ 1 = new_entry-occupied g x v id rq h in
      elim (Bool-cases (nonzero (entry_at s slot).rq)) [
        | inl e ↦
            rw (e, take_slot, open_slot)
              (record {
                width = length-set s.reqs slot e' ∙ ok.width;
                opened = omega (arith, ok.opened, sum, one, occupied-owned (entry_at s slot) e);
                balance = omega (arith, ok.balance);
              })
        | inr e ↦
            rw (e, take_slot, open_slot)
              (record {
                width = length-set s.reqs slot e' ∙ ok.width;
                opened =
                    omega (
                      arith,
                      ok.opened,
                      sum,
                      one,
                      inflight-small,
                      occupied-free (entry_at s slot) e,
                    );
                balance = omega (arith, ok.balance, inflight-small);
              })
      ]

  finish-IsConsistent :
      (g : Config) (x : Run) (rq : ℕ)
      → nonzero (entry_at s (slot_of rq)).rq ≡ true
      → IsConsistent (finish g x s rq (entry_at s (slot_of rq)))
  unfolding finish output
  finish-IsConsistent g x rq h =
      let slot = slot_of rq in
      let e' = closed g x (entry_at s slot) in
      let sum = occupied-set rq e' in
      let zero_now : occupied e' ≡ 0 = closed-occupied g x (entry_at s slot) in
      let one = occupied-owned (entry_at s slot) h in
      let less =
        dec64-small s.inflight (omega (arith, sum, zero_now, one, ok.opened)) inflight-small in
      elim (Bool-cases x.delivered) [
        | inl d ↦
            rw (d, finish, output)
              (record {
                width = length-set s.reqs slot e' ∙ ok.width;
                opened = omega (arith, ok.opened, sum, zero_now, one, less);
                balance = omega (arith, ok.balance, less);
              })
        | inr d ↦
            rw (d, finish, output)
              (record {
                width = length-set s.reqs slot e' ∙ ok.width;
                opened = omega (arith, ok.opened, sum, zero_now, one, less);
                balance = omega (arith, ok.balance, less);
              })
      ]

  -- A record that goes out is emitted or dropped, and its slot is free.
  pub blk_done-IsConsistent :
      (g : Config) (x : Run) (rq : ℕ) → 0 < rq → IsConsistent (blk_done g x s rq)
  unfolding blk_done host_entry
  blk_done-IsConsistent g x rq h =
      let e = entry_at s (slot_of rq) in
      elim (Bool-cases (e.rq == rq)) [
        | inl a ↦
            rw (a, blk_done, host_entry)
              (if-holds IsConsistent (nonzero s.inflight)
                (finish-IsConsistent g x rq (owned e rq a h)) ok)
        | inr a ↦ rw (a, blk_done, host_entry) ok
      ]

  pub nvme_done-IsConsistent : (g : Config) (x : Run) (rq : ℕ) → IsConsistent (nvme_done g x s rq)
  unfolding nvme_done
  nvme_done-IsConsistent g x rq =
      if-holds IsConsistent (nonzero s.inflight) (on_rec-IsConsistent rq _) ok
