-- ===== src/Bpf/Lookup.antt =====
-- Finding records again: bpf/host.bpf.h, and the arrival time of bpf/common.bpf.h.
use ntprof.Prelude.{
  ◌||◌, leb, ◌-◌, ◌^◌, ◌%◌, get_or-le-sum_by, ℕ, ◌+◌, ◌<◌, ◌≤◌, ◌≡◌, refl, ap, ◌∙◌, true, false,
  Option, none, some, nonzero, ◌==◌, ==_iff, if◌then◌else◌, if-holds, Bool-cases, inl, inr, length,
  get_or, set, get_or-set, arith, List,
}
use ntprof.Record.{CmdId, Filter, HostRec}
use ntprof.Bpf.Common.{Run, rec_slots, plausible, skb_arrival, skb_stamp_max_age_ns}
use ntprof.Bpf.Slots.{ntp_slot-lt}
use ntprof.Bpf.Host.{
  Config, Request, State, HostEntry, host_entry, host_rec, host_rec_by_cid, rq_by_cid, cid_slot_of,
  slot_of, entry_at, free_entry, free_cid,
}
use ntprof.Bpf.Host.Submit.{Via, take_slot, new_entry, new_rec}
use ntprof.Bpf.Host.Complete.{blk_done, finish, closed, output}
use ntprof.Bpf.Inv.{IsConsistent, occupied, occupied-owned, owned}

abbrev IsRecent : ℕ → ℕ → Type 0
IsRecent now t = (t ≤ now) × (now < t + skb_stamp_max_age_ns)

present-IsRecent : (now : ℕ) → IsRecent now now
present-IsRecent now = (omega arith, omega arith)

plausible-IsRecent : (t now : ℕ) → plausible t now ≡ true → IsRecent now t
unfolding plausible
plausible-IsRecent t now h = ground arith

if-plausible :
    (t now : ℕ) {other : ℕ}
    → IsRecent now other
    → IsRecent now (if plausible t now then t else other)
if-plausible t now {other = other} h = elim (Bool-cases (plausible t now)) [
  | inl e ↦ rw e (plausible-IsRecent t now e)
  | inr e ↦ rw e h
]

-- The arrival time of an skb is never after the present, and less than a second before it.
pub skb_arrival-bounds :
    (filter : Filter) (t now : ℕ)
    → (skb_arrival filter t now ≤ now) × (now < skb_arrival filter t now + skb_stamp_max_age_ns)
unfolding skb_arrival
skb_arrival-bounds filter t now =
    if-holds (IsRecent now) (t == 0 || leb (2 ^ 63) t) (present-IsRecent now) (
      if-plausible ((t + (2 ^ 64 - filter.real_minus_mono)) % 2 ^ 64) now
        (if-plausible t now (present-IsRecent now)))

pub same_self : (n : ℕ) → (n == n) ≡ true
same_self n = (==_iff n n).1 refl

pub written :
    {A : Type 0} (xs : List A) (i : ℕ) (v e : A) → i < length xs → get_or (set xs i v) i e ≡ v
written xs i v e h =
    get_or-set xs i i v e h ∙ ap (λ b. if b then v else get_or xs i e) (same_self i)

found-rec :
    (s : State) (rq : ℕ) (e : HostEntry) → host_entry s rq ≡ some e → host_rec s rq ≡ some e.rec
unfolding host_rec
found-rec s rq e h =
    ap
      (λ (o : Option HostEntry). elim o as (λ o. Option HostRec) [
        | none ↦ none
        | some e ↦ some e.rec
      ])
      h

pub zero_other : (n : ℕ) → 0 < n → (0 == n) ≡ false
zero_other n h = ground arith

module _ (g : Config) (x : Run) (s : State) (v : Via g) (id : CmdId) (rq : Request)
    (ok : IsConsistent s) where
  taken-entry : host_entry (take_slot g x s v id rq) rq.addr ≡ some (new_entry g x v id rq)
  unfolding take_slot host_entry new_entry
  taken-entry =
      rw
        (
          written s.reqs (slot_of rq.addr) (new_entry g x v id rq) free_entry
              (rw ok.width (ntp_slot-lt rq.addr)),
          same_self rq.addr,
        )
        refl

  taken-cid :
      length s.cid_idx ≡ rec_slots
      → rq_by_cid (take_slot g x s v id rq) (new_entry g x v id rq).queue id.cid ≡ some rq.addr
  unfolding take_slot rq_by_cid cid_slot_of
  taken-cid w =
      let queue = (new_entry g x v id rq).queue in
      rw
        (
          written s.cid_idx (cid_slot_of queue id.cid)
              (record { queue = queue; rq = rq.addr; cid = id.cid }) free_cid
              (rw w (ntp_slot-lt _)),
          same_self queue,
          same_self id.cid,
        )
        refl

  -- In a consistent state whose index by command id has its size, after the set-up hook took a slot
  -- for a command, its record is found by the request, and by the queue and the command id.
  pub take_slot-host_rec :
      length s.cid_idx ≡ rec_slots
      → (host_rec (take_slot g x s v id rq) rq.addr ≡ some (new_rec g x v id rq))
        × (host_rec_by_cid (take_slot g x s v id rq) (new_entry g x v id rq).queue id.cid
            ≡ some (new_rec g x v id rq))
  unfolding host_rec_by_cid new_entry
  take_slot-host_rec w =
      let found = found-rec _ rq.addr (new_entry g x v id rq) taken-entry in
      (found, rw (taken-cid w, host_rec_by_cid) found)

module _ (g : Config) (x : Run) (s : State) (ok : IsConsistent s) where
  finish-gone : (rq : ℕ) (e : HostEntry) → 0 < rq → host_entry (finish g x s rq e) rq ≡ none
  unfolding finish host_entry closed output
  finish-gone rq e h =
      rw
        (
          written s.reqs (slot_of rq) (closed g x e) free_entry (rw ok.width (ntp_slot-lt rq)),
          zero_other rq h,
        )
        refl

  -- An owned slot means that something is in flight.
  owned-inflight :
      (rq : ℕ) → 0 < rq → ((entry_at s (slot_of rq)).rq == rq) ≡ true → nonzero s.inflight ≡ true
  owned-inflight rq h a =
      let e = entry_at s (slot_of rq) in
      let one = occupied-owned e (owned e rq a h) in
      let some_open : 0 < s.inflight = omega (
        arith,
        one,
        ok.opened,
        get_or-le-sum_by occupied s.reqs (slot_of rq) free_entry (rw ok.width (ntp_slot-lt rq)),
      ) in
      ground arith

  absent : (rq : ℕ) → ((entry_at s (slot_of rq)).rq == rq) ≡ false → host_entry s rq ≡ none
  unfolding host_entry
  absent rq a = rw a refl

  skipped : (rq : ℕ) → host_entry s rq ≡ none → blk_done g x s rq ≡ s
  unfolding blk_done
  skipped rq e = rw (e, blk_done) refl

  blk_done-gone : (rq : ℕ) → 0 < rq → host_entry (blk_done g x s rq) rq ≡ none
  unfolding blk_done host_entry
  blk_done-gone rq h = elim (Bool-cases ((entry_at s (slot_of rq)).rq == rq)) [
    | inl a ↦
        rw (a, blk_done, host_entry, owned-inflight rq h a)
          (finish-gone rq (entry_at s (slot_of rq)) h)
    | inr a ↦ let missed = absent rq a in ap (λ s'. host_entry s' rq) (skipped rq missed) ∙ missed
  ]

  -- In a consistent state, a request with an address other than 0 has no record after its
  -- block_rq_complete hook, and a second run of that hook, on whichever CPU, changes nothing: a
  -- record goes out at most once.
  pub blk_done-blk_done :
      (x' : Run) (rq : ℕ)
      → 0 < rq
      → (host_entry (blk_done g x s rq) rq ≡ none)
        × (blk_done g x' (blk_done g x s rq) rq ≡ blk_done g x s rq)
  unfolding blk_done
  blk_done-blk_done x' rq h = let gone = blk_done-gone rq h in (gone, rw (gone, blk_done) refl)
