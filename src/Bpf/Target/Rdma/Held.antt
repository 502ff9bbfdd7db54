-- ===== src/Bpf/Target/Rdma/Held.antt =====
-- A record that stays open while one end of its response is noted: rsp_part_done of
-- bpf/nvme_rdma_target.bpf.c and tgt_uncount of bpf/target.bpf.h.
use Prim.Native.Nat.{bit_or}
use ntprof.Prelude.{
  ℕ, ◌+◌, ◌<◌, ◌≡◌, refl, sym, ap, subst, ◌∙◌, true, false, some, ◌==◌, if◌then◌else◌, Bool-cases,
  inl, inr, ◌∷◌,
}
use ntprof.Record.{Filter, TgtRec}
use ntprof.Bpf.Common.{Run}
use ntprof.Bpf.Lookup.{written}
use ntprof.Bpf.Target.{Config, State, TgtEntry, tgt_entry, slot_of, free_entry, on_rec}
use ntprof.Bpf.Target.Finish.{out_rec, tgt_uncount}
use ntprof.Bpf.Target.Inv.{IsConsistent, in_range, on_rec-IsConsistent, uncount-IsConsistent}
use ntprof.Bpf.Target.Tcp.Emit.{Sent, entry-owner, emitted, on_rec-same, uncount-same}
use ntprof.Bpf.Target.Rdma.{Mem, rsp_posted, rsp_send_done, note_part, rsp_part_done}
use ntprof.Bpf.Target.Rdma.Steps.{note_part-IsConsistent}

-- From `t` to `t'` nothing went out, and the entry of `req` is `e`.
unfoldable pub Held : State → State → ℕ → TgtEntry → Type 0
Held t t' req e =
    IsConsistent t'
    × (tgt_entry t' req ≡ some e)
    × (t'.inflight ≡ t.inflight)
    × (t'.events ≡ t.events)

pub Sent-Held :
    (x : Run) (t t' t'' : State) (req : ℕ) (e : TgtEntry) (r : TgtRec)
    → Held t t' req e
    → Sent x t' req r t''
    → Sent x t req r t''
unfolding Sent Held
Sent-Held x t t' t'' req e r (ok, held, count, events) (gone, less, out) =
    (gone, less ∙ count, out ∙ ap (λ es. if x.delivered then out_rec x r ∷ es else es) events)

pub noted-Held :
    (t : State) (req : ℕ) (e : TgtEntry) (part : ℕ)
    → IsConsistent t
    → 0 < req
    → tgt_entry t req ≡ some e
    → Held t (note_part t req e part) req (record e { parts = bit_or e.parts part })
unfolding note_part tgt_entry Held
noted-Held t req e part ok h found =
    let own = (entry-owner t ok req h e found).1 in
    let e' : TgtEntry = record e { parts = bit_or e.parts part } in
    let here = written t.treqs (slot_of req) e' free_entry (in_range t ok req) in
    (note_part-IsConsistent t req e part found ok, rw (here, own) refl, refl, refl)

module _ (f : Filter) (m : Mem) (x : Run) (t : State) (req : ℕ) (e : TgtEntry) (part : ℕ) where
  pub first_part :
      (p : ℕ)
      → IsConsistent t
      → 0 < req
      → tgt_entry t req ≡ some e
      → bit_or e.parts part ≡ p
      → (p == bit_or rsp_posted rsp_send_done) ≡ false
      → Held t (rsp_part_done f m x t req part) req (record e { parts = p })
  unfolding rsp_part_done
  first_part p ok h found now more =
      let not_all = subst (λ p. (p == bit_or rsp_posted rsp_send_done) ≡ false) (sym now) more in
      subst (λ p. Held t (rsp_part_done f m x t req part) req (record e { parts = p })) now
        (rw (found, rsp_part_done, not_all) (noted-Held t req e part ok h found))

  pub last_part :
      IsConsistent t
      → 0 < req
      → tgt_entry t req ≡ some e
      → (bit_or e.parts part == bit_or rsp_posted rsp_send_done) ≡ true
      → Sent x t req e.rec (rsp_part_done f m x t req part)
  unfolding rsp_part_done Held
  last_part ok h found over =
      let noted = noted-Held t req e part ok h found in
      let e' : TgtEntry = record e { parts = bit_or e.parts part } in
      rw (found, rsp_part_done, over)
        (Sent-Held x t _ _ req e' e.rec noted
          (emitted (note_part t req e part) noted.0 req h x e' noted.1))

pub stamped-Held :
    (t : State) (req : ℕ) (e : TgtEntry) (g : TgtRec → TgtRec)
    → IsConsistent t
    → 0 < req
    → tgt_entry t req ≡ some e
    → Held t (on_rec t req g) req (record e { rec = g e.rec })
unfolding Held
stamped-Held t req e g ok h found =
    let (held, count, events) = on_rec-same t req e g ok h found in
    (on_rec-IsConsistent t ok req g, held, count, events)

pub Held-trans :
    (t t' t'' : State) (req : ℕ) (e e' : TgtEntry)
    → Held t t' req e
    → Held t' t'' req e'
    → Held t t'' req e'
unfolding Held
Held-trans t t' t'' req e e' (ok, held, count, events) (ok', held', count', events') =
    (ok', held', count' ∙ count, events' ∙ events)

pub uncounted-Held :
    (x : Run) (g : Config) (t : State) (req : ℕ) (e : TgtEntry)
    → IsConsistent t
    → tgt_entry t req ≡ some e
    → Held t (tgt_uncount x g t req) req e
unfolding Held tgt_uncount
uncounted-Held x g t req e ok found =
    let (same, count, events) = uncount-same t req true true true in
    elim (Bool-cases g.filter.track_queues) [
      | inl q ↦
          rw (q, tgt_uncount)
            (uncount-IsConsistent t ok req true true true, same ∙ found, count, events)
      | inr q ↦ rw (q, tgt_uncount) (ok, found, refl, refl)
    ]

pub uncounted-Sent :
    (x y : Run) (g : Config) (t t' : State) (req : ℕ) (r : TgtRec)
    → Sent x t req r t'
    → Sent x t req r (tgt_uncount y g t' req)
unfolding Sent tgt_uncount
uncounted-Sent x y g t t' req r (gone, less, out) =
    let (same, count, events) = uncount-same t' req true true true in
    elim (Bool-cases g.filter.track_queues) [
      | inl q ↦ rw (q, tgt_uncount) (same ∙ gone, ap (λ n. n + 1) count ∙ less, events ∙ out)
      | inr q ↦ rw (q, tgt_uncount) (gone, less, out)
    ]
