-- ===== src/Model/Phase.antt =====
-- The data phase of a TCP read or write: `data_phase` of src/model.c.
use ntprof.Prelude.{
  ℕ, ◌-◌, ◌^◌, ◌<◌, ◌≤◌, ◌≡◌, ap, ◌∙◌, true, false, arith, ◌||◌, not, nonzero, ltb, Bool-cases, inl,
  inr, ◌==◌, if◌then◌else◌,
}
use ntprof.Prelude.Int.{pos, ◌-ℤ◌}
use ntprof.Model.Breakdown.{Breakdown, data_phase, busy_part, d}
use ntprof.Model.Comp.{Comp, comp_index}

d_exact : (done first : ℕ) → first ≤ done → done < 2 ^ 63 → d done first ≡ pos (done - first)
unfolding d
d_exact done first h s = ground arith

busy_part_exact :
    (first done busy_ns : ℕ)
    → first ≤ done
    → done < 2 ^ 63
    → busy_part first done busy_ns
      ≡ pos (if ltb (done - first) busy_ns then done - first else busy_ns)
unfolding busy_part d
busy_part_exact first done busy_ns h s = ground arith

rest_exact :
    (span busy_ns : ℕ)
    → pos span -ℤ pos (if ltb span busy_ns then span else busy_ns) ≡ pos (span - busy_ns)
unfolding ◌-ℤ◌
rest_exact span busy_ns = ground arith

unequal : (a b : ℕ) → (a == b) ≡ false → (b == a) ≡ false
unequal a b h = ground arith

same_index : (c : Comp) → (comp_index c == comp_index c) ≡ true
same_index c = ground arith

guards :
    (first done next busy_ns : ℕ)
    → (not (nonzero busy_ns) || not (nonzero done) || ltb done first || ltb next done) ≡ false
    → first ≤ done
guards first done next busy_ns h = ground arith

-- If a data phase ends below 2^63 ns, its two components differ and data_phase returns true, then
-- the first component is the transport's own time but at most the span from first to done, and the
-- second is the rest of the span, both not negative.
pub data_phase_exact :
    (first done next busy_ns : ℕ) (busy_c wait_c : Comp) (b : Breakdown)
    → done < 2 ^ 63
    → (comp_index wait_c == comp_index busy_c) ≡ false
    → (data_phase first done next busy_ns busy_c wait_c b).0 ≡ true
    → ((data_phase first done next busy_ns busy_c wait_c b).1.comp busy_c
        ≡ pos (if ltb (done - first) busy_ns then done - first else busy_ns))
      × ((data_phase first done next busy_ns busy_c wait_c b).1.comp wait_c
          ≡ pos (done - first - busy_ns))
unfolding data_phase
data_phase_exact first done next busy_ns busy_c wait_c b s ne h =
    elim (Bool-cases
      (not (nonzero busy_ns) || not (nonzero done) || ltb done first || ltb next done)) [
        | inl e ↦ let no : false ≡ true = rw (e, data_phase) at h in absurd cc
        | inr e ↦
            let le = guards first done next busy_ns e in
            rw (e, data_phase, ne, same_index busy_c, same_index wait_c)
              (
                busy_part_exact first done busy_ns le s,
                ap (λ z. z -ℤ busy_part first done busy_ns) (d_exact done first le s)
                    ∙ ap (λ z. pos (done - first) -ℤ z) (busy_part_exact first done busy_ns le s)
                    ∙ rest_exact (done - first) busy_ns,
              )
      ]
