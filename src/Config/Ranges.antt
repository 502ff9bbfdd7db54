-- ===== src/Config/Ranges.antt =====
-- The numbers that the parsers of src/util.c and src/config.c give.
use ntprof.Prelude.{
  ℕ, ◌-◌, ◌*◌, ◌%◌, ◌^◌, ◌≤◌, ◌<◌, ◌≡◌, subst, not, ◌||◌, List, [], ◌∷◌, Option, none, some,
  Option-cases, Bool-cases, inl, inr, ltb, leb, ◌==◌, if-holds, get_or, arith,
}
use ntprof.Config.{next_size, good_size}
use ntprof.Config.Text.{
  starts_with_digit, parse_size, size_suffix, size_end, digits, bounded, set_uint, strtoul, strip,
  to_lower,
}

-- A positive number of 32 bits.
abbrev pub IsCount : ℕ → Type 0
IsCount n = (0 < n) × (n < 2 ^ 32)

-- The first `n` sizes can be compared with.
abbrev pub AreSizes : ℕ → List ℕ → Type 0
AreSizes n sizes = (i : ℕ) → i < n → IsCount (get_or sizes i 0)

-- What a parser gives, if anything, is in a range.
pub data Gives (P : ℕ → Type 0) : Option ℕ → Type 0 where
  nothing : Gives P none
  gives : {n : ℕ} → P n → Gives P (some n)

size_end-small : (v : ℕ) (s : List ℕ) → v < 2 ^ 64 → Gives (λ n. n < 2 ^ 64) (size_end v s)
unfolding size_end
size_end-small v [] h = gives h
size_end-small v (c ∷ []) h =
    if-holds (Gives (λ n. n < 2 ^ 64)) (to_lower c == 98) (gives h) nothing
size_end-small v (c ∷ d ∷ s) h = nothing

size_suffix-small : (v : ℕ) (s : List ℕ) → v < 2 ^ 64 → Gives (λ n. n < 2 ^ 64) (size_suffix v s)
unfolding size_suffix
size_suffix-small v [] h = gives h
size_suffix-small v (c ∷ s) h =
    let P = Gives (λ n. n < 2 ^ 64) in
    if-holds P (to_lower c == 107) (size_end-small (v * 2 ^ 10 % 2 ^ 64) s (omega arith)) (
      if-holds P (to_lower c == 109) (size_end-small (v * 2 ^ 20 % 2 ^ 64) s (omega arith)) (
        if-holds P (to_lower c == 103) (size_end-small (v * 2 ^ 30 % 2 ^ 64) s (omega arith))
          nothing))

pub parse_size-small : (s : List ℕ) → Gives (λ n. n < 2 ^ 64) (parse_size s)
unfolding parse_size
parse_size-small s =
    let P = Gives (λ n. n < 2 ^ 64) in
    if-holds P (not (starts_with_digit s)) nothing
      (elim (Bool-cases (leb (2 ^ 64) (digits 0 s).0)) [
        | inl e ↦ rw e nothing
        | inr e ↦ rw e (size_suffix-small (digits 0 s).0 (digits 0 s).1 (ground arith))
      ])

bounded-IsCount : (n : ℕ) (rest : List ℕ) → Gives IsCount (bounded 1 n rest)
unfolding bounded
bounded-IsCount n (c ∷ cs) = nothing
bounded-IsCount n [] = elim (Bool-cases (ltb n 1 || ltb (2 ^ 32 - 1) n)) [
  | inl e ↦ rw (e, bounded) nothing
  | inr e ↦ rw (e, bounded) (gives (ground arith))
]

pub set_uint-IsCount : (v : List ℕ) → Gives IsCount (set_uint v 1)
unfolding set_uint
set_uint-IsCount v = elim (Option-cases (strtoul v).0) [
  | inl e ↦ rw (e, set_uint) nothing
  | inr (n, e) ↦ rw (e, set_uint) (bounded-IsCount n (strtoul v).1)
]

good_size-IsCount : (t : List ℕ) → Gives IsCount (good_size t)
unfolding good_size
good_size-IsCount t = elim (Option-cases (parse_size (strip t))) [
  | inl e ↦ rw (e, good_size) nothing
  | inr (n, e) ↦ elim (Bool-cases (n == 0 || ltb (2 ^ 32 - 1) n)) [
    | inl f ↦ rw (e, good_size, f) nothing
    | inr f ↦ rw (e, good_size, f) (gives (ground arith))
  ]
]

pub given : {P : ℕ → Type 0} {n : ℕ} {o : Option ℕ} → o ≡ some n → Gives P o → P n
given {P = P} e g = go (subst (Gives P) e g)
  where
    go : {n : ℕ} → Gives P (some n) → P n
    go (gives p) = p

pub next_size-IsCount :
    (n : ℕ) (t : List ℕ) → n ≤ 16 → Gives (λ size. IsCount size × (n < 16)) (next_size n t)
unfolding next_size
next_size-IsCount n t h = elim (Bool-cases (n == 16)) [
  | inl e ↦ rw (e, next_size) nothing
  | inr e ↦
      rw (e, next_size)
        (elim (Option-cases (good_size t)) [
          | inl f ↦ rw f nothing
          | inr (size, f) ↦ rw f (gives (given f (good_size-IsCount t), ground arith))
        ])
]
