-- ===== src/Config/Sizes.antt =====
-- The sizes that parse_size of src/util.c reads.
use ntprof.Prelude.{
  ℕ, ◌+◌, ◌-◌, ◌*◌, ◌%◌, ◌^◌, ◌<◌, ◌≡◌, refl, true, false, List, [], ◌∷◌, ◌++◌, none, some, leb,
  Bool-cases, inl, inr, if◌then◌else◌, arith,
}
use ntprof.Config.Text.{
  parse_size, size_suffix, size_end, digits, is_digit, starts_with_digit, to_lower,
}

-- The text is of decimal digits.
abbrev pub AreDigits : List ℕ → Type 0
AreDigits [] = Unit
AreDigits (c ∷ cs) = (is_digit c ≡ true) × AreDigits cs

-- The number that the digits after `v` make.
unfoldable pub decimal : ℕ → List ℕ → ℕ
decimal v [] = v
decimal v (c ∷ cs) = decimal (v * 10 + (c - b'0')) cs

-- A unit, with or without a B, in either case, and its bytes.
pub data SizeUnit : List ℕ → ℕ → Type 0 where
  bytes : SizeUnit [] 1
  kilo : (c : ℕ) → to_lower c ≡ b'k' → SizeUnit (c ∷ []) (2 ^ 10)
  mega : (c : ℕ) → to_lower c ≡ b'm' → SizeUnit (c ∷ []) (2 ^ 20)
  giga : (c : ℕ) → to_lower c ≡ b'g' → SizeUnit (c ∷ []) (2 ^ 30)
  kilobytes : (c d : ℕ) → to_lower c ≡ b'k' → to_lower d ≡ b'b' → SizeUnit (c ∷ d ∷ []) (2 ^ 10)
  megabytes : (c d : ℕ) → to_lower c ≡ b'm' → to_lower d ≡ b'b' → SizeUnit (c ∷ d ∷ []) (2 ^ 20)
  gigabytes : (c d : ℕ) → to_lower c ≡ b'g' → to_lower d ≡ b'b' → SizeUnit (c ∷ d ∷ []) (2 ^ 30)

letter : (c l : ℕ) → to_lower c ≡ l → 57 < l → is_digit c ≡ false
unfolding to_lower
letter c l e h = ground arith

unit_starts : (s : List ℕ) (f : ℕ) → SizeUnit s f → starts_with_digit s ≡ false
unit_starts _ _ bytes = refl
unit_starts _ _ (kilo c e) = letter c 107 e (omega arith)
unit_starts _ _ (mega c e) = letter c 109 e (omega arith)
unit_starts _ _ (giga c e) = letter c 103 e (omega arith)
unit_starts _ _ (kilobytes c d e g) = letter c 107 e (omega arith)
unit_starts _ _ (megabytes c d e g) = letter c 109 e (omega arith)
unit_starts _ _ (gigabytes c d e g) = letter c 103 e (omega arith)

digits-append :
    (v : ℕ) (ds s : List ℕ)
    → AreDigits ds
    → starts_with_digit s ≡ false
    → digits v (ds ++ s) ≡ (decimal v ds, s)
unfolding digits decimal
digits-append v [] [] a b = refl
digits-append v [] (c ∷ cs) a b = rw (b, digits) refl
digits-append v (d ∷ ds) s (a, as_digits) b =
    rw (a, digits) (digits-append (v * 10 + (d - 48)) ds s as_digits b)

small : (v : ℕ) → v < 2 ^ 64 → v * 1 % 2 ^ 64 ≡ v
small v h = omega arith

size_suffix-unit :
    (v : ℕ) (s : List ℕ) (f : ℕ)
    → v < 2 ^ 64
    → SizeUnit s f
    → size_suffix v s ≡ some (v * f % 2 ^ 64)
unfolding size_suffix size_end
size_suffix-unit v _ _ h bytes = rw (small v h) refl
size_suffix-unit v _ _ h (kilo c e) = rw e refl
size_suffix-unit v _ _ h (mega c e) = rw e refl
size_suffix-unit v _ _ h (giga c e) = rw e refl
size_suffix-unit v _ _ h (kilobytes c d e g) = rw (e, g) refl
size_suffix-unit v _ _ h (megabytes c d e g) = rw (e, g) refl
size_suffix-unit v _ _ h (gigabytes c d e g) = rw (e, g) refl

-- On decimal digits followed by nothing or by one of K, M, G, KB, MB, GB in either case, parse_size
-- fails if the number has more than 64 bits, and else gives the number times the unit, modulo 2^64.
pub parse_size-unit :
    (d : ℕ) (ds s : List ℕ) (f : ℕ)
    → AreDigits (d ∷ ds)
    → SizeUnit s f
    → parse_size (d ∷ ds ++ s)
      ≡ (if leb (2 ^ 64) (decimal 0 (d ∷ ds)) then none else some (decimal 0 (d ∷ ds) * f % 2 ^ 64))
unfolding parse_size
parse_size-unit d ds s f (a, rest) u =
    let read = digits-append 0 (d ∷ ds) s (a, rest) (unit_starts s f u) in
    elim (Bool-cases (leb (2 ^ 64) (decimal 0 (d ∷ ds)))) [
      | inl e ↦ rw (read, a, e, parse_size) refl
      | inr e ↦
          rw (read, a, e, parse_size) (size_suffix-unit (decimal 0 (d ∷ ds)) s f (ground arith) u)
    ]
