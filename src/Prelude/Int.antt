-- ===== src/Prelude/Int.antt =====
-- Signed integers over the native numbers, under the library's names (its ℤ stands on the unary ℕ).
-- Sums and orders go through the two parts of an integer, which are numbers that `omega` reads.
use ntprof.Prelude.{
  ℕ, suc, ◌+◌, ◌-◌, ◌%◌, ◌^◌, ◌≤◌, ◌<◌, ◌≡◌, Bool, arith, ltb, leb, if◌then◌else◌, List, [], ◌∷◌,
}

-- `negsuc n` is -(n + 1).
pub data ℤ : Type 0 where
  pos : ℕ → ℤ
  negsuc : ℕ → ℤ

abbrev pub pos_part : ℤ → ℕ
pos_part (pos n) = n
pos_part (negsuc n) = 0

abbrev pub neg_part : ℤ → ℕ
neg_part (pos n) = 0
neg_part (negsuc n) = suc n

-- a - b, as an integer.
abbrev pub sub_ℕ : ℕ → ℕ → ℤ
sub_ℕ a b = if leb b a then pos (a - b) else negsuc (b - a - 1)

infixl 65 ◌+ℤ◌ ◌-ℤ◌
infix 50 ◌≤ℤ◌
unfoldable pub ◌+ℤ◌ : ℤ → ℤ → ℤ
a +ℤ b = sub_ℕ (pos_part a + pos_part b) (neg_part a + neg_part b)

unfoldable pub ◌-ℤ◌ : ℤ → ℤ → ℤ
a -ℤ b = sub_ℕ (pos_part a + neg_part b) (neg_part a + pos_part b)

abbrev pub ◌≤ℤ◌ : ℤ → ℤ → Type 0
a ≤ℤ b = pos_part a + neg_part b ≤ pos_part b + neg_part a

abbrev pub ltb_ℤ : ℤ → ℤ → Bool
ltb_ℤ a b = ltb (pos_part a + neg_part b) (pos_part b + neg_part a)

-- One lemma for each operation lets `omega` work with the operations shut, at any depth.
pub +ℤ_parts :
    (a b : ℤ)
    → pos_part (a +ℤ b) + neg_part a + neg_part b ≡ neg_part (a +ℤ b) + pos_part a + pos_part b
unfolding ◌+ℤ◌
+ℤ_parts a b = ground arith

pub -ℤ_parts :
    (a b : ℤ)
    → pos_part (a -ℤ b) + neg_part a + pos_part b ≡ neg_part (a -ℤ b) + pos_part a + neg_part b
unfolding ◌-ℤ◌
-ℤ_parts a b = ground arith

pub eq_of_parts : (a b : ℤ) → pos_part a + neg_part b ≡ pos_part b + neg_part a → a ≡ b
eq_of_parts a b h = ground arith

pub ruleset int_laws = (arith, +ℤ_parts, -ℤ_parts, eq_of_parts)

-- The int64_t whose bit pattern is `w`.
abbrev pub signed64 : ℕ → ℤ
signed64 w = if ltb w (2 ^ 63) then pos w else negsuc (2 ^ 64 - w - 1)

-- A difference of numbers, shut: sums of differences compare by one equation of numbers.
pub diff : ℕ → ℕ → ℤ
diff a b = sub_ℕ a b

pub diff-add : (a b c e : ℕ) → diff a b +ℤ diff c e ≡ diff (a + c) (b + e)
unfolding diff ◌+ℤ◌
diff-add a b c e = ground arith

pub diff-sub : (a b c e : ℕ) → diff a b -ℤ diff c e ≡ diff (a + e) (b + c)
unfolding diff ◌-ℤ◌
diff-sub a b c e = ground arith

pub diff-eq : (a b c e : ℕ) → a + e ≡ c + b → diff a b ≡ diff c e
unfolding diff
diff-eq a b c e h = ground arith

pub zero-diff : pos 0 ≡ diff 0 0
unfolding diff
zero-diff = ground arith

pub eq-diff : (z : ℤ) → z ≡ diff (pos_part z) (neg_part z)
unfolding diff
eq-diff z = ground arith

pub signed64-diff :
    (a b : ℕ) → a < 2 ^ 63 → b < 2 ^ 63 → signed64 ((a + 2 ^ 64 - b) % 2 ^ 64) ≡ diff a b
unfolding diff
signed64-diff a b ha hb = ground arith

-- A part and the rest of a span make up the span.
pub sub-add-add : (s b x : ℤ) → s -ℤ b +ℤ (b +ℤ x) ≡ s +ℤ x
sub-add-add s b x = omega int_laws

pub +ℤ_comm : (a b : ℤ) → a +ℤ b ≡ b +ℤ a
+ℤ_comm a b = omega int_laws

pub +ℤ_assoc : (a b c : ℤ) → a +ℤ b +ℤ c ≡ a +ℤ (b +ℤ c)
+ℤ_assoc a b c = omega int_laws

pub zero-add_ℤ : (a : ℤ) → pos 0 +ℤ a ≡ a
zero-add_ℤ a = omega int_laws

pub add-zero_ℤ : (a : ℤ) → a +ℤ pos 0 ≡ a
add-zero_ℤ a = omega int_laws

pub ruleset sum_laws = (+ℤ_assoc, zero-add_ℤ, add-zero_ℤ)
