-- ===== src/Trace/Bytes.antt =====
-- The bytes of a C struct: its fields in order, each in little-endian order.
use ntprof.Prelude.{
  ℕ, zero, suc, ◌+◌, ◌*◌, ◌/◌, ◌%◌, ◌^◌, ◌<◌, ◌≡◌, refl, sym, ap, List, [], ◌∷◌, ◌++◌, take, drop,
  length, length-append, arith,
}
use mathlib.Core.List.{append_assoc}

-- A field: its width in bytes, and its value.
unfoldable pub put_le : ℕ → ℕ → List ℕ
put_le zero v = []
put_le (suc n) v = v % 256 ∷ put_le n (v / 256)

unfoldable pub get_le : List ℕ → ℕ
get_le [] = 0
get_le (b ∷ bs) = b + 256 * get_le bs

unfoldable pub put : List (ℕ × ℕ) → List ℕ
unfolding put_le
put [] = []
put ((n, v) ∷ fs) = put_le n v ++ put fs

unfoldable pub get : List ℕ → List ℕ → List ℕ
unfolding get_le
get [] bs = []
get (n ∷ ws) bs = get_le (take n bs) ∷ get ws (drop n bs)

-- The value fits the width.
abbrev pub FitsIn : ℕ → ℕ → Type 0
FitsIn n v = v < 256 ^ n

FitsIn-div : (n v : ℕ) → FitsIn (suc n) v → FitsIn n (v / 256)
FitsIn-div n v h = omega (arith, power)
  where
    power : 256 ^ suc n ≡ 256 * 256 ^ n
    power = omega arith

abbrev pub AllFit : List (ℕ × ℕ) → Type 0
AllFit [] = Unit
AllFit ((n, v) ∷ fs) = FitsIn n v × AllFit fs

abbrev pub widths : List (ℕ × ℕ) → List ℕ
widths [] = []
widths ((n, v) ∷ fs) = n ∷ widths fs

abbrev pub values : List (ℕ × ℕ) → List ℕ
values [] = []
values ((n, v) ∷ fs) = v ∷ values fs

abbrev pub total : List ℕ → ℕ
total [] = 0
total (n ∷ ws) = n + total ws

module _ {ℓ} {A : Type ℓ} where
  pub take-append_length : (n : ℕ) (xs ys : List A) → length xs ≡ n → take n (xs ++ ys) ≡ xs
  take-append_length zero [] ys h = refl
  take-append_length zero (x ∷ xs) ys h = absurd (omega arith)
  take-append_length (suc n) [] ys h = absurd (omega arith)
  take-append_length (suc n) (x ∷ xs) ys h =
      ap (λ zs. x ∷ zs) (take-append_length n xs ys (omega arith))

  pub drop-append_length : (n : ℕ) (xs ys : List A) → length xs ≡ n → drop n (xs ++ ys) ≡ ys
  drop-append_length zero [] ys h = refl
  drop-append_length zero (x ∷ xs) ys h = absurd (omega arith)
  drop-append_length (suc n) [] ys h = absurd (omega arith)
  drop-append_length (suc n) (x ∷ xs) ys h = drop-append_length n xs ys (omega arith)

  pub take_past :
      (n m k : ℕ) (xs ys : List A) → length xs ≡ n → k ≡ n + m → take k (xs ++ ys) ≡ xs ++ take m ys
  take_past zero m k [] ys h e = ap (λ k. take k ys) (omega arith)
  take_past zero m k (x ∷ xs) ys h e = absurd (omega arith)
  take_past (suc n) m k [] ys h e = absurd (omega arith)
  take_past (suc n) m zero (x ∷ xs) ys h e = absurd (omega arith)
  take_past (suc n) m (suc k) (x ∷ xs) ys h e =
      ap (λ zs. x ∷ zs) (take_past n m k xs ys (omega arith) (omega arith))

  pub take_all : (n : ℕ) (xs : List A) → length xs ≡ n → take n xs ≡ xs
  take_all zero [] h = refl
  take_all zero (x ∷ xs) h = absurd (omega arith)
  take_all (suc n) [] h = refl
  take_all (suc n) (x ∷ xs) h = ap (λ zs. x ∷ zs) (take_all n xs (omega arith))

  drop_nil : (n : ℕ) → drop {A = A} n [] ≡ []
  drop_nil zero = refl
  drop_nil (suc n) = refl

  pub drop-drop : (m n k : ℕ) (xs : List A) → k ≡ m + n → drop k xs ≡ drop n (drop m xs)
  drop-drop zero n k xs h = ap (λ k. drop k xs) (omega arith)
  drop-drop (suc m) n zero xs h = absurd (omega arith)
  drop-drop (suc m) n (suc k) [] h = sym (drop_nil n)
  drop-drop (suc m) n (suc k) (x ∷ xs) h = drop-drop m n k xs (omega arith)

pub length-put_le : (n v : ℕ) → length (put_le n v) ≡ n
unfolding put_le
length-put_le zero v = refl
length-put_le (suc n) v = ap suc (length-put_le n (v / 256))

pub get_le-put_le : (n v : ℕ) → FitsIn n v → get_le (put_le n v) ≡ v
unfolding put_le get_le
get_le-put_le zero v h = omega arith
get_le-put_le (suc n) v h = omega (arith, get_le-put_le n (v / 256) (FitsIn-div n v h))

pub length-put : (fs : List (ℕ × ℕ)) → length (put fs) ≡ total (widths fs)
unfolding put
length-put [] = refl
length-put ((n, v) ∷ fs) =
    omega (arith, length-append (put_le n v) (put fs), length-put_le n v, length-put fs)

-- Reading the fields that were written, whatever follows them.
pub get-put :
    (fs : List (ℕ × ℕ)) (rest : List ℕ) → AllFit fs → get (widths fs) (put fs ++ rest) ≡ values fs
unfolding put get
get-put [] rest h = refl
get-put ((n, v) ∷ fs) rest (f, h) =
    let len = length-put_le n v in
    rw
      (
        append_assoc (put_le n v) (put fs) rest,
        take-append_length n (put_le n v) (put fs ++ rest) len,
        drop-append_length n (put_le n v) (put fs ++ rest) len,
        get_le-put_le n v f,
        get-put fs rest h,
      )
      refl
