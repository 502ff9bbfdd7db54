-- ===== src/Config/Text.antt =====
-- The text helpers of src/util.c, and cut_comment and set_uint of src/config.c. A C string is the
-- list of its characters, without the NUL that ends it.
use Prim.Native.Char.{code}
use Prim.Native.String.{String}
use ntprof.Prelude.{
  ℕ, ◌+◌, ◌-◌, ◌*◌, ◌%◌, ◌^◌, Bool, true, false, not, ◌&&◌, ◌||◌, List, [], ◌∷◌, Option, none, some,
  ltb, leb, ◌==◌, if◌then◌else◌,
}

-- The characters of a text of the source.
abbrev pub codes : String → List ℕ
codes String.[] = []
codes (String.◌∷◌ c s) = code c ∷ codes s

abbrev pub is_digit : ℕ → Bool
is_digit c = leb b'0' c && leb c b'9'

abbrev pub is_space : ℕ → Bool
is_space c = c == 32 || leb 9 c && leb c 13

unfoldable pub to_lower : ℕ → ℕ
to_lower c = if leb b'A' c && leb c b'Z' then c + 32 else c

-- !strcmp(a, b)
unfoldable pub same_text : List ℕ → List ℕ → Bool
same_text [] [] = true
same_text [] (b ∷ t) = false
same_text (a ∷ s) [] = false
same_text (a ∷ s) (b ∷ t) = a == b && same_text s t

-- !strcasecmp(a, b)
unfoldable pub same_nocase : List ℕ → List ℕ → Bool
unfolding to_lower
same_nocase [] [] = true
same_nocase [] (b ∷ t) = false
same_nocase (a ∷ s) [] = false
same_nocase (a ∷ s) (b ∷ t) = to_lower a == to_lower b && same_nocase s t

-- The decimal digits at the start, with the number before them, and the rest.
unfoldable pub digits : ℕ → List ℕ → ℕ × List ℕ
digits v [] = (v, [])
digits v (c ∷ cs) =
    let more = digits (v * 10 + (c - b'0')) cs in if is_digit c then more else (v, c ∷ cs)

abbrev pub starts_with_digit : List ℕ → Bool
starts_with_digit [] = false
starts_with_digit (c ∷ cs) = is_digit c

-- The end of parse_size: a `b`, or nothing.
unfoldable pub size_end : ℕ → List ℕ → Option ℕ
unfolding to_lower
size_end v [] = some v
size_end v (c ∷ []) = if to_lower c == b'b' then some v else none
size_end v (c ∷ d ∷ cs) = none

-- The switch of parse_size; a shift drops the bits over 64.
unfoldable pub size_suffix : ℕ → List ℕ → Option ℕ
unfolding size_end to_lower
size_suffix v [] = some v
size_suffix v (c ∷ cs) =
    let l = to_lower c in
    if l == b'k'
    then size_end (v * 2 ^ 10 % 2 ^ 64) cs
    else if l == b'm'
    then size_end (v * 2 ^ 20 % 2 ^ 64) cs
    else if l == b'g'
    then size_end (v * 2 ^ 30 % 2 ^ 64) cs
    else none

unfoldable pub parse_size : List ℕ → Option ℕ
parse_size s =
    let (v, rest) = digits 0 s in
    if not (starts_with_digit s) then none else if leb (2 ^ 64) v then none else size_suffix v rest

unfoldable pub parse_bool : List ℕ → Option Bool
unfolding same_text same_nocase
parse_bool s =
    if same_nocase s (codes "true") || same_nocase s (codes "yes") || same_text s (codes "1")
    then some true
    else if same_nocase s (codes "false") || same_nocase s (codes "no") || same_text s (codes "0")
    then some false
    else none

unfoldable pub skip_space : List ℕ → List ℕ
skip_space [] = []
skip_space (c ∷ cs) = let rest = skip_space cs in if is_space c then rest else c ∷ cs

-- A character before what is left of the text after it.
abbrev keep_char : ℕ → List ℕ → List ℕ
keep_char c [] = if is_space c then [] else c ∷ []
keep_char c (d ∷ ds) = c ∷ d ∷ ds

unfoldable pub trim_end : List ℕ → List ℕ
trim_end [] = []
trim_end (c ∷ cs) = keep_char c (trim_end cs)

-- The text without the last character, if that is `q`.
unfoldable pub before_last : ℕ → List ℕ → Option (List ℕ)
before_last q [] = none
before_last q (c ∷ []) = if c == q then some [] else none
before_last q (c ∷ d ∷ cs) = elim (before_last q (d ∷ cs)) [ none ↦ none | some s ↦ some (c ∷ s) ]

unfoldable pub unquote : List ℕ → List ℕ
unfolding before_last
unquote [] = []
unquote (q ∷ cs) =
    if q == b'"' || q == 39 then elim (before_last q cs) [ none ↦ q ∷ cs | some s ↦ s ] else q ∷ cs

unfoldable pub strip : List ℕ → List ℕ
unfolding skip_space trim_end unquote
strip s = unquote (trim_end (skip_space s))

-- `quote` is the quote that is open, or 0.
unfoldable pub cut_loop : ℕ → List ℕ → List ℕ
cut_loop quote [] = []
cut_loop quote (c ∷ cs) =
    let closed = cut_loop 0 cs in
    let same = cut_loop quote cs in
    let opened = cut_loop c cs in
    if not (quote == 0)
    then (if c == quote then c ∷ closed else c ∷ same)
    else if c == b'"' || c == 39
    then c ∷ opened
    else if c == b';' || c == b'#'
    then []
    else c ∷ same

unfoldable pub cut_comment : List ℕ → List ℕ
unfolding cut_loop
cut_comment s = cut_loop 0 s

-- What strtoul leaves: the number (none: out of range), and the rest. A minus negates it at 64 bits.
unfoldable pub unsigned_digits : Bool → List ℕ → List ℕ → Option ℕ × List ℕ
unfolding digits
unsigned_digits minus s all =
    let (v, rest) = digits 0 s in
    if not (starts_with_digit s)
    then (some 0, all)
    else if leb (2 ^ 64) v
    then (none, rest)
    else (some (if minus then (2 ^ 64 - v) % 2 ^ 64 else v), rest)

unfoldable pub strtoul : List ℕ → Option ℕ × List ℕ
unfolding skip_space unsigned_digits
strtoul s = elim (skip_space s) [
  | [] ↦ (some 0, s)
  | c ∷ cs ↦
      if c == b'-'
      then unsigned_digits true cs s
      else if c == b'+'
      then unsigned_digits false cs s
      else unsigned_digits false (c ∷ cs) s
]

-- The tests of set_uint on the number and what follows it.
unfoldable pub bounded : ℕ → ℕ → List ℕ → Option ℕ
bounded min n [] = if ltb n min || ltb (2 ^ 32 - 1) n then none else some n
bounded min n (c ∷ cs) = none

unfoldable pub set_uint : List ℕ → ℕ → Option ℕ
unfolding bounded
set_uint v min = let (x, rest) = strtoul v in elim x [ none ↦ none | some n ↦ bounded min n rest ]
