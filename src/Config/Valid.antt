-- ===== src/Config/Valid.antt =====
-- What an ini file can make of a configuration: src/config.c.
use ntprof.Prelude.{
  c_string, ℕ, ◌+◌, ◌^◌, ◌≤◌, ◌<◌, ◌≡◌, refl, sym, subst, ◌∙◌, List, [], ◌∷◌, Option, none, some,
  Option-cases, Bool-cases, inl, inr, ◌==◌, if-holds, length, length-set, length-take, get_or-set,
  set, arith,
}
use ntprof.Config.{
  Config, config_defaults, put_value, store_sizes, next_size, keep_sizes, set_sizes, set_io_type,
  set_aggr, parse_io_type, parse_aggr, fields, tokens,
}
use ntprof.Config.Apply.{
  Key, apply, apply_key, find_key, keys, parse_tracking, snprintf, session_name, io_type, io_size,
  min_io_size, max_io_size, unused, is_online, data_dir, time_interval, frequency, buffer_size,
  aggregation, latency_distribution, throughput, latency_breakdown, queue_length, component_detail,
  show_all_groups, by_size, by_type, by_session, queue_tracking, spdk_host, spdk_target,
}
use ntprof.Config.Ini.{
  IniState, text_line, ini_line, ini_lines, section_line, key_line, bad_line, load_ini, lines,
  split_at,
}
use ntprof.Config.Text.{parse_bool, parse_size, set_uint, strip, cut_comment}
use ntprof.Config.Ranges.{
  IsCount, AreSizes, given, parse_size-small, set_uint-IsCount, next_size-IsCount,
}

unfoldable pub IsValid : Config → Type 0
IsValid c =
    IsCount c.interval_s
    × IsCount c.sample_every
    × IsCount c.buffer_mb
    × (length c.sizes ≡ 16)
    × (c.n_sizes ≤ 16)
    × AreSizes c.n_sizes c.sizes
    × (c.min_size < 2 ^ 64)
    × (c.max_size < 2 ^ 64)
    × (length c.session < 64)

pub config_defaults-IsValid : IsValid config_defaults
unfolding IsValid config_defaults
config_defaults-IsValid = (
  (omega arith, omega arith),
  (omega arith, omega arith),
  (omega arith, omega arith),
  refl,
  omega arith,
  (λ i h. absurd (omega arith)),
  omega arith,
  omega arith,
  omega arith,
)

-- A size that is stored keeps the others good.
set-AreSizes :
    (m n : ℕ) (sizes : List ℕ) (size : ℕ)
    → n < length sizes
    → IsCount size
    → AreSizes m sizes
    → AreSizes m (set sizes n size)
set-AreSizes m n sizes size l h a i k =
    rw (get_or-set sizes n i size 0 l) (if-holds IsCount (n == i) h (a i k))

set-AreSizes_more :
    (n : ℕ) (sizes : List ℕ) (size : ℕ)
    → n < length sizes
    → IsCount size
    → AreSizes n sizes
    → AreSizes (n + 1) (set sizes n size)
set-AreSizes_more n sizes size l h a i k =
    rw (get_or-set sizes n i size 0 l)
      (elim (Bool-cases (n == i)) [ inl e ↦ rw e h | inr e ↦ rw e (a i (ground arith)) ])

-- The sizes after the loop: the `m` sizes that count still do, and those that are new.
abbrev IsStored : ℕ → Option ℕ × List ℕ → Type 0
IsStored m (none, sizes) = (length sizes ≡ 16) × AreSizes m sizes
IsStored m (some n, sizes) = (length sizes ≡ 16) × AreSizes m sizes × (n ≤ 16) × AreSizes n sizes

store_sizes-IsStored :
    (m n : ℕ) (ts : List (List ℕ)) (sizes : List ℕ)
    → length sizes ≡ 16
    → n ≤ 16
    → AreSizes m sizes
    → AreSizes n sizes
    → IsStored m (store_sizes n ts sizes)
unfolding store_sizes
store_sizes-IsStored m n [] sizes l k a b = (l, a, k, b)
store_sizes-IsStored m n (t ∷ ts) sizes l k a b = elim (Option-cases (next_size n t)) [
  | inl e ↦ rw (e, store_sizes) (l, a)
  | inr (size, e) ↦
      let (count, room) = given e (next_size-IsCount n t k) in
      rw (e, store_sizes)
        (store_sizes-IsStored m (n + 1) ts (set sizes n size) (length-set sizes n size ∙ l)
          (omega arith) (set-AreSizes m n sizes size (omega arith) count a)
          (set-AreSizes_more n sizes size (omega arith) count b))
]

keep_sizes-IsValid :
    (r : Option ℕ × List ℕ) (c : Config)
    → IsValid c
    → IsStored c.n_sizes r
    → IsValid (keep_sizes r c).1
unfolding keep_sizes IsValid
keep_sizes-IsValid (none, sizes) c (i, e, b, len, few, old, low, high, name) (l, a) =
    (i, e, b, l, few, a, low, high, name)
keep_sizes-IsValid (some n, sizes) c (i, e, b, len, few, old, low, high, name) (l, a, k, d) =
    (i, e, b, l, k, d, low, high, name)

set_sizes-IsValid : (v : List ℕ) (c : Config) → IsValid c → IsValid (set_sizes v c).1
unfolding set_sizes IsValid
set_sizes-IsValid v c ok =
    let (i, e, b, len, few, old, low, high, name) = ok in
    keep_sizes-IsValid (store_sizes 0 (tokens (fields v)) c.sizes) c ok (
      store_sizes-IsStored c.n_sizes 0 (tokens (fields v)) c.sizes len (omega arith) old
        (λ i h. absurd (omega arith)))

-- A value that is put in where its field allows it.
put_value-IsValid :
    {A : Type 0} (o : Option A) (f : A → Config → Config) (c : Config)
    → ((a : A) → o ≡ some a → IsValid (f a c))
    → IsValid c
    → IsValid (put_value o f c).1
unfolding put_value
put_value-IsValid none f c h ok = ok
put_value-IsValid (some a) f c h ok = h a refl

apply_key-IsValid : (k : Key) (v : List ℕ) (c : Config) → IsValid c → IsValid (apply_key k v c).1
unfolding apply_key IsValid snprintf set_io_type set_aggr
apply_key-IsValid session_name v c (i, e, b, len, few, old, low, high, name) =
    (i, e, b, len, few, old, low, high, omega (arith, length-take 63 v))
apply_key-IsValid io_size v c ok = set_sizes-IsValid v c ok
apply_key-IsValid min_io_size v c ok =
    let (i, e, b, len, few, old, low, high, name) = ok in
    put_value-IsValid (parse_size v) (λ n c. record c { min_size = n }) c
      (λ n p. (i, e, b, len, few, old, given p (parse_size-small v), high, name)) ok
apply_key-IsValid max_io_size v c ok =
    let (i, e, b, len, few, old, low, high, name) = ok in
    put_value-IsValid (parse_size v) (λ n c. record c { max_size = n }) c
      (λ n p. (i, e, b, len, few, old, low, given p (parse_size-small v), name)) ok
apply_key-IsValid time_interval v c ok =
    let (i, e, b, len, few, old, low, high, name) = ok in
    put_value-IsValid (set_uint v 1) (λ n c. record c { interval_s = n }) c
      (λ n p. (given p (set_uint-IsCount v), e, b, len, few, old, low, high, name)) ok
apply_key-IsValid frequency v c ok =
    let (i, e, b, len, few, old, low, high, name) = ok in
    put_value-IsValid (set_uint v 1) (λ n c. record c { sample_every = n }) c
      (λ n p. (i, given p (set_uint-IsCount v), b, len, few, old, low, high, name)) ok
apply_key-IsValid buffer_size v c ok =
    let (i, e, b, len, few, old, low, high, name) = ok in
    put_value-IsValid (set_uint v 1) (λ n c. record c { buffer_mb = n }) c
      (λ n p. (i, e, given p (set_uint-IsCount v), len, few, old, low, high, name)) ok
apply_key-IsValid unused v c ok = ok
apply_key-IsValid data_dir v c ok = ok
apply_key-IsValid spdk_host v c ok = ok
apply_key-IsValid spdk_target v c ok = ok
apply_key-IsValid io_type v c ok =
    put_value-IsValid (parse_io_type v) (λ a c. record c { io_type = a }) c (λ a p. ok) ok
apply_key-IsValid is_online v c ok =
    put_value-IsValid (parse_bool v) (λ a c. record c { online = a }) c (λ a p. ok) ok
apply_key-IsValid aggregation v c ok =
    put_value-IsValid (parse_aggr v) (λ a c. record c { aggr = a }) c (λ a p. ok) ok
apply_key-IsValid latency_distribution v c ok =
    put_value-IsValid (parse_bool v) (λ a c. record c { rep_distribution = a }) c (λ a p. ok) ok
apply_key-IsValid throughput v c ok =
    put_value-IsValid (parse_bool v) (λ a c. record c { rep_throughput = a }) c (λ a p. ok) ok
apply_key-IsValid latency_breakdown v c ok =
    put_value-IsValid (parse_bool v) (λ a c. record c { rep_breakdown = a }) c (λ a p. ok) ok
apply_key-IsValid queue_length v c ok =
    put_value-IsValid (parse_bool v) (λ a c. record c { rep_queue_length = a }) c (λ a p. ok) ok
apply_key-IsValid component_detail v c ok =
    put_value-IsValid (parse_bool v) (λ a c. record c { rep_detail = a }) c (λ a p. ok) ok
apply_key-IsValid show_all_groups v c ok =
    put_value-IsValid (parse_bool v) (λ a c. record c { rep_all_groups = a }) c (λ a p. ok) ok
apply_key-IsValid by_size v c ok =
    put_value-IsValid (parse_bool v) (λ a c. record c { group_by_size = a }) c (λ a p. ok) ok
apply_key-IsValid by_type v c ok =
    put_value-IsValid (parse_bool v) (λ a c. record c { group_by_type = a }) c (λ a p. ok) ok
apply_key-IsValid by_session v c ok =
    put_value-IsValid (parse_bool v) (λ a c. record c { group_by_session = a }) c (λ a p. ok) ok
apply_key-IsValid queue_tracking v c ok =
    put_value-IsValid (parse_tracking v) (λ a c. record c { exact_queues = a }) c (λ a p. ok) ok

apply-IsValid :
    (section key v : List ℕ) (c : Config) → IsValid c → IsValid (apply section key v c).1
unfolding apply
apply-IsValid section key v c ok = elim (Option-cases (find_key keys section key)) [
  | inl e ↦ rw (e, apply) ok
  | inr (k, e) ↦ rw (e, apply) (apply_key-IsValid k v c ok)
]

section_line-config : (s : List ℕ) (st : IniState) → (section_line s st).config ≡ st.config
unfolding section_line bad_line
section_line-config s st = elim (Option-cases (split_at 93 s)) [
  | inl e ↦ rw (e, section_line) refl
  | inr (p, e) ↦ rw (e, section_line) refl
]

key_line-IsValid : (s : List ℕ) (st : IniState) → IsValid st.config → IsValid (key_line s st).config
unfolding key_line bad_line
key_line-IsValid s st ok = elim (Option-cases (split_at 61 s)) [
  | inl e ↦ rw (e, key_line) ok
  | inr ((key, v), e) ↦
      rw (e, key_line) (apply-IsValid st.section (strip key) (strip v) st.config ok)
]

text_line-IsValid :
    (s : List ℕ) (st : IniState) → IsValid st.config → IsValid (text_line s st).config
unfolding text_line
text_line-IsValid [] st ok = ok
text_line-IsValid (c ∷ s) st ok =
    if-holds (λ (st : IniState). IsValid st.config) (c == 91)
      (subst IsValid (sym (section_line-config s st)) ok) (key_line-IsValid (c ∷ s) st ok)

ini_lines-IsValid :
    (ls : List (List ℕ)) (st : IniState) → IsValid st.config → IsValid (ini_lines ls st).config
unfolding ini_lines ini_line
ini_lines-IsValid [] st ok = ok
ini_lines-IsValid (l ∷ ls) st ok =
    let st' = ini_line l st in
    let ok' = text_line-IsValid (strip (cut_comment (c_string l))) st ok in
    if-holds (λ (st : IniState). IsValid st.config) st'.good (ini_lines-IsValid ls st' ok') ok'

-- From a configuration whose interval, sampling divisor and buffer size are positive 32-bit
-- numbers, whose sizes are at most 16 positive 32-bit numbers, whose size limits have 64 bits and
-- whose session name has fewer than 64 characters, config_load_ini leaves such a configuration
-- whatever the file says, also where it reports an error.
pub load_ini-IsValid :
    (file : Option (List ℕ)) (c : Config) → IsValid c → IsValid (load_ini file c).1
unfolding load_ini
load_ini-IsValid none c ok = ok
load_ini-IsValid (some bytes) c ok = ini_lines-IsValid (lines 1022 bytes) _ ok
