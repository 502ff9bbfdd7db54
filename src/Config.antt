-- ===== src/Config.antt =====
-- The task specification: struct ntp_config of src/config.h and the settings of src/config.c.
use Prim.Native.String.{String}
use ntprof.Prelude.{
  ℕ, ◌+◌, ◌-◌, ◌*◌, ◌%◌, ◌^◌, Bool, true, false, not, ◌&&◌, ◌||◌, List, [], ◌∷◌, Option, none, some,
  ltb, leb, nonzero, ◌==◌, if◌then◌else◌, take, set, replicate,
}
use ntprof.Config.Text.{codes, same_nocase, parse_size, parse_bool, strip, set_uint}
use ntprof.Record.{Transport, max_size_filters}
pub mod Text
pub mod Apply
pub mod Ini
pub mod Ranges
pub mod Valid
pub mod Sizes

pub data Role : Type 0 where
  host target both : Role

pub data Aggr : Type 0 where
  avg min max dist : Aggr

pub data IoType : Type 0 where
  read write both : IoType

pub record Config : Type 0 where
  pub session : List ℕ
  pub io_type : IoType
  pub sizes : List ℕ
  pub n_sizes : ℕ
  pub min_size : ℕ
  pub max_size : ℕ
  pub online : Bool
  pub data_dir : List ℕ
  pub interval_s : ℕ
  pub sample_every : ℕ
  pub buffer_mb : ℕ
  pub aggr : Aggr
  pub rep_distribution : Bool
  pub rep_throughput : Bool
  pub rep_breakdown : Bool
  pub rep_queue_length : Bool
  pub rep_detail : Bool
  pub rep_all_groups : Bool
  pub group_by_size : Bool
  pub group_by_type : Bool
  pub group_by_session : Bool
  pub role : Role
  pub transport : Transport
  pub duration_s : ℕ
  pub output : List ℕ
  pub json : List ℕ
  pub btf_dir : List ℕ
  pub exact_queues : Bool
  pub force_kprobes : Bool
  pub force_fentry : Bool
  pub spdk_host : List ℕ
  pub spdk_target : List ℕ

unfoldable pub config_defaults : Config
config_defaults = record {
  session = codes "all";
  io_type = IoType.both;
  sizes = replicate max_size_filters 0;
  n_sizes = 0;
  min_size = 0;
  max_size = 0;
  online = true;
  data_dir = codes "./data";
  interval_s = 1;
  sample_every = 1000;
  buffer_mb = 16;
  aggr = Aggr.avg;
  rep_distribution = true;
  rep_throughput = true;
  rep_breakdown = true;
  rep_queue_length = true;
  rep_detail = false;
  rep_all_groups = false;
  group_by_size = true;
  group_by_type = true;
  group_by_session = true;
  role = Role.host;
  transport = Transport.tcp;
  duration_s = 0;
  output = [];
  json = [];
  btf_dir = [];
  exact_queues = false;
  force_kprobes = false;
  force_fentry = false;
  spdk_host = [];
  spdk_target = [];
}

-- A setter: the configuration after it, and whether the value was good.
abbrev pub Set : Type 0
Set = Config → Bool × Config

-- The value, if it parses, goes into the configuration.
unfoldable pub put_value {ℓ} : {A : Type ℓ} → Option A → (A → Config → Config) → Set
put_value none f c = (false, c)
put_value (some a) f c = (true, f a c)

unfoldable pub parse_io_type : List ℕ → Option IoType
unfolding same_nocase
parse_io_type v =
    if same_nocase v (codes "read")
    then some IoType.read
    else if same_nocase v (codes "write")
    then some IoType.write
    else if same_nocase v (codes "both")
    then some IoType.both
    else none

unfoldable pub set_io_type : List ℕ → Set
unfolding put_value parse_io_type
set_io_type v = put_value (parse_io_type v) (λ t c. record c { io_type = t })

unfoldable pub parse_aggr : List ℕ → Option Aggr
unfolding same_nocase
parse_aggr v =
    if same_nocase v (codes "avg")
    then some Aggr.avg
    else if same_nocase v (codes "min")
    then some Aggr.min
    else if same_nocase v (codes "max")
    then some Aggr.max
    else if same_nocase v (codes "dist")
    then some Aggr.dist
    else none

unfoldable pub set_aggr : List ℕ → Set
unfolding put_value parse_aggr
set_aggr v = put_value (parse_aggr v) (λ a c. record c { aggr = a })

abbrev pub push_char : ℕ → List (List ℕ) → List (List ℕ)
push_char c [] = (c ∷ []) ∷ []
push_char c (t ∷ ts) = (c ∷ t) ∷ ts

-- The texts between commas, the first of which may be empty.
unfoldable pub fields : List ℕ → List (List ℕ)
fields [] = [] ∷ []
fields (c ∷ cs) = if c == b',' then [] ∷ fields cs else push_char c (fields cs)

abbrev add_token : List ℕ → List (List ℕ) → List (List ℕ)
add_token [] ts = ts
add_token (c ∷ cs) ts = (c ∷ cs) ∷ ts

-- strtok_r gives the fields that are not empty.
unfoldable pub tokens : List (List ℕ) → List (List ℕ)
tokens [] = []
tokens (t ∷ ts) = add_token t (tokens ts)

-- A size that can be stored.
unfoldable pub good_size : List ℕ → Option ℕ
good_size t = elim (parse_size (strip t)) [
  | none ↦ none
  | some size ↦ if size == 0 || ltb (2 ^ 32 - 1) size then none else some size
]

-- The tests of the loop on the next token, when `n` sizes are stored.
unfoldable pub next_size : ℕ → List ℕ → Option ℕ
next_size n t = if n == max_size_filters then none else good_size t

-- The loop of config_set_sizes: the number of sizes (none for an error), and the array.
unfoldable pub store_sizes : ℕ → List (List ℕ) → List ℕ → Option ℕ × List ℕ
store_sizes n [] sizes = (some n, sizes)
store_sizes n (t ∷ ts) sizes = elim (next_size n t) [
  | none ↦ (none, sizes)
  | some size ↦ store_sizes (n + 1) ts (set sizes n size)
]

unfoldable pub keep_sizes : Option ℕ × List ℕ → Set
keep_sizes (none, sizes) c = (false, record c { sizes = sizes })
keep_sizes (some n, sizes) c = (true, record c { sizes = sizes; n_sizes = n })

unfoldable pub set_sizes : List ℕ → Set
unfolding keep_sizes
set_sizes v c = keep_sizes (store_sizes 0 (tokens (fields v)) c.sizes) c
