-- ===== src/Config/Apply.antt =====
-- One `section:key = value` pair: apply of src/config.c.
use Prim.Native.String.{String}
use ntprof.Prelude.{
  ℕ, ◌-◌, Bool, true, false, ◌&&◌, List, [], ◌∷◌, Option, none, some, if◌then◌else◌, take,
}
use ntprof.Config.{Set, put_value, set_io_type, set_sizes, set_aggr}
use ntprof.Config.Text.{codes, same_nocase, parse_size, parse_bool, set_uint}

-- The keys that set something, and those accepted and not used.
pub data Key : Type 0 where
  session_name io_type io_size min_io_size max_io_size : Key
  unused : Key
  is_online data_dir time_interval frequency buffer_size aggregation : Key
  latency_distribution throughput latency_breakdown queue_length component_detail : Key
  show_all_groups by_size by_type by_session queue_tracking : Key
  spdk_host spdk_target : Key

abbrev pub keys : List (String × String × Key)
keys =
    ("Workload", "SESSION_NAME", session_name)
    ∷ ("Workload", "IO_TYPE", io_type)
    ∷ ("Workload", "IO_SIZE", io_size)
    ∷ ("Workload", "MIN_IO_SIZE", min_io_size)
    ∷ ("Workload", "MAX_IO_SIZE", max_io_size)
    ∷ ("Execution", "NETWORK_BANDWIDTH_LIMIT", unused)
    ∷ ("Execution", "NVME_DRIVE_BANDWIDTH_LIMIT", unused)
    ∷ ("Profiling", "IS_ONLINE", is_online)
    ∷ ("Profiling", "DATA_DIR", data_dir)
    ∷ ("Profiling", "TIME_INTERVAL", time_interval)
    ∷ ("Profiling", "FREQUENCY", frequency)
    ∷ ("Profiling", "BUFFER_SIZE", buffer_size)
    ∷ ("Profiling", "AGGREGATION", aggregation)
    ∷ ("Report", "ENABLE_LATENCY_DISTRIBUTION", latency_distribution)
    ∷ ("Report", "ENABLE_THROUGHPUT", throughput)
    ∷ ("Report", "ENABLE_LATENCY_BREAKDOWN", latency_breakdown)
    ∷ ("Report", "ENABLE_QUEUE_LENGTH", queue_length)
    ∷ ("Report", "ENABLE_COMPONENT_DETAIL", component_detail)
    ∷ ("Report", "SHOW_ALL_GROUPS", show_all_groups)
    ∷ ("Report", "ENABLE_GROUP_BY_SIZE", by_size)
    ∷ ("Report", "ENABLE_GROUP_BY_TYPE", by_type)
    ∷ ("Report", "ENABLE_GROUP_BY_SESSION", by_session)
    ∷ ("Report", "QUEUE_TRACKING", queue_tracking)
    ∷ ("Profiling", "SPDK_HOST", spdk_host)
    ∷ ("Profiling", "SPDK_TARGET", spdk_target)
    ∷ []

unfoldable pub find_key : List (String × String × Key) → List ℕ → List ℕ → Option Key
unfolding same_nocase
find_key [] section key = none
find_key ((s, k, a) ∷ ks) section key =
    let later = find_key ks section key in
    if same_nocase section (codes s) && same_nocase key (codes k) then some a else later

-- snprintf of a text into an array of `size` characters
unfoldable pub snprintf : ℕ → List ℕ → List ℕ
snprintf size v = take (size - 1) v

unfoldable pub parse_tracking : List ℕ → Option Bool
unfolding same_nocase
parse_tracking v =
    if same_nocase v (codes "exact")
    then some true
    else if same_nocase v (codes "estimate")
    then some false
    else none

unfoldable pub apply_key : Key → List ℕ → Set
unfolding put_value snprintf
apply_key session_name v c = (true, record c { session = snprintf 64 v })
apply_key io_type v c = set_io_type v c
apply_key io_size v c = set_sizes v c
apply_key min_io_size v c = put_value (parse_size v) (λ n c. record c { min_size = n }) c
apply_key max_io_size v c = put_value (parse_size v) (λ n c. record c { max_size = n }) c
apply_key unused v c = (true, c)
apply_key is_online v c = put_value (parse_bool v) (λ b c. record c { online = b }) c
apply_key data_dir v c = (true, record c { data_dir = snprintf 256 v })
apply_key time_interval v c = put_value (set_uint v 1) (λ n c. record c { interval_s = n }) c
apply_key frequency v c = put_value (set_uint v 1) (λ n c. record c { sample_every = n }) c
apply_key buffer_size v c = put_value (set_uint v 1) (λ n c. record c { buffer_mb = n }) c
apply_key aggregation v c = set_aggr v c
apply_key latency_distribution v c =
    put_value (parse_bool v) (λ b c. record c { rep_distribution = b }) c
apply_key throughput v c = put_value (parse_bool v) (λ b c. record c { rep_throughput = b }) c
apply_key latency_breakdown v c = put_value (parse_bool v) (λ b c. record c { rep_breakdown = b }) c
apply_key queue_length v c = put_value (parse_bool v) (λ b c. record c { rep_queue_length = b }) c
apply_key component_detail v c = put_value (parse_bool v) (λ b c. record c { rep_detail = b }) c
apply_key show_all_groups v c = put_value (parse_bool v) (λ b c. record c { rep_all_groups = b }) c
apply_key by_size v c = put_value (parse_bool v) (λ b c. record c { group_by_size = b }) c
apply_key by_type v c = put_value (parse_bool v) (λ b c. record c { group_by_type = b }) c
apply_key by_session v c = put_value (parse_bool v) (λ b c. record c { group_by_session = b }) c
apply_key queue_tracking v c = put_value (parse_tracking v) (λ b c. record c { exact_queues = b }) c
apply_key spdk_host v c = (true, record c { spdk_host = snprintf 512 v })
apply_key spdk_target v c = (true, record c { spdk_target = snprintf 512 v })

-- An unknown key is ignored.
unfoldable pub apply : List ℕ → List ℕ → List ℕ → Set
apply section key v c = elim (find_key keys section key) [
  | none ↦ (true, c)
  | some k ↦ apply_key k v c
]
