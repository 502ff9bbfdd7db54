-- ===== src/Stats.antt =====
-- The statistics of src/stats.c: host records in groups, with the samples of each group in the
-- order in which they came. The arrays grow as needed.
use ntprof.Prelude.{
  c_string, ℕ, ◌+◌, ◌-◌, ◌≡◌, Bool, true, false, not, ◌&&◌, ◌||◌, List, [], ◌∷◌, ◌++◌, Option, none,
  some, ltb, leb, nonzero, ◌==◌, if◌then◌else◌, length, take,
}
use ntprof.Prelude.Int.{ℤ}
use ntprof.Model.Breakdown.{Breakdown, ModelErr, ok, incomplete_host, incomplete_target, comp_valid}
use ntprof.Model.Comp.{Comp, Stage}
use ntprof.Model.Run.{breakdown}
use ntprof.Record.{HostRec, TgtRec, Transport, HostTs}
pub mod Counts

-- none: not grouped by type. The session is the name up to its NUL.
pub record GroupKey : Type 0 where
  pub is_write : Option Bool
  pub bytes : ℕ
  pub session : List ℕ

pub data QueueMetric : Type 0 where
  host_unsent host_inflight tgt_outstanding tgt_resp_queue : QueueMetric

abbrev metric_index : QueueMetric → ℕ
metric_index host_unsent = 0
metric_index host_inflight = 1
metric_index tgt_outstanding = 2
metric_index tgt_resp_queue = 3

pub record Group : Type 0 where
  pub key : GroupKey
  pub records : ℕ
  pub joined : ℕ
  pub bad_host : ℕ
  pub bad_target : ℕ
  pub post_estimated : ℕ
  pub transport : Option Transport
  pub spdk_host : Bool
  pub spdk_target : Bool
  pub comp : Comp → List ℤ
  pub stage : Stage → List ℤ
  pub queue : QueueMetric → List ℕ

pub record Stats : Type 0 where
  pub groups : List Group
  pub by_type : Bool
  pub by_size : Bool
  pub by_session : Bool
  pub sample_every : ℕ
  pub first_ns : ℕ
  pub last_ns : ℕ

unfoldable pub stats_init : Bool → Bool → Bool → Stats
stats_init by_type by_size by_session = record {
  groups = [];
  by_type = by_type;
  by_size = by_size;
  by_session = by_session;
  sample_every = 1;
  first_ns = 0;
  last_ns = 0;
}

unfoldable pub stats_reset : Stats → Stats
unfolding stats_init
stats_reset s = record (stats_init s.by_type s.by_size s.by_session) {
  sample_every = s.sample_every;
}

abbrev is_digit : ℕ → Bool
is_digit c = leb 48 c && leb c 57

-- while (isdigit(*c)) c++
unfoldable pub skip_digits : List ℕ → List ℕ
skip_digits [] = []
skip_digits (c ∷ cs) = let rest = skip_digits cs in if is_digit c then rest else c ∷ cs

-- What follows "nvme".
abbrev after_nvme : List ℕ → Option (List ℕ)
after_nvme (a ∷ b ∷ c ∷ d ∷ cs) =
    if a == 110 && b == 118 && c == 109 && d == 101 then some cs else none
after_nvme _ = none

-- The part from `n` on of a name that goes on with c<ctrl>n.
abbrev from_namespace : List ℕ → Option (List ℕ)
from_namespace (c ∷ d ∷ cs) =
    if c == 99 && is_digit d
    then elim (skip_digits (d ∷ cs)) [
      | [] ↦ none
      | n ∷ ns ↦ if n == 110 then some (n ∷ ns) else none
    ]
    else none
from_namespace _ = none

-- The disk without the c<ctrl> part of its name.
unfoldable pub session_text : List ℕ → List ℕ
unfolding skip_digits
session_text disk = elim (after_nvme disk) [
  | none ↦ disk
  | some cs ↦ elim (from_namespace (skip_digits cs)) [
    | none ↦ disk
    | some ns ↦ take (length disk - length (skip_digits cs)) disk ++ ns
  ]
]

-- `len` is the size of the buffer, with the NUL.
unfoldable pub session_name : List ℕ → ℕ → List ℕ
unfolding c_string session_text
session_name disk len = take (len - 1) (session_text (c_string disk))

abbrev disk_name_len : ℕ
disk_name_len = 32

-- The key of a record's group.
unfoldable pub key_for : Stats → HostRec → GroupKey
unfolding session_name
key_for s h = record {
  is_write = if s.by_type then some h.hdr.flags.write else none;
  bytes = if s.by_size then h.bytes else 0;
  session = if s.by_session then session_name h.disk disk_name_len else [];
}

abbrev same_bytes : List ℕ → List ℕ → Bool
same_bytes [] [] = true
same_bytes (x ∷ xs) (y ∷ ys) = x == y && same_bytes xs ys
same_bytes _ _ = false

abbrev same_type : Option Bool → Option Bool → Bool
same_type none none = true
same_type (some true) (some true) = true
same_type (some false) (some false) = true
same_type _ _ = false

-- memcmp of the keys
unfoldable pub same_key : GroupKey → GroupKey → Bool
same_key a b =
    same_type a.is_write b.is_write && a.bytes == b.bytes && same_bytes a.session b.session

abbrev pub new_group : GroupKey → Group
new_group k = record {
  key = k;
  records = 0;
  joined = 0;
  bad_host = 0;
  bad_target = 0;
  post_estimated = 0;
  transport = none;
  spdk_host = false;
  spdk_target = false;
  comp = λ c. [];
  stage = λ g. [];
  queue = λ q. [];
}

-- `*group_for(s, h) = f(*group_for(s, h))`: the group of the key, or a new one at the end.
unfoldable pub on_group : GroupKey → (Group → Group) → List Group → List Group
unfolding same_key
on_group k f [] = f (new_group k) ∷ []
on_group k f (g ∷ gs) =
    let rest = on_group k f gs in if same_key g.key k then f g ∷ gs else g ∷ rest

abbrev push_queue : (QueueMetric → List ℕ) → QueueMetric → ℕ → QueueMetric → List ℕ
push_queue q m v m' = if metric_index m == metric_index m' then q m' ++ v ∷ [] else q m'

abbrev target_spdk : Option TgtRec → Bool
target_spdk none = false
target_spdk (some t) = t.hdr.flags.spdk

-- The occupancy of the queues, where it was tracked.
unfoldable pub add_queues :
    HostRec → Option TgtRec → Breakdown → (QueueMetric → List ℕ) → QueueMetric → List ℕ
add_queues h t b q =
    let q₁ =
      if h.hdr.flags.queues
      then push_queue (push_queue q host_unsent h.q_unsent) host_inflight h.q_inflight
      else q in
    elim t [
      | none ↦ q₁
      | some t ↦
          if b.joined && t.hdr.flags.queues
          then push_queue (push_queue q₁ tgt_outstanding t.q_outstanding) tgt_resp_queue
              t.q_resp_queue
          else q₁
    ]

-- What every record adds to its group.
unfoldable pub count_record : HostRec → Option TgtRec → Group → Group
count_record h t g = record g {
  records = g.records + 1;
  transport = some h.hdr.transport;
  spdk_host = g.spdk_host || h.hdr.flags.spdk;
  spdk_target = g.spdk_target || target_spdk t;
}

abbrev add_if : Bool → ℕ → ℕ
add_if b n = if b then n + 1 else n

abbrev is_bad_target : ModelErr → Bool
is_bad_target ok = false
is_bad_target incomplete_host = false
is_bad_target incomplete_target = true

-- What a record with values adds.
unfoldable pub add_samples : HostRec → Option TgtRec → ModelErr → Breakdown → Group → Group
unfolding add_queues
add_samples h t err b g = record g {
  bad_target = add_if (is_bad_target err) g.bad_target;
  joined = add_if b.joined g.joined;
  post_estimated = add_if b.post_estimated g.post_estimated;
  comp = λ c. if comp_valid b c then g.comp c ++ b.comp c ∷ [] else g.comp c;
  stage = λ i. if b.stage_valid i then g.stage i ++ b.stage i ∷ [] else g.stage i;
  queue = add_queues h t b g.queue;
}

unfoldable pub add_record : HostRec → Option TgtRec → ModelErr → Breakdown → Group → Group
unfolding count_record add_samples
add_record h t incomplete_host b g =
    let g' = count_record h t g in record g' { bad_host = g'.bad_host + 1 }
add_record h t err b g = add_samples h t err b (count_record h t g)

unfoldable pub stats_add : Stats → HostRec → Option TgtRec → Stats
unfolding key_for on_group add_record
stats_add s h t =
    let (err, b) = breakdown h t in
    let queued = h.ts HostTs.queue_rq in
    let done = h.ts HostTs.blk_done in
    record s {
      groups = on_group (key_for s h) (add_record h t err b) s.groups;
      first_ns =
          if nonzero queued && (not (nonzero s.first_ns) || ltb queued s.first_ns)
          then queued
          else s.first_ns;
      last_ns = if ltb s.last_ns done then done else s.last_ns;
    }
