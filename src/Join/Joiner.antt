-- ===== src/Join/Joiner.antt =====
-- `struct ntp_joiner` of src/join.c and its operations. The callback of
-- `ntp_joiner_release_hosts` is the list of the records that it is called with.
use ntprof.Prelude.{ℕ, ◌+◌, List, Option, none, some, nonzero, if◌then◌else◌, length}
use ntprof.Join.Table.{Layout, Table, table_init, table_push, table_take, table_expire}
use ntprof.Record.{HostRec, TgtRec, HostTs, TgtTs}

pub record JoinStats : Type 0 where
  pub targets_added : ℕ
  pub targets_evicted : ℕ
  pub targets_expired : ℕ
  pub matched : ℕ
  pub host_unmatched : ℕ

pub record Joiner : Type 0 where
  pub targets : Table TgtRec
  pub hosts : Table HostRec
  pub max_per_key : ℕ
  pub st : JoinStats

-- A target record ages by its command's arrival, a host record by its completion.
abbrev pub tgt_layout : Layout TgtRec
tgt_layout = record { id_of = λ t. t.id; age = λ t. t.ts TgtTs.cmd_arr }

abbrev pub host_layout : Layout HostRec
host_layout = record { id_of = λ h. h.id; age = λ h. h.ts HostTs.blk_done }

abbrev no_stats : JoinStats
no_stats = record {
  targets_added = 0;
  targets_evicted = 0;
  targets_expired = 0;
  matched = 0;
  host_unmatched = 0;
}

unfoldable pub joiner_new : ℕ → Joiner
unfolding table_init
joiner_new max_per_key = record {
  targets = table_init TgtRec;
  hosts = table_init HostRec;
  max_per_key = max_per_key;
  st = no_stats;
}

unfoldable pub add_target : Joiner → TgtRec → Joiner
add_target j t =
    let (dropped, targets) = table_push tgt_layout j.targets t j.max_per_key in
    record j {
      targets = targets;
      st = record (j.st) {
        targets_evicted = j.st.targets_evicted + dropped;
        targets_added = j.st.targets_added + 1;
      };
    }

abbrev count_match : JoinStats → JoinStats
count_match st = record st { matched = st.matched + 1 }

unfoldable pub match_host : Joiner → HostRec → Option TgtRec × Joiner
match_host j h =
    let (found, targets) = table_take tgt_layout j.targets h.id in
    elim found [
      | some t ↦ (some t, record j { targets = targets; st = count_match j.st })
      | none ↦ (
        none,
        record j {
          targets = targets;
          st = record (j.st) { host_unmatched = j.st.host_unmatched + 1 };
        },
      )
    ]

unfoldable pub target_arrives : Joiner → TgtRec → Option HostRec × Joiner
unfolding add_target
target_arrives j t =
    let (found, hosts) = table_take host_layout j.hosts t.id in
    elim found [
      | some h ↦ (
        some h,
        record j {
          hosts = hosts;
          st = record (count_match j.st) { targets_added = j.st.targets_added + 1 };
        },
      )
      | none ↦ (none, add_target (record j { hosts = hosts }) t)
    ]

unfoldable pub host_arrives : Joiner → HostRec → Option TgtRec × Joiner
host_arrives j h =
    let (found, targets) = table_take tgt_layout j.targets h.id in
    elim found [
      | some t ↦ (some t, record j { targets = targets; st = count_match j.st })
      | none ↦
          let (dropped, hosts) = table_push host_layout j.hosts h j.max_per_key in
          (
            none,
            record j {
              targets = targets;
              hosts = hosts;
              st = record (j.st) {
                host_unmatched =
                    if nonzero dropped then j.st.host_unmatched + 1 else j.st.host_unmatched;
              };
            },
          )
    ]

unfoldable pub release_hosts : Joiner → ℕ → List HostRec × Joiner
release_hosts j before_ns =
    let (released, hosts) = table_expire host_layout j.hosts before_ns in
    (
      released,
      record j {
        hosts = hosts;
        st = record (j.st) { host_unmatched = j.st.host_unmatched + length released };
      },
    )

unfoldable pub expire : Joiner → ℕ → ℕ × Joiner
expire j before_ns =
    let (dropped, targets) = table_expire tgt_layout j.targets before_ns in
    (
      length dropped,
      record j {
        targets = targets;
        st = record (j.st) { targets_expired = j.st.targets_expired + length dropped };
      },
    )

abbrev pub pending : Joiner → ℕ
pending j = j.targets.pending

abbrev pub waiting_hosts : Joiner → ℕ
waiting_hosts j = j.hosts.pending
