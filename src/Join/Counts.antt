-- ===== src/Join/Counts.antt =====
-- The counters of `struct ntp_join_stats` of src/join.c, over every sequence of its operations.
use ntprof.Prelude.{ℕ, ◌+◌, ◌≡◌, refl, arith, Option-cases, inl, inr}
use ntprof.Join.Table.{empty_table, table_init, table_take}
use ntprof.Join.Queue.{IsTable, table_push-push, table_push-pending, empty_table-IsTable}
use ntprof.Join.Take.{table_take-queue, table_expire-queue}
use ntprof.Join.Joiner.{
  Joiner, tgt_layout, host_layout, joiner_new, add_target, match_host, target_arrives, host_arrives,
  release_hosts, expire,
}
use ntprof.Record.{HostRec, TgtRec}

-- The joiners that the operations lead to from a new one.
pub data Reached (max_per_key : ℕ) : Joiner → Type 0 where
  created : Reached max_per_key (joiner_new max_per_key)
  added : {j : Joiner} (t : TgtRec) → Reached max_per_key j → Reached max_per_key (add_target j t)
  matched_host :
      {j : Joiner} (h : HostRec) → Reached max_per_key j → Reached max_per_key (match_host j h).1
  target_came :
      {j : Joiner} (t : TgtRec) → Reached max_per_key j → Reached max_per_key (target_arrives j t).1
  host_came :
      {j : Joiner} (h : HostRec) → Reached max_per_key j → Reached max_per_key (host_arrives j h).1
  released :
      {j : Joiner} (before_ns : ℕ)
      → Reached max_per_key j
      → Reached max_per_key (release_hosts j before_ns).1
  expired :
      {j : Joiner} (before_ns : ℕ)
      → Reached max_per_key j
      → Reached max_per_key (expire j before_ns).1

-- Both tables are in order, and each target record that came in is matched, evicted, expired or
-- still waiting.
pub record IsBalanced (j : Joiner) : Type 0 where
  pub targets_ok : IsTable j.targets
  pub hosts_ok : IsTable j.hosts
  pub balance :
      j.st.targets_added
      ≡ j.st.matched + j.st.targets_evicted + j.st.targets_expired + j.targets.pending

pub joiner_new-IsBalanced : (m : ℕ) → IsBalanced (joiner_new m)
unfolding joiner_new table_init empty_table
joiner_new-IsBalanced m = record {
  targets_ok = empty_table-IsTable _ (omega arith);
  hosts_ok = empty_table-IsTable _ (omega arith);
  balance = refl;
}

module _ (j : Joiner) (ok : IsBalanced j) where
  add_target-IsBalanced : (t : TgtRec) → IsBalanced (add_target j t)
  unfolding add_target
  add_target-IsBalanced t = record {
    targets_ok = (table_push-push tgt_layout j.targets ok.targets_ok t j.max_per_key).0;
    hosts_ok = ok.hosts_ok;
    balance =
        omega (
          arith,
          table_push-pending tgt_layout j.targets ok.targets_ok t j.max_per_key,
          ok.balance,
        );
  }

  match_host-IsBalanced : (h : HostRec) → IsBalanced (match_host j h).1
  unfolding match_host
  match_host-IsBalanced h =
      let (ok', e, n, q) = table_take-queue tgt_layout j.targets ok.targets_ok h.id in
      elim (Option-cases (table_take tgt_layout j.targets h.id).0) [
        | inl f ↦
            rw (f, match_host)
              (record {
                targets_ok = ok';
                hosts_ok = ok.hosts_ok;
                balance = omega (arith, rw f at n, ok.balance);
              })
        | inr (t, f) ↦
            rw (f, match_host)
              (record {
                targets_ok = ok';
                hosts_ok = ok.hosts_ok;
                balance = omega (arith, rw f at n, ok.balance);
              })
      ]

  pub release_hosts-IsBalanced : (b : ℕ) → IsBalanced (release_hosts j b).1
  unfolding release_hosts
  release_hosts-IsBalanced b = record {
    targets_ok = ok.targets_ok;
    hosts_ok = (table_expire-queue host_layout j.hosts ok.hosts_ok b).0;
    balance = ok.balance;
  }

  pub expire-IsBalanced : (b : ℕ) → IsBalanced (expire j b).1
  unfolding expire
  expire-IsBalanced b =
      let (ok', n, q) = table_expire-queue tgt_layout j.targets ok.targets_ok b in
      record { targets_ok = ok'; hosts_ok = ok.hosts_ok; balance = omega (arith, n, ok.balance) }

  pub host_arrives-IsBalanced : (h : HostRec) → IsBalanced (host_arrives j h).1
  unfolding host_arrives
  host_arrives-IsBalanced h =
      let (ok', e, n, q) = table_take-queue tgt_layout j.targets ok.targets_ok h.id in
      elim (Option-cases (table_take tgt_layout j.targets h.id).0) [
        | inl f ↦
            rw (f, host_arrives)
              (record {
                targets_ok = ok';
                hosts_ok = (table_push-push host_layout j.hosts ok.hosts_ok h j.max_per_key).0;
                balance = omega (arith, rw f at n, ok.balance);
              })
        | inr (t, f) ↦
            rw (f, host_arrives)
              (record {
                targets_ok = ok';
                hosts_ok = ok.hosts_ok;
                balance = omega (arith, rw f at n, ok.balance);
              })
      ]

-- `ntp_joiner_target_arrives` adds the record to a joiner that is as balanced as before.
pub target_arrives-IsBalanced :
    (j : Joiner) → IsBalanced j → (t : TgtRec) → IsBalanced (target_arrives j t).1
unfolding target_arrives
target_arrives-IsBalanced j ok t =
    let (ok', e, n, q) = table_take-queue host_layout j.hosts ok.hosts_ok t.id in
    elim (Option-cases (table_take host_layout j.hosts t.id).0) [
      | inl f ↦
          rw (f, target_arrives)
            (add_target-IsBalanced _
              (record { targets_ok = ok.targets_ok; hosts_ok = ok'; balance = ok.balance }) t)
      | inr (h, f) ↦
          rw (f, target_arrives)
            (record {
              targets_ok = ok.targets_ok;
              hosts_ok = ok';
              balance = omega (arith, ok.balance);
            })
    ]

-- In every joiner that the operations lead to from a new one, both tables are in order and
-- targets_added is the sum of matched, targets_evicted, targets_expired and the target records that
-- wait.
pub Reached-IsBalanced : (m : ℕ) (j : Joiner) → Reached m j → IsBalanced j
Reached-IsBalanced m _ created = joiner_new-IsBalanced m
Reached-IsBalanced m _ (added t r) = add_target-IsBalanced _ (Reached-IsBalanced m _ r) t
Reached-IsBalanced m _ (matched_host h r) = match_host-IsBalanced _ (Reached-IsBalanced m _ r) h
Reached-IsBalanced m _ (target_came t r) = target_arrives-IsBalanced _ (Reached-IsBalanced m _ r) t
Reached-IsBalanced m _ (host_came h r) = host_arrives-IsBalanced _ (Reached-IsBalanced m _ r) h
Reached-IsBalanced m _ (released b r) = release_hosts-IsBalanced _ (Reached-IsBalanced m _ r) b
Reached-IsBalanced m _ (expired b r) = expire-IsBalanced _ (Reached-IsBalanced m _ r) b
