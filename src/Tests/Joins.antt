-- ===== src/Tests/Joins.antt =====
-- src/join.c on a table of two chains and a joiner.
use ntprof.Prelude.{ℕ, ◌+◌, ◌≡◌, ◌≢◌, sum_by, if◌then◌else◌, ◌==◌, length, arith}
use ntprof.Join.Counts.{
  created, added, target_came, host_came, expired, IsBalanced, Reached-IsBalanced,
}
use ntprof.Join.Joiner.{
  match_host, host_layout, tgt_layout, joiner_new, add_target, target_arrives, host_arrives, expire,
}
use ntprof.Join.Queue.{IsTable, queue, push, empty_table-IsTable, table_push-push}
use ntprof.Join.Same.{Matches, Reached-Fits}
use ntprof.Join.Table.{Table, empty_table, table_push, table_take, table_expire, key_of}
use ntprof.Join.Take.{counted}
use ntprof.Join.Oldest.{Gives, table_take-take}
use ntprof.Join.Expired.{AllBefore, since, table_sum, table_expire-split}
use ntprof.Record.{TgtRec}
use ntprof.Tests.Records.{host_read, tgt_read, read_id}

abbrev two_chains : Table TgtRec
two_chains = empty_table TgtRec 2

two_chains-IsTable : IsTable two_chains
two_chains-IsTable = empty_table-IsTable 2 (omega arith)

abbrev one_record : Table TgtRec
one_record = (table_push tgt_layout two_chains tgt_read 1).1

one_record-IsTable : IsTable one_record
one_record-IsTable = (table_push-push tgt_layout two_chains two_chains-IsTable tgt_read 1).0

table_push-push_example :
    IsTable (table_push tgt_layout one_record tgt_read 1).1
    × ((table_push tgt_layout one_record tgt_read 1).0
        ≡ (push 1 (queue one_record (key_of read_id)) tgt_read).0)
    × ((k : ℕ)
        → queue (table_push tgt_layout one_record tgt_read 1).1 k ≡ (
            if key_of read_id == k
            then (push 1 (queue one_record (key_of read_id)) tgt_read).1
            else queue one_record k))
table_push-push_example = table_push-push tgt_layout one_record one_record-IsTable tgt_read 1

table_take-take_example :
    let (found, t') = table_take tgt_layout one_record read_id in
    IsTable t'
    × (t'.pending + counted found ≡ one_record.pending)
    × Gives tgt_layout read_id (queue one_record (key_of read_id)) found (queue t' (key_of read_id))
    × ((k : ℕ) → key_of read_id ≢ k → queue t' k ≡ queue one_record k)
table_take-take_example = table_take-take tgt_layout one_record one_record-IsTable read_id

table_expire-split_example :
    let (old, t') = table_expire tgt_layout one_record 9500 in
    IsTable t'
    × (t'.pending + length old ≡ one_record.pending)
    × AllBefore tgt_layout.age 9500 old
    × ((k : ℕ) → queue t' k ≡ since tgt_layout.age 9500 (queue one_record k))
    × ((f : TgtRec → ℕ) → sum_by f old + table_sum f t' ≡ table_sum f one_record)
table_expire-split_example = table_expire-split tgt_layout one_record one_record-IsTable 9500

Reached-IsBalanced_example :
    IsBalanced
      (expire
        (host_arrives (target_arrives (add_target (joiner_new 4) tgt_read) tgt_read).1 host_read).1
        9500).1
Reached-IsBalanced_example =
    Reached-IsBalanced 4 _
      (expired 9500 (host_came host_read (target_came tgt_read (added tgt_read created))))

Reached-Fits_example :
    Matches tgt_layout read_id (match_host (add_target (joiner_new 4) tgt_read) host_read).0
    × Matches tgt_layout read_id (host_arrives (add_target (joiner_new 4) tgt_read) host_read).0
    × Matches host_layout read_id (target_arrives (add_target (joiner_new 4) tgt_read) tgt_read).0
Reached-Fits_example = Reached-Fits 4 _ host_read tgt_read (added tgt_read created)
