-- ===== src/Lib.antt =====
-- A verification library for ntprof, which measures where the latency of NVMe-over-Fabrics
-- commands goes. BPF programs on the initiator and on the target sample the same commands by a
-- hash of (cid, slba, nlb), and each side sends one record of timestamps per command to user
-- space. User space joins the two records of a command and splits its end-to-end time into
-- components and stages.
--
-- Parts, files and the code that they model:
--   Record (bpf/ntprof.h): the records, their events and flags, the filter and the sampling hash,
--     shared by all other parts.
--   Model (src/model.c, src/model.h): `breakdown` is ntp_breakdown. Comp has the components and
--     stages, Breakdown the result and its setters, Host and Target the two sides over TCP, Rdma
--     both sides over RDMA, Stages the sums by stage, and Run puts them together. Sum, PathSum,
--     Split, SplitRdma and Total are about the sum of the components, Phase about a data phase.
--     Errors, Missing and Fallback are about the results, the host events that a record needs, and
--     the target records that cannot be used.
--   Join (src/join.c, src/join.h): Table has the hash table of waiting records (table_push,
--     table_take, table_expire), Joiner the operations on struct ntp_joiner. Chain is about bucket
--     chains, Queue and Take about the queue of a key, Oldest about the record that is taken, Expired
--     about those that are too old, Counts about the counters, Hosts about the host records, Match
--     and Same about the command of the records that are joined.
--   Stats (src/stats.c, src/stats.h): `stats_add` is ntp_stats_add, which puts the breakdown of a
--     record in the group of its key (group_for, ntp_session_name). Counts is about the counts.
--   Bpf (bpf/common.bpf.h, bpf/host.bpf.h, bpf/target.bpf.h, bpf/nvme_*_host.bpf.c,
--     bpf/nvme_*_target.bpf.c): a record `State` has the maps of an object, and a hook is a
--     function from a state to a state. Host and its children are the initiator (host_queue_rq,
--     ntp_h_setup_cmd as `setup_cmd`, host_complete, ntp_h_nvme_done as `nvme_done`, ntp_h_blk_done
--     as `blk_done`), Tcp the NVMe/TCP hooks, Rdma the NVMe/RDMA hooks of bpf/nvme_rdma_host.bpf.c,
--     Target the target (ntp_t_req_init as `req_init`, on_exec, tgt_emit) with the NVMe/TCP hooks
--     of bpf/nvme_tcp_target.bpf.c in Target/Tcp and the NVMe/RDMA hooks of
--     bpf/nvme_rdma_target.bpf.c in Target/Rdma. Slots and Inv have the invariant of the record
--     slots, Steps the hooks as a step relation, Lookup the finding of records.
--   Trace (src/trace_file.c, src/trace_file.h): Bytes has the bytes of a field, Layout those of the
--     structs, Reader the writer and ntp_read_file as `read_file`. Fields and Versions are about the
--     structs, Records, Files and Write about whole files, Ends about the end of the loop.
--   Session (src/record.c): `on_record` takes a record from the ring buffer to the joiner, the
--     statistics and the file; `tick` is the end of an interval and `drain` the end. Balance and Wait
--     are about the host records.
--   Offline (src/offline.c): `load_run` reads the files of a run and joins them; Order is about their
--     order.
--   Config (src/config.c, src/config.h, src/util.c): struct ntp_config and its setters; Text has
--     parse_size, parse_bool, strip, cut_comment and set_uint, Apply the keys, Ini `load_ini`, which is
--     config_load_ini. Ranges and Valid are about the values that a file can set, Sizes about
--     parse_size.
--   Prelude: shared names, tests, lists and integers. Tests: runs on concrete records and states.
--
-- How the code is read:
--   Numbers are natural numbers; a word that can wrap says so by `% 2 ^ w`, and a signed word
--   stands as its bit pattern. A latency is an integer: the difference of two 64-bit times, read
--   as signed. Counters of records and bytes have 64 bits and are taken not to wrap. A word of
--   flags is a record of its bits, an array of times a function from its index. A bucket chain is
--   a list. All loops but one are structural recursion on lists. The loop of ntp_read_file has
--   as fuel one round more than the file has bytes, which is enough since a round takes a byte at
--   least.
--   One run of a hook is one step, and hooks on different CPUs follow each other in any order. The
--   CPU, the thread, the clock and the outcome of a ring buffer output or of an insertion into a
--   hash map are arguments of a run (`Run`), and so is what a hook reads of the kernel (`Request`,
--   `Mem`). A count over the CPUs is one number.
--
-- Not modelled: allocation and freeing; the SPDK objects (bpf/spdk*); the quantiles and rates of
-- src/stats.c, which use floating point; and loading, processes, reports and the command line
-- (src/loader.c, the rest of src/record.c and src/offline.c, src/report.c, src/main.c, src/spdk.c),
-- which are input and output.
pub mod Prelude
pub mod Record
pub mod Model
pub mod Join
pub mod Stats
pub mod Bpf
pub mod Tests
pub mod Config
pub mod Offline
pub mod Session
pub mod Trace
