-- ===== src/Join/Table.antt =====
-- The hash table of src/join.c: records waiting for their counterpart, per (cntlid, qid, cid), in
-- arrival order. `v` is the array of bucket chains; a bucket's `len` is the length of `recs`.
-- Counters of 64 bits count records and cannot wrap. The allocations (util.c) cannot fail.
use ntprof.Prelude.{
  ℕ, ◌+◌, ◌-◌, ◌*◌, ◌/◌, ◌%◌, ◌^◌, Bool, ◌&&◌, List, [], ◌∷◌, ◌++◌, Option, none, some, bit_xor,
  ltb, nonzero, ◌==◌, if◌then◌else◌, length, get_or, set, replicate,
}
use ntprof.Record.{CmdId}

-- The offsets of a table: where a record has its command and the time that ages it.
pub record Layout (R : Type 0) : Type 0 where
  pub id_of : R → CmdId
  pub age : R → ℕ

pub record Bucket (R : Type 0) : Type 0 where
  pub key : ℕ
  pub cap : ℕ
  pub recs : List R

pub record Table (R : Type 0) : Type 0 where
  pub v : List (List (Bucket R))
  pub nbuckets : ℕ
  pub pending : ℕ

-- The fields are 16 bits wide, so `|` adds.
unfoldable pub key_of : CmdId → ℕ
key_of id = id.cntlid * 2 ^ 32 + id.qid * 2 ^ 16 + id.cid

unfoldable pub same_command : CmdId → CmdId → Bool
same_command a b = a.opcode == b.opcode && a.nsid == b.nsid && a.slba == b.slba && a.nlb == b.nlb

unfoldable pub empty_table : (R : Type 0) → ℕ → Table R
empty_table R n = record { v = replicate n []; nbuckets = n; pending = 0 }

unfoldable pub table_init : (R : Type 0) → Table R
table_init R = empty_table R (2 ^ 16)

-- The index of the chain that `lookup` walks; `nbuckets` is a power of 2, so `&` is `%`.
unfoldable pub slot : ℕ → ℕ → ℕ
slot nbuckets key =
    let h₁ = bit_xor key (key / 2 ^ 33) in
    let h₂ = h₁ * 0xff51afd7ed558ccd % 2 ^ 64 in bit_xor h₂ (h₂ / 2 ^ 33) % nbuckets

-- The room of a bucket that is full: doubled, within the limit.
unfoldable pub grown : ℕ → ℕ → ℕ
grown max_per_key room =
    if nonzero max_per_key && ltb max_per_key (room * 2) then max_per_key else room * 2

module _ {R : Type 0} where
  -- The walk of `lookup` along a chain: `*link` is the bucket of the key, or NULL.
  unfoldable pub find : ℕ → List (Bucket R) → Option (Bucket R)
  find key [] = none
  find key (b ∷ c) = if b.key == key then some b else find key c

  -- `*link = b`: in place of the bucket of that key, or at the end of the chain.
  unfoldable pub link_bucket : Bucket R → List (Bucket R) → List (Bucket R)
  link_bucket b [] = b ∷ []
  link_bucket b (b' ∷ c) = if b'.key == b.key then b ∷ c else b' ∷ link_bucket b c

  -- `*link = b->next`
  unfoldable pub unlink : ℕ → List (Bucket R) → List (Bucket R)
  unlink key [] = []
  unlink key (b ∷ c) = if b.key == key then c else b ∷ unlink key c

  abbrev pub chain_at : Table R → ℕ → List (Bucket R)
  chain_at t key = get_or t.v (slot t.nbuckets key) []

  abbrev pub with_chain : Table R → ℕ → List (Bucket R) → Table R
  with_chain t key c = record t { v = set t.v (slot t.nbuckets key) c }

  -- memmove over the oldest record
  abbrev pub drop_oldest : List R → List R
  drop_oldest [] = []
  drop_oldest (r ∷ rs) = rs

  -- The three cases of `table_push` for a bucket that exists: the bucket, and what was dropped.
  unfoldable pub push_bucket : ℕ → Bucket R → R → ℕ × Bucket R
  unfolding grown
  push_bucket max_per_key b r =
      if nonzero max_per_key && length b.recs == max_per_key
      then (1, record b { recs = drop_oldest b.recs ++ r ∷ [] })
      else if length b.recs == b.cap
      then (0, record b { cap = grown max_per_key b.cap; recs = b.recs ++ r ∷ [] })
      else (0, record b { recs = b.recs ++ r ∷ [] })

  abbrev pub keep_front : R → Option (R × List R) → Option (R × List R)
  keep_front r none = none
  keep_front r (some (x, rest)) = some (x, r ∷ rest)

  -- Removes the first record of the command: the loop of `table_take`.
  unfoldable pub take_first : (R → Bool) → List R → Option (R × List R)
  take_first p [] = none
  take_first p (r ∷ rs) =
      let rest = keep_front r (take_first p rs) in if p r then some (r, rs) else rest

  -- What is left of a bucket; an empty one is unlinked and freed.
  unfoldable pub put_back : Bucket R → List R → List (Bucket R) → List (Bucket R)
  unfolding link_bucket unlink
  put_back b [] c = unlink b.key c
  put_back b (r ∷ rs) c = link_bucket (record b { recs = r ∷ rs }) c

  -- The records of a list whose time is before `before_ns`, and the others, both in order.
  unfoldable pub split_old : (R → ℕ) → ℕ → List R → List R × List R
  split_old age before_ns [] = ([], [])
  split_old age before_ns (r ∷ rs) =
      let (old, keep) = split_old age before_ns rs in
      if ltb (age r) before_ns then (r ∷ old, keep) else (old, r ∷ keep)

  -- A bucket that keeps nothing is unlinked and freed.
  abbrev pub keep_bucket : Bucket R → List R → List (Bucket R) → List (Bucket R)
  keep_bucket b [] c = c
  keep_bucket b (r ∷ rs) c = record b { recs = r ∷ rs } ∷ c

  unfoldable pub expire_chain : (R → ℕ) → ℕ → List (Bucket R) → List R × List (Bucket R)
  unfolding split_old
  expire_chain age before_ns [] = ([], [])
  expire_chain age before_ns (b ∷ c) =
      let (old, keep) = split_old age before_ns b.recs in
      let (olds, c') = expire_chain age before_ns c in (old ++ olds, keep_bucket b keep c')

  unfoldable pub expire_chains :
      (R → ℕ) → ℕ → List (List (Bucket R)) → List R × List (List (Bucket R))
  unfolding expire_chain
  expire_chains age before_ns [] = ([], [])
  expire_chains age before_ns (c ∷ v) =
      let (old, c') = expire_chain age before_ns c in
      let (olds, v') = expire_chains age before_ns v in (old ++ olds, c' ∷ v')

module _ {R : Type 0} (l : Layout R) where
  -- Appends a record; the number is 1 if the oldest record of its key was dropped for it.
  unfoldable pub table_push : Table R → R → ℕ → ℕ × Table R
  unfolding find link_bucket push_bucket
  table_push t r max_per_key =
      let key = key_of (l.id_of r) in
      let c = chain_at t key in
      elim (find key c) [
        | none ↦ (
          0,
          record (with_chain t key (link_bucket (record { key = key; cap = 1; recs = r ∷ [] }) c)) {
            pending = t.pending + 1;
          },
        )
        | some b ↦
            let (dropped, b') = push_bucket max_per_key b r in
            (
              dropped,
              record (with_chain t key (link_bucket b' c)) { pending = t.pending - dropped + 1 },
            )
      ]

  -- Removes the oldest record of a command.
  unfoldable pub table_take : Table R → CmdId → Option R × Table R
  unfolding find take_first put_back
  table_take t id =
      let key = key_of id in
      let c = chain_at t key in
      elim (find key c) [
        | none ↦ (none, t)
        | some b ↦ elim (take_first (λ r. same_command (l.id_of r) id) b.recs) [
          | none ↦ (none, t)
          | some (r, rest) ↦
              (some r, record (with_chain t key (put_back b rest c)) { pending = t.pending - 1 })
        ]
      ]

  -- Removes the records whose time is before `before_ns`: those records, in the order in which
  -- they go to the callback, and the table.
  unfoldable pub table_expire : Table R → ℕ → List R × Table R
  unfolding expire_chains
  table_expire t before_ns =
      let (old, v') = expire_chains l.age before_ns t.v in
      (old, record t { v = v'; pending = t.pending - length old })
