-- ===== src/Join/Queue.antt =====
-- The table of src/join.c as what it promises: a queue of records for each key, oldest first.
use ntprof.Prelude.{
  ℕ, zero, suc, ◌+◌, ◌-◌, ◌≤◌, ◌<◌, ◌≡◌, refl, sym, ap, ◌∙◌, Bool, true, false, ◌&&◌, List, [], ◌∷◌,
  ◌++◌, Option, none, some, nonzero, ◌==◌, ==_iff, if◌then◌else◌, length, get_or, replicate, arith,
  Bool-cases, Option-cases, inl, inr, if-holds, length-append, length-set, length-replicate,
  get_or-set, sum_by, sum_by-set, get_or-le-sum_by,
}
use ntprof.Join.Table.{
  Layout, Bucket, Table, empty_table, key_of, slot, find, link_bucket, drop_oldest, push_bucket,
  table_push, chain_at, with_chain,
}
use ntprof.Join.Chain.{
  recs_of, Distinct, chain_total, find-link, Distinct-link, chain_total-link, chain_total-unlink,
  find-key,
}

slot-lt : (n k : ℕ) → 0 < n → slot n k < n
unfolding slot
slot-lt n k h = grind arith

zero-sub : (n : ℕ) → n ≡ n - 0
zero-sub n = omega arith

empty-total : (R : Type 0) (n : ℕ) → sum_by {A = List (Bucket R)} chain_total (replicate n []) ≡ 0
unfolding sum_by chain_total
empty-total R zero = refl
empty-total R (suc n) = omega (arith, empty-total R n)

module _ {R : Type 0} where
  -- The records that wait under a key, oldest first.
  unfoldable pub queue : Table R → ℕ → List R
  queue t k = recs_of (find k (chain_at t k))

  -- The records of all chains.
  unfoldable pub total : Table R → ℕ
  total t = sum_by chain_total t.v

  -- The table is in order: its array has `nbuckets` chains, `pending` counts its records, and no
  -- chain has two buckets of one key.
  pub record IsTable (t : Table R) : Type 0 where
    pub width : length t.v ≡ t.nbuckets
    pub roomy : 0 < t.nbuckets
    pub counted : t.pending ≡ total t
    pub distinct : (i : ℕ) → Distinct (get_or t.v i [])

  -- A bounded queue: over the bound, the oldest record makes room (0: no bound).
  unfoldable pub push : ℕ → List R → R → ℕ × List R
  push bound q r =
      if nonzero bound && length q == bound then (1, drop_oldest q ++ r ∷ []) else (0, q ++ r ∷ [])

  empty-chain : (n i : ℕ) → get_or {A = List (Bucket R)} (replicate n []) i [] ≡ []
  empty-chain zero i = refl
  empty-chain (suc n) zero = refl
  empty-chain (suc n) (suc i) = empty-chain n i

  pub empty_table-IsTable : (n : ℕ) → 0 < n → IsTable (empty_table R n)
  unfolding empty_table total
  empty_table-IsTable n h = record {
    width = length-replicate n [];
    roomy = h;
    counted = sym (empty-total R n);
    distinct = λ i. rw (empty-chain n i) tt;
  }

  pub queue-empty_table : (n k : ℕ) → queue (empty_table R n) k ≡ []
  unfolding empty_table queue find
  queue-empty_table n k = rw (empty-chain n (slot n k))

  pub chain-le-pending :
      (t : Table R) (ok : IsTable t) (key : ℕ) → chain_total (chain_at t key) ≤ t.pending
  unfolding total
  chain-le-pending t ok key = omega (
    arith,
    get_or-le-sum_by chain_total t.v (slot t.nbuckets key) []
        (rw ok.width (slot-lt t.nbuckets key ok.roomy)),
    ok.counted,
  )

  -- One write to the chain of a key.
  module _ (t : Table R) (ok : IsTable t) (key : ℕ) (c : List (Bucket R)) (n : ℕ) where
    i : ℕ
    i = slot t.nbuckets key

    in_range : i < length t.v
    unfolding i
    in_range = rw ok.width (slot-lt t.nbuckets key ok.roomy)

    pub with_chain-IsTable :
        Distinct c
        → n + chain_total (chain_at t key) ≡ t.pending + chain_total c
        → IsTable (record (with_chain t key c) { pending = n })
    unfolding total i
    with_chain-IsTable dc e = record {
      width = length-set t.v _ c ∙ ok.width;
      roomy = ok.roomy;
      counted = omega (arith, sum_by-set chain_total t.v _ c [] in_range, ok.counted);
      distinct = λ j.
          rw (get_or-set t.v (slot t.nbuckets key) j c [] in_range)
            (if-holds Distinct (slot t.nbuckets key == j) dc (ok.distinct j));
    }

    -- Other keys keep their queues, in whichever chain they are.
    pub queue-with_chain :
        (k : ℕ) (q : List R)
        → recs_of (find k c) ≡ (if key == k then q else recs_of (find k (chain_at t key)))
        → queue (record (with_chain t key c) { pending = n }) k
          ≡ (if key == k then q else queue t k)
    unfolding queue i
    queue-with_chain k q e =
        let n = t.nbuckets in
        rw (get_or-set t.v (slot n key) (slot n k) c [] in_range) (elim (Bool-cases (key == k)) [
          | inl a ↦
              rw ((==_iff (slot n key) (slot n k)).1 (ap (slot n) ((==_iff key k).0 a)), a)
                (rw a at e)
          | inr a ↦ elim (Bool-cases (slot n key == slot n k)) [
            | inl s ↦
                rw (s, a)
                  (rw a at e ∙ ap (λ z. recs_of (find k (get_or t.v z []))) ((==_iff _ _).0 s))
            | inr s ↦ rw (s, a) refl
          ]
        ])

  -- The first three cases of `table_push`, as one bucket.
  pushed : ℕ → Option (Bucket R) → ℕ → R → ℕ × Bucket R
  pushed bound none key r = (0, record { key = key; cap = 1; recs = r ∷ [] })
  pushed bound (some b) key r = push_bucket bound b r

  pushed-push :
      (bound key : ℕ) (o : Option (Bucket R)) (r : R)
      → ((b : Bucket R) → o ≡ some b → b.key ≡ key)
      → ((pushed bound o key r).0 ≡ (push bound (recs_of o) r).0)
        × ((pushed bound o key r).1.recs ≡ (push bound (recs_of o) r).1)
        × ((pushed bound o key r).1.key ≡ key)
  unfolding pushed push push_bucket
  pushed-push bound key none r h = ground arith
  pushed-push bound key (some b) r h = ground (arith, h b refl)

  push-length :
      (bound : ℕ) (q : List R) (r : R)
      → length (push bound q r).1 + (push bound q r).0 ≡ length q + 1
  unfolding push
  push-length bound [] r = ground arith
  push-length bound (x ∷ q) r = ground (arith, length-append q (r ∷ []))

  -- `pending - 1` is for a record that is there.
  push-room : (bound : ℕ) (q : List R) (r : R) → (push bound q r).0 ≤ length q
  unfolding push
  push-room bound q r = ground arith

  pub linked :
      (same : Bool) (b : Bucket R) (o : Option (Bucket R)) {q : List R}
      → b.recs ≡ q
      → recs_of (if same then some b else o) ≡ (if same then q else recs_of o)
  linked true b o e = e
  linked false b o e = refl

module _ {R : Type 0} (l : Layout R) where
  table_push-eq :
      (t : Table R) (r : R) (bound : ℕ)
      → let key = key_of (l.id_of r) in
        let c = chain_at t key in
        let (dropped, b) = pushed bound (find key c) key r in
        table_push l t r bound ≡ (
          dropped,
          record (with_chain t key (link_bucket b c)) { pending = t.pending - dropped + 1 },
        )
  unfolding table_push pushed
  table_push-eq t r bound =
      let key = key_of (l.id_of r) in
      elim (Option-cases (find key (chain_at t key))) [
        | inl e ↦
            rw (e, table_push)
              (λ i. (
                0,
                record (with_chain t key
                    (link_bucket (record { key = key; cap = 1; recs = r ∷ [] }) (chain_at t key))) {
                      pending = zero-sub t.pending i + 1;
                    },
              ))
        | inr (b, e) ↦ rw (e, table_push) refl
      ]

  module _ (t : Table R) (ok : IsTable t) (r : R) (bound : ℕ) where
    -- `pending` rises by one and falls by one for a record that is dropped.
    pub table_push-pending :
        (table_push l t r bound).1.pending + (table_push l t r bound).0 ≡ t.pending + 1
    table_push-pending =
        let key = key_of (l.id_of r) in
        let c = chain_at t key in
        let o = find key c in
        let (hd, hr, hk) = pushed-push bound key o r (λ b e. find-key key c b e) in
        rw table_push-eq (
          omega (
            arith,
            hd,
            push-room bound (recs_of o) r,
            chain_total-unlink key c,
            chain-le-pending t ok key,
          ))

    -- On a table in order, table_push is the bounded push on the queue of the record's key: it
    -- drops a record when the bounded push does, it leaves the other queues, and the table stays in
    -- order.
    pub table_push-push :
        IsTable (table_push l t r bound).1
        × ((table_push l t r bound).0 ≡ (push bound (queue t (key_of (l.id_of r))) r).0)
        × ((k : ℕ)
            → queue (table_push l t r bound).1 k ≡ (
                if key_of (l.id_of r) == k
                then (push bound (queue t (key_of (l.id_of r))) r).1
                else queue t k))
    unfolding queue
    table_push-push =
        let key = key_of (l.id_of r) in
        let c = chain_at t key in
        let o = find key c in
        let (dropped, b) = pushed bound o key r in
        let (hd, hr, hk) = pushed-push bound key o r (λ b e. find-key key c b e) in
        rw table_push-eq (
          with_chain-IsTable t ok key (link_bucket b c) (t.pending - dropped + 1)
              (Distinct-link b c (ok.distinct _))
              (omega (
                arith,
                chain_total-link b c,
                ap (λ z. length (recs_of (find z c))) hk,
                ap length hr,
                hd,
                push-length bound (recs_of o) r,
                push-room bound (recs_of o) r,
                chain_total-unlink key c,
                chain-le-pending t ok key,
              )),
          hd,
          λ k.
              queue-with_chain t ok key (link_bucket b c) (t.pending - dropped + 1) k _
                (rw (find-link b c k, hk) (linked (key == k) b _ hr)),
        )
