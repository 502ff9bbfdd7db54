-- ===== src/Join/Take.antt =====
-- `table_take` and `table_expire` of src/join.c as operations on the queues of the table.
use ntprof.Prelude.{
  ℕ, zero, suc, ◌+◌, ◌-◌, ◌≡◌, refl, sym, ap, subst, ◌∙◌, Bool, List, [], ◌∷◌, Option, none, some,
  ◌==◌, if◌then◌else◌, length, get_or, arith, Option-cases, Bool-cases, ==_iff, inl, inr,
  length-append, sum_by,
}
use ntprof.Join.Table.{
  Layout, Bucket, Table, key_of, same_command, slot, find, take_first, keep_front, split_old,
  put_back, expire_chain, expire_chains, table_take, table_expire, chain_at,
}
use ntprof.Join.Chain.{
  recs_of, Distinct, chain_total, find-link, find-unlink, Distinct-link, Distinct-unlink,
  chain_total-link, chain_total-unlink, find-key, chain_total-expire, Distinct-expire, find-expire,
}
use ntprof.Join.Queue.{
  IsTable, queue, total, with_chain-IsTable, queue-with_chain, chain-le-pending,
}
use ntprof.Record.{CmdId}

module _ {R : Type 0} where
  -- The first record that fits leaves the queue.
  unfoldable pub take : (R → Bool) → List R → Option R × List R
  take p q = elim (take_first p q) [ none ↦ (none, q) | some (r, rest) ↦ (some r, rest) ]

  -- How many records an answer holds.
  abbrev pub counted : Option R → ℕ
  counted none = 0
  counted (some r) = 1

  abbrev Shorter : ℕ → Option (R × List R) → Type 0
  Shorter n none = Unit
  Shorter n (some (r, rest)) = n ≡ length rest + 1

  keep_front-Shorter :
      (n : ℕ) (x : R) (o : Option (R × List R)) → Shorter n o → Shorter (suc n) (keep_front x o)
  keep_front-Shorter n x none h = tt
  keep_front-Shorter n x (some (r, rest)) h = omega arith

  take_first-Shorter : (p : R → Bool) (q : List R) → Shorter (length q) (take_first p q)
  unfolding take_first
  take_first-Shorter p [] = tt
  take_first-Shorter p (x ∷ q) = elim (Bool-cases (p x)) [
    | inl e ↦ rw e (omega arith)
    | inr e ↦ rw e (keep_front-Shorter (length q) x (take_first p q) (take_first-Shorter p q))
  ]

  queue_same : (t : Table R) (key k : ℕ) → queue t k ≡ (if key == k then queue t key else queue t k)
  queue_same t key k = elim (Bool-cases (key == k)) [
    | inl e ↦ rw e (ap (queue t) (sym ((==_iff key k).0 e)))
    | inr e ↦ rw e refl
  ]

  put_back-Distinct :
      (b : Bucket R) (rest : List R) (c : List (Bucket R))
      → Distinct c
      → Distinct (put_back b rest c)
  unfolding put_back
  put_back-Distinct b [] c h = Distinct-unlink b.key c h
  put_back-Distinct b (r ∷ rs) c h = Distinct-link _ c h

  find-put_back :
      (b : Bucket R) (rest : List R) (c : List (Bucket R)) (k : ℕ)
      → Distinct c
      → recs_of (find k (put_back b rest c)) ≡ (if b.key == k then rest else recs_of (find k c))
  unfolding put_back
  find-put_back b [] c k h = rw (find-unlink b.key c k h) (ground arith)
  find-put_back b (r ∷ rs) c k h = rw (find-link (record b { recs = r ∷ rs }) c k) (ground arith)

  chain_total-put_back :
      (b : Bucket R) (rest : List R) (c : List (Bucket R))
      → chain_total (put_back b rest c) + length (recs_of (find b.key c))
        ≡ chain_total c + length rest
  unfolding put_back
  chain_total-put_back b [] c = omega (arith, chain_total-unlink b.key c)
  chain_total-put_back b (r ∷ rs) c = chain_total-link (record b { recs = r ∷ rs }) c

  queue-find :
      (t : Table R) (key : ℕ) {o : Option (Bucket R)}
      → find key (chain_at t key) ≡ o
      → queue t key ≡ recs_of o
  unfolding queue
  queue-find t key e = ap recs_of e

  unchanged :
      (t : Table R) (key k : ℕ) (q : List R)
      → q ≡ queue t key
      → queue t k ≡ (if key == k then q else queue t k)
  unchanged t key k q e = rw e (queue_same t key k)

module _ {R : Type 0} (l : Layout R) (t : Table R) (ok : IsTable t) where
  -- What a call of `table_take` promises, `q` being the queue of the command's key.
  abbrev pub Takes : CmdId → List R → Option R × Table R → Type 0
  Takes id q (found, t') =
      let p = λ (r : R). same_command (l.id_of r) id in
      IsTable t'
      × (found ≡ (take p q).0)
      × (t'.pending + counted found ≡ t.pending)
      × ((k : ℕ) → queue t' k ≡ (if key_of id == k then (take p q).1 else queue t k))

  take-absent :
      (id : CmdId)
      → find (key_of id) (chain_at t (key_of id)) ≡ none
      → Takes id [] (table_take l t id)
  unfolding table_take take take_first
  take-absent id e =
      rw (e, table_take)
        (
          ok,
          refl,
          omega arith,
          λ k. unchanged t (key_of id) k [] (sym (queue-find t (key_of id) e)),
        )

  take-missed :
      (id : CmdId) (b : Bucket R)
      → find (key_of id) (chain_at t (key_of id)) ≡ some b
      → take_first (λ (r : R). same_command (l.id_of r) id) b.recs ≡ none
      → Takes id b.recs (table_take l t id)
  unfolding table_take take
  take-missed id b e f =
      rw (e, f, table_take, take)
        (
          ok,
          refl,
          omega arith,
          λ k. unchanged t (key_of id) k b.recs (sym (queue-find t (key_of id) e)),
        )

  take-found :
      (id : CmdId) (b : Bucket R) (r : R) (rest : List R)
      → find (key_of id) (chain_at t (key_of id)) ≡ some b
      → take_first (λ (r : R). same_command (l.id_of r) id) b.recs ≡ some (r, rest)
      → Takes id b.recs (table_take l t id)
  unfolding table_take take
  take-found id b r rest e f =
      let key = key_of id in
      let c = chain_at t key in
      let hk = find-key key c b e in
      let dc = ok.distinct (slot t.nbuckets key) in
      let size : length b.recs ≡ length rest + 1 =
        rw f at (take_first-Shorter (λ (r : R). same_command (l.id_of r) id) b.recs) in
      let at_key : length (recs_of (find b.key c)) ≡ length b.recs =
        ap (λ z. length (recs_of (find z c))) hk ∙ ap (λ o. length (recs_of o)) e in
      rw (e, f, table_take, take)
        (
          with_chain-IsTable t ok key (put_back b rest c) (t.pending - 1)
              (put_back-Distinct b rest c dc)
              (omega (
                arith,
                chain_total-put_back b rest c,
                chain-le-pending t ok key,
                chain_total-unlink b.key c,
              )),
          refl,
          omega (
            arith,
            chain-le-pending t ok key,
            at_key,
            size,
            chain_total-unlink b.key c,
            ap (λ z. length (recs_of (find z c))) hk,
          ),
          λ k.
              queue-with_chain t ok key (put_back b rest c) (t.pending - 1) k rest
                (rw (find-put_back b rest c k dc, hk) refl),
        )

  -- table_take works on the queue of the command's key.
  pub table_take-queue : (id : CmdId) → Takes id (queue t (key_of id)) (table_take l t id)
  table_take-queue id = elim (Option-cases (find (key_of id) (chain_at t (key_of id)))) [
    | inl e ↦
        subst (λ q. Takes id q (table_take l t id)) (sym (queue-find t (key_of id) e))
          (take-absent id e)
    | inr (b, e) ↦
        subst (λ q. Takes id q (table_take l t id)) (sym (queue-find t (key_of id) e))
          (elim (Option-cases (take_first (λ (r : R). same_command (l.id_of r) id) b.recs)) [
            | inl f ↦ take-missed id b e f
            | inr ((r, rest), f) ↦ take-found id b r rest e f
          ])
  ]

module _ {R : Type 0} (age : R → ℕ) (before_ns : ℕ) where
  expire-at :
      (v : List (List (Bucket R))) (i : ℕ)
      → get_or (expire_chains age before_ns v).1 i []
        ≡ (expire_chain age before_ns (get_or v i [])).1
  unfolding expire_chains expire_chain
  expire-at [] i = refl
  expire-at (c ∷ v) zero = refl
  expire-at (c ∷ v) (suc i) = expire-at v i

  expire-width : (v : List (List (Bucket R))) → length (expire_chains age before_ns v).1 ≡ length v
  unfolding expire_chains
  expire-width [] = refl
  expire-width (c ∷ v) = ap suc (expire-width v)

  expire-total :
      (v : List (List (Bucket R)))
      → sum_by chain_total (expire_chains age before_ns v).1
          + length (expire_chains age before_ns v).0
        ≡ sum_by chain_total v
  unfolding expire_chains sum_by
  expire-total [] = omega arith
  expire-total (c ∷ v) = omega (
    arith,
    expire-total v,
    chain_total-expire age before_ns c,
    length-append (expire_chain age before_ns c).0 (expire_chains age before_ns v).0,
  )

module _ {R : Type 0} (l : Layout R) (t : Table R) (ok : IsTable t) where
  -- table_expire works on each queue.
  pub table_expire-queue :
      (before_ns : ℕ)
      → IsTable (table_expire l t before_ns).1
        × ((table_expire l t before_ns).1.pending + length (table_expire l t before_ns).0
            ≡ t.pending)
        × ((k : ℕ)
            → queue (table_expire l t before_ns).1 k ≡ (split_old l.age before_ns (queue t k)).1)
  unfolding table_expire queue total
  table_expire-queue before_ns =
      let size = expire-total l.age before_ns t.v in
      (
        record {
          width = expire-width l.age before_ns t.v ∙ ok.width;
          roomy = ok.roomy;
          counted = omega (arith, size, ok.counted);
          distinct = λ i.
              rw (expire-at l.age before_ns t.v i)
                (Distinct-expire l.age before_ns _ (ok.distinct i));
        },
        omega (arith, size, ok.counted),
        λ k.
            rw (expire-at l.age before_ns t.v (slot t.nbuckets k))
              (find-expire l.age before_ns _ k (ok.distinct _)),
      )
