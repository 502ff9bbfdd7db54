-- ===== src/Join/Expired.antt =====
-- Which records `table_expire` of src/join.c gives out, and which it keeps.
use ntprof.Prelude.{
  ℕ, ◌+◌, ◌<◌, ◌≡◌, refl, ◌∙◌, List, [], ◌∷◌, ◌++◌, Bool-cases, inl, inr, arith, ltb, leb, length,
  if◌then◌else◌, sum_by,
}
use ntprof.Join.Queue.{IsTable, queue}
use ntprof.Join.Table.{
  Layout, Bucket, Table, split_old, keep_bucket, expire_chain, expire_chains, table_expire,
}
use ntprof.Join.Take.{table_expire-queue}

module _ {R : Type 0} where
  sum_by-append : (f : R → ℕ) (xs ys : List R) → sum_by f (xs ++ ys) ≡ sum_by f xs + sum_by f ys
  unfolding sum_by
  sum_by-append f [] ys = omega arith
  sum_by-append f (x ∷ xs) ys = omega (arith, sum_by-append f xs ys)

  -- The sum of a measure over the records of a chain.
  abbrev pub chain_sum : (R → ℕ) → List (Bucket R) → ℕ
  chain_sum f c = sum_by (λ b. sum_by f b.recs) c

  -- And over those of a table.
  abbrev pub table_sum : (R → ℕ) → Table R → ℕ
  table_sum f t = sum_by (chain_sum f) t.v

module _ {R : Type 0} (age : R → ℕ) (before_ns : ℕ) where
  -- The records from a time on, in their order.
  unfoldable pub since : List R → List R
  since [] = []
  since (r ∷ rs) = let rest = since rs in if leb before_ns (age r) then r ∷ rest else rest

  -- Every record is older.
  abbrev pub AllBefore : List R → Type 0
  AllBefore [] = Unit
  AllBefore (r ∷ rs) = (age r < before_ns) × AllBefore rs

  AllBefore-append : (xs ys : List R) → AllBefore xs → AllBefore ys → AllBefore (xs ++ ys)
  AllBefore-append [] ys h k = k
  AllBefore-append (x ∷ xs) ys (h, hs) k = (h, AllBefore-append xs ys hs k)

  split_old-since : (rs : List R) → (split_old age before_ns rs).1 ≡ since rs
  unfolding split_old since
  split_old-since [] = refl
  split_old-since (r ∷ rs) = ground (arith, split_old-since rs)

  split_old-AllBefore : (rs : List R) → AllBefore (split_old age before_ns rs).0
  unfolding split_old
  split_old-AllBefore [] = tt
  split_old-AllBefore (r ∷ rs) = elim (Bool-cases (ltb (age r) before_ns)) [
    | inl e ↦ rw e (ground arith, split_old-AllBefore rs)
    | inr e ↦ rw e (split_old-AllBefore rs)
  ]

  expire_chain-AllBefore : (c : List (Bucket R)) → AllBefore (expire_chain age before_ns c).0
  unfolding expire_chain
  expire_chain-AllBefore [] = tt
  expire_chain-AllBefore (b ∷ c) =
      AllBefore-append _ _ (split_old-AllBefore b.recs) (expire_chain-AllBefore c)

  expire_chains-AllBefore :
      (v : List (List (Bucket R))) → AllBefore (expire_chains age before_ns v).0
  unfolding expire_chains
  expire_chains-AllBefore [] = tt
  expire_chains-AllBefore (c ∷ v) =
      AllBefore-append _ _ (expire_chain-AllBefore c) (expire_chains-AllBefore v)

  module _ (f : R → ℕ) where
    split_old-sum :
        (rs : List R)
        → sum_by f (split_old age before_ns rs).0 + sum_by f (split_old age before_ns rs).1
          ≡ sum_by f rs
    unfolding split_old sum_by
    split_old-sum [] = omega arith
    split_old-sum (r ∷ rs) = ground (arith, split_old-sum rs)

    keep_bucket-sum :
        (b : Bucket R) (keep : List R) (c : List (Bucket R))
        → chain_sum f (keep_bucket b keep c) ≡ sum_by f keep + chain_sum f c
    unfolding sum_by
    keep_bucket-sum b [] c = omega arith
    keep_bucket-sum b (r ∷ rs) c = refl

    expire_chain-sum :
        (c : List (Bucket R))
        → sum_by f (expire_chain age before_ns c).0 + chain_sum f (expire_chain age before_ns c).1
          ≡ chain_sum f c
    unfolding expire_chain sum_by
    expire_chain-sum [] = omega arith
    expire_chain-sum (b ∷ c) = omega (
      arith,
      sum_by-append f (split_old age before_ns b.recs).0 (expire_chain age before_ns c).0,
      keep_bucket-sum b (split_old age before_ns b.recs).1 (expire_chain age before_ns c).1,
      split_old-sum b.recs,
      expire_chain-sum c,
    )

    expire_chains-sum :
        (v : List (List (Bucket R)))
        → sum_by f (expire_chains age before_ns v).0
            + sum_by (chain_sum f) (expire_chains age before_ns v).1
          ≡ sum_by (chain_sum f) v
    unfolding expire_chains sum_by
    expire_chains-sum [] = omega arith
    expire_chains-sum (c ∷ v) = omega (
      arith,
      sum_by-append f (expire_chain age before_ns c).0 (expire_chains age before_ns v).0,
      expire_chain-sum c,
      expire_chains-sum v,
    )

module _ {R : Type 0} (l : Layout R) (t : Table R) (ok : IsTable t) where
  -- On a table in order, table_expire leaves in each queue the records whose time is at least
  -- before_ns, in their order, and gives out records whose time is before it: those given out and
  -- those left are together the old records, each as often as before, as every sum over the records
  -- shows. Pending falls by the number given out, and the table stays in order.
  pub table_expire-split :
      (before_ns : ℕ)
      → let (old, t') = table_expire l t before_ns in
        IsTable t'
        × (t'.pending + length old ≡ t.pending)
        × AllBefore l.age before_ns old
        × ((k : ℕ) → queue t' k ≡ since l.age before_ns (queue t k))
        × ((f : R → ℕ) → sum_by f old + table_sum f t' ≡ table_sum f t)
  unfolding table_expire
  table_expire-split before_ns =
      let (ok', n, queues) = table_expire-queue l t ok before_ns in
      (
        ok',
        n,
        expire_chains-AllBefore l.age before_ns t.v,
        λ k. queues k ∙ split_old-since l.age before_ns (queue t k),
        λ f. expire_chains-sum l.age before_ns f t.v,
      )
