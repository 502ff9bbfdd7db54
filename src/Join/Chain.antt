-- ===== src/Join/Chain.antt =====
-- Laws of a bucket chain: what the table of src/join.c finds in it after a write, and how many
-- records it holds.
use ntprof.Prelude.{
  ℕ, ◌+◌, ◌≡◌, refl, false, List, [], ◌∷◌, Option, none, some, ◌==◌, if◌then◌else◌, length, arith,
  Bool-cases, inl, inr, length-append,
}
use ntprof.Join.Table.{Bucket, find, link_bucket, unlink, split_old, keep_bucket, expire_chain}

module _ {R : Type 0} where
  abbrev pub recs_of : Option (Bucket R) → List R
  recs_of none = []
  recs_of (some b) = b.recs

  -- No key has two buckets.
  abbrev pub Distinct : List (Bucket R) → Type 0
  Distinct [] = Unit
  Distinct (b ∷ c) = (find b.key c ≡ none) × Distinct c

  -- The records of a chain.
  unfoldable pub chain_total : List (Bucket R) → ℕ
  chain_total [] = 0
  chain_total (b ∷ c) = length b.recs + chain_total c

  pub find-link :
      (b : Bucket R) (c : List (Bucket R)) (k : ℕ)
      → find k (link_bucket b c) ≡ (if b.key == k then some b else find k c)
  unfolding find link_bucket
  find-link b [] k = refl
  find-link b (b' ∷ c) k = ground (arith, find-link b c k)

  pub find-unlink :
      (key : ℕ) (c : List (Bucket R)) (k : ℕ)
      → Distinct c
      → find k (unlink key c) ≡ (if key == k then none else find k c)
  unfolding find unlink
  find-unlink key [] k h = ground arith
  find-unlink key (b ∷ c) k h = ground (arith, find-unlink key c k h.1, h.0)

  pub Distinct-link : (b : Bucket R) (c : List (Bucket R)) → Distinct c → Distinct (link_bucket b c)
  unfolding find link_bucket
  Distinct-link b [] h = (refl, tt)
  Distinct-link b (b' ∷ c) h = ground (arith, Distinct-link b c h.1, find-link b c b'.key)

  pub Distinct-unlink : (key : ℕ) (c : List (Bucket R)) → Distinct c → Distinct (unlink key c)
  unfolding find unlink
  Distinct-unlink key [] h = tt
  Distinct-unlink key (b ∷ c) h =
      ground (arith, Distinct-unlink key c h.1, find-unlink key c b.key h.1)

  pub chain_total-link :
      (b : Bucket R) (c : List (Bucket R))
      → chain_total (link_bucket b c) + length (recs_of (find b.key c))
        ≡ chain_total c + length b.recs
  unfolding find link_bucket chain_total
  chain_total-link b [] = omega arith
  chain_total-link b (b' ∷ c) = ground (arith, chain_total-link b c)

  pub chain_total-unlink :
      (key : ℕ) (c : List (Bucket R))
      → chain_total (unlink key c) + length (recs_of (find key c)) ≡ chain_total c
  unfolding find unlink chain_total
  chain_total-unlink key [] = omega arith
  chain_total-unlink key (b ∷ c) = ground (arith, chain_total-unlink key c)

  pub find-key : (k : ℕ) (c : List (Bucket R)) (b : Bucket R) → find k c ≡ some b → b.key ≡ k
  unfolding find
  find-key k [] b e = cc
  find-key k (b' ∷ c) b e = ground (arith, find-key k c b)

  chain_total-keep :
      (b : Bucket R) (keep : List R) (c : List (Bucket R))
      → chain_total (keep_bucket b keep c) ≡ length keep + chain_total c
  unfolding chain_total
  chain_total-keep b [] c = omega arith
  chain_total-keep b (r ∷ rs) c = refl

  find-keep :
      (b : Bucket R) (keep : List R) (c : List (Bucket R)) (k : ℕ)
      → find b.key c ≡ none
      → recs_of (find k (keep_bucket b keep c)) ≡ (if b.key == k then keep else recs_of (find k c))
  unfolding find
  find-keep b [] c k h = ground arith
  find-keep b (r ∷ rs) c k h = ground arith

  keep-none :
      (b : Bucket R) (keep : List R) (c : List (Bucket R)) (k : ℕ)
      → b.key == k ≡ false
      → find k c ≡ none
      → find k (keep_bucket b keep c) ≡ none
  unfolding find
  keep-none b [] c k e h = h
  keep-none b (r ∷ rs) c k e h = rw e h

  keep-Distinct :
      (b : Bucket R) (keep : List R) (c : List (Bucket R))
      → find b.key c ≡ none
      → Distinct c
      → Distinct (keep_bucket b keep c)
  keep-Distinct b [] c e h = h
  keep-Distinct b (r ∷ rs) c e h = (e, h)

  module _ (age : R → ℕ) (before_ns : ℕ) where
    pub split_old-length :
        (rs : List R)
        → length (split_old age before_ns rs).0 + length (split_old age before_ns rs).1 ≡ length rs
    unfolding split_old
    split_old-length [] = omega arith
    split_old-length (r ∷ rs) = ground (arith, split_old-length rs)

    pub chain_total-expire :
        (c : List (Bucket R))
        → chain_total (expire_chain age before_ns c).1 + length (expire_chain age before_ns c).0
          ≡ chain_total c
    unfolding expire_chain chain_total
    chain_total-expire [] = omega arith
    chain_total-expire (b ∷ c) = omega (
      arith,
      chain_total-keep b (split_old age before_ns b.recs).1 (expire_chain age before_ns c).1,
      length-append (split_old age before_ns b.recs).0 (expire_chain age before_ns c).0,
      split_old-length b.recs,
      chain_total-expire c,
    )

    expire-none :
        (c : List (Bucket R)) (k : ℕ)
        → find k c ≡ none
        → find k (expire_chain age before_ns c).1 ≡ none
    unfolding expire_chain find
    expire-none [] k h = refl
    expire-none (b ∷ c) k h = elim (Bool-cases (b.key == k)) [
      | inl e ↦ let h' : some b ≡ none = rw e at h in cc
      | inr e ↦
          keep-none b (split_old age before_ns b.recs).1 (expire_chain age before_ns c).1 k e
            (expire-none c k (rw e at h))
    ]

    pub Distinct-expire :
        (c : List (Bucket R)) → Distinct c → Distinct (expire_chain age before_ns c).1
    unfolding expire_chain
    Distinct-expire [] h = tt
    Distinct-expire (b ∷ c) h =
        keep-Distinct b (split_old age before_ns b.recs).1 (expire_chain age before_ns c).1
          (expire-none c b.key h.0) (Distinct-expire c h.1)

    pub find-expire :
        (c : List (Bucket R)) (k : ℕ)
        → Distinct c
        → recs_of (find k (expire_chain age before_ns c).1)
          ≡ (split_old age before_ns (recs_of (find k c))).1
    unfolding expire_chain find split_old
    find-expire [] k h = refl
    find-expire (b ∷ c) k h = elim (Bool-cases (b.key == k)) [
      | inl e ↦ rw (
        find-keep b (split_old age before_ns b.recs).1 (expire_chain age before_ns c).1 k
            (expire-none c b.key h.0),
        e,
      )
      | inr e ↦
          rw
            (
              find-keep b (split_old age before_ns b.recs).1 (expire_chain age before_ns c).1 k
                  (expire-none c b.key h.0),
              e,
            )
            (find-expire c k h.1)
    ]
