-- ===== src/Join/Match.antt =====
-- Each record of a table of src/join.c waits in the queue of its key, and a record that is taken
-- is of the command that it is taken for.
use ntprof.Prelude.{
  ℕ, ◌≡◌, refl, sym, subst, Bool, true, List, [], ◌∷◌, ◌++◌, Option, none, some, if◌then◌else◌,
  Bool-cases, Option-cases, inl, inr, nonzero, length, ◌==◌, ==_iff, ltb, ◌&&◌,
}
use ntprof.Join.Queue.{IsTable, queue, push, queue-empty_table, table_push-push}
use ntprof.Join.Table.{
  Layout, Table, empty_table, key_of, same_command, table_push, table_take, table_expire,
  take_first, keep_front, split_old, drop_oldest,
}
use ntprof.Join.Take.{take, table_take-queue, table_expire-queue}
use ntprof.Record.{CmdId}

module _ {R : Type 0} (l : Layout R) where
  -- Every record of the list has the key `k`.
  abbrev pub Keyed : ℕ → List R → Type 0
  Keyed k [] = Unit
  Keyed k (r ∷ rs) = (key_of (l.id_of r) ≡ k) × Keyed k rs

  -- Each record waits in the queue of its key.
  abbrev pub IsFiled : Table R → Type 0
  IsFiled t = (k : ℕ) → Keyed k (queue t k)

  append-Keyed :
      (k : ℕ) (q : List R) (r : R) → key_of (l.id_of r) ≡ k → Keyed k q → Keyed k (q ++ r ∷ [])
  append-Keyed k [] r e h = (e, tt)
  append-Keyed k (x ∷ q) r e (h, hs) = (h, append-Keyed k q r e hs)

  drop-Keyed : (k : ℕ) (q : List R) → Keyed k q → Keyed k (drop_oldest q)
  drop-Keyed k [] h = tt
  drop-Keyed k (x ∷ q) (h, hs) = hs

  push-Keyed :
      (k bound : ℕ) (q : List R) (r : R)
      → key_of (l.id_of r) ≡ k
      → Keyed k q
      → Keyed k (push bound q r).1
  unfolding push
  push-Keyed k bound q r e h = elim (Bool-cases (nonzero bound && length q == bound)) [
    | inl c ↦ rw (c, push) (append-Keyed k (drop_oldest q) r e (drop-Keyed k q h))
    | inr c ↦ rw (c, push) (append-Keyed k q r e h)
  ]

  -- What a search of a list for a record gives: one that fits and has the key, and the others.
  abbrev Found : (R → Bool) → ℕ → Option (R × List R) → Type 0
  Found p k none = Unit
  Found p k (some (r, rest)) = (p r ≡ true) × (key_of (l.id_of r) ≡ k) × Keyed k rest

  keep_front-Found :
      (p : R → Bool) (k : ℕ) (x : R) (o : Option (R × List R))
      → key_of (l.id_of x) ≡ k
      → Found p k o
      → Found p k (keep_front x o)
  keep_front-Found p k x none e h = tt
  keep_front-Found p k x (some (r, rest)) e (h, i, j) = (h, i, (e, j))

  take_first-Found : (p : R → Bool) (k : ℕ) (q : List R) → Keyed k q → Found p k (take_first p q)
  unfolding take_first
  take_first-Found p k [] h = tt
  take_first-Found p k (x ∷ q) (h, hs) = elim (Bool-cases (p x)) [
    | inl e ↦ rw e (e, h, hs)
    | inr e ↦ rw e (keep_front-Found p k x (take_first p q) h (take_first-Found p k q hs))
  ]

  -- An answer is a record that fits and has the key.
  abbrev pub Fits : (R → Bool) → ℕ → Option R → Type 0
  Fits p k none = Unit
  Fits p k (some r) = (p r ≡ true) × (key_of (l.id_of r) ≡ k)

  take-Fits :
      (p : R → Bool) (k : ℕ) (q : List R) → Keyed k q → Fits p k (take p q).0 × Keyed k (take p q).1
  unfolding take
  take-Fits p k q h = elim (Option-cases (take_first p q)) [
    | inl e ↦ rw (e, take) (tt, h)
    | inr ((r, rest), e) ↦
        let (a, b, c) = subst (Found p k) e (take_first-Found p k q h) in rw (e, take) ((a, b), c)
  ]

  split_old-Keyed :
      (age : R → ℕ) (before_ns k : ℕ) (q : List R)
      → Keyed k q
      → Keyed k (split_old age before_ns q).1
  unfolding split_old
  split_old-Keyed age b k [] h = tt
  split_old-Keyed age b k (x ∷ q) (h, hs) = elim (Bool-cases (ltb (age x) b)) [
    | inl e ↦ rw e (split_old-Keyed age b k q hs)
    | inr e ↦ rw e (h, split_old-Keyed age b k q hs)
  ]

  -- A queue that changes at one key only.
  at_key :
      (key k : ℕ) (q q' : List R)
      → (key ≡ k → Keyed k q)
      → Keyed k q'
      → Keyed k (if key == k then q else q')
  at_key key k q q' a b = elim (Bool-cases (key == k)) [
    | inl e ↦ rw e (a ((==_iff key k).0 e))
    | inr e ↦ rw e b
  ]

  pub empty_table-IsFiled : (n : ℕ) → IsFiled (empty_table R n)
  empty_table-IsFiled n k = rw (queue-empty_table {R = R} n k) tt

  module _ (t : Table R) (ok : IsTable t) (filed : IsFiled t) where
    pub table_push-IsFiled : (r : R) (bound : ℕ) → IsFiled (table_push l t r bound).1
    table_push-IsFiled r bound k =
        let (_, _, e) = table_push-push l t ok r bound in
        let key = key_of (l.id_of r) in
        subst (Keyed k) (sym (e k)) (
          at_key key k _ _
            (λ c.
              subst (λ z. Keyed z (push bound (queue t key) r).1) c
                (push-Keyed key bound (queue t key) r refl (filed key)))
            (filed k))

    pub table_take-IsFiled : (id : CmdId) → IsFiled (table_take l t id).1
    table_take-IsFiled id k =
        let (_, _, _, e) = table_take-queue l t ok id in
        let key = key_of id in
        let p = λ (r : R). same_command (l.id_of r) id in
        subst (Keyed k) (sym (e k)) (
          at_key key k _ _
            (λ c.
              subst (λ z. Keyed z (take p (queue t key)).1) c
                (take-Fits p key (queue t key) (filed key)).1)
            (filed k))

    pub table_take-Fits :
        (id : CmdId)
        → Fits (λ (r : R). same_command (l.id_of r) id) (key_of id) (table_take l t id).0
    table_take-Fits id =
        let (_, e, _, _) = table_take-queue l t ok id in
        let p = λ (r : R). same_command (l.id_of r) id in
        subst (Fits p (key_of id)) (sym e)
          (take-Fits p (key_of id) (queue t (key_of id)) (filed (key_of id))).0

    pub table_expire-IsFiled : (before_ns : ℕ) → IsFiled (table_expire l t before_ns).1
    table_expire-IsFiled b k =
        let (_, _, e) = table_expire-queue l t ok b in
        subst (Keyed k) (sym (e k)) (split_old-Keyed l.age b k (queue t k) (filed k))
