-- ===== src/Join/Oldest.antt =====
-- Which record `table_take` of src/join.c gives, without its loop.
use ntprof.Prelude.{
  ℕ, ◌+◌, ◌≡◌, ◌≢◌, refl, sym, ap, subst, ◌∙◌, true, false, List, [], ◌∷◌, ◌++◌, Option, none, some,
  ◌==◌, Bool-cases, Option-cases, ==_iff, inl, inr, arith,
}
use ntprof.Join.Queue.{IsTable, queue}
use ntprof.Join.Table.{Layout, Table, key_of, same_command, take_first, keep_front, table_take}
use ntprof.Join.Take.{take, counted, table_take-queue}
use ntprof.Record.{CmdId}

-- Two ids are of one command, as far as its opcode, namespace and blocks tell.
abbrev pub IsSame : CmdId → CmdId → Type 0
IsSame a b = (a.opcode ≡ b.opcode) × (a.nsid ≡ b.nsid) × (a.slba ≡ b.slba) × (a.nlb ≡ b.nlb)

pub same_command-IsSame : (a b : CmdId) → same_command a b ≡ true → IsSame a b
unfolding same_command
same_command-IsSame a b h = ground (arith, h)

differs : (a b : CmdId) → same_command a b ≡ false → ¬ IsSame a b
unfolding same_command
differs a b h (o, n, s, l) = ground (arith, h, o, n, s, l)

module _ {R : Type 0} (l : Layout R) (id : CmdId) where
  -- No record of the list is of the command.
  abbrev pub HasNone : List R → Type 0
  HasNone [] = Unit
  HasNone (r ∷ rs) = ¬ IsSame (l.id_of r) id × HasNone rs

  -- The oldest record of the command is given, and the queue `q` becomes `q'`; or `q` has none.
  abbrev pub Gives : List R → Option R → List R → Type 0
  Gives q none q' = HasNone q × (q' ≡ q)
  Gives q (some r) q' =
      (before : List R) × (after : List R) × (q ≡ before ++ r ∷ after)
      × IsSame (l.id_of r) id
      × HasNone before
      × (q' ≡ before ++ after)

  abbrev found : List R → Option (R × List R)
  found q = take_first (λ (r : R). same_command (l.id_of r) id) q

  abbrev First : List R → Option (R × List R) → Type 0
  First q none = HasNone q
  First q (some (r, rest)) = Gives q (some r) rest

  keep_front-First :
      (x : R) (q : List R) (o : Option (R × List R))
      → ¬ IsSame (l.id_of x) id
      → First q o
      → First (x ∷ q) (keep_front x o)
  keep_front-First x q none n h = (n, h)
  keep_front-First x q (some (r, rest)) n (before, after, e, s, none_before, e') =
      (x ∷ before, after, ap (λ q. x ∷ q) e, s, (n, none_before), ap (λ q. x ∷ q) e')

  found-First : (q : List R) → First q (found q)
  unfolding take_first
  found-First [] = tt
  found-First (x ∷ q) = elim (Bool-cases (same_command (l.id_of x) id)) [
    | inl e ↦ rw e ([], q, refl, same_command-IsSame _ _ e, tt, refl)
    | inr e ↦ rw e (keep_front-First x q (found q) (differs _ _ e) (found-First q))
  ]

  take-Gives :
      (q : List R)
      → let (r, rest) = take (λ (r : R). same_command (l.id_of r) id) q in Gives q r rest
  unfolding take
  take-Gives q = elim (Option-cases (found q)) [
    | inl e ↦ rw (e, take) (subst (First q) e (found-First q), refl)
    | inr ((r, rest), e) ↦ rw (e, take) (subst (First q) e (found-First q))
  ]

module _ {R : Type 0} (l : Layout R) (t : Table R) (ok : IsTable t) where
  -- On a table in order, table_take either gives a record of the queue of the key that has the
  -- opcode, nsid, slba and nlb of the command, where no record before it in the queue has them, and
  -- exactly this record leaves the queue; or no record of that queue has them, none is given and
  -- the queue stays. The other queues stay, pending falls by the number of records given, and the
  -- table stays in order.
  pub table_take-take :
      (id : CmdId)
      → let (found, t') = table_take l t id in
        IsTable t'
        × (t'.pending + counted found ≡ t.pending)
        × Gives l id (queue t (key_of id)) found (queue t' (key_of id))
        × ((k : ℕ) → key_of id ≢ k → queue t' k ≡ queue t k)
  table_take-take id =
      let key = key_of id in
      let q = queue t key in
      let (ok', given, n, queues) = table_take-queue l t ok id in
      let at_key : queue (table_take l t id).1 key
          ≡ (take (λ (r : R). same_command (l.id_of r) id) q).1 =
        queues key ∙ rw ((==_iff key key).1 refl) refl in
      (
        ok',
        n,
        subst (λ (o : Option R). Gives l id q o (queue (table_take l t id).1 key)) (sym given)
            (subst (Gives l id q (take (λ (r : R). same_command (l.id_of r) id) q).0) (sym at_key)
              (take-Gives l id q)),
        λ k ne. let apart : (key == k) ≡ false = ground (arith, ne) in queues k ∙ rw apart refl,
      )
