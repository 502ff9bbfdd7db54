-- ===== src/Join/Same.antt =====
-- What the joiner of src/join.c joins: the two records of a match are of one command.
use ntprof.Prelude.{ℕ, ◌≡◌, Option, none, some, Option-cases, inl, inr}
use ntprof.Join.Counts.{
  Reached, created, added, matched_host, target_came, host_came, released, expired, IsBalanced,
  Reached-IsBalanced,
}
use ntprof.Join.Joiner.{
  Joiner, tgt_layout, host_layout, joiner_new, add_target, match_host, target_arrives, host_arrives,
  release_hosts, expire,
}
use ntprof.Join.Match.{
  IsFiled, Fits, empty_table-IsFiled, table_push-IsFiled, table_take-IsFiled, table_take-Fits,
  table_expire-IsFiled,
}
use ntprof.Join.Oldest.{IsSame, same_command-IsSame}
use ntprof.Join.Table.{Layout, table_init, key_of, same_command, table_take}
use ntprof.Record.{CmdId, HostRec, TgtRec}

-- Each waiting record is in the queue of its key.
record AreFiled (j : Joiner) : Type 0 where
  targets_filed : IsFiled tgt_layout j.targets
  hosts_filed : IsFiled host_layout j.hosts

joiner_new-AreFiled : (m : ℕ) → AreFiled (joiner_new m)
unfolding joiner_new table_init
joiner_new-AreFiled m = record {
  targets_filed = empty_table-IsFiled tgt_layout _;
  hosts_filed = empty_table-IsFiled host_layout _;
}

module _ (j : Joiner) (ok : IsBalanced j) (filed : AreFiled j) where
  add_target-AreFiled : (t : TgtRec) → AreFiled (add_target j t)
  unfolding add_target
  add_target-AreFiled t = record {
    targets_filed =
        table_push-IsFiled tgt_layout j.targets ok.targets_ok filed.targets_filed t j.max_per_key;
    hosts_filed = filed.hosts_filed;
  }

  match_host-AreFiled : (h : HostRec) → AreFiled (match_host j h).1
  unfolding match_host
  match_host-AreFiled h =
      let left = table_take-IsFiled tgt_layout j.targets ok.targets_ok filed.targets_filed h.id in
      elim (Option-cases (table_take tgt_layout j.targets h.id).0) [
        | inl e ↦
            rw (e, match_host) (record { targets_filed = left; hosts_filed = filed.hosts_filed })
        | inr (t, e) ↦
            rw (e, match_host) (record { targets_filed = left; hosts_filed = filed.hosts_filed })
      ]

  host_arrives-AreFiled : (h : HostRec) → AreFiled (host_arrives j h).1
  unfolding host_arrives
  host_arrives-AreFiled h =
      let left = table_take-IsFiled tgt_layout j.targets ok.targets_ok filed.targets_filed h.id in
      elim (Option-cases (table_take tgt_layout j.targets h.id).0) [
        | inl e ↦
            rw (e, host_arrives)
              (record {
                targets_filed = left;
                hosts_filed =
                    table_push-IsFiled host_layout j.hosts ok.hosts_ok filed.hosts_filed h
                      j.max_per_key;
              })
        | inr (t, e) ↦
            rw (e, host_arrives) (record { targets_filed = left; hosts_filed = filed.hosts_filed })
      ]

  target_arrives-AreFiled : (t : TgtRec) → AreFiled (target_arrives j t).1
  unfolding target_arrives add_target
  target_arrives-AreFiled t =
      let left = table_take-IsFiled host_layout j.hosts ok.hosts_ok filed.hosts_filed t.id in
      elim (Option-cases (table_take host_layout j.hosts t.id).0) [
        | inl e ↦
            rw (e, target_arrives, add_target)
              (record {
                targets_filed =
                    table_push-IsFiled tgt_layout j.targets ok.targets_ok filed.targets_filed t
                      j.max_per_key;
                hosts_filed = left;
              })
        | inr (h, e) ↦
            rw (e, target_arrives)
              (record { targets_filed = filed.targets_filed; hosts_filed = left })
      ]

  release_hosts-AreFiled : (b : ℕ) → AreFiled (release_hosts j b).1
  unfolding release_hosts
  release_hosts-AreFiled b = record {
    targets_filed = filed.targets_filed;
    hosts_filed = table_expire-IsFiled host_layout j.hosts ok.hosts_ok filed.hosts_filed b;
  }

  expire-AreFiled : (b : ℕ) → AreFiled (expire j b).1
  unfolding expire
  expire-AreFiled b = record {
    targets_filed = table_expire-IsFiled tgt_layout j.targets ok.targets_ok filed.targets_filed b;
    hosts_filed = filed.hosts_filed;
  }

  match_host-Fits :
      (h : HostRec)
      → Fits tgt_layout (λ (t : TgtRec). same_command t.id h.id) (key_of h.id) (match_host j h).0
  unfolding match_host
  match_host-Fits h =
      let fits = table_take-Fits tgt_layout j.targets ok.targets_ok filed.targets_filed h.id in
      elim (Option-cases (table_take tgt_layout j.targets h.id).0) [
        | inl e ↦ rw (e, match_host) tt
        | inr (t, e) ↦ rw (e, match_host) (rw e at fits)
      ]

  host_arrives-Fits :
      (h : HostRec)
      → Fits tgt_layout (λ (t : TgtRec). same_command t.id h.id) (key_of h.id) (host_arrives j h).0
  unfolding host_arrives
  host_arrives-Fits h =
      let fits = table_take-Fits tgt_layout j.targets ok.targets_ok filed.targets_filed h.id in
      elim (Option-cases (table_take tgt_layout j.targets h.id).0) [
        | inl e ↦ rw (e, host_arrives) tt
        | inr (t, e) ↦ rw (e, host_arrives) (rw e at fits)
      ]

  target_arrives-Fits :
      (t : TgtRec)
      → Fits host_layout
          (λ (h : HostRec). same_command h.id t.id)
          (key_of t.id)
          (target_arrives j t).0
  unfolding target_arrives
  target_arrives-Fits t =
      let fits = table_take-Fits host_layout j.hosts ok.hosts_ok filed.hosts_filed t.id in
      elim (Option-cases (table_take host_layout j.hosts t.id).0) [
        | inl e ↦ rw (e, target_arrives) tt
        | inr (h, e) ↦ rw (e, target_arrives) (rw e at fits)
      ]

Reached-AreFiled : (m : ℕ) (j : Joiner) → Reached m j → AreFiled j
Reached-AreFiled m _ created = joiner_new-AreFiled m
Reached-AreFiled m _ (added t r) =
    add_target-AreFiled _ (Reached-IsBalanced m _ r) (Reached-AreFiled m _ r) t
Reached-AreFiled m _ (matched_host h r) =
    match_host-AreFiled _ (Reached-IsBalanced m _ r) (Reached-AreFiled m _ r) h
Reached-AreFiled m _ (target_came t r) =
    target_arrives-AreFiled _ (Reached-IsBalanced m _ r) (Reached-AreFiled m _ r) t
Reached-AreFiled m _ (host_came h r) =
    host_arrives-AreFiled _ (Reached-IsBalanced m _ r) (Reached-AreFiled m _ r) h
Reached-AreFiled m _ (released b r) =
    release_hosts-AreFiled _ (Reached-IsBalanced m _ r) (Reached-AreFiled m _ r) b
Reached-AreFiled m _ (expired b r) =
    expire-AreFiled _ (Reached-IsBalanced m _ r) (Reached-AreFiled m _ r) b

-- An answer for a command: a record of that command and of its key.
abbrev pub Matches : {R : Type 0} → Layout R → CmdId → Option R → Type 0
Matches l id none = Unit
Matches l id (some r) = IsSame (l.id_of r) id × (key_of (l.id_of r) ≡ key_of id)

Fits-Matches :
    {R : Type 0} (l : Layout R) (id : CmdId) (o : Option R)
    → Fits l (λ (r : R). same_command (l.id_of r) id) (key_of id) o
    → Matches l id o
Fits-Matches l id none h = tt
Fits-Matches l id (some r) (same, key) = (same_command-IsSame _ _ same, key)

-- In every joiner that the operations lead to from a new one, the target record that
-- ntp_joiner_match or ntp_joiner_host_arrives gives for a host record, and the host record that
-- ntp_joiner_target_arrives gives for a target record, agree with it in opcode, nsid, slba, nlb and
-- in the key of cntlid, qid and cid.
pub Reached-Fits :
    (m : ℕ) (j : Joiner) (h : HostRec) (t : TgtRec)
    → Reached m j
    → Matches tgt_layout h.id (match_host j h).0
      × Matches tgt_layout h.id (host_arrives j h).0
      × Matches host_layout t.id (target_arrives j t).0
Reached-Fits m j h t r =
    let ok = Reached-IsBalanced m j r in
    let filed = Reached-AreFiled m j r in
    (
      Fits-Matches tgt_layout h.id _ (match_host-Fits j ok filed h),
      Fits-Matches tgt_layout h.id _ (host_arrives-Fits j ok filed h),
      Fits-Matches host_layout t.id _ (target_arrives-Fits j ok filed t),
    )
