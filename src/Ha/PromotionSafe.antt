-- ===== src/Ha/PromotionSafe.antt =====
-- The settings of a new primary are safe with the `/sync` key of the old one.
use system_design_hse_miem.Prelude.{
  ◌+◌, ◌≤◌, String, Bool, true, false, not, ◌&&◌, ◌||◌, [], ◌∷◌, Option, ◌≡◌, ap, then_branch,
  else_branch, ◌∙◌, arith, Bool-cases, inl, inr,
}
use system_design_hse_miem.Prelude.Int.{ℤ, pos, ◌+ℤ◌, ◌-ℤ◌, ltb_ℤ, int_laws}
use system_design_hse_miem.Collections.{
  Casing, CaseInsensitiveSet, contains, has, same, of_list, discard, len, ◌∪◌,
}
use system_design_hse_miem.Collections.Sets.{
  size, contains_congr, contains-∪, contains-singleton, contains-of_list, contains-discard_ne,
  size-le_of_add, size_mono, ∪-HasNodup,
}
use system_design_hse_miem.Quorum.State.{only}
use system_design_hse_miem.Quorum.Published.{View, IsSafe}
use system_design_hse_miem.Dcs.{or_blank}
use system_design_hse_miem.Dcs.SyncKey.{SyncState, sync_members, voters, is_empty_sync}
use system_design_hse_miem.Values.{Value}
use system_design_hse_miem.Ha.Node.{
  Ha, Outside, synchronous_mode, quorum_commit_mode, quorum_commit_mode_is_active,
}
use system_design_hse_miem.Ha.Writes.{names}
use system_design_hse_miem.Ha.WritesSafe.{write}
use system_design_hse_miem.Ha.Promotion.{
  writes, names_set, chosen, from_quorum, from_config, process_sync_replication_prepromote,
}

-- The `/sync` key, with any setting of `synchronous_standby_names`.
abbrev pub key_view :
    ⦃c : Casing⦄ → {Version : Type 0} → SyncState Version → ℤ → CaseInsensitiveSet → View
key_view sync_key n nodes = record {
  leader = or_blank sync_key.leader;
  quorum = sync_key.quorum;
  voters = of_list (voters sync_key);
  numsync = n;
  sync = nodes;
}

abbrev electorate : ⦃c : Casing⦄ → {Version : Type 0} → SyncState Version → CaseInsensitiveSet
electorate sync_key = of_list (sync_members sync_key)

module _ ⦃c : Casing⦄ {Version : Type 0} where
  has-sync_members :
      (sync_key : SyncState Version) (x : String)
      → is_empty_sync sync_key ≡ false
      → has (sync_members sync_key) x
        ≡ (has (voters sync_key) x || same (or_blank sync_key.leader) x)
  unfolding sync_members has
  has-sync_members sync_key x h = ground arith

  in_electorate :
      (sync_key : SyncState Version) (x : String)
      → is_empty_sync sync_key ≡ false
      → contains (of_list (voters sync_key) ∪ only (or_blank sync_key.leader)) x
        ≡ contains (electorate sync_key) x
  in_electorate sync_key x h = ground (
    arith,
    contains-∪ (of_list (voters sync_key)) (only (or_blank sync_key.leader)) x,
    contains-of_list (voters sync_key) x,
    contains-singleton (or_blank sync_key.leader) x,
    contains-of_list (sync_members sync_key) x,
    has-sync_members sync_key x h,
  )

  abbrev old_nodes : SyncState Version → CaseInsensitiveSet
  old_nodes sync_key = of_list (voters sync_key) ∪ only (or_blank sync_key.leader)

  inside-covers :
      (name : String) (sync_key : SyncState Version) (x : String)
      → is_empty_sync sync_key ≡ false
      → contains (electorate sync_key) name ≡ true
      → contains (discard (electorate sync_key) name ∪ only name) x
        ≡ contains (electorate sync_key) x
  inside-covers name sync_key x set own = elim (Bool-cases (same name x)) [
    | inl e ↦ ground (
      arith,
      contains-∪ (discard (electorate sync_key) name) (only name) x,
      contains-singleton name x,
      contains_congr (electorate sync_key) name x e,
      own,
      e,
    )
    | inr e ↦ ground (
      arith,
      contains-∪ (discard (electorate sync_key) name) (only name) x,
      contains-singleton name x,
      contains-discard_ne (electorate sync_key) name x e,
      e,
    )
  ]

  -- A member that takes itself off the voters.
  inside-IsSafe :
      (name : String) (sync_key : SyncState Version) (n : ℤ) (nodes : CaseInsensitiveSet)
      → is_empty_sync sync_key ≡ false
      → contains (electorate sync_key) name ≡ true
      → IsSafe name (
          write
            (names
              (discard (electorate sync_key) name)
              (len (electorate sync_key) -ℤ sync_key.quorum -ℤ pos 1))
            (key_view sync_key n nodes))
  inside-IsSafe name sync_key n nodes set own =
      let new = discard (electorate sync_key) name ∪ only name in
      let small : size (old_nodes sync_key ∪ new) ≤ size (electorate sync_key) =
        size_mono (old_nodes sync_key ∪ new) (electorate sync_key)
          (∪-HasNodup (old_nodes sync_key) new)
          λ x m. ground (
            arith,
            m,
            contains-∪ (old_nodes sync_key) new x,
            in_electorate sync_key x set,
            inside-covers name sync_key x set own,
          ) in
      record {
        overlap = λ _. unfold len in omega (int_laws, small);
        nested =
            inl λ x m. cc (m, in_electorate sync_key x set, inside-covers name sync_key x set own);
      }

  -- A node that is no voter adds itself.
  outside-IsSafe :
      (name : String) (sync_key : SyncState Version) (n : ℤ) (nodes : CaseInsensitiveSet)
      → is_empty_sync sync_key ≡ false
      → IsSafe name (
          write
            (names
              (electorate sync_key)
              (len (electorate sync_key) -ℤ sync_key.quorum -ℤ pos 1 +ℤ pos 1))
            (key_view sync_key n nodes))
  outside-IsSafe name sync_key n nodes set =
      let new = electorate sync_key ∪ only name in
      let small : size (old_nodes sync_key ∪ new) ≤ size (electorate sync_key) + 1 =
        size-le_of_add (old_nodes sync_key ∪ new) (electorate sync_key) name
          (∪-HasNodup (old_nodes sync_key) new)
          λ x m. ground (
            arith,
            m,
            contains-∪ (old_nodes sync_key) new x,
            in_electorate sync_key x set,
            contains-∪ (electorate sync_key) (only name) x,
            contains-singleton name x,
          ) in
      record {
        overlap = λ _. unfold len in omega (int_laws, small);
        nested = inl λ x m. ground (
          arith,
          m,
          in_electorate sync_key x set,
          contains-∪ (electorate sync_key) (only name) x,
        );
      }

module _ ⦃c : Casing⦄ {Version Time : Type 0} (outside : Outside Time) where
  from_quorum-IsSafe :
      (ha : Ha Version Time) (n : ℤ) (nodes : CaseInsensitiveSet)
      → is_empty_sync ha.cluster.sync ≡ false
      → IsSafe ha.name (
          write
            (names (from_quorum outside ha).sync (from_quorum outside ha).numsync)
            (key_view ha.cluster.sync n nodes))
  from_quorum-IsSafe ha n nodes set =
      elim (Bool-cases (contains (electorate ha.cluster.sync) ha.name)) [
        | inl e ↦ rw e (inside-IsSafe ha.name ha.cluster.sync n nodes set e)
        | inr e ↦ rw e (outside-IsSafe ha.name ha.cluster.sync n nodes set)
      ]

  active_parts :
      (ha : Ha Version Time)
      → quorum_commit_mode_is_active outside ha ≡ true
      → (quorum_commit_mode outside ha ≡ true) × (is_empty_sync ha.cluster.sync ≡ false)
  unfolding quorum_commit_mode_is_active
  active_parts ha active = ground (arith, active)

  unmultiple :
      (ha : Ha Version Time) (b : Bool)
      → quorum_commit_mode outside ha ≡ true
      → (not (quorum_commit_mode outside ha) || (not ha.supports_multiple_sync && b)) ≡ false
  unmultiple ha b h = ground (arith, h)

  -- In quorum commit mode with a `/sync` key, the only thing that a node does before it is promoted is to
  -- set `synchronous_standby_names`, to a value that is safe together with the key that the old
  -- primary has left: one, with its leader, holds the nodes of the other, and if the key has voters,
  -- a commit and a leader race need too many nodes to be disjoint. Then it goes on.
  pub prepromote-IsSafe :
      (deleted : Bool) (store : Value → Option Version → Option Version) (ha : Ha Version Time)
      (n : ℤ) (nodes : CaseInsensitiveSet)
      → synchronous_mode outside ha ≡ true
      → quorum_commit_mode_is_active outside ha ≡ true
      → (chosen_nodes : CaseInsensitiveSet) × (num : ℤ) × (process_sync_replication_prepromote
            outside deleted store ha
          ≡ record { value = true; steps = writes (names chosen_nodes num) ∷ [] })
        × IsSafe ha.name (write (names chosen_nodes num) (key_view ha.cluster.sync n nodes))
  unfolding process_sync_replication_prepromote
  prepromote-IsSafe deleted store ha n nodes on active =
      let (quorum_mode, set) = active_parts ha active in
      let sets : process_sync_replication_prepromote outside deleted store ha
          ≡ names_set (from_quorum outside ha) [] =
        else_branch (not (synchronous_mode outside ha)) _ _ (ground (arith, on))
        ∙ else_branch _ _ _ (unmultiple ha (ltb_ℤ (pos 1) (chosen outside ha).numsync) quorum_mode)
        ∙ ap (λ ch. names_set ch [])
            (then_branch (quorum_commit_mode_is_active outside ha) (from_quorum outside ha)
              (from_config outside ha) active) in
      (
        (from_quorum outside ha).sync,
        (from_quorum outside ha).numsync,
        sets,
        from_quorum-IsSafe ha n nodes set,
      )
