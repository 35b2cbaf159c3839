-- ===== src/Ha/MultisyncNested.antt =====
-- The `/sync` key never names a node that `synchronous_standby_names` does not name.
use mathlib.Core.Path.{subst}
use system_design_hse_miem.Prelude.{
  String, ◌||◌, Bool, true, not, ◌&&◌, List, [], Option, none, some, if◌then◌else◌, ◌≡◌, refl, sym,
  ap, ◌∙◌, arith, Bool-cases, inl, inr, then_branch, else_branch,
}
use system_design_hse_miem.Prelude.Int.{pos, eqb_ℤ}
use system_design_hse_miem.Collections.{
  Casing, CaseInsensitiveSet, empty, contains, of_list, len, nonempty, equals, ◌∩◌,
}
use system_design_hse_miem.Collections.Sets.{Subset, contains-∩}
use system_design_hse_miem.Dcs.SyncKey.{SyncState, voters}
use system_design_hse_miem.Quorum.Published.{View}
use system_design_hse_miem.Sync.Handler.{Handler, SyncReport}
use system_design_hse_miem.Ha.Node.{same_name}
use system_design_hse_miem.Ha.Writes.{Write, key, Primary, maybe_enable, reported, reloaded}
use system_design_hse_miem.Ha.WritesSafe.{write}
use system_design_hse_miem.Ha.Multisync.{
  star, put_key, after_write, confirm, starred, promotable, assign, shrink, realign, take_key,
  process_multisync_replication, with_key,
}
use system_design_hse_miem.Ha.Nested.{
  Nested, Nested-if, Subset-nil, starred-Subset, true_of_not, covered, ∩-HasNodup,
}

module _ ⦃c : Casing⦄ where
  -- What the report confirms is active and named.
  pub record IsConsistent (report : SyncReport) : Type 0 where
    pub active : Subset report.sync_confirmed report.active
    pub named : Subset report.sync_confirmed report.sync

  module _ {Version Time : Type 0} (primary : Primary Version Time) where
    after_write-Nested :
        (nodes : CaseInsensitiveSet) (o : Option (SyncState Version))
        (go : SyncState Version → List Write) (v : View)
        → Subset nodes v.sync
        → ((s : SyncState Version) → Nested (write (key primary.name nodes (pos 0)) v) (go s))
        → Nested v (after_write primary nodes o go)
    after_write-Nested nodes none go v h rest = tt
    after_write-Nested nodes (some s) go v h rest = (h, rest s)

    confirm-Nested :
        (allow common : CaseInsensitiveSet) (sync_key : SyncState Version) (v : View)
        → Subset allow v.sync
        → Nested v (confirm primary allow common sync_key)
    confirm-Nested allow common sync_key v h =
        elim (Bool-cases (nonempty allow && not (equals allow common))) [
          | inl e ↦
              rw e (after_write-Nested allow (put_key primary 3 allow sync_key) _ v h (λ s. tt))
          | inr e ↦ rw e tt
        ]

    -- The second report confirms only nodes that were picked.
    abbrev pub ConfirmsPicked : SyncState Version → CaseInsensitiveSet → Handler → Type 0
    ConfirmsPicked cluster_key picked h =
        Subset
          (reported primary cluster_key 1
            (reloaded primary (primary.asked_after 0 0) h)).0.sync_confirmed
          picked

    promotable-Subset :
        (cluster_key : SyncState Version) (picked allow : CaseInsensitiveSet) (h : Handler)
        → ConfirmsPicked cluster_key picked h
        → Subset allow picked
        → Subset (promotable primary cluster_key picked allow h) picked
    promotable-Subset cluster_key picked allow h later sub =
        elim (Bool-cases
          (nonempty picked && not (equals picked star) && not (equals allow picked))) [
            | inl e ↦ λ x m. later x (sym (ap (λ t. contains t x) (then_branch _ _ _ e)) ∙ m)
            | inr e ↦ λ x m. sub x (sym (ap (λ t. contains t x) (else_branch _ _ _ e)) ∙ m)
          ]

    assign-Nested :
        (cluster_key : SyncState Version) (h : Handler) (picked allow common : CaseInsensitiveSet)
        (sync_key : SyncState Version) (v : View)
        → Subset v.voters picked
        → Subset allow picked
        → ConfirmsPicked cluster_key picked h
        → Nested v (assign primary cluster_key h picked allow common sync_key)
    assign-Nested cluster_key h picked allow common sync_key v sub allowed later = (
      sub,
      confirm-Nested (promotable primary cluster_key picked allow h) common sync_key _
          (promotable-Subset cluster_key picked allow h later allowed),
    )

    module _ (strict : Bool) (cluster_key : SyncState Version) (report : SyncReport) (h : Handler)
        (sound : IsConsistent report)
        (later : ConfirmsPicked cluster_key (starred strict report.active) h) where
      shrink-Nested :
          (listed : CaseInsensitiveSet) (sync_key : SyncState Version) (v : View)
          → v.sync ≡ report.sync
          → ((x : String)
              → contains v.voters x ≡ true
              → (contains listed x || contains report.sync_confirmed x) ≡ true)
          → Nested v (shrink primary strict cluster_key report h listed sync_key)
      shrink-Nested listed sync_key v same cover =
          let allow = report.sync_confirmed in
          let common = listed ∩ allow in
          let picked = starred strict report.active in
          let allowed : Subset allow picked =
            starred-Subset strict allow report.active sound.active in
          let within : Subset common allow = λ x m. ground (arith, m, contains-∩ listed allow x) in
          let named : Subset common v.sync =
            λ x m. ap (λ t. contains t x) same ∙ sound.named x (within x m) in
          let go = assign primary cluster_key h picked allow common in
          let wrote = after_write primary common (put_key primary 2 common sync_key) go in
          let is_settled =
            equals report.active listed
            && equals listed report.sync
            && eqb_ℤ (pos report.numsync) (len report.active) in
          Nested-if is_settled [] (if not (equals common listed) then wrote else go sync_key) v
            (λ _. tt)
            λ _.
              Nested-if (not (equals common listed)) wrote (go sync_key) v
                (λ _. after_write-Nested common (put_key primary 2 common sync_key) go v named λ s.
                  assign-Nested cluster_key h picked allow common s
                    (write (key primary.name common (pos 0)) v) (λ x m. allowed x (within x m))
                    allowed later)
                (λ kept.
                  assign-Nested cluster_key h picked allow common sync_key v
                    (λ x m. allowed x (
                      covered common listed allow (true_of_not kept) (∩-HasNodup listed allow)
                        within x (cover x m)))
                    allowed later)

      realign-Nested :
          (listed : CaseInsensitiveSet) (sync_key : SyncState Version) (v : View)
          → v.sync ≡ report.sync
          → Subset v.voters listed
          → Nested v (realign primary strict cluster_key report h listed sync_key)
      realign-Nested listed sync_key v same sub =
          let allow = report.sync_confirmed in
          let go = λ (s : SyncState Version).
            shrink primary strict cluster_key report h (of_list (voters s)) s in
          Nested-if (equals report.active listed && not (equals listed allow))
            (after_write primary allow (put_key primary 1 allow sync_key) go)
            (shrink primary strict cluster_key report h listed sync_key) v
            (λ _.
              after_write-Nested allow (put_key primary 1 allow sync_key) go v
                (λ x m. ap (λ t. contains t x) same ∙ sound.named x m)
                λ s.
                  shrink-Nested (of_list (voters s)) s (write (key primary.name allow (pos 0)) v)
                    same (λ x m. ground (arith, m)))
            (λ _. shrink-Nested listed sync_key v same (λ x m. ground (arith, sub x m)))

      take_key-Nested :
          (sync_key : SyncState Version) (v : View)
          → v.sync ≡ report.sync
          → Subset v.voters (of_list (voters sync_key))
          → Nested v (take_key primary strict cluster_key report h sync_key)
      take_key-Nested sync_key v same sub =
          let go = realign primary strict cluster_key report h empty in
          let listed = of_list (voters sync_key) in
          Nested-if (not (same_name (some primary.name) sync_key.leader))
            (after_write primary empty (put_key primary 0 empty sync_key) go)
            (realign primary strict cluster_key report h listed sync_key) v
            (λ _.
              after_write-Nested empty (put_key primary 0 empty sync_key) go v
                (Subset-nil empty v.sync (unfold nonempty in refl))
                λ s.
                  realign-Nested empty s (write (key primary.name empty (pos 0)) v) same (λ x m. m))
            (λ _. realign-Nested listed sync_key v same sub)

    -- Let the key that is read or made name the voters of `v`, and the first report the synchronous nodes
    -- of `v`, among them those that it confirms, which are active; and let the second report confirm
    -- only nodes that were picked. Then after each write of `_process_multisync_replication` every
    -- node of the `/sync` key is in `synchronous_standby_names`.
    pub process_multisync_replication-Nested :
        (strict : Bool) (cluster_key : SyncState Version) (h : Handler)
        (sync_key : SyncState Version) (v : View)
        → maybe_enable primary cluster_key ≡ some sync_key
        → v.sync ≡ (reported primary cluster_key 0 h).0.sync
        → Subset v.voters (of_list (voters sync_key))
        → IsConsistent (reported primary cluster_key 0 h).0
        → ConfirmsPicked cluster_key
            (starred strict (reported primary cluster_key 0 h).0.active)
            (reported primary cluster_key 0 h).1
        → Nested v (process_multisync_replication primary strict cluster_key h)
    unfolding process_multisync_replication
    process_multisync_replication-Nested strict cluster_key h sync_key v e same sub sound later =
        subst (λ o. Nested v (with_key primary strict cluster_key h o)) (sym e)
          (take_key-Nested strict cluster_key (reported primary cluster_key 0 h).0
            (reported primary cluster_key 0 h).1 sound later sync_key v same sub)
