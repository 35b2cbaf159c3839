-- ===== src/Quorum/UpdatesSafe.antt =====
-- `quorum_update` and `sync_update` yield safe states only, and return as published.
use mathlib.Core.Path.{subst}
use system_design_hse_miem.Prelude.{
  String, Bool, true, false, not, ◌&&◌, [], ◌∷◌, Option, ◌≡◌, refl, if◌then◌else◌, arith,
  Bool-cases, inl, inr, eq_iff,
}
use system_design_hse_miem.Prelude.Int.{ℤ, pos, ◌≤ℤ◌, ltb_ℤ, leb_ℤ, int_laws}
use system_design_hse_miem.Collections.{Casing, CaseInsensitiveSet, len, ◌∪◌, issubset, nonempty}
use system_design_hse_miem.Collections.Sets.{issubset→Subset}
use system_design_hse_miem.Quorum.State.{
  QuorumStateResolver, quorum, restart, only, check_invariants,
}
use system_design_hse_miem.Quorum.Gen.{pure, get, emit, require, when, ◌>>=◌, ◌>>◌}
use system_design_hse_miem.Quorum.Updates.{
  Target, key_transition, sync_transition, adjust, unchanged, write_key, publish, quorum_update,
  sync_update,
}
use system_design_hse_miem.Quorum.Published.{
  View, view, IsSafe, Follows, Tracks, Tracks-require_bind, Follows-after, Follows-require,
}

module _ ⦃c : Casing⦄ where
  pub check→IsSafe :
      (s : QuorumStateResolver) → check_invariants s ≡ true → IsSafe s.leader_wanted (view s)
  unfolding check_invariants
  check→IsSafe s h =
      let voters = s.voters ∪ only s.leader in
      let nodes = s.sync ∪ only s.leader_wanted in
      record {
        overlap = λ some_voter. ground arith;
        nested = elim (Bool-cases (issubset voters nodes)) [
          | inl yes_voters ↦ inl (issubset→Subset voters nodes yes_voters)
          | inr no_voters ↦ inr (issubset→Subset nodes voters (ground arith))
        ];
      }

  -- `self.numsync` and `self.sync` are set, checked and yielded.
  pub sync_written :
      (n : ℤ) (ns : CaseInsensitiveSet)
      → pos 0 ≤ℤ n
      → n ≤ℤ len ns
      → (s : QuorumStateResolver) (b : Bool)
      → check_invariants (record s { numsync = n; sync = ns }) ≡ b
      → Follows s.leader_wanted (view s) (
          (require b >> emit (sync_transition (record s { numsync = n; sync = ns })))
            (record s { numsync = n; sync = ns }))
  sync_written n ns lo hi s true e =
      (((lo, hi), check→IsSafe (record s { numsync = n; sync = ns }) e, tt), refl, refl)
  sync_written n ns lo hi s false e = tt

  pub sync_update-Tracks : (n : ℤ) (ns : CaseInsensitiveSet) → Tracks (sync_update n ns)
  unfolding sync_update
  sync_update-Tracks n ns = Tracks-require_bind (not (ltb_ℤ n (pos 0))) _ λ lo.
      Tracks-require_bind (not (ltb_ℤ (len ns) n)) _ λ hi. record {
        at = λ s.
            let s' = record s { numsync = n; sync = ns } in
            Follows-after s.leader_wanted (view s) []
              ((require (check_invariants s') >> emit (sync_transition s')) s') tt
              (sync_written n ns (ground arith) (ground arith) s (check_invariants s') refl);
      }

  pub key_written :
      (name : String) (v : View) (s : QuorumStateResolver) (b : Bool)
      → pos 0 ≤ℤ s.quorum
      → s.leader_wanted ≡ name
      → s.numsync ≡ v.numsync
      → s.sync ≡ v.sync
      → check_invariants s ≡ b
      → Follows name v ((require b >> emit (key_transition quorum s)) s)
  key_written name v s true lo e en es check =
      let same_view : view s
          ≡ record v { leader = s.leader; quorum = s.quorum; voters = s.voters } =
        cc (en, es) in
      (
        (
          lo,
          subst (IsSafe name) same_view (subst (λ n. IsSafe n (view s)) e (check→IsSafe s check)),
          tt,
        ),
        same_view,
        e,
      )
  key_written name v s false lo e en es check = tt

  module _ (name : String) (v : View) (s : QuorumStateResolver) (e : s.leader_wanted ≡ name)
      (en : s.numsync ≡ v.numsync) (es : s.sync ≡ v.sync) where
    write_key-Follows : (t : Target) → pos 0 ≤ℤ t.quorum → Follows name v (write_key t s)
    unfolding write_key
    write_key-Follows t lo =
        let s' = record s { quorum = t.quorum; voters = t.voters } in
        Follows-after name v []
          ((require (check_invariants s') >> emit (key_transition quorum s')) s') tt
          (key_written name v s' (check_invariants s') lo e en es refl)

    -- Whatever the observer holds of the `/sync` key, the key is published as written.
    hint-Follows :
        (t : Target) (hint : Bool)
        → pos 0 ≤ℤ t.quorum
        → Follows name v ((when hint (emit (key_transition restart s)) >> write_key t) s)
    hint-Follows t true lo =
        Follows-after name v (key_transition restart s ∷ []) (write_key t s) (tt, tt, tt)
          (write_key-Follows t lo)
    hint-Follows t false lo = Follows-after name v [] (write_key t s) tt (write_key-Follows t lo)

    publish_if :
        (t : Target) (hint early : Bool)
        → pos 0 ≤ℤ t.quorum
        → (early ≡ true → view s ≡ v)
        → Follows name v (
            (if early
                then pure tt
                else (get >>= λ s'. when hint (emit (key_transition restart s')) >> write_key t))
              s)
    publish_if t hint true lo h = (tt, h refl, e)
    publish_if t hint false lo h =
        Follows-after name v [] ((when hint (emit (key_transition restart s)) >> write_key t) s) tt
          (hint-Follows t hint lo)

    pub publish-Follows :
        (old : QuorumStateResolver) (t : Target)
        → pos 0 ≤ℤ t.quorum
        → ((unchanged old t && nonempty old.voters) ≡ true → view s ≡ v)
        → Follows name v (publish old t s)
    publish-Follows old t lo h =
        unfold publish in
        publish_if t (unchanged old t) (unchanged old t && nonempty old.voters) lo h

  pub adjust_nonneg :
      (s : QuorumStateResolver) (q : ℤ) (vs : CaseInsensitiveSet) (name : Option String)
      (adjusting : Bool)
      → pos 0 ≤ℤ q
      → pos 0 ≤ℤ (adjust s q vs name adjusting).quorum
  unfolding adjust
  adjust_nonneg s q vs name adjusting h = grind (int_laws, h)

  pub unchanged→leader :
      (s : QuorumStateResolver) (t : Target) → unchanged s t ≡ true → t.leader ≡ s.leader
  unfolding unchanged
  unchanged→leader s t h = (eq_iff t.leader s.leader).0 (ground arith)

  -- The same, where the observer may hold another `/sync` key than `self`.
  pub quorum_update-Follows :
      (q : ℤ) (vs : CaseInsensitiveSet) (name : Option String) (adjusting : Bool) (v : View)
      (s : QuorumStateResolver)
      → s.numsync ≡ v.numsync
      → s.sync ≡ v.sync
      → let t = adjust s q vs name adjusting in
        ((unchanged s t && nonempty s.voters) ≡ true → view (record s { leader = t.leader }) ≡ v)
        → Follows s.leader_wanted v (quorum_update q vs name adjusting s)
  quorum_update-Follows q vs name adjusting v s en es h =
      unfold quorum_update in
      (let t = adjust s q vs name adjusting in
        Follows-require (not (ltb_ℤ q (pos 0))) _ s.leader_wanted v s λ lo.
          Follows-require (not (ltb_ℤ (pos 0) q && leb_ℤ (len vs) q)) _ s.leader_wanted v s λ hi.
            Follows-after s.leader_wanted v [] (publish s t (record s { leader = t.leader })) tt (
              publish-Follows s.leader_wanted v (record s { leader = t.leader }) refl en es s t
                (adjust_nonneg s q vs name adjusting (ground arith)) h))

  pub quorum_update-Tracks :
      (q : ℤ) (vs : CaseInsensitiveSet) (name : Option String) (adjusting : Bool)
      → Tracks (quorum_update q vs name adjusting)
  quorum_update-Tracks q vs name adjusting = record {
    at = λ s.
        let t = adjust s q vs name adjusting in
        quorum_update-Follows q vs name adjusting (view s) s refl refl
          (λ h. cc (unchanged→leader s t (ground arith)));
  }
