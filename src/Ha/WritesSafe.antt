-- ===== src/Ha/WritesSafe.antt =====
-- What the primary writes keeps the `/sync` key and `synchronous_standby_names` safe together.
use mathlib.Core.Path.{subst}
use system_design_hse_miem.Prelude.{
  ℕ, zero, suc, String, Bool, true, false, ◌&&◌, not, List, [], ◌∷◌, ◌++◌, Option, none, some,
  if◌then◌else◌, ◌≡◌, refl, ap, arith, All, Bool-cases, inl, inr,
}
use system_design_hse_miem.Prelude.Int.{ℤ, ◌≤ℤ◌, max_ℤ, int_laws}
use system_design_hse_miem.Collections.{Casing, len}
use system_design_hse_miem.Dcs.{is_set, or_blank}
use system_design_hse_miem.Dcs.SyncKey.{SyncState}
use system_design_hse_miem.Quorum.State.{init, Transition, TransitionType, sync, quorum, restart}
use system_design_hse_miem.Quorum.Gen.{Outcome, done, quorum_error, assertion_error}
use system_design_hse_miem.Quorum.Iterate.{iterate}
use system_design_hse_miem.Quorum.Published.{View, view, apply, apply_as, AllSafe, IsSafe, Leaves}
use system_design_hse_miem.Quorum.Safety.{iterate-AllSafe}
use system_design_hse_miem.Sync.Handler.{Handler}
use system_design_hse_miem.Ha.Writes.{
  Write, key, names, Primary, Acted, Round, Rounds, act, act_in_time, key_written, stopped, carried,
  repeated, from_key, carry_out, round, rounds, resolver_of, reported, resolved, wants_restart,
  is_late, is_late_soon, maybe_enable, process_quorum_replication,
}

-- What an observer of the two settings holds after a write.
abbrev pub write : Write → View → View
write (key leader nodes n) v = record v { leader = leader; quorum = n; voters = nodes }
write (names nodes n) v = record v { numsync = n; sync = nodes }

some_injective {ℓ} : {A : Type ℓ} {a b : A} → some a ≡ some b → a ≡ b
some_injective e = cc

max_ℤ_left : (a b : ℤ) → a ≤ℤ max_ℤ a b
max_ℤ_left a b = ground arith

in_time {ℓ} :
    {A : Type ℓ} (late : Bool) (o : Option A) (a : A)
    → (if late then none else o) ≡ some a
    → o ≡ some a
in_time true o a e = absurd (cc e)
in_time false o a e = e

carried-safe {κ} :
    {Version : Type 0} (o : Option (Acted Version)) (stop : Round Version)
    (go : Acted Version → Round Version) (Q : List Write → Type κ)
    → Q stop.writes
    → ((acted : Acted Version) → o ≡ some acted → Q (go acted).writes)
    → Q (carried o stop go).writes
carried-safe none stop go Q none_holds some_holds = none_holds
carried-safe (some acted) stop go Q none_holds some_holds = some_holds acted refl

repeated-All {κ} :
    (more : Bool) (entry : View × List Write) (go : Unit {0} → Rounds)
    (Q : View × List Write → Type κ)
    → Q entry
    → All Q (go tt).log
    → All Q (repeated more entry go).log
repeated-All true entry go Q here there = (here, there)
repeated-All false entry go Q here there = (here, tt)

module _ ⦃c : Casing⦄ where
  -- Each write leaves safe settings.
  abbrev pub SafeWrites : String → View → List Write → Type 0
  SafeWrites name v [] = Unit
  SafeWrites name v (w ∷ ws) = IsSafe name (write w v) × SafeWrites name (write w v) ws

  -- More synchronous nodes may be asked for.
  more-IsSafe :
      (name : String) (v : View) (n : ℤ)
      → v.numsync ≤ℤ n
      → IsSafe name v
      → IsSafe name (record v { numsync = n })
  more-IsSafe name v n le safe = record {
    overlap = λ h. unfold len in omega (int_laws, safe.overlap h, le);
    nested = safe.nested;
  }

  module _ {Version Time : Type 0} (primary : Primary Version Time) where
    key_written-writes :
        (t : Transition) (h : Handler) (o : Option (SyncState Version)) (acted : Acted Version)
        → key_written primary t h o ≡ some acted
        → key t.leader t.names t.num ∷ [] ≡ acted.writes
    key_written-writes t h none acted e = absurd (cc e)
    key_written-writes t h (some s) acted e = ap (λ a. a.writes) (some_injective e)

    -- The settings after a transition, where more nodes may be asked for than it says.
    act-safe :
        (r i : ℕ) (kind : TransitionType) (t : Transition) (sync_key : SyncState Version)
        (h : Handler) (acted : Acted Version) (v : View) (n : ℤ)
        → act primary r i kind t sync_key h ≡ some acted
        → v.numsync ≤ℤ n
        → Leaves primary.name (apply_as kind t v) kind
        → (m : ℤ) × ((apply_as kind t v).numsync ≤ℤ m)
          × ((rest : List Write)
              → SafeWrites primary.name (record (apply_as kind t v) { numsync = m }) rest
              → SafeWrites primary.name (record v { numsync = n }) (acted.writes ++ rest))
    act-safe r i quorum t sync_key h acted v n e le safe = (
      n,
      le,
      λ rest more.
          subst (λ ws. SafeWrites primary.name (record v { numsync = n }) (ws ++ rest))
            (key_written-writes t h _ acted e)
            (more-IsSafe primary.name (apply_as quorum t v) n le safe, more),
    )
    act-safe r i sync t sync_key h acted v n e le safe = (
      max_ℤ t.num primary.min_sync,
      max_ℤ_left t.num primary.min_sync,
      λ rest more.
          subst (λ ws. SafeWrites primary.name (record v { numsync = n }) (ws ++ rest))
            (ap (λ a. a.writes) (some_injective e))
            (
              more-IsSafe primary.name (apply_as sync t v) (max_ℤ t.num primary.min_sync)
                  (max_ℤ_left t.num primary.min_sync) safe,
              more,
            ),
    )
    act-safe r i restart t sync_key h acted v n e le safe = (
      n,
      le,
      λ rest more.
          subst (λ ws. SafeWrites primary.name (record v { numsync = n }) (ws ++ rest))
            (ap (λ a. a.writes) (some_injective e)) more,
    )

    carry_out-safe :
        (r i : ℕ) (ts : List Transition) (last : Option TransitionType)
        (sync_key : SyncState Version) (leader : String) (h : Handler) (v : View) (n : ℤ)
        → v.numsync ≤ℤ n
        → AllSafe primary.name v ts
        → SafeWrites primary.name
            (record v { numsync = n })
            (carry_out primary r i ts last sync_key leader h).writes
    unfolding carry_out
    carry_out-safe r i [] last sync_key leader h v n le safe = tt
    carry_out-safe r i (t ∷ ts) last sync_key leader h v n le safe =
        carried-safe (act_in_time primary r i t sync_key h) (stopped sync_key t.leader h) _
          (SafeWrites primary.name (record v { numsync = n })) tt
          λ acted e.
            let (m, le', step) =
              act-safe r i t.transition_type t sync_key h acted v n
                (in_time (is_late primary r i) _ acted e) le safe.1 in
            step
              (carry_out primary r (suc i) ts (some t.transition_type) acted.key t.leader
                acted.handler).writes
              (carry_out-safe r (suc i) ts (some t.transition_type) acted.key t.leader acted.handler
                (apply t v) m le' safe.2)

    resolved-safe :
        (r : ℕ) (sync_key : SyncState Version) (leader : String) (h : Handler) (v : View)
        (out : Outcome (List Transition))
        → ((ts : List Transition) → out ≡ done ts → AllSafe primary.name v ts)
        → SafeWrites primary.name v (resolved primary r sync_key leader h out).writes
    resolved-safe r sync_key leader h v (done ts) safe =
        carry_out-safe r 0 ts none sync_key leader h v v.numsync (omega arith) (safe ts refl)
    resolved-safe r sync_key leader h v quorum_error safe = tt
    resolved-safe r sync_key leader h v assertion_error safe = tt

    round-safe :
        (cluster_key : SyncState Version) (r : ℕ) (sync_key : SyncState Version) (leader : String)
        (h : Handler)
        → SafeWrites primary.name
            (view (resolver_of primary sync_key leader (reported primary cluster_key r h).0))
            (round primary cluster_key r sync_key leader h).writes
    unfolding round init
    round-safe cluster_key r sync_key leader h =
        let answer = reported primary cluster_key r h in
        let s = resolver_of primary sync_key leader answer.0 in
        resolved-safe r sync_key leader answer.1 (view s) (iterate s) (iterate-AllSafe s)

    -- Each write of each round leaves safe settings.
    abbrev pub IsSafeRound : View × List Write → Type 0
    IsSafeRound entry = SafeWrites primary.name entry.0 entry.1

    rounds-safe :
        (fuel : ℕ) (cluster_key : SyncState Version) (r : ℕ) (sync_key : SyncState Version)
        (leader : String) (h : Handler)
        → All IsSafeRound (rounds primary fuel cluster_key r sync_key leader h).log
    unfolding rounds
    rounds-safe zero cluster_key r sync_key leader h = tt
    rounds-safe (suc fuel) cluster_key r sync_key leader h =
        repeated-All
          (wants_restart (round primary cluster_key r sync_key leader h).ending
            && not (is_late_soon primary r))
          _ _ IsSafeRound (round-safe cluster_key r sync_key leader h)
          (rounds-safe fuel cluster_key (suc r) _ _ _)

    from_key-safe :
        (fuel : ℕ) (cluster_key : SyncState Version) (o : Option (SyncState Version)) (h : Handler)
        → All IsSafeRound (from_key primary fuel cluster_key o h).log
    from_key-safe fuel cluster_key none h = tt
    from_key-safe fuel cluster_key (some s) h = elim (Bool-cases (is_set s.leader)) [
      | inl e ↦ rw e (rounds-safe fuel cluster_key 0 s (or_blank s.leader) h)
      | inr e ↦ rw e tt
    ]

    -- Whatever the store, the database and the clock do, each write of each round of
    -- `_process_quorum_replication` leaves a `/sync` key and a `synchronous_standby_names` that are safe
    -- together, if the round has read them as they are.
    pub process_quorum_replication-safe :
        (fuel : ℕ) (cluster_key : SyncState Version) (h : Handler)
        → All IsSafeRound (process_quorum_replication primary fuel cluster_key h).log
    unfolding process_quorum_replication
    process_quorum_replication-safe fuel cluster_key h =
        from_key-safe fuel cluster_key (maybe_enable primary cluster_key) h
