-- ===== src/Quorum/Published.antt =====
-- What an observer of the cluster holds: the `/sync` key and `synchronous_standby_names`, as the
-- yielded transitions write them; and rules to follow a generator method against it.
use mathlib.Core.Path.{subst}
use system_design_hse_miem.Prelude.{
  String, Bool, true, false, List, [], ◌∷◌, ◌++◌, ◌≡◌, refl, sym, ◌∙◌, ◌⊎◌, if◌then◌else◌,
}
use system_design_hse_miem.Prelude.Int.{ℤ, pos, ◌+ℤ◌, ◌≤ℤ◌}
use system_design_hse_miem.Collections.{Casing, CaseInsensitiveSet, len, ◌∪◌, nonempty}
use system_design_hse_miem.Collections.Sets.{Subset}
use system_design_hse_miem.Quorum.State.{
  QuorumStateResolver, Transition, TransitionType, sync, quorum, restart, only,
}
use system_design_hse_miem.Quorum.Gen.{
  Gen, Outcome, done, quorum_error, assertion_error, pure, after, get, modify, require, assert_that,
  when, continue, ◌>>=◌, ◌>>◌,
}

pub record View : Type 0 where
  pub leader : String
  pub quorum : ℤ
  pub voters : CaseInsensitiveSet
  pub numsync : ℤ
  pub sync : CaseInsensitiveSet

abbrev pub view : QuorumStateResolver → View
view s = record {
  leader = s.leader;
  quorum = s.quorum;
  voters = s.voters;
  numsync = s.numsync;
  sync = s.sync;
}

abbrev pub apply_as : TransitionType → Transition → View → View
apply_as sync t v = record v { numsync = t.num; sync = t.names }
apply_as quorum t v = record v { leader = t.leader; quorum = t.num; voters = t.names }
apply_as restart t v = v

-- What a transition writes: `synchronous_standby_names`, the `/sync` key, or nothing.
abbrev pub apply : Transition → View → View
apply t v = apply_as t.transition_type t v

abbrev pub replay : View → List Transition → View
replay v [] = v
replay v (t ∷ ts) = replay (apply t v) ts

module _ ⦃c : Casing⦄ where
  -- If there are voters, any `numsync` synchronous nodes with the primary, and any `quorum` voters with
  -- a candidate, are too many to be disjoint; and one of the two sets of nodes lies in the other.
  pub record IsSafe (leader_wanted : String) (v : View) : Type 0 where
    pub overlap :
        nonempty v.voters ≡ true
        → len ((v.voters ∪ only v.leader) ∪ (v.sync ∪ only leader_wanted))
          ≤ℤ v.quorum +ℤ v.numsync +ℤ pos 1
    pub nested :
        Subset (v.voters ∪ only v.leader) (v.sync ∪ only leader_wanted)
        ⊎ Subset (v.sync ∪ only leader_wanted) (v.voters ∪ only v.leader)

  abbrev pub InRange : TransitionType → Transition → Type 0
  InRange sync t = (pos 0 ≤ℤ t.num) × (t.num ≤ℤ len t.names)
  InRange quorum t = pos 0 ≤ℤ t.num
  InRange restart t = Unit

  abbrev pub Leaves : String → View → TransitionType → Type 0
  Leaves name v restart = Unit
  Leaves name v sync = IsSafe name v
  Leaves name v quorum = IsSafe name v

  -- Each transition is in range, and each that writes leaves a safe state.
  abbrev pub AllSafe : String → View → List Transition → Type 0
  AllSafe name v [] = Unit
  AllSafe name v (t ∷ ts) =
      InRange t.transition_type t
      × Leaves name (apply t v) t.transition_type
      × AllSafe name (apply t v) ts

  pub AllSafe-append :
      (name : String) (v : View) (ts us : List Transition)
      → AllSafe name v ts
      → AllSafe name (replay v ts) us
      → AllSafe name v (ts ++ us)
  AllSafe-append name v [] us h k = k
  AllSafe-append name v (t ∷ ts) us h k = (h.0, h.1, AllSafe-append name (apply t v) ts us h.2 k)

  pub replay-append :
      (v : View) (ts us : List Transition) → replay v (ts ++ us) ≡ replay (replay v ts) us
  replay-append v [] us = refl
  replay-append v (t ∷ ts) us = replay-append (apply t v) ts us

  -- What was yielded since `v` is safe; after a return, `self` is as published.
  abbrev pub Follows :
      {A : Type 0} → String → View → Outcome A × QuorumStateResolver × List Transition → Type 0
  Follows name v (done a, s, ts) =
      AllSafe name v ts × (view s ≡ replay v ts) × (s.leader_wanted ≡ name)
  Follows name v (quorum_error, s, ts) = AllSafe name v ts
  Follows name v (assertion_error, s, ts) = AllSafe name v ts

  pub record Tracks {A : Type 0} (m : Gen A) : Type 0 where
    pub at : (s : QuorumStateResolver) → Follows s.leader_wanted (view s) (m s)

  module _ {A : Type 0} where
    -- What goes before is prefixed.
    pub Follows-after :
        (name : String) (v : View) (ts : List Transition)
        (out : Outcome A × QuorumStateResolver × List Transition)
        → AllSafe name v ts
        → Follows name (replay v ts) out
        → Follows name v (after ts out)
    Follows-after name v ts (done a, s, us) h k =
        (AllSafe-append name v ts us h k.0, k.1 ∙ sym (replay-append v ts us), k.2)
    Follows-after name v ts (quorum_error, s, us) h k = AllSafe-append name v ts us h k
    Follows-after name v ts (assertion_error, s, us) h k = AllSafe-append name v ts us h k

    pub Tracks-pure : (a : A) → Tracks (pure a)
    Tracks-pure a = record { at = λ s. (tt, refl, refl) }

  pub Tracks-get : Tracks get
  Tracks-get = record { at = λ s. (tt, refl, refl) }

  pub Tracks-require : (b : Bool) → Tracks (require b)
  Tracks-require true = record { at = λ s. (tt, refl, refl) }
  Tracks-require false = record { at = λ s. tt }

  pub Tracks-assert : (b : Bool) → Tracks (assert_that b)
  Tracks-assert true = record { at = λ s. (tt, refl, refl) }
  Tracks-assert false = record { at = λ s. tt }

  pub Tracks-when : (b : Bool) (m : Gen Unit) → Tracks m → Tracks (when b m)
  Tracks-when true m h = h
  Tracks-when false m h = Tracks-pure tt

  module _ {A B : Type 0} where
    pub Follows-continue :
        (f : A → Gen B)
        → ((a : A) → Tracks (f a))
        → (name : String) (v : View) (out : Outcome A × QuorumStateResolver × List Transition)
        → Follows name v out
        → Follows name v (continue f out)
    Follows-continue f h name v (done a, s, ts) k = Follows-after name v ts (f a s) k.0 (
        subst (λ w. Follows name w (f a s)) k.1
          (subst (λ n. Follows n (view s) (f a s)) k.2 ((h a).at s)))
    Follows-continue f h name v (quorum_error, s, ts) k = k
    Follows-continue f h name v (assertion_error, s, ts) k = k

    pub Tracks-bind :
        (m : Gen A) (f : A → Gen B) → Tracks m → ((a : A) → Tracks (f a)) → Tracks (m >>= f)
    Tracks-bind m f hm hf = record {
      at = λ s. Follows-continue f hf s.leader_wanted (view s) (m s) (hm.at s);
    }

  -- What stands behind a test that raises may use that the test has passed.
  pub Tracks-require_bind :
      {B : Type 0} (b : Bool) (m : Gen B) → (b ≡ true → Tracks m) → Tracks (require b >> m)
  Tracks-require_bind true m h =
      Tracks-bind (require true) (λ _. m) (Tracks-require true) (λ _. h refl)
  Tracks-require_bind false m h = record { at = λ s. tt }

  pub Tracks-if :
      {A : Type 0} (b : Bool) (m n : Gen A) → Tracks m → Tracks n → Tracks (if b then m else n)
  Tracks-if true m n hm hn = hm
  Tracks-if false m n hm hn = hn

  pub Tracks-get_bind :
      {B : Type 0} (f : QuorumStateResolver → Gen B)
      → ((s : QuorumStateResolver) → Follows s.leader_wanted (view s) (f s s))
      → Tracks (get >>= f)
  Tracks-get_bind f h = record {
    at = λ s. Follows-after s.leader_wanted (view s) [] (f s s) tt (h s);
  }

  pub Tracks-modify :
      (f : QuorumStateResolver → QuorumStateResolver)
      → ((s : QuorumStateResolver)
          → (view (f s) ≡ view s) × ((f s).leader_wanted ≡ s.leader_wanted))
      → Tracks (modify f)
  Tracks-modify f h = record { at = λ s. (tt, (h s).0, (h s).1) }

  pub Follows-require :
      {B : Type 0} (b : Bool) (m : Gen B) (name : String) (v : View) (s : QuorumStateResolver)
      → (b ≡ true → Follows name v (m s))
      → Follows name v ((require b >> m) s)
  Follows-require true m name v s h = Follows-after name v [] (m s) tt (h refl)
  Follows-require false m name v s h = tt
