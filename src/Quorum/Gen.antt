-- ===== src/Quorum/Gen.antt =====
-- A generator method of `QuorumStateResolver`: it updates `self`, yields transitions, and returns
-- or raises. What was yielded and written before a raise stays.
use system_design_hse_miem.Prelude.{Bool, true, false, List, [], ◌∷◌, ◌++◌}
use system_design_hse_miem.Quorum.State.{QuorumStateResolver, Transition}

pub data Outcome (A : Type 0) : Type 0 where
  done : A → Outcome A
  quorum_error : Outcome A
  assertion_error : Outcome A

abbrev pub Gen : Type 0 → Type 0
Gen A = QuorumStateResolver → Outcome A × QuorumStateResolver × List Transition

module _ {A : Type 0} where
  abbrev pub pure : A → Gen A
  pure a s = (done a, s, [])

  abbrev pub after :
      List Transition
      → Outcome A × QuorumStateResolver × List Transition
      → Outcome A × QuorumStateResolver × List Transition
  after ts (r, s, us) = (r, s, ts ++ us)

abbrev pub get : Gen QuorumStateResolver
get s = (done s, s, [])

abbrev pub modify : (QuorumStateResolver → QuorumStateResolver) → Gen Unit
modify f s = (done tt, f s, [])

-- `yield`
abbrev pub emit : Transition → Gen Unit
emit t s = (done tt, s, t ∷ [])

-- `raise QuorumError`, unless the test passes
abbrev pub require : Bool → Gen Unit
require true s = (done tt, s, [])
require false s = (quorum_error, s, [])

-- `assert`
abbrev pub assert_that : Bool → Gen Unit
assert_that true s = (done tt, s, [])
assert_that false s = (assertion_error, s, [])

abbrev pub when : Bool → Gen Unit → Gen Unit
when true m = m
when false m = pure tt

module _ {A B : Type 0} where
  abbrev pub continue :
      (A → Gen B)
      → Outcome A × QuorumStateResolver × List Transition
      → Outcome B × QuorumStateResolver × List Transition
  continue f (done a, s, ts) = after ts (f a s)
  continue f (quorum_error, s, ts) = (quorum_error, s, ts)
  continue f (assertion_error, s, ts) = (assertion_error, s, ts)

  infixl 10 ◌>>=◌ ◌>>◌
  abbrev pub ◌>>=◌ : Gen A → (A → Gen B) → Gen B
  ◌>>=◌ m f s = continue f (m s)

  abbrev pub ◌>>◌ : Gen A → Gen B → Gen B
  m >> k = m >>= λ _. k

-- `try: m except QuorumError: handler`
abbrev pub recover :
    {A : Type 0}
    → Gen A
    → Outcome A × QuorumStateResolver × List Transition
    → Outcome A × QuorumStateResolver × List Transition
recover handler (quorum_error, s, ts) = after ts (handler s)
recover handler (done a, s, ts) = (done a, s, ts)
recover handler (assertion_error, s, ts) = (assertion_error, s, ts)
