-- ===== src/Quorum/State.antt =====
-- The state of `QuorumStateResolver`, its `Transition`s and `check_invariants`.
use system_design_hse_miem.Prelude.{String, Bool, false, not, ◌&&◌, ◌||◌, [], ◌∷◌, if◌then◌else◌}
use system_design_hse_miem.Prelude.Int.{ℤ, pos, ◌+ℤ◌, leb_ℤ, min_ℤ}
use system_design_hse_miem.Collections.{
  Casing, CaseInsensitiveSet, len, of_list, ◌∪◌, issubset, nonempty,
}

pub data TransitionType : Type 0 where
  sync quorum restart : TransitionType

pub record Transition : Type 0 where
  pub transition_type : TransitionType
  pub leader : String
  pub num : ℤ
  pub names : CaseInsensitiveSet

pub record QuorumStateResolver : Type 0 where
  pub leader : String
  pub quorum : ℤ
  pub voters : CaseInsensitiveSet
  pub numsync : ℤ
  pub sync : CaseInsensitiveSet
  pub numsync_confirmed : ℤ
  pub active : CaseInsensitiveSet
  pub sync_wanted : ℤ
  pub leader_wanted : String

module _ ⦃c : Casing⦄ where
  -- `CaseInsensitiveSet(s)`
  abbrev pub copy : CaseInsensitiveSet → CaseInsensitiveSet
  copy s = of_list s.values

  -- `CaseInsensitiveSet([name])`
  abbrev pub only : String → CaseInsensitiveSet
  only name = of_list (name ∷ [])

  -- `__init__`
  unfoldable pub init :
      String
      → ℤ
      → CaseInsensitiveSet
      → ℤ
      → CaseInsensitiveSet
      → ℤ
      → CaseInsensitiveSet
      → ℤ
      → String
      → QuorumStateResolver
  unfolding len of_list
  init name q vs n ns confirmed nodes wanted name_wanted = record {
    leader = name;
    quorum = q;
    voters = copy vs;
    numsync = min_ℤ n (len ns);
    sync = copy ns;
    numsync_confirmed = confirmed;
    active = copy nodes;
    sync_wanted = wanted;
    leader_wanted = name_wanted;
  }

  -- `check_invariants` returns (`true`), or raises `QuorumError` (`false`).
  unfoldable pub check_invariants : QuorumStateResolver → Bool
  check_invariants s =
      let voters = s.voters ∪ only s.leader in
      let sync = s.sync ∪ only s.leader_wanted in
      if nonempty s.voters && not (leb_ℤ (len (voters ∪ sync)) (s.quorum +ℤ s.numsync +ℤ pos 1))
      then false
      else issubset voters sync || issubset sync voters
