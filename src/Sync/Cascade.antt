-- ===== src/Sync/Cascade.antt =====
-- Members that replicate from each other.
use text.Mathlib.Text.{◌==◌}
use system_design_hse_miem.Prelude.{ℕ, zero, suc, false, none, some, ◌≡◌, refl}
use system_design_hse_miem.Collections.{Casing}
use system_design_hse_miem.Collections.Dict.{CaseInsensitiveDict, get_item}
use system_design_hse_miem.Sync.Replicas.{Member, Row, should_cascade}

module _ ⦃c : Casing⦄ where
  -- If each of two members has the other in its `replicatefrom` tag, `_should_cascade` ends for neither,
  -- however deep it may call itself.
  pub should_cascade_cycle :
      (fuel : ℕ) (members : CaseInsensitiveDict Member) (replication : CaseInsensitiveDict Row)
      (a b : Member)
      → (a.replicatefrom == "") ≡ false
      → (b.replicatefrom == "") ≡ false
      → get_item members a.replicatefrom ≡ some b
      → get_item members b.replicatefrom ≡ some a
      → should_cascade fuel members replication a ≡ none
  unfolding should_cascade
  should_cascade_cycle zero members replication a b ha hb ga gb = refl
  should_cascade_cycle (suc fuel) members replication a b ha hb ga gb =
      rw (ha, ga, hb, should_cascade_cycle fuel members replication b a hb ha gb ga)
