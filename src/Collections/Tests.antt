-- ===== src/Collections/Tests.antt =====
-- The laws of the collections at concrete entries.
use system_design_hse_miem.Prelude.{[], ◌∷◌}
use system_design_hse_miem.Prelude.Int.{ℤ, pos}
use system_design_hse_miem.Collections.{Casing}
use system_design_hse_miem.Collections.Dict.{CaseInsensitiveDict}

instance abbrev plain : Casing
plain = record { lower = λ s. s }

abbrev pids : CaseInsensitiveDict ℤ
pids = record { entries = ("b", pos 41) ∷ ("c", pos 42) ∷ [] }
