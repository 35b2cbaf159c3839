-- ===== src/Background/Tests.antt =====
-- The executor and the critical task at concrete states.
use system_design_hse_miem.Prelude.{[], ◌∷◌, ◌≡◌, false, some}
use system_design_hse_miem.Background.Executor.{
  inside, AsyncExecutor, new_executor, try_run_async, begin, ◌⟶*◌,
}
use system_design_hse_miem.Background.Overlap.{idle, two_inside}

abbrev promoting : AsyncExecutor
promoting = begin [] [] (try_run_async "promote" new_executor)

two_inside_example :
    (f : AsyncExecutor) × (idle false false 0 ⟶* f)
    × (f.threads ≡ inside ∷ inside ∷ [])
    × (f.scheduled_action ≡ some "reinitialize")
two_inside_example = two_inside false false 0 "restarting after failure" "reinitialize"
