-- ===== src/Background/Critical.antt =====
-- `CriticalTask`: a part of a task that is cancelled or completed, never both.
use system_design_hse_miem.Prelude.{Bool, true, false, Option, none, some}

pub record CriticalTask (R : Type 0) : Type 0 where
  pub is_cancelled : Bool
  pub result : Option R

module _ {R : Type 0} where
  abbrev pub new_task : CriticalTask R
  new_task = record { is_cancelled = false; result = none }

  unfoldable pub reset : CriticalTask R → CriticalTask R
  reset task = record { is_cancelled = false; result = none }

  abbrev pub cancel_result : CriticalTask R → Option R → Bool × CriticalTask R
  cancel_result task none = (true, record task { is_cancelled = true })
  cancel_result task (some r) = (false, task)

  unfoldable pub cancel : CriticalTask R → Bool × CriticalTask R
  cancel task = cancel_result task task.result

  -- A result of `None` leaves the task as one that has not run.
  unfoldable pub complete : Option R → CriticalTask R → CriticalTask R
  complete result task = record task { result = result }
