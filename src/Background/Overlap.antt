-- ===== src/Background/Overlap.antt =====
-- A call of `cancel` that returns too early.
use system_design_hse_miem.Prelude.{ℕ, String, Bool, [], ◌∷◌, none, some, ◌≡◌, refl}
use system_design_hse_miem.Background.Critical.{new_task}
use system_design_hse_miem.Background.Executor.{
  fresh, inside, AsyncExecutor, schedule, claim, run_async, begin, request, cancelled, try_schedule,
  launch, start, ask_cancel, end_cancel, ◌⟶*◌, here, next,
}

-- No action is scheduled, and no thread is there.
abbrev pub idle : Bool → Bool → ℕ → AsyncExecutor
idle flag event n = record {
  scheduled_action = none;
  is_cancelled = flag;
  finish_event = event;
  threads = [];
  waiting = n;
  critical_task = new_task;
}

-- `schedule` sets the event, so a call of `cancel` returns while the thread of the action has not come to
-- its lock, and the next `schedule` takes the cancellation back: from every idle state and for any
-- two actions, their tasks can come to run at the same time.
pub two_inside :
    (flag event : Bool) (n : ℕ) (first second : String)
    → (f : AsyncExecutor) × (idle flag event n ⟶* f)
      × (f.threads ≡ inside ∷ inside ∷ [])
      × (f.scheduled_action ≡ some second)
unfolding schedule
two_inside flag event n first second =
    let e1 = claim (schedule first (idle flag event n)) in
    let e2 = run_async [] [] e1 in
    let e3 = cancelled n (request e2) in
    let e4 = claim (schedule second e3) in
    let e5 = run_async [] (fresh ∷ []) e4 in
    let e6 = begin (fresh ∷ []) [] e5 in
    (
      begin [] (inside ∷ []) e6,
      next (try_schedule first) (
          next (launch {e = e1} [] [] refl) (
            next (ask_cancel {e = e2} first refl) (
              next (end_cancel {e = request e2} n refl refl) (
                next (try_schedule {e = e3} second) (
                  next (launch {e = e4} [] (fresh ∷ []) refl) (
                    next (start {e = e5} (fresh ∷ []) [] refl refl)
                      (next (start {e = e6} [] (inside ∷ []) refl refl) here))))))),
      refl,
      refl,
    )
