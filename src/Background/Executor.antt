-- ===== src/Background/Executor.antt =====
-- `AsyncExecutor` as a step relation: the shared state, and where its threads stand.
use system_design_hse_miem.Prelude.{
  ℕ, suc, String, Bool, true, false, List, [], ◌∷◌, ◌++◌, Option, none, some, ◌≡◌,
}
use system_design_hse_miem.Background.Critical.{CriticalTask, new_task, reset, cancel, complete}

-- Where a call stands: its action is scheduled, but neither `run` nor `run_async` is called; `run` is not
-- yet at its first lock; inside the task; on the way to `finally`.
pub data Phase : Type 0 where
  due fresh inside leaving : Phase

-- The attributes, the calls that have scheduled an action, and the number of calls of `cancel` that wait for the event.
pub record AsyncExecutor : Type 0 where
  pub scheduled_action : Option String
  pub is_cancelled : Bool
  pub finish_event : Bool
  pub threads : List Phase
  pub waiting : ℕ
  pub critical_task : CriticalTask Unit

abbrev pub new_executor : AsyncExecutor
new_executor = record {
  scheduled_action = none;
  is_cancelled = false;
  finish_event = false;
  threads = [];
  waiting = 0;
  critical_task = new_task;
}

-- `schedule`: the action that was scheduled before, or `none`.
abbrev pub schedule_after : Option String → String → AsyncExecutor → Option String × AsyncExecutor
schedule_after (some prev) action e = (some prev, e)
schedule_after none action e =
    (none, record e { scheduled_action = some action; is_cancelled = false; finish_event = true })

unfoldable pub schedule : String → AsyncExecutor → Option String × AsyncExecutor
schedule action e = schedule_after e.scheduled_action action e

abbrev pub busy : AsyncExecutor → Bool
busy e = elim e.scheduled_action [ none ↦ false | some action ↦ true ]

abbrev pub reset_scheduled_action : AsyncExecutor → AsyncExecutor
reset_scheduled_action e = record e { scheduled_action = none }

-- A caller whose action is scheduled has to run it; another one returns.
abbrev pub claim : Option String × AsyncExecutor → AsyncExecutor
claim (none, e) = record e { threads = due ∷ e.threads }
claim (some prev, e) = e

-- The start of `run`, under the lock.
abbrev pub begin : List Phase → List Phase → AsyncExecutor → AsyncExecutor
begin before after e = record e { finish_event = false; threads = before ++ (inside ∷ after) }

abbrev pub move_to : Phase → List Phase → List Phase → AsyncExecutor → AsyncExecutor
move_to phase before after e = record e { threads = before ++ (phase ∷ after) }

-- `run_async` starts a thread of `run`; where the caller itself calls `run`, it takes its place.
abbrev pub run_async : List Phase → List Phase → AsyncExecutor → AsyncExecutor
run_async before after e = move_to fresh before after e

abbrev pub run_if_free : Option String × AsyncExecutor → AsyncExecutor
run_if_free (none, e) = run_async [] e.threads (claim (none, e))
run_if_free (some prev, e) = e

-- `try_run_async` where no other step comes between its two calls; it changes nothing if an action is
-- scheduled.
unfoldable pub try_run_async : String → AsyncExecutor → AsyncExecutor
unfolding schedule
try_run_async action e = run_if_free (schedule action e)

-- The `finally` of `run`, under the lock; the thread ends.
abbrev pub finish : List Phase → List Phase → AsyncExecutor → AsyncExecutor
finish before after e = record e {
  scheduled_action = none;
  finish_event = true;
  threads = before ++ after;
  critical_task = reset e.critical_task;
}

-- The first part of `cancel`, where an action is scheduled.
abbrev pub request : AsyncExecutor → AsyncExecutor
request e = record e { is_cancelled = true; waiting = suc e.waiting }

-- The end of `cancel`.
abbrev pub cancelled : ℕ → AsyncExecutor → AsyncExecutor
cancelled n e = record e { scheduled_action = none; waiting = n }

infix 40 ◌⟶◌
-- One step of one thread. `cancel` returns at once where no action is scheduled: that is no step.
pub data ◌⟶◌ : AsyncExecutor → AsyncExecutor → Type 0 where
  try_schedule : {e : AsyncExecutor} (action : String) → e ⟶ claim (schedule action e)
  launch :
      {e : AsyncExecutor} (before after : List Phase)
      → e.threads ≡ before ++ (due ∷ after)
      → e ⟶ run_async before after e
  start :
      {e : AsyncExecutor} (before after : List Phase)
      → e.threads ≡ before ++ (fresh ∷ after)
      → e.is_cancelled ≡ false
      → e ⟶ begin before after e
  skip :
      {e : AsyncExecutor} (before after : List Phase)
      → e.threads ≡ before ++ (fresh ∷ after)
      → e.is_cancelled ≡ true
      → e ⟶ move_to leaving before after e
  return_or_raise :
      {e : AsyncExecutor} (before after : List Phase)
      → e.threads ≡ before ++ (inside ∷ after)
      → e ⟶ move_to leaving before after e
  leave :
      {e : AsyncExecutor} (before after : List Phase)
      → e.threads ≡ before ++ (leaving ∷ after)
      → e ⟶ finish before after e
  complete_critical :
      {e : AsyncExecutor} (before after : List Phase) (result : Option Unit)
      → e.threads ≡ before ++ (inside ∷ after)
      → e ⟶ record e { critical_task = complete result e.critical_task }
  cancel_critical :
      {e : AsyncExecutor} → e ⟶ record e { critical_task = (cancel e.critical_task).1 }
  ask_cancel :
      {e : AsyncExecutor} (action : String) → e.scheduled_action ≡ some action → e ⟶ request e
  end_cancel :
      {e : AsyncExecutor} (n : ℕ) → e.waiting ≡ suc n → e.finish_event ≡ true → e ⟶ cancelled n e

infix 40 ◌⟶*◌
pub data ◌⟶*◌ : AsyncExecutor → AsyncExecutor → Type 0 where
  here : {e : AsyncExecutor} → e ⟶* e
  next : {e f g : AsyncExecutor} → e ⟶ f → f ⟶* g → e ⟶* g
