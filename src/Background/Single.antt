-- ===== src/Background/Single.antt =====
-- Until a call of `cancel` returns, one task runs at a time.
use system_design_hse_miem.Prelude.{
  ◌+◌, String, Bool, true, false, ◌||◌, List, [], ◌∷◌, ◌++◌, Option, none, some, ◌≡◌, refl, sym, ap,
  ◌∙◌, arith, length, length-append, if◌then◌else◌, then_branch,
}
use system_design_hse_miem.Background.Executor.{
  Phase, due, fresh, inside, leaving, AsyncExecutor, claim, move_to, schedule, schedule_after, busy,
  ◌⟶◌, try_schedule, launch, start, skip, return_or_raise, leave, complete_critical,
  cancel_critical, ask_cancel, end_cancel, ◌⟶*◌, here, next,
}

abbrev pub is_inside : Phase → Bool
is_inside due = false
is_inside fresh = false
is_inside inside = true
is_inside leaving = false

abbrev pub has_inside : List Phase → Bool
has_inside [] = false
has_inside (p ∷ ps) = is_inside p || has_inside ps

-- There is one call that has to run or runs a task if an action is scheduled, else none; and while the
-- task runs, the event is not set, so that no call of `cancel` returns.
pub record IsSingle (e : AsyncExecutor) : Type 0 where
  pub one : length e.threads ≡ (if busy e then 1 else 0)
  pub held : has_inside e.threads ≡ true → e.finish_event ≡ false

abbrev pub IsOther : {e f : AsyncExecutor} → e ⟶ f → Type 0
IsOther (end_cancel n w h) = ⊥
IsOther _ = Unit

-- No call of `cancel` that has waited returns.
abbrev pub HasNoReturn : {e f : AsyncExecutor} → e ⟶* f → Type 0
HasNoReturn here = Unit
HasNoReturn (next s run) = IsOther s × HasNoReturn run

none_inside : (ps : List Phase) → length ps ≡ 0 → has_inside ps ≡ false
none_inside [] e = refl
none_inside (p ∷ ps) e = absurd (omega (arith, e))

alone :
    (p : Phase) (before after : List Phase)
    → length before + length after ≡ 0
    → has_inside (before ++ (p ∷ after)) ≡ is_inside p
alone p [] after e = ground (arith, none_inside after (omega (arith, e)))
alone p (b ∷ bs) after e = absurd (omega (arith, e))

-- A single thread stands alone in the list.
split_alone :
    (e : AsyncExecutor) (p : Phase) (before after : List Phase)
    → IsSingle e
    → e.threads ≡ before ++ (p ∷ after)
    → (busy e ≡ true) × (length before + length after ≡ 0)
split_alone e p before after h split =
    ground (arith, h.one, ap (λ ps. length ps) split, length-append before (p ∷ after))

moved-length :
    (q : Phase) (before after : List Phase)
    → length before + length after ≡ 0
    → length (before ++ (q ∷ after)) ≡ 1
moved-length q before after e = omega (arith, e, length-append before (q ∷ after))

free-IsSingle :
    (e : AsyncExecutor) (action : String) (o : Option String)
    → e.scheduled_action ≡ o
    → IsSingle e
    → IsSingle (claim (schedule_after o action e))
free-IsSingle e action (some prev) eq h = h
free-IsSingle e action none eq h =
    let zero : length e.threads ≡ 0 =
      h.one ∙ ap (λ o. if (elim o [ none ↦ false | some a ↦ true ]) then 1 else 0) eq in
    record {
      one = omega (arith, zero);
      held = λ m. absurd (ground (arith, m, none_inside e.threads zero));
    }

-- A call that goes on to a phase outside the task.
left-IsSingle :
    (e : AsyncExecutor) (p q : Phase) (before after : List Phase)
    → is_inside q ≡ false
    → e.threads ≡ before ++ (p ∷ after)
    → IsSingle e
    → IsSingle (move_to q before after e)
left-IsSingle e p q before after out split h =
    let (on_duty, zero) = split_alone e p before after h split in
    record {
      one = moved-length q before after zero ∙ sym (then_branch (busy e) 1 0 on_duty);
      held = λ m. absurd (ground (arith, m, out, alone q before after zero));
    }

pub step-IsSingle : {e f : AsyncExecutor} (s : e ⟶ f) → IsOther s → IsSingle e → IsSingle f
step-IsSingle (try_schedule {e} action) other h =
    unfold schedule in free-IsSingle e action e.scheduled_action refl h
step-IsSingle (launch {e} before after split) other h =
    left-IsSingle e due fresh before after refl split h
step-IsSingle (start {e} before after split on) other h =
    let (on_duty, zero) = split_alone e fresh before after h split in
    record {
      one = moved-length inside before after zero ∙ sym (then_branch (busy e) 1 0 on_duty);
      held = λ _. refl;
    }
step-IsSingle (skip {e} before after split off) other h =
    left-IsSingle e fresh leaving before after refl split h
step-IsSingle (return_or_raise {e} before after split) other h =
    left-IsSingle e inside leaving before after refl split h
step-IsSingle (leave {e} before after split) other h =
    let (on_duty, zero) = split_alone e leaving before after h split in
    let gone : length (before ++ after) ≡ 0 = omega (arith, zero, length-append before after) in
    record {
      one = gone;
      held = λ m. absurd (ground (arith, m, none_inside (before ++ after) gone));
    }
step-IsSingle (ask_cancel {e} action on) other h = record { one = h.one; held = h.held }
step-IsSingle (complete_critical {e} before after result split) other h = record {
  one = h.one;
  held = h.held;
}
step-IsSingle (cancel_critical {e}) other h = record { one = h.one; held = h.held }
step-IsSingle (end_cancel n w set) other h = absurd other
