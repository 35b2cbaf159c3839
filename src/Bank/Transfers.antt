-- ===== src/Bank/Transfers.antt =====
-- `transfer` on every branch: all or nothing.
use mathlib.Core.Path.{subst}
use system_design_hse_miem.Bank.Updates.{
  moved, moved_sender, moved_receiver, >>=-eq-ok, require-eq-ok, Updated, move_money-Updated,
  IsMoved, IsKept,
}
use system_design_hse_miem.Prelude.{
  false, not, some, ◌≡◌, ◌≢◌, refl, sym, ◌∙◌, ap, arith, ◌⊎◌, inl, inr,
}
use system_design_hse_miem.Prelude.Int.{ℤ, eqb_ℤ}
use system_design_hse_miem.Bank.Money.{
  Amount, nan, Balance, not_a_number, at_most_zero, minus_nan, plus_nan, at_most_zero-false,
  falls_short-false,
}
use system_design_hse_miem.Bank.Services.{
  Sql, returned, raised, Effect, performed, failed, Redis, Database,
}
use system_design_hse_miem.Bank.Replies.{Reply, ok, http_error, crash, require, Receipt, Runtime}
use system_design_hse_miem.Bank.Handlers.{
  State, receipt_after, finish, invalidated, move_money, rolled_back, committed, end_try, guards,
  guarded, attempt, transfer,
}

module _ {Float Activity : Type 0} (run : Runtime Float Activity) (redis : Redis)
    (base : Database Float Activity) where
  module _ (sender receiver : ℤ) (amount : Amount) (d : base.Data) where
    guards-passed :
        guards run redis base sender receiver amount d ≡ ok tt
        → (at_most_zero amount ≡ false) × (eqb_ℤ sender receiver ≡ false)
    guards-passed h =
        let (u, e1, h1) =
          >>=-eq-ok run redis base
            (require (not (at_most_zero amount)) 400 "Amount must be positive") _ h in
        let (v, e2, h2) =
          >>=-eq-ok run redis base
            (require (not (eqb_ℤ sender receiver)) 400 "Cannot transfer to the same account") _
            h1 in
        (
          ground (
            arith,
            require-eq-ok run redis base (not (at_most_zero amount)) 400 "Amount must be positive"
                e1,
          ),
          ground (
            arith,
            require-eq-ok run redis base (not (eqb_ℤ sender receiver)) 400
                "Cannot transfer to the same account" e2,
          ),
        )

    Updated→IsMoved :
        (seen d' : base.Data)
        → at_most_zero amount ≡ false
        → eqb_ℤ sender receiver ≡ false
        → Updated run redis base sender receiver amount d seen
        → ((j : ℤ) → base.holds d' j ≡ base.holds seen j)
        → IsMoved run redis base sender receiver amount d d'
    Updated→IsMoved seen d' positive ne u same = record {
      positive = at_most_zero-false amount positive;
      distinct = ne;
      funds = u.funds;
      held = u.held;
      covered = falls_short-false u.funds amount u.covered;
      written = λ j. same j ∙ u.written j ne;
    }

    -- All or nothing; and all, where the reply is no exception.
    abbrev IsSettled : Reply Unit × base.Data → Type 0
    IsSettled out =
        ((out.0 ≢ ok tt) × IsKept run redis base d out.1)
        ⊎ IsMoved run redis base sender receiver amount d out.1

    rolled_back-IsError :
        (s : Sql Unit) (rep : Reply Unit) → rep ≢ ok tt → rolled_back run redis base s rep ≢ ok tt
    rolled_back-IsError (returned u) rep h = h
    rolled_back-IsError (raised e) rep h = λ eq. cc eq

    committed-IsSettled :
        (seen : base.Data)
        → at_most_zero amount ≡ false
        → eqb_ℤ sender receiver ≡ false
        → Updated run redis base sender receiver amount d seen
        → (effect : Effect base.Data) → base.commit seen d ≡ effect
        → IsSettled (committed run redis base effect)
    committed-IsSettled seen positive ne u (performed d') e =
        inr (Updated→IsMoved seen d' positive ne u (λ j. base.commit-holds j seen d d' e))
    committed-IsSettled seen positive ne u (failed t d') e =
        elim (base.commit_failed-holds t seen d d' e) [
          | inl kept ↦
              inl (rolled_back-IsError (base.rollback d') (http_error 500 t) (λ eq. cc eq), kept)
          | inr same ↦ inr (Updated→IsMoved seen d' positive ne u same)
        ]

    end_try-IsSettled :
        (rep : Reply base.Data)
        → at_most_zero amount ≡ false
        → eqb_ℤ sender receiver ≡ false
        → ((seen : base.Data)
            → rep ≡ ok seen
            → Updated run redis base sender receiver amount d seen)
        → IsSettled (end_try run redis base rep d)
    end_try-IsSettled (ok seen) positive ne h =
        committed-IsSettled seen positive ne (h seen refl) (base.commit seen d) refl
    end_try-IsSettled (http_error n e) positive ne h =
        inl (rolled_back-IsError (base.rollback d) (http_error n e) (λ eq. cc eq), λ j. refl)
    end_try-IsSettled (crash e) positive ne h =
        inl (rolled_back-IsError (base.rollback d) (http_error 500 e) (λ eq. cc eq), λ j. refl)

    guarded-IsSettled :
        (rep : Reply Unit) (tried : Reply Unit × base.Data)
        → (rep ≡ ok tt → IsSettled tried)
        → IsSettled (guarded run redis base rep tried d)
    guarded-IsSettled (ok u) tried h = h refl
    guarded-IsSettled (http_error n e) tried h = inl ((λ eq. cc eq), λ j. refl)
    guarded-IsSettled (crash e) tried h = inl ((λ eq. cc eq), λ j. refl)

    attempt-IsSettled : IsSettled (attempt run redis base sender receiver amount d)
    unfolding attempt
    attempt-IsSettled =
        guarded-IsSettled (guards run redis base sender receiver amount d)
          (end_try run redis base (move_money run redis base sender receiver amount d) d)
          λ passed.
            let (positive, ne) = guards-passed passed in
            end_try-IsSettled (move_money run redis base sender receiver amount d) positive ne
              (λ seen. move_money-Updated run redis base sender receiver amount d seen)

    receipt-data :
        (d' : base.Data) (effect : Effect redis.Server)
        → (receipt_after run redis base sender receiver amount d' effect).1.data_base ≡ d'
    receipt-data d' (performed r) = refl
    receipt-data d' (failed e r) = refl

    -- The database is as the attempt has left it, whatever Redis does.
    finish-data :
        (out : Reply Unit × base.Data) (w : State run redis base)
        → (finish run redis base sender receiver amount out w).1.data_base ≡ out.1
    finish-data (ok u, d') w =
        receipt-data d' (redis.delete (invalidated run redis base sender receiver) w.server)
    finish-data (http_error n e, d') w = refl
    finish-data (crash e, d') w = refl

  -- The reply is a receipt only if the keys are deleted.
  pub finish-deleted :
      (sender receiver : ℤ) (amount : Amount) (out : Reply Unit × base.Data)
      (w : State run redis base) (receipt : Receipt)
      → (finish run redis base sender receiver amount out w).0 ≡ ok receipt
      → (r : redis.Server) × (redis.delete (invalidated run redis base sender receiver) w.server
          ≡ performed r)
        × ((finish run redis base sender receiver amount out w).1
            ≡ record { server = r; data_base = out.1 })
        × (out.0 ≡ ok tt)
  finish-deleted sender receiver amount (ok u, d) w receipt h =
      deletion (redis.delete (invalidated run redis base sender receiver) w.server) refl h
    where
      deletion :
          (effect : Effect redis.Server)
          → redis.delete (invalidated run redis base sender receiver) w.server ≡ effect
          → (receipt_after run redis base sender receiver amount d effect).0 ≡ ok receipt
          → (r : redis.Server) × (redis.delete (invalidated run redis base sender receiver) w.server
              ≡ performed r)
            × ((receipt_after run redis base sender receiver amount d effect).1
                ≡ record { server = r; data_base = d })
            × (ok tt ≡ ok tt)
      deletion (performed r) e h = (r, e, refl, refl)
      deletion (failed t r) e h = absurd (cc h)
  finish-deleted sender receiver amount (http_error n e, d) w receipt h = absurd (cc h)
  finish-deleted sender receiver amount (crash e, d) w receipt h = absurd (cc h)

  pub transfer-IsMoved :
      (sender receiver : ℤ) (amount : Amount) (w : State run redis base) (receipt : Receipt)
      → (transfer run redis base sender receiver amount w).0 ≡ ok receipt
      → IsMoved run redis base sender receiver amount w.data_base
          (transfer run redis base sender receiver amount w).1.data_base
  unfolding transfer
  transfer-IsMoved sender receiver amount w receipt h =
      let out = attempt run redis base sender receiver amount w.data_base in
      let (r, e, same, fine) = finish-deleted sender receiver amount out w receipt h in
      subst (IsMoved run redis base sender receiver amount w.data_base)
        (sym (finish-data sender receiver amount w.data_base out w))
        (elim (attempt-IsSettled sender receiver amount w.data_base) [
          | inl kept ↦ absurd (kept.0 fine)
          | inr done ↦ done
        ])

  -- An amount of `NaN` between two accounts that exist: a transfer that returns its receipt leaves `NaN`
  -- in both balances, whatever they were.
  pub transfer_nan :
      (sender receiver : ℤ) (b c : Balance) (w : State run redis base) (receipt : Receipt)
      → (transfer run redis base sender receiver nan w).0 ≡ ok receipt
      → base.holds w.data_base sender ≡ some b
      → base.holds w.data_base receiver ≡ some c
      → let d = (transfer run redis base sender receiver nan w).1.data_base in
        (base.holds d sender ≡ some not_a_number) × (base.holds d receiver ≡ some not_a_number)
  transfer_nan sender receiver b c w receipt h hb hc =
      let m = transfer-IsMoved sender receiver nan w receipt h in
      (
        m.written sender
            ∙ ap (moved sender receiver nan sender) hb
            ∙ moved_sender sender receiver nan b
            ∙ ap some (minus_nan b),
        m.written receiver
            ∙ ap (moved sender receiver nan receiver) hc
            ∙ moved_receiver sender receiver nan c m.distinct
            ∙ ap some (plus_nan c),
      )
