-- ===== src/Bank/Stale.antt =====
-- A read and a transfer at the same time: the two steps of a cache miss around a transfer.
use mathlib.Core.Path.{subst}
use system_design_hse_miem.Prelude.{Option, none, some, ◌≡◌, sym, ap, ◌∙◌, arith, ◌⊎◌, inl, inr}
use system_design_hse_miem.Prelude.Int.{ℤ, pos, ◌-ℤ◌, ◌≤ℤ◌}
use system_design_hse_miem.Bank.Money.{nan, ratio, Balance, cents, IsPositive, stored-sub_cents}
use system_design_hse_miem.Bank.Services.{Sql, returned, raised, IsCodec, Redis, Database}
use system_design_hse_miem.Bank.Replies.{ok, uncaught, or_404, cache, Receipt, Runtime, balance_key}
use system_design_hse_miem.Bank.Handlers.{State, transfer, find_balance, get_balance, remember}
use system_design_hse_miem.Bank.Updates.{>>=-eq-ok, moved, moved_sender}
use system_design_hse_miem.Bank.Transfers.{transfer-IsMoved}
use system_design_hse_miem.Bank.Reads.{ok-injective, again, transfer-deletes}

module _ {Float Activity : Type 0} (run : Runtime Float Activity) (redis : Redis)
    (base : Database Float Activity) where
  -- A miss of GET balance in two steps: the database is read at `w`, the key is written at `w'`.
  unfoldable pub late_store : ℤ → State run redis base → State run redis base → State run redis base
  late_store i w w' =
      (remember run redis base run.floats (balance_key run i) 30
        (find_balance run redis base i w.data_base) w').1

  late_store-eq :
      (i : ℤ) (v : Float) (w w' : State run redis base)
      → find_balance run redis base i w.data_base ≡ ok v
      → late_store i w w'
        ≡ record w' { server = redis.setex (balance_key run i) 30 (run.floats.write v) w'.server }
  unfolding late_store
  late_store-eq i v w w' e =
      ap (λ found. (remember run redis base run.floats (balance_key run i) 30 found w').1) e

  uncaught-eq-ok : {A : Type 0} (s : Sql A) {a : A} → uncaught s ≡ ok a → s ≡ returned a
  uncaught-eq-ok (returned b) h = cc
  uncaught-eq-ok (raised e) h = absurd (cc h)

  known :
      {A : Type 0} (o : Option A) {a b : A}
      → or_404 o "Account not found" ≡ ok a
      → o ≡ some b
      → a ≡ b
  known none h e = absurd (cc h)
  known (some x) h e = sym (ok-injective h) ∙ cc e

  -- What the first step has found.
  found-holds :
      (i : ℤ) (b : Balance) (v : Float) (d : base.Data)
      → find_balance run redis base i d ≡ ok v
      → base.holds d i ≡ some b
      → v ≡ run.of_cents b
  unfolding find_balance
  found-holds i b v d h held =
      let (u, e1, h1) = >>=-eq-ok run redis base (uncaught (base.connect d)) _ h in
      let (row, e2, h2) = >>=-eq-ok run redis base (uncaught (base.select_balance i d)) _ h1 in
      let (balance, e3, h3) = >>=-eq-ok run redis base (or_404 row "Account not found") _ h2 in
      let same : row ≡ some b =
        base.select_balance-holds i d row (uncaught-eq-ok (base.select_balance i d) e2) ∙ held in
      sym (ok-injective h3) ∙ ap run.of_cents (known row e3 same)

  positive_cents : (k : ℤ) → (ratio k 0 ≡ nan) ⊎ IsPositive (ratio k 0) → pos 1 ≤ℤ k
  positive_cents k (inl e) = absurd (cc e)
  positive_cents k (inr h) = h

  -- Floats are read back as they were written, and a transfer of whole cents that returns its receipt
  -- runs between the two steps of a read that found the sender's balance of `b` cents. Then the
  -- transfer has deleted the key of the balance and has taken a positive number of cents from the
  -- balance, but after the second step the old balance is answered from the cache.
  pub transfer_between_steps :
      (sender receiver k b : ℤ) (v : Float) (w : State run redis base) (receipt : Receipt)
      → IsCodec run.floats
      → (transfer run redis base sender receiver (ratio k 0) w).0 ≡ ok receipt
      → base.holds w.data_base sender ≡ some (cents b)
      → find_balance run redis base sender w.data_base ≡ ok v
      → let w' = (transfer run redis base sender receiver (ratio k 0) w).1 in
        let late = late_store sender w w' in
        (redis.get (balance_key run sender) w'.server ≡ none)
        × (pos 1 ≤ℤ k)
        × (base.holds late.data_base sender ≡ some (cents (b -ℤ k)))
        × (get_balance run redis base sender late ≡ (
          ok (record {
            source = cache;
            ttl_remaining = redis.ttl (balance_key run sender) late.server;
            body = run.of_cents (cents b);
          }),
          late,
        ))
  transfer_between_steps sender receiver k b v w receipt faithful h held e =
      let w' = (transfer run redis base sender receiver (ratio k 0) w).1 in
      let m = transfer-IsMoved run redis base sender receiver (ratio k 0) w receipt h in
      let old = e ∙ ap ok (found-holds sender (cents b) v w.data_base e held) in
      let stored_late = late_store-eq sender (run.of_cents (cents b)) w w' old in
      (
        transfer-deletes run redis base sender receiver (ratio k 0) w receipt h,
        positive_cents k m.positive,
        ap (λ late. base.holds late.data_base sender) stored_late
            ∙ m.written sender
            ∙ ap (moved sender receiver (ratio k 0) sender) held
            ∙ moved_sender sender receiver (ratio k 0) (cents b)
            ∙ ap (λ n. some (cents n)) (stored-sub_cents b k),
        subst
            (λ late. get_balance run redis base sender late ≡ (
              ok (record {
                source = cache;
                ttl_remaining = redis.ttl (balance_key run sender) late.server;
                body = run.of_cents (cents b);
              }),
              late,
            ))
            (sym stored_late)
            (unfold get_balance in
              again run redis base run.floats (balance_key run sender) 30 (omega arith) faithful
                (run.of_cents (cents b)) w' (find_balance run redis base sender w'.data_base)
                w'.data_base),
      )
