-- ===== src/Bank/Tests.antt =====
-- Runs of the endpoints of main.py over two accounts, and the properties at these runs.
use system_design_hse_miem.Prelude.{ℕ, zero, suc, ◌<◌, false, none, some, ◌≡◌, refl, arith}
use system_design_hse_miem.Prelude.Int.{ℤ, pos, ◌+ℤ◌, ◌-ℤ◌, ◌≤ℤ◌}
use system_design_hse_miem.Bank.Money.{Amount, nan, ratio, not_a_number, cents, stored}
use system_design_hse_miem.Bank.Services.{Sql, returned, raised}
use system_design_hse_miem.Bank.Replies.{
  ok, http_error, cache, db, Page, Receipt, score_of, balance_key,
}
use system_design_hse_miem.Bank.Handlers.{
  move_money, attempt, transfer, get_balance, find_balance, invalidated,
}
use system_design_hse_miem.Bank.Transfers.{transfer_nan}
use system_design_hse_miem.Bank.Cents.{transfer_whole_cents, transfer_half_cent}
use system_design_hse_miem.Bank.Reads.{ReadsThrough, get_balance-again, transfer-ReadsThrough}
use system_design_hse_miem.Bank.Stale.{late_store, transfer_between_steps}
use system_design_hse_miem.Bank.Score.{score_of-HasPoints}
use system_design_hse_miem.Bank.Startup.{
  ready, runtime_error, lifespan, is_loaded, raises, lifespan-ready, lifespan-fails,
}
use system_design_hse_miem.Bank.Fixture.{
  strokes, write, signed-IsCodec, redis, base, run, accounts, start,
}

-- 3.00 and 20.00
abbrev three : Amount
three = ratio (pos 300) 0

abbrev twenty : Amount
twenty = ratio (pos 2000) 0

abbrev receipt : Amount → Receipt
receipt amount = record {
  transferred = amount;
  sender = pos 1;
  receiver = pos 2;
  cache_invalidated = invalidated run redis base (pos 1) (pos 2);
}

confirmed : (transfer run redis base (pos 1) (pos 2) three start).0 ≡ ok (receipt three)
unfolding transfer attempt move_money write strokes stored ◌-ℤ◌ ◌+ℤ◌
confirmed = refl

rejected :
    (transfer run redis base (pos 1) (pos 2) twenty start).0 ≡ http_error 400 "Insufficient funds"
unfolding transfer attempt move_money write strokes stored ◌-ℤ◌ ◌+ℤ◌
rejected = refl

nan_confirmed : (transfer run redis base (pos 1) (pos 2) nan start).0 ≡ ok (receipt nan)
unfolding transfer attempt move_money write strokes
nan_confirmed = refl

transfer_nan_example :
    let d = (transfer run redis base (pos 1) (pos 2) nan start).1.data_base in
    (base.holds d (pos 1) ≡ some not_a_number) × (base.holds d (pos 2) ≡ some not_a_number)
transfer_nan_example =
    transfer_nan run redis base (pos 1) (pos 2) (cents (pos 1000)) (cents (pos 500)) start
      (receipt nan) nan_confirmed refl refl

transfer_whole_cents_example :
    let d = (transfer run redis base (pos 1) (pos 2) three start).1.data_base in
    (base.holds d (pos 1) ≡ some (cents (pos 1000 -ℤ pos 300)))
    × (base.holds d (pos 2) ≡ some (cents (pos 500 +ℤ pos 300)))
transfer_whole_cents_example =
    transfer_whole_cents run redis base (pos 1) (pos 2) (pos 300) (pos 1000) (pos 500) start
      (receipt three) confirmed refl refl

abbrev odd_amount : Amount
odd_amount = ratio (pos 300 +ℤ pos 300 +ℤ pos 1) 1

half_confirmed :
    (transfer run redis base (pos 1) (pos 2) odd_amount start).0 ≡ ok (receipt odd_amount)
unfolding transfer attempt move_money write strokes stored ◌-ℤ◌ ◌+ℤ◌
half_confirmed = refl

transfer_half_cent_example :
    let d = (transfer run redis base (pos 1) (pos 2) odd_amount start).1.data_base in
    (base.holds d (pos 1) ≡ some (cents (pos 1000 -ℤ pos 300)))
    × (base.holds d (pos 2) ≡ some (cents (pos 500 +ℤ pos 300 +ℤ pos 1)))
transfer_half_cent_example =
    transfer_half_cent run redis base (pos 1) (pos 2) (pos 300) (pos 1000) (pos 500) start
      (receipt odd_amount) half_confirmed refl refl (omega arith) (omega arith)

abbrev first_page : Page ℤ
first_page = record { source = db; ttl_remaining = pos 30; body = pos 1000 }

missed : (get_balance run redis base (pos 1) start).0 ≡ ok first_page
unfolding get_balance find_balance
missed = refl

get_balance-again_example :
    let r = (get_balance run redis base (pos 1) start).1.server in
    get_balance run redis base (pos 1) (record { server = r; data_base = λ i. none }) ≡ (
      ok (record { source = cache; ttl_remaining = pos 30; body = pos 1000 }),
      record { server = r; data_base = λ i. none },
    )
get_balance-again_example =
    get_balance-again run redis base (pos 1) start first_page (λ i. none) signed-IsCodec missed refl

transfer-ReadsThrough_example :
    let w = (transfer run redis base (pos 1) (pos 2) three start).1 in
    ReadsThrough run redis base (pos 1) w × ReadsThrough run redis base (pos 2) w
transfer-ReadsThrough_example =
    transfer-ReadsThrough run redis base (pos 1) (pos 2) three start (receipt three) confirmed

found : find_balance run redis base (pos 1) accounts ≡ ok (pos 1000)
unfolding find_balance
found = refl

transfer_between_steps_example :
    let w = (transfer run redis base (pos 1) (pos 2) three start).1 in
    let late = late_store run redis base (pos 1) start w in
    (redis.get (balance_key run (pos 1)) w.server ≡ none)
    × (pos 1 ≤ℤ pos 300)
    × (base.holds late.data_base (pos 1) ≡ some (cents (pos 1000 -ℤ pos 300)))
    × (get_balance run redis base (pos 1) late
        ≡ (ok (record { source = cache; ttl_remaining = pos 30; body = pos 1000 }), late))
transfer_between_steps_example =
    transfer_between_steps run redis base (pos 1) (pos 2) (pos 300) (pos 1000) (pos 1000) start
      (receipt three) signed-IsCodec confirmed refl found

score_of-HasPoints_example :
    (pos 415 ≤ℤ score_of run (some (pos 40))) × (score_of run (some (pos 40)) ≤ℤ pos 825)
score_of-HasPoints_example =
    score_of-HasPoints run (pos 40)
      (record { tx = omega arith; income = omega arith; spent = omega arith; month = omega arith })

-- An exception, an empty table, then 250 transactions.
abbrev slow_start : ℕ → Sql ℕ
slow_start zero = raised "the database is starting"
slow_start (suc zero) = returned 0
slow_start (suc (suc i)) = returned 250

slow_start-unloaded : (j : ℕ) → j < 2 → is_loaded (slow_start j) ≡ false
slow_start-unloaded zero h = refl
slow_start-unloaded (suc zero) h = refl
slow_start-unloaded (suc (suc j)) h = absurd (omega arith)

lifespan-ready_example : lifespan slow_start ≡ record { outcome = ready 2; naps = 1 }
lifespan-ready_example = lifespan-ready 2 slow_start (omega arith) slow_start-unloaded refl

lifespan-fails_example :
    lifespan (λ i. returned 0)
    ≡ record { outcome = runtime_error; naps = raises 60 0 (λ i. returned 0) }
lifespan-fails_example = lifespan-fails (λ i. returned 0) (λ j h. refl)
