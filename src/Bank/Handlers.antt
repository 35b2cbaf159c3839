-- ===== src/Bank/Handlers.antt =====
-- The endpoints of main.py. A handler takes the state of Redis and of the database and returns the
-- response and both. Opening and closing a connection or a cursor leaves no trace in them.
use text.Mathlib.Text.{◌==◌}
use system_design_hse_miem.Prelude.{
  ℕ, String, not, List, [], ◌∷◌, Option, none, some, if◌then◌else◌,
}
use system_design_hse_miem.Prelude.Int.{ℤ, pos, eqb_ℤ}
use system_design_hse_miem.Bank.Money.{Amount, at_most_zero, falls_short}
use system_design_hse_miem.Bank.Services.{
  Sql, returned, raised, Effect, performed, failed, Codec, Redis, Rate, Database,
}
use system_design_hse_miem.Bank.Replies.{
  Reply, ok, http_error, crash, ◌>>=◌, ◌>>◌, uncaught, caught, require, or_404, cache, db, Page,
  Summary, Receipt, World, Runtime, balance_key, summary_key, score_key, rates_key, score_of,
  summary_of,
}

-- `if cached`
abbrev pub truthy : Option String → Option String
truthy none = none
truthy (some v) = if v == "" then none else some v

abbrev pub from_cache : {A : Type 0} → Option A → ℤ → Reply (Page A)
from_cache none t = crash "ValueError"
from_cache (some a) t = ok (record { source = cache; ttl_remaining = t; body = a })

module _ {Float Activity : Type 0} (run : Runtime Float Activity) (redis : Redis)
    (base : Database Float Activity) where
  abbrev pub State : Type 0
  State = World redis.Server base.Data

  module _ {A : Type 0} (codec : Codec A) (key : String) (seconds : ℕ) where
    -- A miss: what was found is kept for `seconds`; an exception keeps nothing.
    abbrev pub remember : Reply A → State → Reply (Page A) × State
    remember (ok a) w = (
      ok (record { source = db; ttl_remaining = pos seconds; body = a }),
      record w { server = redis.setex key seconds (codec.write a) w.server },
    )
    remember (http_error n e) w = (http_error n e, w)
    remember (crash e) w = (crash e, w)

    abbrev pub answer : Option String → Reply A → State → Reply (Page A) × State
    answer (some v) found w = (from_cache (codec.read v) (redis.ttl key w.server), w)
    answer none found w = remember found w

    -- The shape of the four read endpoints: the cache, then the database.
    abbrev pub cache_aside : Reply A → State → Reply (Page A) × State
    cache_aside found w = answer (truthy (redis.get key w.server)) found w

  abbrev pub some_rates : List (Rate Float) → Reply (List (Rate Float))
  some_rates [] = http_error 404 "Currency not found"
  some_rates (r ∷ rs) = ok (r ∷ rs)

  unfoldable pub find_rates : String → base.Data → Reply (List (Rate Float))
  find_rates currency d = do
    uncaught (base.connect d)
    rows ← uncaught (base.select_rates (run.upper currency) d)
    some_rates rows

  unfoldable pub get_exchange_rates : String → State → Reply (Page (List (Rate Float))) × State
  unfolding find_rates
  get_exchange_rates currency w =
      cache_aside run.rates (rates_key run currency) 3600 (find_rates currency w.data_base) w

  unfoldable pub find_summary : ℤ → base.Data → Reply (Summary Float)
  find_summary i d = do
    uncaught (base.connect d)
    row ← uncaught (base.select_account i d)
    account ← or_404 row "Account not found"
    stats ← uncaught (base.select_aggregates i d)
    ok (summary_of run i account stats)

  unfoldable pub get_account_summary : ℤ → State → Reply (Page (Summary Float)) × State
  unfolding find_summary
  get_account_summary i w =
      cache_aside run.summaries (summary_key run i) 300 (find_summary i w.data_base) w

  unfoldable pub find_score : ℤ → base.Data → Reply ℤ
  unfolding score_of
  find_score i d = do
    uncaught (base.connect d)
    row ← uncaught (base.select_id i d)
    or_404 row "Account not found"
    uncaught (base.select_sleep d)
    stats ← uncaught (base.select_activity i d)
    ok (score_of run stats)

  unfoldable pub get_credit_score : ℤ → State → Reply (Page ℤ) × State
  unfolding find_score
  get_credit_score i w = cache_aside run.ints (score_key run i) 86400 (find_score i w.data_base) w

  unfoldable pub find_balance : ℤ → base.Data → Reply Float
  find_balance i d = do
    uncaught (base.connect d)
    row ← uncaught (base.select_balance i d)
    balance ← or_404 row "Account not found"
    ok (run.of_cents balance)

  unfoldable pub get_balance : ℤ → State → Reply (Page Float) × State
  unfolding find_balance
  get_balance i w = cache_aside run.floats (balance_key run i) 30 (find_balance i w.data_base) w

  -- The `try` of `transfer` up to `conn.commit()`, on the data that its connection sees.
  unfoldable pub move_money : ℤ → ℤ → Amount → base.Data → Reply base.Data
  move_money sender receiver amount d = do
    row ← caught (base.select_balance_for_update sender d)
    funds ← or_404 row "Source account not found"
    require (not (falls_short funds amount)) 400 "Insufficient funds"
    found ← caught (base.select_id receiver d)
    or_404 found "Destination account not found"
    taken ← caught (base.subtract_balance amount sender d)
    given ← caught (base.add_balance amount receiver taken)
    caught (base.insert_transaction sender receiver amount given)

  -- `conn.rollback()`, whose own exception takes the place of the reply.
  abbrev pub rolled_back : Sql Unit → Reply Unit → Reply Unit
  rolled_back (returned u) reply = reply
  rolled_back (raised e) reply = crash e

  abbrev pub committed : Effect base.Data → Reply Unit × base.Data
  committed (performed d) = (ok tt, d)
  committed (failed e d) = (rolled_back (base.rollback d) (http_error 500 e), d)

  -- `conn.commit()` and the two `except` branches; and what the database holds then.
  abbrev pub end_try : Reply base.Data → base.Data → Reply Unit × base.Data
  end_try (ok seen) d = committed (base.commit seen d)
  end_try (http_error n e) d = (rolled_back (base.rollback d) (http_error n e), d)
  end_try (crash e) d = (rolled_back (base.rollback d) (http_error 500 e), d)

  abbrev pub guarded : Reply Unit → Reply Unit × base.Data → base.Data → Reply Unit × base.Data
  guarded (ok u) tried d = tried
  guarded (http_error n e) tried d = (http_error n e, d)
  guarded (crash e) tried d = (crash e, d)

  -- The guards and the connection.
  abbrev pub guards : ℤ → ℤ → Amount → base.Data → Reply Unit
  guards sender receiver amount d = do
    require (not (at_most_zero amount)) 400 "Amount must be positive"
    require (not (eqb_ℤ sender receiver)) 400 "Cannot transfer to the same account"
    uncaught (base.connect d)

  unfoldable pub attempt : ℤ → ℤ → Amount → base.Data → Reply Unit × base.Data
  unfolding move_money
  attempt sender receiver amount d =
      guarded (guards sender receiver amount d) (end_try (move_money sender receiver amount d) d) d

  abbrev pub invalidated : ℤ → ℤ → List String
  invalidated sender receiver =
      balance_key run sender
      ∷ balance_key run receiver
      ∷ summary_key run sender
      ∷ summary_key run receiver
      ∷ []

  -- `r.delete(*invalidated)` behind the commit; its exception is not caught.
  abbrev pub receipt_after :
      ℤ → ℤ → Amount → base.Data → Effect redis.Server → Reply Receipt × State
  receipt_after sender receiver amount d (performed r) = (
    ok (record {
      transferred = amount;
      sender = sender;
      receiver = receiver;
      cache_invalidated = invalidated sender receiver;
    }),
    record { server = r; data_base = d },
  )
  receipt_after sender receiver amount d (failed e r) =
      (crash e, record { server = r; data_base = d })

  abbrev pub finish : ℤ → ℤ → Amount → Reply Unit × base.Data → State → Reply Receipt × State
  finish sender receiver amount (ok u, d) w =
      receipt_after sender receiver amount d (redis.delete (invalidated sender receiver) w.server)
  finish sender receiver amount (http_error n e, d) w = (http_error n e, record w { data_base = d })
  finish sender receiver amount (crash e, d) w = (crash e, record w { data_base = d })

  unfoldable pub transfer : ℤ → ℤ → Amount → State → Reply Receipt × State
  unfolding attempt
  transfer sender receiver amount w =
      finish sender receiver amount (attempt sender receiver amount w.data_base) w

  unfoldable pub clear_cache : State → State
  clear_cache w = record w { server = redis.flushdb w.server }
