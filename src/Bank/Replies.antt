-- ===== src/Bank/Replies.antt =====
-- What the endpoints of main.py answer, the keys of the cache, and the credit score.
use Prim.Native.String.{◌++◌}
use system_design_hse_miem.Prelude.{
  ℕ, String, Bool, true, false, List, Option, none, some, if◌then◌else◌,
}
use system_design_hse_miem.Prelude.Int.{ℤ, pos, negsuc, ◌+ℤ◌, ◌-ℤ◌, min_ℤ, max_ℤ}
use system_design_hse_miem.Bank.Money.{Amount, Balance}
use system_design_hse_miem.Bank.Services.{Sql, returned, raised, Codec, Account, Aggregates, Rate}

-- A value to return, an `HTTPException`, or an exception that no handler catches.
pub data Reply (A : Type 0) : Type 0 where
  ok : A → Reply A
  http_error : ℕ → String → Reply A
  crash : String → Reply A

infixl 10 ◌>>=◌ ◌>>◌
abbrev pub ◌>>=◌ : {A B : Type 0} → Reply A → (A → Reply B) → Reply B
ok a >>= f = f a
http_error n e >>= f = http_error n e
crash e >>= f = crash e

abbrev pub ◌>>◌ : {A B : Type 0} → Reply A → Reply B → Reply B
m >> k = m >>= λ _. k

abbrev pub uncaught : {A : Type 0} → Sql A → Reply A
uncaught (returned a) = ok a
uncaught (raised e) = crash e

-- `except Exception as e: raise HTTPException(status_code=500, detail=str(e))`
abbrev pub caught : {A : Type 0} → Sql A → Reply A
caught (returned a) = ok a
caught (raised e) = http_error 500 e

abbrev pub require : Bool → ℕ → String → Reply Unit
require true n e = ok tt
require false n e = http_error n e

abbrev pub or_404 : {A : Type 0} → Option A → String → Reply A
or_404 none e = http_error 404 e
or_404 (some a) e = ok a

pub data Source : Type 0 where
  cache db : Source

-- The `source`, `ttl_remaining` and payload of a response.
pub record Page (A : Type 0) : Type 0 where
  pub source : Source
  pub ttl_remaining : ℤ
  pub body : A

pub record Summary (Float : Type 0) : Type 0 where
  pub account_id : ℤ
  pub account_number : String
  pub balance : Float
  pub account_type : String
  pub owner_name : String
  pub sent_count : ℕ
  pub recv_count : ℕ
  pub total_sent : Float
  pub total_recv : Float
  pub avg_amount : Float
  pub last_transaction : Option String

pub record Receipt : Type 0 where
  pub transferred : Amount
  pub sender : ℤ
  pub receiver : ℤ
  pub cache_invalidated : List String

-- Python's conversions; the four `points` are the truncated products and quotients of floats in
-- `get_credit_score`, and `grows` is its test on `trend`.
pub record Runtime (Float Activity : Type 0) : Type 0 where
  pub show : ℤ → String
  pub upper : String → String
  pub of_cents : Balance → Float
  pub round2 : Float → Float
  pub floats : Codec Float
  pub ints : Codec ℤ
  pub rates : Codec (List (Rate Float))
  pub summaries : Codec (Summary Float)
  pub tx_points : Activity → ℤ
  pub income_points : Activity → ℤ
  pub spent_points : Activity → ℤ
  pub month_points : Activity → ℤ
  pub grows : Activity → Bool

-- The state that the handlers share: the Redis server and the database.
pub record World (Server Data : Type 0) : Type 0 where
  pub server : Server
  pub data_base : Data

module _ {Float Activity : Type 0} (run : Runtime Float Activity) where
  abbrev pub balance_key : ℤ → String
  balance_key i = "balance:" ++ run.show i

  abbrev pub summary_key : ℤ → String
  summary_key i = "summary:" ++ run.show i

  abbrev pub score_key : ℤ → String
  score_key i = "credit_score:" ++ run.show i

  abbrev pub rates_key : String → String
  rates_key currency = "rates:" ++ run.upper currency

  -- The score from the row of statistics.
  unfoldable pub score_of : Option Activity → ℤ
  score_of none = pos 300
  score_of (some row) =
      let s1 = pos 500 +ℤ min_ℤ (pos 150) (run.tx_points row) in
      let s2 = s1 +ℤ min_ℤ (pos 100) (run.income_points row) in
      let s3 = s2 -ℤ min_ℤ (pos 75) (run.spent_points row) in
      let s4 = s3 +ℤ min_ℤ (pos 50) (run.month_points row) in
      let s5 = s4 +ℤ (if run.grows row then pos 25 else negsuc 9) in
      max_ℤ (pos 300) (min_ℤ (pos 850) s5)

  abbrev pub summary_of : ℤ → Account → Aggregates Float → Summary Float
  summary_of i a g = record {
    account_id = i;
    account_number = a.account_number;
    balance = run.of_cents a.balance;
    account_type = a.account_type;
    owner_name = a.owner_name;
    sent_count = g.sent_count;
    recv_count = g.recv_count;
    total_sent = run.of_cents g.total_sent;
    total_recv = run.of_cents g.total_recv;
    avg_amount = run.round2 g.avg_amount;
    last_transaction = g.last_tx;
  }
