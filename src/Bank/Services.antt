-- ===== src/Bank/Services.antt =====
-- What main.py calls and does not implement: Redis, PostgreSQL (through psycopg2), floats and JSON.
use text.Mathlib.Text.{◌==◌}
use system_design_hse_miem.Prelude.{
  ℕ, ◌<◌, String, Bool, false, ◌||◌, List, [], ◌∷◌, Option, none, some, ◌≡◌, if◌then◌else◌, ◌⊎◌,
}
use system_design_hse_miem.Prelude.Int.{ℤ, eqb_ℤ}
use system_design_hse_miem.Bank.Money.{Amount, Balance, minus, plus}

-- The result of a statement, or the text of the exception.
pub data Sql (A : Type 0) : Type 0 where
  returned : A → Sql A
  raised : String → Sql A

-- A request that writes: what it writes to, as it is afterwards. One that fails may have been done.
pub data Effect (S : Type 0) : Type 0 where
  performed : S → Effect S
  failed : String → S → Effect S

-- A printer and its reader: `str` and `float` or `int`, `json.dumps` and `json.loads`.
pub record Codec (A : Type 0) : Type 0 where
  pub write : A → String
  pub read : String → Option A

-- What is read back is what was written, and no text is empty.
pub record IsCodec {A : Type 0} (codec : Codec A) : Type 0 where
  pub read-write : (a : A) → codec.read (codec.write a) ≡ some a
  pub write_nonempty : (a : A) → (codec.write a == "") ≡ false

abbrev pub is_listed : String → List String → Bool
is_listed k [] = false
is_listed k (j ∷ ks) = j == k || is_listed k ks

-- A Redis server. Reads do not change it; `get` is `none` for a key that is absent or expired.
pub record Redis : Type 1 where
  pub Server : Type 0
  pub get : String → Server → Option String
  pub ttl : String → Server → ℤ
  pub setex : String → ℕ → String → Server → Server
  pub delete : List String → Server → Effect Server
  pub flushdb : Server → Server
  pub get-setex :
      (k j v : String) (t : ℕ) (r : Server)
      → 0 < t
      → get j (setex k t v r) ≡ (if k == j then some v else get j r)
  pub get-delete :
      (j : String) (ks : List String) (r r' : Server)
      → delete ks r ≡ performed r'
      → get j r' ≡ (if is_listed j ks then none else get j r)
  pub get-flushdb : (j : String) (r : Server) → get j (flushdb r) ≡ none

-- A row of `accounts`
pub record Account : Type 0 where
  pub account_number : String
  pub balance : Balance
  pub account_type : String
  pub owner_name : String

-- The row of aggregates over `transactions`; times are as `str` prints them.
pub record Aggregates (Float : Type 0) : Type 0 where
  pub sent_count : ℕ
  pub recv_count : ℕ
  pub total_sent : Balance
  pub total_recv : Balance
  pub avg_amount : Float
  pub last_tx : Option String

-- A row of `exchange_rates`: the currency, the rate and the time.
pub record Rate (Float : Type 0) : Type 0 where
  pub to_currency : String
  pub rate : Float
  pub updated_at : String

abbrev pub map_balance : (Balance → Balance) → Option Balance → Option Balance
map_balance f none = none
map_balance f (some b) = some (f b)

-- The database, each SQL statement of main.py a field. `holds d i` is the balance of account `i` in
-- `d`; the laws say what the statements read and write of it. A statement works on the data that its
-- connection sees; `commit` takes these and what the database holds, and `rollback` gives them up, so
-- that what the database holds stays. A commit that fails has been done or not.
pub record Database (Float Activity : Type 0) : Type 1 where
  pub Data : Type 0
  pub holds : Data → ℤ → Option Balance
  pub connect : Data → Sql Unit
  pub select_rates : String → Data → Sql (List (Rate Float))
  pub select_account : ℤ → Data → Sql (Option Account)
  pub select_aggregates : ℤ → Data → Sql (Aggregates Float)
  pub select_id : ℤ → Data → Sql (Option ℤ)
  pub select_sleep : Data → Sql Unit
  pub select_activity : ℤ → Data → Sql (Option Activity)
  pub select_balance : ℤ → Data → Sql (Option Balance)
  pub select_balance_for_update : ℤ → Data → Sql (Option Balance)
  pub subtract_balance : Amount → ℤ → Data → Sql Data
  pub add_balance : Amount → ℤ → Data → Sql Data
  pub insert_transaction : ℤ → ℤ → Amount → Data → Sql Data
  pub commit : Data → Data → Effect Data
  pub rollback : Data → Sql Unit
  pub select_balance-holds :
      (i : ℤ) (d : Data) (b : Option Balance) → select_balance i d ≡ returned b → b ≡ holds d i
  pub for_update-holds :
      (i : ℤ) (d : Data) (b : Option Balance)
      → select_balance_for_update i d ≡ returned b
      → b ≡ holds d i
  -- `UPDATE accounts SET balance = balance - amount WHERE id = i`
  pub subtract-holds :
      (amount : Amount) (i j : ℤ) (d d' : Data)
      → subtract_balance amount i d ≡ returned d'
      → holds d' j ≡ (if eqb_ℤ i j then map_balance (minus amount) (holds d j) else holds d j)
  pub add-holds :
      (amount : Amount) (i j : ℤ) (d d' : Data)
      → add_balance amount i d ≡ returned d'
      → holds d' j ≡ (if eqb_ℤ i j then map_balance (plus amount) (holds d j) else holds d j)
  pub insert-holds :
      (i k : ℤ) (amount : Amount) (j : ℤ) (d d' : Data)
      → insert_transaction i k amount d ≡ returned d'
      → holds d' j ≡ holds d j
  pub commit-holds :
      (j : ℤ) (seen d d' : Data) → commit seen d ≡ performed d' → holds d' j ≡ holds seen j
  pub commit_failed-holds :
      (e : String) (seen d d' : Data)
      → commit seen d ≡ failed e d'
      → ((j : ℤ) → holds d' j ≡ holds d j) ⊎ ((j : ℤ) → holds d' j ≡ holds seen j)
