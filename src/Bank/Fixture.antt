-- ===== src/Bank/Fixture.antt =====
-- Redis as a function and a database of balances: the documented behaviour that the properties rely
-- on can be met.
use Prim.Native.Char.{code}
use mathlib.Core.Path.{sym}
use Prim.Native.String.compare
use text.Mathlib.Text.{◌==◌ as str_eq, is_eq}
use system_design_hse_miem.Prelude.{
  ℕ, zero, suc, String, true, false, List, [], Option, none, some, ◌≡◌, refl, ap, if◌then◌else◌,
  ◌==◌,
}
use system_design_hse_miem.Prelude.Int.{ℤ, pos, negsuc, eqb_ℤ}
use system_design_hse_miem.Bank.Money.{Balance, not_a_number, cents, minus, plus}
use system_design_hse_miem.Bank.Services.{
  returned, raised, performed, failed, map_balance, Codec, IsCodec, Redis, Database, is_listed,
}
use system_design_hse_miem.Bank.Replies.{Runtime}
use system_design_hse_miem.Bank.Handlers.{State}

-- A number in strokes behind its sign.
unfoldable pub strokes : ℕ → String
strokes zero = ""
strokes (suc n) = String.◌∷◌ "|" (strokes n)

count : String → ℕ
count String.[] = zero
count (String.◌∷◌ c s) = suc (count s)

count-strokes : (n : ℕ) → count (strokes n) ≡ n
unfolding count strokes
count-strokes zero = refl
count-strokes (suc n) = ap suc (count-strokes n)

unfoldable pub write : ℤ → String
unfolding strokes
write (pos n) = String.◌∷◌ "+" (strokes n)
write (negsuc n) = String.◌∷◌ "-" (strokes n)

pub read : String → Option ℤ
unfolding count
read String.[] = none
read (String.◌∷◌ c s) = some (if code c == b'+' then pos (count s) else negsuc (count s))

abbrev signed : Codec ℤ
signed = record { write = write; read = read }

read-write : (a : ℤ) → read (write a) ≡ some a
unfolding read write
read-write (pos n) = ap (λ k. some (pos k)) (count-strokes n)
read-write (negsuc n) = ap (λ k. some (negsuc k)) (count-strokes n)

write_nonempty : (a : ℤ) → str_eq (write a) "" ≡ false
unfolding write
write_nonempty (pos n) = ap is_eq (compare.cons-nil "+" (strokes n))
write_nonempty (negsuc n) = ap is_eq (compare.cons-nil "-" (strokes n))

pub signed-IsCodec : IsCodec signed
signed-IsCodec = record { read-write = read-write; write_nonempty = write_nonempty }

abbrev set : String → Option String → (String → Option String) → String → Option String
set k v r j = if str_eq k j then v else r j

abbrev pub without : List String → (String → Option String) → String → Option String
without ks r j = if is_listed j ks then none else r j

pub performed-injective : {A : Type 0} {a b : A} → performed a ≡ performed b → a ≡ b
performed-injective e = cc

pub no_failure : {A : Type 0} {a b : A} {e : String} → performed a ≡ failed e b → ⊥
no_failure h = cc h

-- Keys that never expire before they are read.
abbrev pub redis : Redis
redis = record {
  Server = String → Option String;
  get = λ k r. r k;
  ttl = λ k r. pos 30;
  setex = λ k t v r. set k (some v) r;
  delete = λ ks r. performed (without ks r);
  flushdb = λ r j. none;
  get-setex = λ k j v t r long. refl;
  get-delete = λ j ks r r' e. ap (λ f. f j) (sym (performed-injective e));
  get-flushdb = λ j r. refl;
}

abbrev id_of : ℤ → Option Balance → Option ℤ
id_of i none = none
id_of i (some b) = some i

abbrev pub update : (Balance → Balance) → ℤ → (ℤ → Option Balance) → ℤ → Option Balance
update f i d j = if eqb_ℤ i j then map_balance f (d j) else d j

pub returned-injective : {A : Type 0} {a b : A} → returned a ≡ returned b → a ≡ b
returned-injective e = cc

-- The balances alone: no transactions and no rates.
abbrev pub base : Database ℤ ℤ
base = record {
  Data = ℤ → Option Balance;
  holds = λ d i. d i;
  connect = λ d. returned tt;
  select_rates = λ c d. returned [];
  select_account = λ i d. returned none;
  select_aggregates = λ i d. raised "no transactions";
  select_id = λ i d. returned (id_of i (d i));
  select_sleep = λ d. returned tt;
  select_activity = λ i d. returned none;
  select_balance = λ i d. returned (d i);
  select_balance_for_update = λ i d. returned (d i);
  subtract_balance = λ amount i d. returned (update (minus amount) i d);
  add_balance = λ amount i d. returned (update (plus amount) i d);
  insert_transaction = λ i k amount d. returned d;
  commit = λ seen d. performed seen;
  rollback = λ d. returned tt;
  select_balance-holds = λ i d b e. sym (returned-injective e);
  for_update-holds = λ i d b e. sym (returned-injective e);
  subtract-holds = λ amount i j d d' e. ap (λ f. f j) (sym (returned-injective e));
  add-holds = λ amount i j d d' e. ap (λ f. f j) (sym (returned-injective e));
  insert-holds = λ i k amount j d d' e. ap (λ f. f j) (sym (returned-injective e));
  commit-holds = λ j seen d d' e. ap (λ f. f j) (sym (performed-injective e));
  commit_failed-holds = λ e seen d d' h. absurd (no_failure h);
}

abbrev number : Balance → ℤ
number not_a_number = pos 0
number (cents b) = b

-- A float is a number of cents, and an activity the points of its transactions.
abbrev pub run : Runtime ℤ ℤ
run = record {
  show = write;
  upper = λ s. s;
  of_cents = number;
  round2 = λ c. c;
  floats = signed;
  ints = signed;
  rates = record { write = λ rs. "rates"; read = λ s. none };
  summaries = record { write = λ s. "summary"; read = λ s. none };
  tx_points = λ a. a;
  income_points = λ a. a;
  spent_points = λ a. a;
  month_points = λ a. a;
  grows = λ a. true;
}

-- Account 1 holds 10.00 and account 2 holds 5.00.
abbrev pub accounts : ℤ → Option Balance
accounts i =
    if eqb_ℤ i (pos 1)
    then some (cents (pos 1000))
    else if eqb_ℤ i (pos 2)
    then some (cents (pos 500))
    else none

abbrev pub start : State run redis base
start = record { server = λ j. none; data_base = accounts }
