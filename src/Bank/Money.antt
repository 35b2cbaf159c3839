-- ===== src/Bank/Money.antt =====
-- Amounts and balances. db/init.sql keeps a balance as `DECIMAL(15, 2)`: a number of cents or `NaN`. An
-- amount of a request is a float: a finite one is the fraction that `repr` prints, which `numeric`
-- arithmetic adds exactly and the column rounds.
use system_design_hse_miem.Prelude.{
  ℕ, suc, Bool, true, false, ◌+◌, ◌*◌, ◌/◌, ◌≡◌, refl, arith, ◌⊎◌, inl, inr,
}
use system_design_hse_miem.Prelude.Int.{
  ℤ, pos, ◌+ℤ◌, ◌-ℤ◌, ◌≤ℤ◌, sub_ℕ, pos_part, neg_part, leb_ℤ, ltb_ℤ,
}

-- `ratio n d` is `n / (d + 1)` cents.
pub data Amount : Type 0 where
  nan infinity minus_infinity : Amount
  ratio : ℤ → ℕ → Amount

pub data Balance : Type 0 where
  not_a_number : Balance
  cents : ℤ → Balance

-- Cents in parts of which `d + 1` are a cent.
abbrev pub parts : ℕ → ℤ → ℤ
parts d b = sub_ℕ (suc d * pos_part b) (suc d * neg_part b)

-- The column rounds to cents, halves away from zero.
unfoldable pub stored : ℤ → ℕ → ℤ
stored u d = sub_ℕ ((2 * pos_part u + suc d) / (2 * suc d)) ((2 * neg_part u + suc d) / (2 * suc d))

-- `amount <= 0`
abbrev pub at_most_zero : Amount → Bool
at_most_zero nan = false
at_most_zero infinity = false
at_most_zero minus_infinity = true
at_most_zero (ratio n d) = leb_ℤ n (pos 0)

-- `float(balance) < amount`
abbrev pub falls_short : Balance → Amount → Bool
falls_short not_a_number amount = false
falls_short (cents b) nan = false
falls_short (cents b) infinity = true
falls_short (cents b) minus_infinity = false
falls_short (cents b) (ratio n d) = ltb_ℤ (parts d b) n

-- `balance - amount` as the column keeps it. It keeps no infinity: PostgreSQL refuses such an update,
-- so the value that is given for it here is never read.
abbrev pub minus : Amount → Balance → Balance
minus amount not_a_number = not_a_number
minus nan (cents b) = not_a_number
minus infinity (cents b) = not_a_number
minus minus_infinity (cents b) = not_a_number
minus (ratio n d) (cents b) = cents (stored (parts d b -ℤ n) d)

-- `balance + amount`, likewise
abbrev pub plus : Amount → Balance → Balance
plus amount not_a_number = not_a_number
plus nan (cents b) = not_a_number
plus infinity (cents b) = not_a_number
plus minus_infinity (cents b) = not_a_number
plus (ratio n d) (cents b) = cents (stored (parts d b +ℤ n) d)

abbrev pub IsPositive : Amount → Type 0
IsPositive nan = ⊥
IsPositive infinity = Unit
IsPositive minus_infinity = ⊥
IsPositive (ratio n d) = pos 1 ≤ℤ n

-- The balance is a number, and so is the amount, which is no greater.
abbrev pub Covers : Balance → Amount → Type 0
Covers not_a_number amount = ⊥
Covers (cents b) nan = ⊥
Covers (cents b) infinity = ⊥
Covers (cents b) minus_infinity = Unit
Covers (cents b) (ratio n d) = n ≤ℤ parts d b

pub at_most_zero-false :
    (amount : Amount) → at_most_zero amount ≡ false → (amount ≡ nan) ⊎ IsPositive amount
at_most_zero-false nan h = inl refl
at_most_zero-false infinity h = inr tt
at_most_zero-false minus_infinity h = absurd (cc h)
at_most_zero-false (ratio n d) h = inr (ground (arith, h))

above : (n m : ℤ) → ltb_ℤ m n ≡ false → n ≤ℤ m
above n m h = ground arith

pub falls_short-false :
    (funds : Balance) (amount : Amount)
    → falls_short funds amount ≡ false
    → (amount ≡ nan) ⊎ ((funds ≡ not_a_number) ⊎ Covers funds amount)
falls_short-false not_a_number amount h = inr (inl refl)
falls_short-false (cents b) nan h = inl refl
falls_short-false (cents b) infinity h = absurd (cc h)
falls_short-false (cents b) minus_infinity h = inr (inr tt)
falls_short-false (cents b) (ratio n d) h = inr (inr (above n (parts d b) h))

pub minus_nan : (b : Balance) → minus nan b ≡ not_a_number
minus_nan not_a_number = refl
minus_nan (cents b) = refl

pub plus_nan : (b : Balance) → plus nan b ≡ not_a_number
plus_nan not_a_number = refl
plus_nan (cents b) = refl

pub stored-sub_cents : (b k : ℤ) → stored (parts 0 b -ℤ k) 0 ≡ b -ℤ k
unfolding stored ◌-ℤ◌
stored-sub_cents b k = ground arith

pub stored-add_cents : (b k : ℤ) → stored (parts 0 b +ℤ k) 0 ≡ b +ℤ k
unfolding stored ◌+ℤ◌
stored-add_cents b k = ground arith

-- Half a cent is not taken from a balance that covers it, and adds a cent to a balance.
pub stored-sub_half :
    (b k : ℤ)
    → pos 0 ≤ℤ k
    → k +ℤ k +ℤ pos 1 ≤ℤ parts 1 b
    → stored (parts 1 b -ℤ (k +ℤ k +ℤ pos 1)) 1 ≡ b -ℤ k
unfolding stored ◌-ℤ◌ ◌+ℤ◌
stored-sub_half b k h covered = ground arith

pub stored-add_half :
    (c k : ℤ)
    → pos 0 ≤ℤ k
    → pos 0 ≤ℤ c
    → stored (parts 1 c +ℤ (k +ℤ k +ℤ pos 1)) 1 ≡ c +ℤ k +ℤ pos 1
unfolding stored ◌+ℤ◌
stored-add_half c k hk hc = ground arith
