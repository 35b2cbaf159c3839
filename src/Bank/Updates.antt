-- ===== src/Bank/Updates.antt =====
-- What the statements of `transfer` do to the balances.
use system_design_hse_miem.Prelude.{
  ℕ, String, Bool, true, false, not, Option, none, some, if◌then◌else◌, ◌≡◌, refl, sym, ◌∙◌, arith,
  ◌⊎◌,
}
use system_design_hse_miem.Prelude.Int.{ℤ, eqb_ℤ}
use system_design_hse_miem.Bank.Money.{
  Amount, nan, Balance, not_a_number, falls_short, minus, plus, IsPositive, Covers,
}
use system_design_hse_miem.Bank.Services.{Sql, returned, raised, map_balance, Redis, Database}
use system_design_hse_miem.Bank.Replies.{
  Reply, ok, http_error, crash, ◌>>=◌, caught, require, or_404, Runtime,
}
use system_design_hse_miem.Bank.Handlers.{move_money}

-- The balance of account `j` after a transfer, from the one before.
abbrev pub moved : ℤ → ℤ → Amount → ℤ → Option Balance → Option Balance
moved sender receiver amount j before =
    if eqb_ℤ sender j
    then map_balance (minus amount) before
    else if eqb_ℤ receiver j
    then map_balance (plus amount) before
    else before

pub moved_sender :
    (sender receiver : ℤ) (amount : Amount) (b : Balance)
    → moved sender receiver amount sender (some b) ≡ some (minus amount b)
moved_sender sender receiver amount b = ground arith

pub moved_receiver :
    (sender receiver : ℤ) (amount : Amount) (c : Balance)
    → eqb_ℤ sender receiver ≡ false
    → moved sender receiver amount receiver (some c) ≡ some (plus amount c)
moved_receiver sender receiver amount c ne = ground arith

moved-chain :
    (sender receiver j : ℤ) (f g : Balance → Balance) (before taken given : Option Balance)
    → eqb_ℤ sender receiver ≡ false
    → taken ≡ (if eqb_ℤ sender j then map_balance f before else before)
    → given ≡ (if eqb_ℤ receiver j then map_balance g taken else taken)
    → given ≡ (
        if eqb_ℤ sender j
        then map_balance f before
        else if eqb_ℤ receiver j
        then map_balance g before
        else before)
moved-chain sender receiver j f g before taken given ne e1 e2 = ground (arith, e1, e2)

module _ {Float Activity : Type 0} (run : Runtime Float Activity) (redis : Redis)
    (base : Database Float Activity) where
  -- The parts of a bind that returned.
  pub >>=-eq-ok :
      {X Y : Type 0} (reply : Reply X) (next : X → Reply Y) {y : Y}
      → (reply >>= next) ≡ ok y
      → (x : X) × (reply ≡ ok x) × (next x ≡ ok y)
  >>=-eq-ok (ok x) next e = (x, refl, e)
  >>=-eq-ok (http_error n t) next e = cc
  >>=-eq-ok (crash t) next e = cc

  caught-eq-ok : {A : Type 0} (s : Sql A) {a : A} → caught s ≡ ok a → s ≡ returned a
  caught-eq-ok (returned b) h = cc
  caught-eq-ok (raised e) h = cc

  pub require-eq-ok : (b : Bool) (n : ℕ) (e : String) → require b n e ≡ ok tt → b ≡ true
  require-eq-ok true n e h = refl
  require-eq-ok false n e h = cc

  or_404-eq-ok : {A : Type 0} (o : Option A) (e : String) {a : A} → or_404 o e ≡ ok a → o ≡ some a
  or_404-eq-ok none e h = cc
  or_404-eq-ok (some b) e h = cc

  -- What the data of a connection show once the updates have run.
  pub record Updated (sender receiver : ℤ) (amount : Amount) (d seen : base.Data) : Type 0 where
    pub funds : Balance
    pub held : base.holds d sender ≡ some funds
    pub covered : falls_short funds amount ≡ false
    pub written :
        (j : ℤ)
        → eqb_ℤ sender receiver ≡ false
        → base.holds seen j ≡ moved sender receiver amount j (base.holds d j)

  pub move_money-Updated :
      (sender receiver : ℤ) (amount : Amount) (d seen : base.Data)
      → move_money run redis base sender receiver amount d ≡ ok seen
      → Updated sender receiver amount d seen
  unfolding move_money
  move_money-Updated sender receiver amount d seen h =
      let (row, e1, h1) = >>=-eq-ok (caught (base.select_balance_for_update sender d)) _ h in
      let (funds, e2, h2) = >>=-eq-ok (or_404 row "Source account not found") _ h1 in
      let (u, e3, h3) =
        >>=-eq-ok (require (not (falls_short funds amount)) 400 "Insufficient funds") _ h2 in
      let (found, e4, h4) = >>=-eq-ok (caught (base.select_id receiver d)) _ h3 in
      let (i, e5, h5) = >>=-eq-ok (or_404 found "Destination account not found") _ h4 in
      let (taken, e6, h6) = >>=-eq-ok (caught (base.subtract_balance amount sender d)) _ h5 in
      let (given, e7, h7) = >>=-eq-ok (caught (base.add_balance amount receiver taken)) _ h6 in
      let row-holds =
        base.for_update-holds sender d row
          (caught-eq-ok (base.select_balance_for_update sender d) e1) in
      record {
        funds = funds;
        held = sym row-holds ∙ or_404-eq-ok row "Source account not found" e2;
        covered =
            ground
              (arith, require-eq-ok (not (falls_short funds amount)) 400 "Insufficient funds" e3);
        written = λ j ne.
            base.insert-holds sender receiver amount j given seen
              (caught-eq-ok (base.insert_transaction sender receiver amount given) h7)
            ∙ moved-chain sender receiver j (minus amount) (plus amount) (base.holds d j)
                (base.holds taken j) (base.holds given j) ne
                (base.subtract-holds amount sender j d taken
                  (caught-eq-ok (base.subtract_balance amount sender d) e6))
                (base.add-holds amount receiver j taken given
                  (caught-eq-ok (base.add_balance amount receiver taken) e7));
      }

  -- What a transfer has seen and written. Python finds a `NaN` neither at most 0 nor less.
  pub record IsMoved (sender receiver : ℤ) (amount : Amount) (d d' : base.Data) : Type 0 where
    pub positive : (amount ≡ nan) ⊎ IsPositive amount
    pub distinct : eqb_ℤ sender receiver ≡ false
    pub funds : Balance
    pub held : base.holds d sender ≡ some funds
    pub covered : (amount ≡ nan) ⊎ ((funds ≡ not_a_number) ⊎ Covers funds amount)
    pub written : (j : ℤ) → base.holds d' j ≡ moved sender receiver amount j (base.holds d j)

  -- No balance is changed.
  abbrev pub IsKept : base.Data → base.Data → Type 0
  IsKept d d' = (j : ℤ) → base.holds d' j ≡ base.holds d j
