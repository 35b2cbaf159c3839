-- ===== src/Bank/Cents.antt =====
-- Transfers in cents: what the two balances become.
use mathlib.Core.Path.{subst}
use system_design_hse_miem.Prelude.{some, ◌≡◌, ap, sym, ◌∙◌, ◌⊎◌, inl, inr}
use system_design_hse_miem.Prelude.Int.{ℤ, pos, ◌+ℤ◌, ◌-ℤ◌, ◌≤ℤ◌}
use system_design_hse_miem.Bank.Money.{
  nan, ratio, Balance, not_a_number, cents, parts, Covers, stored-sub_cents, stored-add_cents,
  stored-sub_half, stored-add_half,
}
use system_design_hse_miem.Bank.Services.{Redis, Database}
use system_design_hse_miem.Bank.Replies.{ok, Receipt, Runtime}
use system_design_hse_miem.Bank.Handlers.{State, transfer}
use system_design_hse_miem.Bank.Updates.{moved, moved_sender, moved_receiver}
use system_design_hse_miem.Bank.Transfers.{transfer-IsMoved}

some_injective : {A : Type 0} {a b : A} → some a ≡ some b → a ≡ b
some_injective e = cc

half_covered :
    (k b : ℤ) (funds : Balance)
    → funds ≡ cents b
    → (ratio (k +ℤ k +ℤ pos 1) 1 ≡ nan)
      ⊎ ((funds ≡ not_a_number) ⊎ Covers funds (ratio (k +ℤ k +ℤ pos 1) 1))
    → k +ℤ k +ℤ pos 1 ≤ℤ parts 1 b
half_covered k b funds known (inl e) = absurd (cc e)
half_covered k b funds known (inr (inl e)) = absurd (cc (e, known))
half_covered k b funds known (inr (inr h)) =
    subst (λ f. Covers f (ratio (k +ℤ k +ℤ pos 1) 1)) known h

module _ {Float Activity : Type 0} (run : Runtime Float Activity) (redis : Redis)
    (base : Database Float Activity) where
  -- A confirmed transfer of whole cents between two accounts whose balances are numbers takes them
  -- from the one balance and adds them to the other.
  pub transfer_whole_cents :
      (sender receiver k b c : ℤ) (w : State run redis base) (receipt : Receipt)
      → (transfer run redis base sender receiver (ratio k 0) w).0 ≡ ok receipt
      → base.holds w.data_base sender ≡ some (cents b)
      → base.holds w.data_base receiver ≡ some (cents c)
      → let d = (transfer run redis base sender receiver (ratio k 0) w).1.data_base in
        (base.holds d sender ≡ some (cents (b -ℤ k)))
        × (base.holds d receiver ≡ some (cents (c +ℤ k)))
  transfer_whole_cents sender receiver k b c w receipt h hb hc =
      let m = transfer-IsMoved run redis base sender receiver (ratio k 0) w receipt h in
      (
        m.written sender
            ∙ ap (moved sender receiver (ratio k 0) sender) hb
            ∙ moved_sender sender receiver (ratio k 0) (cents b)
            ∙ ap (λ n. some (cents n)) (stored-sub_cents b k),
        m.written receiver
            ∙ ap (moved sender receiver (ratio k 0) receiver) hc
            ∙ moved_receiver sender receiver (ratio k 0) (cents c) m.distinct
            ∙ ap (λ n. some (cents n)) (stored-add_cents c k),
      )

  -- A confirmed transfer of a whole number of cents, not negative, and half a cent, to an account
  -- whose balance is not negative: the sender loses the cents, the receiver gains one more.
  pub transfer_half_cent :
      (sender receiver k b c : ℤ) (w : State run redis base) (receipt : Receipt)
      → let amount = ratio (k +ℤ k +ℤ pos 1) 1 in
        (transfer run redis base sender receiver amount w).0 ≡ ok receipt
        → base.holds w.data_base sender ≡ some (cents b)
        → base.holds w.data_base receiver ≡ some (cents c)
        → pos 0 ≤ℤ k
        → pos 0 ≤ℤ c
        → let d = (transfer run redis base sender receiver amount w).1.data_base in
          (base.holds d sender ≡ some (cents (b -ℤ k)))
          × (base.holds d receiver ≡ some (cents (c +ℤ k +ℤ pos 1)))
  transfer_half_cent sender receiver k b c w receipt h hb hc k0 c0 =
      let amount = ratio (k +ℤ k +ℤ pos 1) 1 in
      let m = transfer-IsMoved run redis base sender receiver amount w receipt h in
      let known : m.funds ≡ cents b = some_injective (sym m.held ∙ hb) in
      (
        m.written sender
            ∙ ap (moved sender receiver amount sender) hb
            ∙ moved_sender sender receiver amount (cents b)
            ∙ ap (λ n. some (cents n))
                (stored-sub_half b k k0 (half_covered k b m.funds known m.covered)),
        m.written receiver
            ∙ ap (moved sender receiver amount receiver) hc
            ∙ moved_receiver sender receiver amount (cents c) m.distinct
            ∙ ap (λ n. some (cents n)) (stored-add_half c k k0 c0),
      )
