-- ===== src/Bank/Score.antt =====
-- The range of the credit score.
use system_design_hse_miem.Prelude.{none, some, Option, Bool, true, false, arith, if◌then◌else◌}
use system_design_hse_miem.Prelude.Int.{ℤ, pos, negsuc, ◌+ℤ◌, ◌-ℤ◌, ◌≤ℤ◌, min_ℤ, max_ℤ, int_laws}
use system_design_hse_miem.Bank.Replies.{Runtime, score_of}

module _ {Float Activity : Type 0} (run : Runtime Float Activity) where
  clamp_bounds :
      (s : ℤ)
      → (pos 300 ≤ℤ max_ℤ (pos 300) (min_ℤ (pos 850) s))
        × (max_ℤ (pos 300) (min_ℤ (pos 850) s) ≤ℤ pos 850)
  clamp_bounds s = ground arith

  -- Every score lies between 300 and 850.
  pub score_of_bounds :
      (row : Option Activity) → (pos 300 ≤ℤ score_of run row) × (score_of run row ≤ℤ pos 850)
  unfolding score_of
  score_of_bounds none = omega arith
  score_of_bounds (some row) = clamp_bounds (
      pos 500
      +ℤ min_ℤ (pos 150) (run.tx_points row)
      +ℤ min_ℤ (pos 100) (run.income_points row)
      -ℤ min_ℤ (pos 75) (run.spent_points row)
      +ℤ min_ℤ (pos 50) (run.month_points row)
      +ℤ (if run.grows row then pos 25 else negsuc 9))

  raw_bounds :
      (t i s m : ℤ) (grows : Bool)
      → (pos 0 ≤ℤ t) × (t ≤ℤ pos 150)
      → (pos 0 ≤ℤ i) × (i ≤ℤ pos 100)
      → (pos 0 ≤ℤ s) × (s ≤ℤ pos 75)
      → (pos 0 ≤ℤ m) × (m ≤ℤ pos 50)
      → let raw = pos 500 +ℤ t +ℤ i -ℤ s +ℤ m +ℤ (if grows then pos 25 else negsuc 9) in
        (pos 415 ≤ℤ max_ℤ (pos 300) (min_ℤ (pos 850) raw))
        × (max_ℤ (pos 300) (min_ℤ (pos 850) raw) ≤ℤ pos 825)
  raw_bounds t i s m true ht hi hs hm = grind int_laws
  raw_bounds t i s m false ht hi hs hm = grind int_laws

  -- The four counts and sums of a row give no negative points.
  pub record HasPoints (row : Activity) : Type 0 where
    pub tx : pos 0 ≤ℤ run.tx_points row
    pub income : pos 0 ≤ℤ run.income_points row
    pub spent : pos 0 ≤ℤ run.spent_points row
    pub month : pos 0 ≤ℤ run.month_points row

  part : (top p : ℤ) → pos 0 ≤ℤ top → pos 0 ≤ℤ p → (pos 0 ≤ℤ min_ℤ top p) × (min_ℤ top p ≤ℤ top)
  part top p ht hp = ground arith

  -- An account with statistics whose four kinds of points are not negative scores from 415 to 825:
  -- the final clamp to 300..850 is never reached.
  pub score_of-HasPoints :
      (row : Activity)
      → HasPoints row
      → (pos 415 ≤ℤ score_of run (some row)) × (score_of run (some row) ≤ℤ pos 825)
  unfolding score_of
  score_of-HasPoints row h =
      let t = min_ℤ (pos 150) (run.tx_points row) in
      let i = min_ℤ (pos 100) (run.income_points row) in
      let s = min_ℤ (pos 75) (run.spent_points row) in
      let m = min_ℤ (pos 50) (run.month_points row) in
      raw_bounds t i s m (run.grows row) (part (pos 150) (run.tx_points row) (omega arith) h.tx)
        (part (pos 100) (run.income_points row) (omega arith) h.income)
        (part (pos 75) (run.spent_points row) (omega arith) h.spent)
        (part (pos 50) (run.month_points row) (omega arith) h.month)
