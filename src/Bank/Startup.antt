-- ===== src/Bank/Startup.antt =====
-- `lifespan` of main.py: up to 60 attempts to find transactions in the database. An attempt is the
-- count that the query returned, or the text of an exception; after an exception the loop sleeps.
use system_design_hse_miem.Prelude.{
  ℕ, zero, suc, ◌+◌, ◌<◌, Bool, true, false, ◌≡◌, refl, ap, ◌∙◌, ltb, if◌then◌else◌, arith,
}
use system_design_hse_miem.Bank.Services.{Sql, returned, raised}

pub data Startup : Type 0 where
  ready : ℕ → Startup
  runtime_error : Startup

-- How the loop ended, and how often it has slept.
pub record Waited : Type 0 where
  pub outcome : Startup
  pub naps : ℕ

abbrev nap : Waited → Waited
nap w = record w { naps = w.naps + 1 }

-- The attempts from `i` on, `left` of them.
pub await : ℕ → ℕ → (ℕ → Sql ℕ) → Waited
await zero i attempts = record { outcome = runtime_error; naps = 0 }
await (suc left) i attempts =
    let rest = await left (suc i) attempts in
    elim (attempts i) [
      | returned count ↦ if ltb 0 count then record { outcome = ready i; naps = 0 } else rest
      | raised e ↦ nap rest
    ]

unfoldable pub lifespan : (ℕ → Sql ℕ) → Waited
unfolding await
lifespan attempts = await 60 0 attempts

abbrev pub is_loaded : Sql ℕ → Bool
is_loaded (returned count) = ltb 0 count
is_loaded (raised e) = false

abbrev pub is_raised : Sql ℕ → ℕ
is_raised (returned count) = 0
is_raised (raised e) = 1

-- The exceptions among `left` attempts from `i` on.
abbrev pub raises : ℕ → ℕ → (ℕ → Sql ℕ) → ℕ
raises zero i attempts = 0
raises (suc left) i attempts = is_raised (attempts i) + raises left (suc i) attempts

step_unloaded :
    (s : Sql ℕ) (i : ℕ) (rest : Waited)
    → is_loaded s ≡ false
    → (elim s [
      | returned count ↦ if ltb 0 count then record { outcome = ready i; naps = 0 } else rest
      | raised e ↦ nap rest
    ])
      ≡ record { outcome = rest.outcome; naps = is_raised s + rest.naps }
step_unloaded (returned count) i rest h = ground arith
step_unloaded (raised e) i rest h = ground arith

step_loaded :
    (s : Sql ℕ) (i : ℕ) (rest : Waited)
    → is_loaded s ≡ true
    → (elim s [
      | returned count ↦ if ltb 0 count then record { outcome = ready i; naps = 0 } else rest
      | raised e ↦ nap rest
    ])
      ≡ record { outcome = ready i; naps = 0 }
step_loaded (returned count) i rest h = ground arith
step_loaded (raised e) i rest h = absurd (cc h)

abbrev slept : Sql ℕ → Waited → Waited
slept s w = record { outcome = w.outcome; naps = is_raised s + w.naps }

at_start : (i : ℕ) → i ≡ i + 0
at_start i = omega arith

one_on : (i j : ℕ) → suc i + j ≡ i + suc j
one_on i j = omega arith

from_zero : (j : ℕ) → 0 + j ≡ j
from_zero j = omega arith

await-ready :
    (left i k : ℕ) (attempts : ℕ → Sql ℕ)
    → k < left
    → ((j : ℕ) → j < k → is_loaded (attempts (i + j)) ≡ false)
    → is_loaded (attempts (i + k)) ≡ true
    → await left i attempts ≡ record { outcome = ready (i + k); naps = raises k i attempts }
unfolding await
await-ready zero i k attempts h before now = absurd (omega arith)
await-ready (suc left) i zero attempts h before now =
    step_loaded (attempts i) i (await left (suc i) attempts)
      (ap (λ j. is_loaded (attempts j)) (at_start i) ∙ now)
    ∙ ap (λ n. record { outcome = ready n; naps = 0 }) (at_start i)
await-ready (suc left) i (suc k) attempts h before now =
    step_unloaded (attempts i) i (await left (suc i) attempts)
      (ap (λ j. is_loaded (attempts j)) (at_start i) ∙ before 0 (omega arith))
    ∙ ap (slept (attempts i)) (
        await-ready left (suc i) k attempts (omega arith)
          (λ j l. ap (λ n. is_loaded (attempts n)) (one_on i j) ∙ before (suc j) (omega arith))
          (ap (λ n. is_loaded (attempts n)) (one_on i k) ∙ now))
    ∙ ap
        (λ n. record {
          outcome = ready n;
          naps = is_raised (attempts i) + raises k (suc i) attempts;
        })
        (one_on i k)

await-fails :
    (left i : ℕ) (attempts : ℕ → Sql ℕ)
    → ((j : ℕ) → j < left → is_loaded (attempts (i + j)) ≡ false)
    → await left i attempts ≡ record { outcome = runtime_error; naps = raises left i attempts }
unfolding await
await-fails zero i attempts h = refl
await-fails (suc left) i attempts h =
    step_unloaded (attempts i) i (await left (suc i) attempts)
      (ap (λ j. is_loaded (attempts j)) (at_start i) ∙ h 0 (omega arith))
    ∙ ap (slept (attempts i)) (
        await-fails left (suc i) attempts
          (λ j l. ap (λ n. is_loaded (attempts n)) (one_on i j) ∙ h (suc j) (omega arith)))

-- If attempt `k` of the 60 is the first that counts a transaction, the service starts at it, and
-- has slept once for each exception before it.
pub lifespan-ready :
    (k : ℕ) (attempts : ℕ → Sql ℕ)
    → k < 60
    → ((j : ℕ) → j < k → is_loaded (attempts j) ≡ false)
    → is_loaded (attempts k) ≡ true
    → lifespan attempts ≡ record { outcome = ready k; naps = raises k 0 attempts }
lifespan-ready k attempts h before now =
    unfold lifespan in
    (await-ready 60 0 k attempts h
        (λ j l. ap (λ n. is_loaded (attempts n)) (from_zero j) ∙ before j l)
        (ap (λ n. is_loaded (attempts n)) (from_zero k) ∙ now)
      ∙ ap (λ n. record { outcome = ready n; naps = raises k 0 attempts }) (from_zero k))

-- If none of the 60 attempts counts a transaction, the service ends with a `RuntimeError`, and has
-- slept once for each exception: an empty table makes it fail with no pause.
pub lifespan-fails :
    (attempts : ℕ → Sql ℕ)
    → ((j : ℕ) → j < 60 → is_loaded (attempts j) ≡ false)
    → lifespan attempts ≡ record { outcome = runtime_error; naps = raises 60 0 attempts }
lifespan-fails attempts h =
    unfold lifespan in
    await-fails 60 0 attempts (λ j l. ap (λ n. is_loaded (attempts n)) (from_zero j) ∙ h j l)
