-- ===== src/Money.antt =====
-- Decimal amounts and their rounding to cents (`money` of engine/apps/orders/order_financials.py,
-- `quantize_money` of engine/apps/billing/pricing.py). A `Decimal` is a coefficient and a number of
-- decimal places; the 28 digits of the decimal context are not modelled, since the columns hold 14.
pub mod Laws
mod Tests
use api_paperbase.Base.{
  ℕ, ◌+◌, ◌-◌, ◌*◌, ◌/◌, ◌%◌, ◌^◌, ◌≤◌, ◌<◌, ◌≡◌, refl, Bool, true, false, arith, ltb, leb, ◌==◌,
  if◌then◌else◌,
}
use api_paperbase.Base.Int.{ℤ, pos, negsuc, neg, ◌*ℤ◌}

-- `coefficient` × 10 ^ -`places`
pub record Decimal : Type 0 where
  pub coefficient : ℤ
  pub places : ℕ

-- An amount of a column with two places.
abbrev pub cents : ℤ → Decimal
cents n = record { coefficient = n; places = 2 }

-- `m / d` rounded to the nearest whole number: a tie goes to the even one.
unfoldable pub half_even : ℕ → ℕ → ℕ
half_even m d =
    if ltb (2 * (m % d)) d
    then m / d
    else if ltb d (2 * (m % d))
    then m / d + 1
    else m / d + (m / d) % 2

-- The same, where a tie goes away from zero.
unfoldable pub half_up : ℕ → ℕ → ℕ
half_up m d = if ltb (2 * (m % d)) d then m / d else m / d + 1

-- A rounding of magnitudes, applied to a signed number.
unfoldable pub round_with : (ℕ → ℕ → ℕ) → ℤ → ℕ → ℤ
unfolding neg
round_with round (pos m) d = pos (round m d)
round_with round (negsuc m) d = neg (pos (round (m + 1) d))

unfoldable pub quantize_with : (ℕ → ℕ → ℕ) → Decimal → ℤ
unfolding round_with
quantize_with round amount =
    round_with round (amount.coefficient *ℤ (10 ^ (2 - amount.places))) (10 ^ (amount.places - 2))

-- `Decimal(…).quantize(Decimal("0.01"))`, in cents. Of the two powers of ten
-- one is 1: an amount with fewer than two places is scaled up, and one with more is rounded.
unfoldable pub money : Decimal → ℤ
unfolding quantize_with half_even
money amount = quantize_with half_even amount

-- `quantize(Decimal("0.01"), rounding=ROUND_HALF_UP)`
unfoldable pub quantize_money : Decimal → ℤ
unfolding quantize_with half_up
quantize_money amount = quantize_with half_up amount
