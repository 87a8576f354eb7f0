-- ===== src/Base/Decimal.antt =====
-- Python's `str` of an integer that is not negative.
use Prim.Native.Nat.{ℕ, zero, suc, ◌+◌, ◌*◌, ◌≤◌}
use mathlib.Core.Path.{◌≡◌, ap, ◌∙◌}
use mathlib.Core.Logic.{inl, inr}
use mathlib.Core.List.{List, [], ◌∷◌, ◌++◌}
use native.Mathlib.Omega.{arith}
use api_paperbase.Base.Tests.{◌==◌, if◌then◌else◌, Bool-cases}
use api_paperbase.Base.Lists.{All}
use api_paperbase.Base.Text.{Text}

-- Decimal digits, the last one first.
unfoldable pub increment : List ℕ → List ℕ
increment [] = 1 ∷ []
increment (d ∷ ds) = if d == 9 then 0 ∷ increment ds else suc d ∷ ds

unfoldable pub digits_of : ℕ → List ℕ
unfolding increment
digits_of zero = 0 ∷ []
digits_of (suc n) = increment (digits_of n)

unfoldable pub to_text : List ℕ → Text
to_text [] = []
to_text (d ∷ ds) = to_text ds ++ (48 + d) ∷ []

-- The number that has these digits.
unfoldable pub value_of : List ℕ → ℕ
value_of [] = 0
value_of (d ∷ ds) = d + 10 * value_of ds

value-increment : (ds : List ℕ) → value_of (increment ds) ≡ suc (value_of ds)
unfolding increment value_of
value-increment [] = omega arith
value-increment (d ∷ ds) = elim (Bool-cases (d == 9)) [
  | inl e ↦ let rest = value-increment ds in rw e (ground (arith, rest, e))
  | inr e ↦ rw e (omega arith)
]

increment-bound : (ds : List ℕ) → All (λ d. d ≤ 9) ds → All (λ d. d ≤ 9) (increment ds)
unfolding increment
increment-bound [] h = (omega arith, tt)
increment-bound (d ∷ ds) h = elim (Bool-cases (d == 9)) [
  | inl e ↦ rw e (omega arith, increment-bound ds h.1)
  | inr e ↦ rw e (ground (arith, h.0, e), h.1)
]

pub digits-bound : (n : ℕ) → All (λ d. d ≤ 9) (digits_of n)
unfolding digits_of
digits-bound zero = (omega arith, tt)
digits-bound (suc n) = increment-bound (digits_of n) (digits-bound n)

pub value-digits : (n : ℕ) → value_of (digits_of n) ≡ n
unfolding digits_of value_of
value-digits zero = omega arith
value-digits (suc n) = value-increment (digits_of n) ∙ ap suc (value-digits n)
