-- ===== src/Base/Int.antt =====
-- Signed integers over the native numbers. Tactics reach them through their two parts.
use Prim.Native.Nat.{ℕ, suc, ◌+◌, ◌-◌, ◌*◌, ◌≤◌}
use mathlib.Core.Path.{◌≡◌, ap}
use mathlib.Core.Bool.{Bool}
use native.Mathlib.Omega.{arith}
use api_paperbase.Base.Tests.{ltb, leb, ◌==◌, if◌then◌else◌}

-- `negsuc n` is -(n + 1).
pub data ℤ : Type 0 where
  pos : ℕ → ℤ
  negsuc : ℕ → ℤ

abbrev pub pos_part : ℤ → ℕ
pos_part (pos n) = n
pos_part (negsuc n) = 0

abbrev pub neg_part : ℤ → ℕ
neg_part (pos n) = 0
neg_part (negsuc n) = suc n

-- m - n, as an integer.
abbrev pub sub_ℕ : ℕ → ℕ → ℤ
sub_ℕ m n = if leb n m then pos (m - n) else negsuc (n - m - 1)

infixl 65 ◌+ℤ◌ ◌-ℤ◌
infixl 70 ◌*ℤ◌
infix 50 ◌≤ℤ◌
unfoldable pub ◌+ℤ◌ : ℤ → ℤ → ℤ
x +ℤ y = sub_ℕ (pos_part x + pos_part y) (neg_part x + neg_part y)

unfoldable pub ◌-ℤ◌ : ℤ → ℤ → ℤ
x -ℤ y = sub_ℕ (pos_part x + neg_part y) (neg_part x + pos_part y)

-- An integer times a natural number: an amount times a quantity.
unfoldable pub ◌*ℤ◌ : ℤ → ℕ → ℤ
x *ℤ n = sub_ℕ (pos_part x * n) (neg_part x * n)

-- The product of two integers.
unfoldable pub times : ℤ → ℤ → ℤ
unfolding ◌*ℤ◌
times x (pos n) = x *ℤ n
times x (negsuc n) = sub_ℕ (neg_part x * (n + 1)) (pos_part x * (n + 1))

unfoldable pub neg : ℤ → ℤ
neg x = sub_ℕ (neg_part x) (pos_part x)

abbrev pub ◌≤ℤ◌ : ℤ → ℤ → Type 0
x ≤ℤ y = pos_part x + neg_part y ≤ pos_part y + neg_part x

abbrev pub ltb_ℤ : ℤ → ℤ → Bool
ltb_ℤ x y = ltb (pos_part x + neg_part y) (pos_part y + neg_part x)

abbrev pub eqb_ℤ : ℤ → ℤ → Bool
eqb_ℤ x y = (pos_part x + neg_part y) == (pos_part y + neg_part x)

-- One lemma for each operation, so that `omega` works with the operations shut.
pub +ℤ_parts :
    (x y : ℤ)
    → pos_part (x +ℤ y) + neg_part x + neg_part y ≡ neg_part (x +ℤ y) + pos_part x + pos_part y
unfolding ◌+ℤ◌
+ℤ_parts x y = ground arith

pub -ℤ_parts :
    (x y : ℤ)
    → pos_part (x -ℤ y) + neg_part x + pos_part y ≡ neg_part (x -ℤ y) + pos_part x + neg_part y
unfolding ◌-ℤ◌
-ℤ_parts x y = ground arith

pub *ℤ_parts :
    (x : ℤ) (n : ℕ) → pos_part (x *ℤ n) + neg_part x * n ≡ neg_part (x *ℤ n) + pos_part x * n
unfolding ◌*ℤ◌
*ℤ_parts x n = ground arith

pub neg_parts : (x : ℤ) → pos_part (neg x) + pos_part x ≡ neg_part (neg x) + neg_part x
unfolding neg
neg_parts x = ground arith

pub eq_of_parts : (x y : ℤ) → pos_part x + neg_part y ≡ pos_part y + neg_part x → x ≡ y
eq_of_parts x y h = ground arith

pub ruleset int_laws = (arith, +ℤ_parts, -ℤ_parts, *ℤ_parts, neg_parts, eq_of_parts)

-- (x - y) n = x n - y n
pub sub-mul_distrib : (x y : ℤ) (n : ℕ) → (x -ℤ y) *ℤ n ≡ x *ℤ n -ℤ y *ℤ n
sub-mul_distrib x y n = eq_of_parts _ _ (omega (int_laws, ap (λ (t : ℕ). t * n) (-ℤ_parts x y)))

pub *ℤ-one : (x : ℤ) → x *ℤ 1 ≡ x
*ℤ-one x = eq_of_parts _ _ (omega int_laws)

pub neg_pos : (n : ℕ) → (pos_part (neg (pos n)) ≡ 0) × (neg_part (neg (pos n)) ≡ n)
unfolding neg
neg_pos n = ground arith
