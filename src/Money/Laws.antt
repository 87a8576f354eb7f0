-- ===== src/Money/Laws.antt =====
-- On `money` and `quantize_money`.
use api_paperbase.Base.{
  ℕ, ◌+◌, ◌-◌, ◌*◌, ◌/◌, ◌%◌, ◌^◌, ◌≤◌, ◌<◌, ◌≡◌, zero, suc, ap, arith, ltb, Bool-cases, inl, inr,
}
use api_paperbase.Base.Int.{ℤ, pos, negsuc, neg, ◌*ℤ◌, ◌≤ℤ◌, ◌+ℤ◌, *ℤ-one, neg_pos, int_laws}
use native.Mathlib.Nat.{pow-suc}
use api_paperbase.Money.{cents, half_even, half_up, round_with, money, quantize_money}

-- The parts of a division.
div_parts : (m d : ℕ) → 0 < d → (m / d * d + m % d ≡ m) × (m % d < d)
div_parts m d h = grind arith

-- `n` times `d` is within half of `d` of `m`.
abbrev IsNearest : ℕ → ℕ → ℕ → Type 0
IsNearest m d n = (2 * m ≤ 2 * (n * d) + d) × (2 * (n * d) ≤ 2 * m + d)

IsNearest-down : (m d q r : ℕ) → q * d + r ≡ m → 2 * r ≤ d → IsNearest m d q
IsNearest-down m d q r e h = omega arith

IsNearest-up : (m d q r : ℕ) → q * d + r ≡ m → d ≤ 2 * r → r < d → IsNearest m d (q + 1)
IsNearest-up m d q r e h k = omega arith

IsNearest-tie : (m d q r : ℕ) → q * d + r ≡ m → 2 * r ≡ d → r < d → IsNearest m d (q + q % 2)
IsNearest-tie m d q r e h k = elim (Bool-cases (ltb (q % 2) 1)) [
  | inl low ↦
      let even : q + q % 2 ≡ q = ground arith in rw even (IsNearest-down m d q r e (omega arith))
  | inr high ↦
      let odd : q + q % 2 ≡ q + 1 = ground arith in rw odd (IsNearest-up m d q r e (omega arith) k)
]

pub half_even-IsNearest : (m d : ℕ) → 0 < d → IsNearest m d (half_even m d)
unfolding half_even
half_even-IsNearest m d h =
    let parts = div_parts m d h in
    elim (Bool-cases (ltb (2 * (m % d)) d)) [
      | inl low ↦ rw low (IsNearest-down m d (m / d) (m % d) parts.0 (ground arith))
      | inr e ↦ rw e (elim (Bool-cases (ltb d (2 * (m % d)))) [
        | inl high ↦ rw high (IsNearest-up m d (m / d) (m % d) parts.0 (ground arith) parts.1)
        | inr tie ↦ rw tie (IsNearest-tie m d (m / d) (m % d) parts.0 (ground arith) parts.1)
      ])
    ]

half_even-one : (m : ℕ) → half_even m 1 ≡ m
unfolding half_even
half_even-one m = ground arith

half_up-one : (m : ℕ) → half_up m 1 ≡ m
unfolding half_up
half_up-one m = ground arith

neg_negsuc : (m : ℕ) → neg (pos (m + 1)) ≡ negsuc m
unfolding neg
neg_negsuc m = ground arith

-- An amount with two places is its own rounding.
pub money-cents : (n : ℤ) → money (cents n) ≡ n
unfolding money
money-cents (pos n) = rw *ℤ-one (rw half_even-one)
money-cents (negsuc n) = rw *ℤ-one (rw half_even-one (neg_negsuc n))

pub quantize_money-cents : (n : ℤ) → quantize_money (cents n) ≡ n
unfolding quantize_money
quantize_money-cents (pos n) = rw *ℤ-one (rw half_up-one)
quantize_money-cents (negsuc n) = rw *ℤ-one (rw half_up-one (neg_negsuc n))

pow-pos : (k : ℕ) → 0 < 10 ^ k
pow-pos zero = omega arith
pow-pos (suc k) = rw (pow-suc 10 k) (omega (arith, pow-pos k))

money-places :
    (c : ℤ) (k : ℕ)
    → money (record { coefficient = c; places = suc (suc k) }) ≡ round_with half_even c (10 ^ k)
unfolding money
money-places c k =
    let up : 2 - suc (suc k) ≡ 0 = omega arith in
    let down : suc (suc k) - 2 ≡ k = omega arith in rw (up, down) (rw *ℤ-one)

round_with-nearest :
    (c : ℤ) (d : ℕ)
    → 0 < d
    → (c *ℤ 2 ≤ℤ round_with half_even c d *ℤ (2 * d) +ℤ pos d)
      × (round_with half_even c d *ℤ (2 * d) ≤ℤ c *ℤ 2 +ℤ pos d)
unfolding round_with
round_with-nearest (pos m) d h = omega (int_laws, half_even-IsNearest m d h)
round_with-nearest (negsuc m) d h =
    let n = half_even (m + 1) d in
    let parts = neg_pos n in
    omega (
      int_laws,
      half_even-IsNearest (m + 1) d h,
      ap (λ (t : ℕ). t * (2 * d)) parts.0,
      ap (λ (t : ℕ). t * (2 * d)) parts.1,
    )

-- With `d` the number that a unit of one is of the last place, `n` cents differ from the coefficient
-- `c` by at most half a cent.
pub record IsNearestCent (c n : ℤ) (d : ℕ) : Type 0 where
  pub not_below : c *ℤ 200 ≤ℤ n *ℤ (2 * d) +ℤ pos d
  pub not_above : n *ℤ (2 * d) ≤ℤ c *ℤ 200 +ℤ pos d

round_with-one : (c : ℤ) → round_with half_even c 1 ≡ c
unfolding round_with
round_with-one (pos m) = rw half_even-one
round_with-one (negsuc m) = rw half_even-one (neg_negsuc m)

-- Fewer than two places: the amount is scaled up, exactly.
whole-IsNearestCent : (c : ℤ) → IsNearestCent c (c *ℤ 100) 1
whole-IsNearestCent c = record { not_below = omega int_laws; not_above = omega int_laws }

tenth-IsNearestCent : (c : ℤ) → IsNearestCent c (c *ℤ 10) 10
tenth-IsNearestCent c = record { not_below = omega int_laws; not_above = omega int_laws }

-- More places: the bound of the rounding, for a unit of the last place that is 100 times smaller.
rounded-IsNearestCent :
    (c n : ℤ) (d : ℕ)
    → (c *ℤ 2 ≤ℤ n *ℤ (2 * d) +ℤ pos d) × (n *ℤ (2 * d) ≤ℤ c *ℤ 2 +ℤ pos d)
    → IsNearestCent c n (100 * d)
rounded-IsNearestCent c n d h = record {
  not_below = omega (int_laws, h.0);
  not_above = omega (int_laws, h.1);
}

-- Rounding an amount with any number of places to cents moves it by at most half a cent, up or
-- down.
pub money-nearest :
    (c : ℤ) (places : ℕ)
    → IsNearestCent c (money (record { coefficient = c; places = places })) (10 ^ places)
unfolding money
money-nearest c zero = rw (round_with-one (c *ℤ 100)) (whole-IsNearestCent c)
money-nearest c (suc zero) = rw (round_with-one (c *ℤ 10)) (tenth-IsNearestCent c)
money-nearest c (suc (suc k)) =
    let scale : 10 ^ suc (suc k) ≡ 100 * 10 ^ k =
      rw (pow-suc 10 (suc k), pow-suc 10 k) (omega arith) in
    rw (scale, money-places c k)
      (rounded-IsNearestCent c _ (10 ^ k) (round_with-nearest c (10 ^ k) (pow-pos k)))
