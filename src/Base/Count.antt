-- ===== src/Base/Count.antt =====
-- `filter(…).count()`, and how writes change it.
use Prim.Native.Nat.{ℕ, ◌+◌, ◌≤◌}
use mathlib.Core.Path.{◌≡◌, refl, subst}
use mathlib.Core.Logic.{inl, inr}
use mathlib.Core.Bool.{Bool, true, false}
use mathlib.Core.Option.{some}
use mathlib.Core.List.{List, [], ◌∷◌}
use native.Mathlib.Omega.{arith}
use api_paperbase.Base.Tests.{◌==◌, if◌then◌else◌, Bool-cases, ==→eq}
use api_paperbase.Base.Lists.{All}
use api_paperbase.Base.Queries.{find?, update_where, UniqueBy, by_key}
use api_paperbase.Base.Order.{find?-none, All-map}

pub one_le : (a b : Bool) → (a ≡ true → b ≡ true) → (if a then 1 else 0) ≤ (if b then 1 else 0)
one_le true b h = rw (h refl) (omega arith)
one_le false b h = omega arith

pub at_most_one : (b : Bool) → (if b then 1 else 0) ≤ 1
at_most_one b = ground arith

module _ {A : Type 0} where
  abbrev pub count : (A → Bool) → List A → ℕ
  count p [] = 0
  count p (x ∷ xs) = (if p x then 1 else 0) + count p xs

  pub count_none : (p : A → Bool) (xs : List A) → All (λ x. p x ≡ false) xs → count p xs ≡ 0
  count_none p [] h = refl
  count_none p (x ∷ xs) h = rw (h.0) (omega (arith, count_none p xs h.1))

  -- A write that brings no row under the test.
  pub count-update_where :
      (p test : A → Bool) (f : A → A) (xs : List A)
      → All (λ x. test x ≡ true → p (f x) ≡ true → p x ≡ true) xs
      → count p (update_where test f xs) ≤ count p xs
  count-update_where p test f [] h = omega arith
  count-update_where p test f (x ∷ xs) h =
      let rest = count-update_where p test f xs h.1 in
      elim (Bool-cases (test x)) [
        | inl e ↦ let here = one_le (p (f x)) (p x) (h.0 e) in rw e (omega (arith, rest, here))
        | inr e ↦ rw e (omega (arith, rest))
      ]

  -- A write that takes every row out of the test.
  pub count_cleared :
      (p : A → Bool) (f : A → A) (xs : List A)
      → ((x : A) → p (f x) ≡ false)
      → count p (update_where p f xs) ≡ 0
  count_cleared p f [] h = refl
  count_cleared p f (x ∷ xs) h = elim (Bool-cases (p x)) [
    | inl e ↦ rw e (rw (h x) (omega (arith, count_cleared p f xs h)))
    | inr e ↦ rw e (rw e (omega (arith, count_cleared p f xs h)))
  ]

  -- A write to a key that no row has.
  pub update_where-absent :
      (test : A → Bool) (f : A → A) (xs : List A)
      → All (λ x. test x ≡ false) xs
      → update_where test f xs ≡ xs
  update_where-absent test f [] h = refl
  update_where-absent test f (x ∷ xs) h = rw (h.0) (rw (update_where-absent test f xs h.1) refl)

  -- A write to one row brings at most that row under the test.
  pub count-update_by_key :
      (key : A → ℕ) (p : A → Bool) (k : ℕ) (f : A → A) (xs : List A)
      → UniqueBy key xs
      → count p (update_where (by_key key k) f xs) ≤ count p xs + 1
  count-update_by_key key p k f [] u = omega arith
  count-update_by_key key p k f (x ∷ xs) u = elim (Bool-cases (key x == k)) [
    | inl e ↦
        let same : key x ≡ k = ==→eq (key x) k e in
        let absent = update_where-absent (by_key key k) f xs (
          subst (λ (j : ℕ). All (λ y. by_key key j y ≡ false) xs) same
            (find?-none (by_key key (key x)) xs u.0)) in
        let here = at_most_one (p (f x)) in rw (e, absent) (omega (arith, here))
    | inr e ↦ let rest = count-update_by_key key p k f xs u.1 in rw e (omega (arith, rest))
  ]

  -- All rows with the key of a row that a lookup found are that row.
  pub found_only :
      (key : A → ℕ) (k : ℕ) (m : A) (xs : List A)
      → UniqueBy key xs
      → find? (by_key key k) xs ≡ some m
      → All (λ x. by_key key k x ≡ true → x ≡ m) xs
  found_only key k m [] u h = tt
  found_only key k m (x ∷ xs) u h = elim (Bool-cases (key x == k)) [
    | inl e ↦
        let same : key x ≡ k = ==→eq (key x) k e in
        let absent =
          subst (λ (j : ℕ). All (λ y. by_key key j y ≡ false) xs) same
            (find?-none (by_key key (key x)) xs u.0) in
        (λ _. cc (h, e), All-map _ _ xs (λ y n t. cc (n, t)) absent)
    | inr e ↦ (λ t. cc (e, t), found_only key k m xs u.1 (cc (h, e)))
  ]
