-- ===== src/Base/Order.antt =====
-- `order_by`: rows in the order of a key, given as a Boolean test; a stable sort.
use Prim.Native.Nat.{ℕ}
use mathlib.Core.Path.{◌≡◌, subst}
use mathlib.Core.Logic.{inl, inr}
use mathlib.Core.Bool.{Bool, true, false}
use mathlib.Core.Option.{none, some}
use mathlib.Core.List.{List, [], ◌∷◌}
use native.Mathlib.Omega.{arith}
use api_paperbase.Base.Tests.{◌==◌, if◌then◌else◌, Bool-cases}
use api_paperbase.Base.Lists.{All, any}
use api_paperbase.Base.Queries.{filter, find?}

module _ {A : Type 0} (le : A → A → Bool) where
  unfoldable pub insert_row : A → List A → List A
  insert_row x [] = x ∷ []
  insert_row x (y ∷ ys) = if le x y then x ∷ y ∷ ys else y ∷ insert_row x ys

  unfoldable pub order_by : List A → List A
  unfolding insert_row
  order_by [] = []
  order_by (x ∷ xs) = insert_row x (order_by xs)

  -- Each row comes before the rows behind it.
  abbrev pub IsOrdered : List A → Type 0
  IsOrdered [] = Unit
  IsOrdered (x ∷ xs) = All (λ y. le x y ≡ true) xs × IsOrdered xs

module _ {A : Type 0} (le : A → A → Bool) (P : A → Type 0) where
  insert-All : (x : A) (ys : List A) → P x → All P ys → All P (insert_row le x ys)
  unfolding insert_row
  insert-All x [] hx h = (hx, tt)
  insert-All x (y ∷ ys) hx h = elim (Bool-cases (le x y)) [
    | inl e ↦ rw e (hx, h)
    | inr e ↦ rw e (h.0, insert-All x ys hx h.1)
  ]

  -- What holds of every row holds of every row in order.
  pub order_by-All : (xs : List A) → All P xs → All P (order_by le xs)
  unfolding order_by
  order_by-All [] h = tt
  order_by-All (x ∷ xs) h = insert-All x (order_by le xs) h.0 (order_by-All xs h.1)

  All-insert : (x : A) (ys : List A) → All P (insert_row le x ys) → P x × All P ys
  unfolding insert_row
  All-insert x [] h = h
  All-insert x (y ∷ ys) h = elim (Bool-cases (le x y)) [
    | inl e ↦ rw e at h
    | inr e ↦
        let split : P y × All P (insert_row le x ys) = rw e at h in
        let rest = All-insert x ys split.1 in (rest.0, (split.0, rest.1))
  ]

  pub All-order_by : (xs : List A) → All P (order_by le xs) → All P xs
  unfolding order_by
  All-order_by [] h = tt
  All-order_by (x ∷ xs) h =
      let split = All-insert x (order_by le xs) h in (split.0, All-order_by xs split.1)

module _ {A : Type 0} where
  pub All-map : (P Q : A → Type 0) (xs : List A) → ((x : A) → P x → Q x) → All P xs → All Q xs
  All-map P Q [] f h = tt
  All-map P Q (x ∷ xs) f h = (f x h.0, All-map P Q xs f h.1)

-- A sort by a total and transitive test is in order.
module _ {A : Type 0} (le : A → A → Bool) (total : (x y : A) → le x y ≡ false → le y x ≡ true)
    (trans : (x y z : A) → le x y ≡ true → le y z ≡ true → le x z ≡ true) where
  insert-IsOrdered : (x : A) (ys : List A) → IsOrdered le ys → IsOrdered le (insert_row le x ys)
  unfolding insert_row
  insert-IsOrdered x [] h = (tt, tt)
  insert-IsOrdered x (y ∷ ys) h = elim (Bool-cases (le x y)) [
    | inl e ↦ rw e ((e, All-map _ _ ys (λ z q. trans x y z e q) h.0), h)
    | inr e ↦
        rw e (insert-All le (λ z. le y z ≡ true) x ys (total x y e) h.0, insert-IsOrdered x ys h.1)
  ]

  pub order_by-IsOrdered : (xs : List A) → IsOrdered le (order_by le xs)
  unfolding order_by
  order_by-IsOrdered [] = tt
  order_by-IsOrdered (x ∷ xs) = insert-IsOrdered x (order_by le xs) (order_by-IsOrdered xs)

module _ {A : Type 0} where
  -- What holds of every row holds of the rows that a test keeps.
  pub filter-All :
      (P : A → Type 0) (test : A → Bool) (xs : List A) → All P xs → All P (filter test xs)
  filter-All P test [] h = tt
  filter-All P test (x ∷ xs) h = elim (Bool-cases (test x)) [
    | inl e ↦ rw e (h.0, filter-All P test xs h.1)
    | inr e ↦ rw e (filter-All P test xs h.1)
  ]

  -- The rows that a test keeps pass it.
  pub filter-test : (test : A → Bool) (xs : List A) → All (λ x. test x ≡ true) (filter test xs)
  filter-test test [] = tt
  filter-test test (x ∷ xs) = elim (Bool-cases (test x)) [
    | inl e ↦ rw e (e, filter-test test xs)
    | inr e ↦ rw e (filter-test test xs)
  ]

  -- What holds of the rows that a test keeps holds of every row that passes it.
  pub All-filter :
      (P : A → Type 0) (test : A → Bool) (xs : List A)
      → All P (filter test xs)
      → All (λ x. test x ≡ true → P x) xs
  All-filter P test [] h = tt
  All-filter P test (x ∷ xs) h = elim (Bool-cases (test x)) [
    | inl e ↦
        let split : P x × All P (filter test xs) = rw e at h in
        (λ _. split.0, All-filter P test xs split.1)
    | inr e ↦ (λ p. cc (e, p), All-filter P test xs (rw e at h))
  ]

  pub filter-IsOrdered :
      (le : A → A → Bool) (test : A → Bool) (xs : List A)
      → IsOrdered le xs
      → IsOrdered le (filter test xs)
  filter-IsOrdered le test [] h = tt
  filter-IsOrdered le test (x ∷ xs) h = elim (Bool-cases (test x)) [
    | inl e ↦ rw e (filter-All (λ y. le x y ≡ true) test xs h.0, filter-IsOrdered le test xs h.1)
    | inr e ↦ rw e (filter-IsOrdered le test xs h.1)
  ]

  -- The first row that passes a test comes before every row that passes it, or is that row.
  pub find?-first :
      (le : A → A → Bool) (test : A → Bool) (x : A) (xs : List A)
      → ((y : A) → le y y ≡ true)
      → IsOrdered le xs
      → find? test xs ≡ some x
      → All (λ y. test y ≡ true → le x y ≡ true) xs
  find?-first le test x [] rfl h e = cc
  find?-first le test x (y ∷ ys) rfl h e = elim (Bool-cases (test y)) [
    | inl p ↦
        let same : y ≡ x = cc (e, p) in
        subst (λ z. All (λ w. test w ≡ true → le z w ≡ true) (y ∷ ys)) same
          (λ _. rfl y, All-map _ _ ys (λ w q _. q) h.0)
    | inr p ↦ (λ q. cc (p, q), find?-first le test x ys rfl h.1 (cc (e, p)))
  ]

  pub find?-none :
      (test : A → Bool) (xs : List A) → find? test xs ≡ none → All (λ y. test y ≡ false) xs
  find?-none test [] h = tt
  find?-none test (y ∷ ys) h = (ground arith, find?-none test ys (ground arith))

module _ {A : Type 0} where
  pub All-both : (P Q : A → Type 0) (xs : List A) → All P xs → All Q xs → All (λ x. P x × Q x) xs
  All-both P Q [] h k = tt
  All-both P Q (x ∷ xs) h k = ((h.0, k.0), All-both P Q xs h.1 k.1)

  -- Each row of a list passes the test for its key, for some row of the list.
  pub any_self : (key : A → ℕ) (xs : List A) → All (λ x. any xs (λ y. key y == key x) ≡ true) xs
  any_self key [] = tt
  any_self key (x ∷ xs) =
      (ground arith, All-map _ _ xs (λ y h. ground (arith, h)) (any_self key xs))

  pub All-of : (P : A → Type 0) (xs : List A) → ((x : A) → P x) → All P xs
  All-of P [] f = tt
  All-of P (x ∷ xs) f = (f x, All-of P xs f)
