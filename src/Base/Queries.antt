-- ===== src/Base/Queries.antt =====
-- Tables as lists of rows, and the queries that the services run on them: `filter`, `first`,
-- `exists`, `update` and `get` on a condition.
use Prim.Native.Nat.{ℕ}
use mathlib.Core.Path.{◌≡◌, refl, ap, subst, ◌∙◌}
use mathlib.Core.Logic.{inl, inr}
use mathlib.Core.Bool.{Bool, true, false, ◌||◌}
use mathlib.Core.Option
use mathlib.Core.Option.{Option, none, some, some-injective}
use mathlib.Core.List.{List, [], ◌∷◌, map}
use native.Mathlib.Omega.{arith}
use api_paperbase.Base.Tests.{◌==◌, if◌then◌else◌, Bool-cases}
use api_paperbase.Base.Lists.{any, All}

module _ {A : Type 0} where
  -- `objects.filter(…)`
  abbrev pub filter : (A → Bool) → List A → List A
  filter test [] = []
  filter test (x ∷ xs) = if test x then x ∷ filter test xs else filter test xs

  -- `objects.filter(…).first()` on rows that are already in order, and `objects.get(…)`.
  abbrev pub find? : (A → Bool) → List A → Option A
  find? test [] = none
  find? test (x ∷ xs) = if test x then some x else find? test xs

  -- `objects.filter(…).update(…)`, and `row.save()` where the test is on the primary key.
  abbrev pub update_where : (A → Bool) → (A → A) → List A → List A
  update_where test f [] = []
  update_where test f (x ∷ xs) = (if test x then f x else x) ∷ update_where test f xs

abbrev pub is_some : {A : Type 0} → Option A → Bool
is_some none = false
is_some (some x) = true

module _ {A : Type 0} (test : A → Bool) (f : A → A) where
  -- The update does not touch what `p` reads.
  pub any-update_where :
      (p : A → Bool) (xs : List A)
      → ((x : A) → p (f x) ≡ p x)
      → any (update_where test f xs) p ≡ any xs p
  any-update_where p [] h = refl
  any-update_where p (x ∷ xs) h = elim (Bool-cases (test x)) [
    | inl e ↦ rw e (rw (h x) (ap (λ b. p x || b) (any-update_where p xs h)))
    | inr e ↦ rw e (ap (λ b. p x || b) (any-update_where p xs h))
  ]

  -- A lookup by a key that the update keeps finds the same row, updated where the test holds.
  pub find?-update_where :
      (p : A → Bool) (xs : List A)
      → ((x : A) → p (f x) ≡ p x)
      → find? p (update_where test f xs) ≡ Option.map (λ x. if test x then f x else x) (find? p xs)
  find?-update_where p [] h = refl
  find?-update_where p (x ∷ xs) h = ground (arith, h x, find?-update_where p xs h)

  pub All-update_where :
      (P : A → Type 0) (xs : List A)
      → ((x : A) → P x → P (f x))
      → All P xs
      → All P (update_where test f xs)
  All-update_where P [] h a = tt
  All-update_where P (x ∷ xs) h a = elim (Bool-cases (test x)) [
    | inl e ↦ rw e (h x a.0, All-update_where P xs h a.1)
    | inr e ↦ rw e (a.0, All-update_where P xs h a.1)
  ]

  -- A column that the update keeps.
  pub map-update_where :
      {B : Type 0} (g : A → B) (xs : List A)
      → ((x : A) → g (f x) ≡ g x)
      → map g (update_where test f xs) ≡ map g xs
  map-update_where g [] h = refl
  map-update_where g (x ∷ xs) h = elim (Bool-cases (test x)) [
    | inl e ↦ rw e (rw (h x, map-update_where g xs h))
    | inr e ↦ rw (e, map-update_where g xs h)
  ]

module _ {A : Type 0} where
  -- The row that a lookup finds passes its test.
  pub find?-test : (p : A → Bool) (x : A) (xs : List A) → find? p xs ≡ some x → p x ≡ true
  find?-test p x [] h = cc
  find?-test p x (y ∷ xs) h = ground (arith, find?-test p x xs)

  pub All-find? :
      (P : A → Type 0) (p : A → Bool) (x : A) (xs : List A) → All P xs → find? p xs ≡ some x → P x
  All-find? P p x [] a h = cc
  All-find? P p x (y ∷ xs) a h = elim (Bool-cases (p y)) [
    | inl e ↦ let same : y ≡ x = cc (h, e) in subst P same a.0
    | inr e ↦ All-find? P p x xs a.1 (cc (h, e))
  ]

-- A primary key: no two rows share it.
module _ {A : Type 0} (key : A → ℕ) where
  abbrev pub by_key : ℕ → A → Bool
  by_key k x = key x == k

  abbrev pub UniqueBy : List A → Type 0
  UniqueBy [] = Unit
  UniqueBy (x ∷ xs) = (find? (by_key (key x)) xs ≡ none) × UniqueBy xs

  -- A row that some lookup finds has the key of no row before it.
  find?-none_of_key :
      (p : A → Bool) (x : A) (k : ℕ) (xs : List A)
      → find? (by_key k) xs ≡ none
      → find? p xs ≡ some x
      → (key x == k) ≡ false
  find?-none_of_key p x k [] h e = cc
  find?-none_of_key p x k (y ∷ xs) h e = ground (arith, find?-none_of_key p x k xs)

  -- A row that any lookup finds is the row that its key finds.
  pub find?-by_key :
      (p : A → Bool) (x : A) (xs : List A)
      → UniqueBy xs
      → find? p xs ≡ some x
      → find? (by_key (key x)) xs ≡ some x
  find?-by_key p x [] u e = cc
  find?-by_key p x (y ∷ xs) u e = elim (Bool-cases (p y)) [
    | inl h ↦ let same : y ≡ x = cc (e, h) in ground (arith, same)
    | inr h ↦ ground (arith, h, find?-by_key p x xs u.1, find?-none_of_key p x (key y) xs u.0)
  ]

  pub UniqueBy-update_where :
      (test : A → Bool) (f : A → A) (xs : List A)
      → ((x : A) → key (f x) ≡ key x)
      → UniqueBy xs
      → UniqueBy (update_where test f xs)
  UniqueBy-update_where test f [] h u = tt
  UniqueBy-update_where test f (x ∷ xs) h u =
      let rest = UniqueBy-update_where test f xs h u.1 in
      let kept =
        λ (k : ℕ). find?-update_where test f (by_key k) xs (λ y. ap (λ (n : ℕ). n == k) (h y)) in
      elim (Bool-cases (test x)) [
        | inl e ↦ rw (e, h x) (kept (key x) ∙ rw (u.0), rest)
        | inr e ↦ rw e (kept (key x) ∙ rw (u.0), rest)
      ]
