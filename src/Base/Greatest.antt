-- ===== src/Base/Greatest.antt =====
-- `order_by("-column").first()` and `max(rows, key=…)`: the first of the greatest rows. Rows that tie
-- stay in the order of the table.
use Prim.Native.Nat.{ℕ, ◌≤◌}
use mathlib.Core.Path.{◌≡◌, refl, sym, ap, ◌∙◌, subst}
use mathlib.Core.Logic.{inl, inr}
use mathlib.Core.Bool.{Bool, true, false}
use mathlib.Core.Option.{Option, none, some}
use mathlib.Core.List.{List, [], ◌∷◌, Memᴰ}
use native.Mathlib.Omega.{arith}
use api_paperbase.Base.Tests.{ltb, if◌then◌else◌, Option-cases, Bool-cases}
use api_paperbase.Base.Lists.{All, any}
use api_paperbase.Base.Queries.{filter, find?}
use api_paperbase.Base.Order.{All-map}

module _ {A : Type 0} where
  unfoldable pub greatest_by : (A → A → Bool) → List A → Option A
  greatest_by lt [] = none
  greatest_by lt (x ∷ xs) = elim (greatest_by lt xs) [
    | none ↦ some x
    | some y ↦ some (if lt x y then y else x)
  ]

  pub greatest_by-none : (lt : A → A → Bool) (xs : List A) → greatest_by lt xs ≡ none → xs ≡ []
  unfolding greatest_by
  greatest_by-none lt [] h = refl
  greatest_by-none lt (x ∷ xs) h = elim (Option-cases (greatest_by lt xs)) [
    | inl e ↦ cc (h, e)
    | inr (y, e) ↦ cc (h, e)
  ]

  pub greatest_by-All :
      (P : A → Type 0) (lt : A → A → Bool) (xs : List A) (m : A)
      → All P xs
      → greatest_by lt xs ≡ some m
      → P m
  unfolding greatest_by
  greatest_by-All P lt [] m a h = cc h
  greatest_by-All P lt (x ∷ xs) m a h = elim (Option-cases (greatest_by lt xs)) [
    | inl e ↦ let same : x ≡ m = cc (h, e) in subst P same a.0
    | inr (y, e) ↦
        let rest = greatest_by-All P lt xs y a.1 e in
        elim (Bool-cases (lt x y)) [
          | inl b ↦ let same : y ≡ m = cc (h, e, b) in subst P same rest
          | inr b ↦ let same : x ≡ m = cc (h, e, b) in subst P same a.0
        ]
  ]

  pub greatest_by-max :
      (key : A → ℕ) (xs : List A) (m : A)
      → greatest_by (λ x y. ltb (key x) (key y)) xs ≡ some m
      → All (λ x. key x ≤ key m) xs
  unfolding greatest_by
  greatest_by-max key [] m h = tt
  greatest_by-max key (x ∷ xs) m h =
      elim (Option-cases (greatest_by (λ x y. ltb (key x) (key y)) xs)) [
        | inl e ↦
            let same : x ≡ m = cc (h, e) in
            let alone : xs ≡ [] = greatest_by-none (λ x y. ltb (key x) (key y)) xs e in
            (subst (λ y. key x ≤ key y) same (omega arith), rw alone tt)
        | inr (y, e) ↦
            let rest = greatest_by-max key xs y e in
            elim (Bool-cases (ltb (key x) (key y))) [
              | inl b ↦
                  let same : y ≡ m = cc (h, e, b) in
                  subst (λ z. (key x ≤ key z) × All (λ w. key w ≤ key z) xs) same
                    (ground (arith, b), rest)
              | inr b ↦
                  let same : x ≡ m = cc (h, e, b) in
                  let under : key y ≤ key x = ground (arith, b) in
                  subst (λ z. (key x ≤ key z) × All (λ w. key w ≤ key z) xs) same
                    (
                      omega arith,
                      All-map (λ w. key w ≤ key y) (λ w. key w ≤ key x) xs
                          (λ w k. omega (arith, k, under)) rest,
                    )
            ]
      ]

  pub filter-empty : (p : A → Bool) (xs : List A) → filter p xs ≡ [] → any xs p ≡ false
  filter-empty p [] h = refl
  filter-empty p (x ∷ xs) h = elim (Bool-cases (p x)) [
    | inl e ↦ cc (h, e)
    | inr e ↦ rw e (filter-empty p xs (cc (h, e)))
  ]

  pub any_of : (q : A → Bool) (xs : List A) → All (λ x. q x ≡ true → any xs q ≡ true) xs
  any_of q [] = tt
  any_of q (x ∷ xs) = (λ e. rw e refl, All-map _ _ xs (λ y h e. ground (arith, h e)) (any_of q xs))

  pub any_none : (q : A → Bool) (xs : List A) → All (λ x. q x ≡ false) xs → any xs q ≡ false
  any_none q [] h = refl
  any_none q (x ∷ xs) h = rw (h.0) (any_none q xs h.1)

  pub none_of_any : (q : A → Bool) (xs : List A) → any xs q ≡ false → All (λ x. q x ≡ false) xs
  none_of_any q [] h = tt
  none_of_any q (x ∷ xs) h = (ground arith, none_of_any q xs (ground arith))

-- A row that passes a test, and the lookup that finds one.
pub any_of_found :
    {A : Type 0} (p : A → Bool) (xs : List A) (x : A) → find? p xs ≡ some x → any xs p ≡ true
any_of_found p [] x h = cc h
any_of_found p (y ∷ xs) x h = elim (Bool-cases (p y)) [
  | inl e ↦ rw e refl
  | inr e ↦ rw e (any_of_found p xs x (cc (h, e)))
]

pub found_of_any :
    {A : Type 0} (p : A → Bool) (xs : List A) → any xs p ≡ true → (x : A) × (find? p xs ≡ some x)
found_of_any p [] h = cc h
found_of_any p (x ∷ xs) h = elim (Bool-cases (p x)) [
  | inl e ↦ (x, rw e refl)
  | inr e ↦ let (y, found) = found_of_any p xs (cc (h, e)) in (y, rw e found)
]

pub find?-Mem : {A : Type 0} (p : A → Bool) (x : A) (xs : List A) → find? p xs ≡ some x → Memᴰ x xs
find?-Mem p x [] h = cc h
find?-Mem p x (y ∷ xs) h = elim (Bool-cases (p y)) [
  | inl e ↦ Memᴰ.head (cc (h, e))
  | inr e ↦ Memᴰ.tail (find?-Mem p x xs (cc (h, e)))
]

pub any-Mem :
    {A : Type 0} (p : A → Bool) (x : A) (xs : List A) → Memᴰ x xs → p x ≡ true → any xs p ≡ true
any-Mem p x [] m h = elim m [ ]
any-Mem p x (y ∷ ys) (Memᴰ.head e) h = let here : p y ≡ true = ap p (sym e) ∙ h in rw here refl
any-Mem p x (y ∷ ys) (Memᴰ.tail m) h = let later = any-Mem p x ys m h in rw later (ground arith)
