-- ===== src/Base/Results.antt =====
-- Fallible code: a value, or the error that the code raises.
use mathlib.Core.Bool.{Bool, true, false}
use mathlib.Core.Path.{◌≡◌, refl}
use mathlib.Core.Logic.{◌⊎◌, inl, inr}
use mathlib.Core.Option.{Option, none, some}

pub data Result (E : Type 0) (A : Type 0) : Type 0 where
  ok : A → Result E A
  err : E → Result E A

infixl 5 ◌>>=◌ ◌>>◌
abbrev pub ◌>>=◌ : {E A B : Type 0} → Result E A → (A → Result E B) → Result E B
ok a >>= f = f a
err e >>= f = err e

abbrev pub ◌>>◌ : {E B : Type 0} → Result E (Unit {0}) → Result E B → Result E B
m >> k = m >>= λ _. k

-- `if b: raise e`
abbrev pub raise_if : {E : Type 0} → Bool → E → Result E (Unit {0})
raise_if true e = err e
raise_if false e = ok tt

abbrev pub or_raise : {E A : Type 0} → Option A → E → Result E A
or_raise none e = err e
or_raise (some a) e = ok a

abbrev pub IsOk : {E A : Type 0} → Result E A → Type 0
IsOk (ok a) = Unit
IsOk (err e) = ⊥

pub IsOk-value : {E A : Type 0} (r : Result E A) → IsOk r → (a : A) × (r ≡ ok a)
IsOk-value (ok a) h = (a, refl)
IsOk-value (err e) h = absurd h

abbrev pub map_ok : {E A B : Type 0} → (A → B) → Result E A → Result E B
map_ok f (ok a) = ok (f a)
map_ok f (err e) = err e

-- Code that only computes with a fallible call's value.
pub bind-map_ok :
    {E A B : Type 0} (r : Result E A) (f : A → Result E B) (g : A → B)
    → ((a : A) → f a ≡ ok (g a))
    → r >>= f ≡ map_ok g r
bind-map_ok (ok a) f g h = h a
bind-map_ok (err e) f g h = refl

-- Two pieces of code that make the same fallible call and show the same of their results.
pub map_ok-bind :
    {E A B B' C : Type 0} (r : Result E A) (f : A → Result E B) (f' : A → Result E B') (g : B → C)
    (g' : B' → C)
    → ((a : A) → map_ok g (f a) ≡ map_ok g' (f' a))
    → map_ok g (r >>= f) ≡ map_ok g' (r >>= f')
map_ok-bind (ok a) f f' g g' h = h a
map_ok-bind (err e) f f' g g' h = refl

-- To split on a fallible call's result and keep the equation.
pub Result-cases :
    {E A : Type 0} (r : Result E A) → ((a : A) × (r ≡ ok a)) ⊎ ((e : E) × (r ≡ err e))
Result-cases (ok a) = inl (a, refl)
Result-cases (err e) = inr (e, refl)

-- The value of a call, or `other` if it raised.
abbrev pub value : {E A : Type 0} → Result E A → A → A
value (ok a) other = a
value (err e) other = other

-- A call has one result.
pub same_result :
    {E A S : Type 0} (r : Result E (A × S)) (a a' : A) (s s' : S)
    → r ≡ ok (a, s)
    → r ≡ ok (a', s')
    → (a ≡ a') × (s ≡ s')
same_result r a a' s s' h h' = (cc (h, h'), cc (h, h'))

pub ok_or_err : {E A : Type 0} (r : Result E A) (a : A) (e : E) → r ≡ ok a → r ≡ err e → ⊥
ok_or_err r a e h h' = cc (h, h')

-- Whether a call succeeds.
abbrev pub is_ok : {E A : Type 0} → Result E A → Bool
is_ok (ok a) = true
is_ok (err e) = false

-- A call succeeds, and its value and its state are as stated.
abbrev pub Delivers : {E A S : Type 0} → (A → S → Type 0) → Result E (A × S) → Type 0
Delivers Q (ok (a, s)) = Q a s
Delivers Q (err e) = ⊥
