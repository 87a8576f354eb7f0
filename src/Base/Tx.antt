-- ===== src/Base/Tx.antt =====
-- Code inside `transaction.atomic()`: it reads and writes the tables, and may raise. A raise rolls
-- every write back, so an error carries no state: the caller goes on from the state it had.
use mathlib.Core.Bool.{Bool, true, false}
use mathlib.Core.Option.{Option, none, some}
use api_paperbase.Base.Results.{Result, ok, err, Delivers}

abbrev pub Tx : Type 0 → Type 0 → Type 0 → Type 0
Tx S E A = S → Result E (A × S)

module _ {S E A : Type 0} where
  abbrev pub pure : A → Tx S E A
  pure a s = ok (a, s)

  abbrev pub raise : E → Tx S E A
  raise e s = err e

  abbrev pub gets : (S → A) → Tx S E A
  gets f s = ok (f s, s)

  abbrev pub or_raise : Option A → E → Tx S E A
  or_raise none e s = err e
  or_raise (some a) e s = ok (a, s)

  -- A fallible call that reads no table.
  abbrev pub lift : Result E A → Tx S E A
  lift (ok a) s = ok (a, s)
  lift (err e) s = err e

module _ {S E : Type 0} where
  abbrev pub modify : (S → S) → Tx S E (Unit {0})
  modify f s = ok (tt, f s)

  -- `if b: raise e`
  abbrev pub raise_if : Bool → E → Tx S E (Unit {0})
  raise_if true e s = err e
  raise_if false e s = ok (tt, s)

  abbrev pub when : Bool → Tx S E (Unit {0}) → Tx S E (Unit {0})
  when true m s = m s
  when false m s = ok (tt, s)

abbrev pub andthen : {S E A B : Type 0} → Result E (A × S) → (A → Tx S E B) → Result E (B × S)
andthen (ok (a, s)) f = f a s
andthen (err e) f = err e

infixl 5 ◌>>=◌ ◌>>◌
abbrev pub ◌>>=◌ : {S E A B : Type 0} → Tx S E A → (A → Tx S E B) → Tx S E B
◌>>=◌ m f s = andthen (m s) f

abbrev pub ◌>>◌ : {S E A B : Type 0} → Tx S E A → Tx S E B → Tx S E B
m >> k = m >>= λ _. k

-- A call that succeeds and then one that succeeds from there.
pub Delivers-bind :
    {E A B S : Type 0} (Q : A → S → Type 0) (R : B → S → Type 0) (r : Result E (A × S))
    (f : A → Tx S E B)
    → Delivers Q r
    → ((a : A) (s : S) → Q a s → Delivers R (f a s))
    → Delivers R (andthen r f)
Delivers-bind Q R (ok (a, s)) f h k = k a s h
Delivers-bind Q R (err e) f h k = absurd h

pub Delivers-weaken :
    {E A S : Type 0} (Q R : A → S → Type 0) (r : Result E (A × S))
    → Delivers Q r
    → ((a : A) (s : S) → Q a s → R a s)
    → Delivers R r
Delivers-weaken Q R (ok (a, s)) h k = k a s h
Delivers-weaken Q R (err e) h k = absurd h
