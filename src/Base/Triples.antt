-- ===== src/Base/Triples.antt =====
-- What holds after a transaction that succeeds, from what holds before it: one rule for each way to
-- write one.
use mathlib.Core.Path.{◌≡◌, refl, subst}
use mathlib.Core.Bool.{Bool, true, false}
use mathlib.Core.Option.{Option, none, some}
use api_paperbase.Base.Results.{Result, ok, err, Delivers}
use api_paperbase.Base.Tx.{Tx, pure, gets, or_raise, lift, modify, raise_if, when, andthen, ◌>>=◌}

pub record Triple {S E A : Type 0} (P : S → Type 0) (m : Tx S E A) (Q : A → S → Type 0)
    : Type 0 where
  pub after : (s : S) → P s → (a : A) (s' : S) → m s ≡ ok (a, s') → Q a s'

module _ {S E A : Type 0} where
  abbrev returned : A → S → Result E (A × S)
  returned a s = ok (a, s)

  ok_post : (Q : A → S → Type 0) (a b : A) (s t : S) → returned a s ≡ ok (b, t) → Q a s → Q b t
  ok_post Q a b s t h q =
      let value : a ≡ b = cc h in
      let state : s ≡ t = cc h in subst (λ (x : A). Q x t) value (subst (λ (x : S). Q a x) state q)

  pub pure-after :
      {P : S → Type 0} (Q : A → S → Type 0) (a : A)
      → ((s : S) → P s → Q a s)
      → Triple {E = E} P (pure a) Q
  pure-after Q a k = record { after = λ s p b t h. ok_post Q a b s t h (k s p) }

  pub weaken :
      {P : S → Type 0} {Q R : A → S → Type 0} (m : Tx S E A)
      → Triple P m Q
      → ((a : A) (s : S) → Q a s → R a s)
      → Triple P m R
  weaken m t k = record { after = λ s p a s' h. k a s' (t.after s p a s' h) }

  pub strengthen :
      {P R : S → Type 0} {Q : A → S → Type 0} (m : Tx S E A)
      → ((s : S) → R s → P s)
      → Triple P m Q
      → Triple R m Q
  strengthen m k t = record { after = λ s r a s' h. t.after s (k s r) a s' h }

  -- A fact about the values of a call, which the state that it starts from carries.
  pub known :
      {P : S → Type 0} {Q : A → S → Type 0} {C : Type 0} (m : Tx S E A)
      → ((s : S) → P s → C)
      → (C → Triple P m Q)
      → Triple P m Q
  known m k t = record { after = λ s p a s' h. (t (k s p)).after s p a s' h }

  pub gets-after : {P : S → Type 0} (f : S → A) → Triple {E = E} P (gets f) (λ a s. (a ≡ f s) × P s)
  gets-after {P} f = record {
    after = λ s p b t h. ok_post (λ a s. (a ≡ f s) × P s) (f s) b s t h (refl, p);
  }

  pub lift-after : {P : S → Type 0} (r : Result E A) → Triple P (lift r) (λ a s. (r ≡ ok a) × P s)
  lift-after {P} (ok a) = record {
    after = λ s p b t h.
        ok_post (λ b s. (◌≡◌ {A = Result E A} (ok a) (ok b)) × P s) a b s t h (refl, p);
  }
  lift-after {P} (err e) = record { after = λ s p b t h. cc h }

  -- A call that succeeds, with what it delivers.
  pub Delivers-after :
      {P : S → Type 0} (Q : A → S → Type 0) (m : Tx S E A)
      → ((s : S) → P s → Delivers Q (m s))
      → Triple P m Q
  Delivers-after Q m k = record { after = λ s p a t h. of_result (m s) a t h (k s p) }
    where
      of_result : (r : Result E (A × S)) (a : A) (t : S) → r ≡ ok (a, t) → Delivers Q r → Q a t
      of_result (ok (b, u)) a t h d = ok_post Q b a u t h d
      of_result (err e) a t h d = absurd d

  pub or_raise-after :
      {P : S → Type 0} (o : Option A) (e : E) → Triple P (or_raise o e) (λ a s. (o ≡ some a) × P s)
  or_raise-after {P} (some a) e = record {
    after = λ s p b t h. ok_post (λ b s. (some a ≡ some b) × P s) a b s t h (refl, p);
  }
  or_raise-after {P} none e = record { after = λ s p b t h. cc h }

  bind_cases :
      {B : Type 0} (r : Result E (A × S)) (f : A → Tx S E B) (b : B) (t : S)
      → andthen r f ≡ ok (b, t)
      → (a : A) × (s : S) × (r ≡ ok (a, s)) × (f a s ≡ ok (b, t))
  bind_cases (ok (a, s)) f b t h = (a, s, refl, h)
  bind_cases (err e) f b t h = cc h

  pub bind-after :
      {B : Type 0} {P : S → Type 0} {Q : A → S → Type 0} {R : B → S → Type 0} (m : Tx S E A)
      (f : A → Tx S E B)
      → Triple P m Q
      → ((a : A) → Triple (Q a) (f a) R)
      → Triple P (m >>= f) R
  bind-after m f t u = record {
    after = λ s p b s' h.
        let (a, mid, run, rest) = bind_cases (m s) f b s' h in
        (u a).after mid (t.after s p a mid run) b s' rest;
  }

module _ {S E : Type 0} where
  abbrev done : S → Result E (Unit {0} × S)
  done s = ok (tt, s)

  done_post : (Q : S → Type 0) (b : Unit {0}) (s t : S) → done s ≡ ok (b, t) → Q s → Q t
  done_post Q b s t h q = let state : s ≡ t = cc h in subst (λ (x : S). Q x) state q

  pub modify-after :
      {P Q : S → Type 0} (f : S → S)
      → ((s : S) → P s → Q (f s))
      → Triple {E = E} P (modify f) (λ _ s. Q s)
  modify-after {P} {Q} f k = record { after = λ s p b t h. done_post Q b (f s) t h (k s p) }

  pub raise_if-after :
      {P : S → Type 0} (b : Bool) (e : E) → Triple P (raise_if b e) (λ _ s. (b ≡ false) × P s)
  raise_if-after {P} true e = record { after = λ s p b t h. cc h }
  raise_if-after {P} false e = record {
    after = λ s p b t h. done_post (λ s. (false ≡ false) × P s) b s t h (refl, p);
  }

  pub when-after :
      {P Q : S → Type 0} (b : Bool) (m : Tx S E (Unit {0}))
      → Triple P m (λ _ s. Q s)
      → ((s : S) → P s → Q s)
      → Triple P (when b m) (λ _ s. Q s)
  when-after {P} {Q} true m t k = t
  when-after {P} {Q} false m t k = record { after = λ s p b u h. done_post Q b s u h (k s p) }
