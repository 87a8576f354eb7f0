-- ===== src/Orders/Lifecycle/Reachable.antt =====
-- Runs of the three services on orders, with new orders placed in between.
use api_paperbase.Base.{
  ℕ, ◌≡◌, refl, ap, sym, ◌∙◌, Bool, true, false, none, some, List, [], ◌∷◌, ◌==◌, if◌then◌else◌,
  arith, inl, inr, ◌&&◌, ◌≢◌, Bool-cases, Option-cases, ==→eq,
}
use mathlib.Core.Option
use mathlib.Core.Path.{subst}
use api_paperbase.Base.Text.{Text, strip}
use api_paperbase.Base.Results.{ok}
use api_paperbase.Base.Queries.{find?, update_where, find?-test}
use api_paperbase.Orders.{
  Order, OrderStatus, cancelled, PaymentStatus, unpaid, failed, Shop, is_order,
}
use api_paperbase.Orders.Rollup.{is_cancelled}
use api_paperbase.Orders.Lifecycle.{
  apply_order_status_change, submit_stripped, submit_order_payment, apply_payment_verification,
  is_payment_pending,
}
use api_paperbase.Orders.Lifecycle.Success.{
  Move, stay, change, cancel, cancel_unpaid, submit, accept, reject, Moved, submit-Moved,
}
use api_paperbase.Orders.Lifecycle.Change.{change-Moved}
use api_paperbase.Orders.Lifecycle.Verify.{verification-Moved}

-- A call that succeeds, or a new order, which has an unused key and no payment yet.
pub data Step : Shop → Shop → Type 0 where
  placed :
      {s : Shop} (o : Order)
      → find? (is_order o.id) s.orders ≡ none
      → o.payment_status ≡ unpaid
      → Step s (record s { orders = o ∷ s.orders })
  changed :
      {s s' : Shop} (conflict : ℕ → Bool) (now saved_at pk : ℕ) (to_status : Text) (o : Order)
      → apply_order_status_change conflict now saved_at pk to_status s ≡ ok (o, s')
      → Step s s'
  paid :
      {s s' : Shop} (saved_at pk : ℕ) (transaction_id payer_number : Text) (o : Order)
      → submit_order_payment saved_at pk transaction_id payer_number s ≡ ok (o, s')
      → Step s s'
  checked :
      {s s' : Shop} (conflict : ℕ → Bool) (now saved_at pk : ℕ) (valid : Bool) (o : Order)
      → apply_payment_verification conflict now saved_at pk valid s ≡ ok (o, s')
      → Step s s'

-- The shops that a run from a shop without orders reaches.
pub data Reachable : Shop → Type 0 where
  start : {s : Shop} → s.orders ≡ [] → Reachable s
  next : {s s' : Shop} → Reachable s → Step s s' → Reachable s'

-- A lookup after an order was stored under its own key.
find?-stored :
    (pk : ℕ) (o : Order) (xs : List Order)
    → find? (is_order pk) (update_where (is_order o.id) (λ _. o) xs)
      ≡ Option.map (λ x. if x.id == o.id then o else x) (find? (is_order pk) xs)
find?-stored pk o [] = refl
find?-stored pk o (x ∷ xs) = ground (arith, find?-stored pk o xs)

-- The order `o` of the first shop is, in the second, an order that it moves to.
pub record After (pk : ℕ) (o : Order) (s' : Shop) : Type 0 where
  pub order : Order
  pub found : find? (is_order pk) s'.orders ≡ some order
  pub move : Move o.status o.payment_status order.status order.payment_status

Moved-After :
    (pk k : ℕ) (o r : Order) (s s' : Shop)
    → Moved k r s s'
    → find? (is_order pk) s.orders ≡ some o
    → After pk o s'
Moved-After pk k o r s s' m found = elim m.stored [
  | inl (_, same) ↦ record { order = o; found = rw same found; move = stay }
  | inr wrote ↦
      let own : update_where (is_order m.locked.id) (λ _. r) s.orders
          ≡ update_where (is_order r.id) (λ _. r) s.orders =
        ap (λ j. update_where (is_order j) (λ _. r) s.orders) (sym m.same_id) in
      let moved : find? (is_order pk) s'.orders ≡ some (if o.id == r.id then r else o) =
        ap (find? (is_order pk)) (wrote ∙ own) ∙ find?-stored pk r s.orders ∙ rw found refl in
      elim (Bool-cases (o.id == r.id)) [
        | inl e ↦
            let o_key = ==→eq o.id pk (find?-test (is_order pk) o s.orders found) in
            let locked_key =
              ==→eq m.locked.id k (find?-test (is_order k) m.locked s.orders m.found) in
            let keys : pk ≡ k = sym o_key ∙ ==→eq o.id r.id e ∙ m.same_id ∙ locked_key in
            let same : m.locked ≡ o = cc (m.found, found, keys) in
            record {
              order = r;
              found = moved ∙ rw e refl;
              move =
                  subst (λ (x : Order). Move x.status x.payment_status r.status r.payment_status)
                    same m.move;
            }
        | inr e ↦ record { order = o; found = moved ∙ rw e refl; move = stay }
      ]
]

-- Every step moves every order that is there along the state machine, and loses none.
pub Step-After :
    (pk : ℕ) (o : Order) (s s' : Shop)
    → Step s s'
    → find? (is_order pk) s.orders ≡ some o
    → After pk o s'
Step-After pk o s s' (placed new fresh unpaid_yet) = λ found. elim (Bool-cases (new.id == pk)) [
  | inl e ↦
      let clash : find? (is_order pk) s.orders ≡ none =
        subst (λ j. find? (is_order j) s.orders ≡ none) (==→eq new.id pk e) fresh in
      cc (clash, found)
  | inr e ↦ record { order = o; found = rw e found; move = stay }
]
Step-After pk o s s' (changed conflict now saved_at k to_status r run) =
    Moved-After pk k o r s s' (change-Moved conflict now saved_at k to_status s r s' run).1
Step-After pk o s s' (paid saved_at k transaction_id payer_number r run) =
    Moved-After pk k o r s s' (submit-Moved saved_at k transaction_id payer_number s r s' run).1
Step-After pk o s s' (checked conflict now saved_at k valid r run) =
    Moved-After pk k o r s s' (verification-Moved conflict now saved_at k valid s r s' run).2

pays-cancelled :
    (a : OrderStatus) (b : Bool) → (is_payment_pending a && b) ≡ true → is_cancelled a ≡ true → ⊥
pays-cancelled a b x h = ground arith

-- No move leaves the cancelled state, and none changes the payment status there.
Move-final :
    (a b : OrderStatus) (p q : PaymentStatus)
    → Move a p b q
    → is_cancelled a ≡ true
    → (b ≡ a) × (q ≡ p)
Move-final a b p q stay h = (refl, refl)
Move-final a b p q (change x y z) h = cc (h, x)
Move-final a b p q (cancel x y) h = cc (h, x)
Move-final a b p q (cancel_unpaid x) h = absurd (pays-cancelled a _ x h)
Move-final a b p q (submit x y) h = absurd (pays-cancelled a true (rw x refl) h)
Move-final a b p q (accept x y) h = absurd (pays-cancelled a true (rw x refl) h)
Move-final a b p q (reject x y) h = absurd (pays-cancelled a true (rw x refl) h)

-- A cancelled order stays cancelled, with the payment status it has, whatever is done next.
pub cancelled-final :
    (pk : ℕ) (o : Order) (s s' : Shop)
    → Step s s'
    → find? (is_order pk) s.orders ≡ some o
    → o.status ≡ cancelled
    → (o' : Order) × (find? (is_order pk) s'.orders ≡ some o')
      × (o'.status ≡ cancelled)
      × (o'.payment_status ≡ o.payment_status)
cancelled-final pk o s s' step found h =
    let after = Step-After pk o s s' step found in
    let (b, q) = Move-final _ _ _ _ after.move (rw h refl) in (after.order, after.found, b ∙ h, q)

-- A payment fails only with its order.
abbrev pub IsFailedOnly : OrderStatus → PaymentStatus → Type 0
IsFailedOnly a p = p ≡ failed → is_cancelled a ≡ true

Move-failed :
    (a b : OrderStatus) (p q : PaymentStatus) → Move a p b q → IsFailedOnly a p → IsFailedOnly b q
Move-failed a b p q stay h = h
Move-failed a b p q (change x y z) h = λ e. cc (h e, x)
Move-failed a b p q (cancel x y) h = λ e. refl
Move-failed a b p q (cancel_unpaid x) h = λ e. refl
Move-failed a b p q (submit x y) h = λ e. cc e
Move-failed a b p q (accept x y) h = λ e. cc e
Move-failed a b p q (reject x y) h = λ e. refl

Moved-absent :
    (pk k : ℕ) (r : Order) (s s' : Shop)
    → Moved k r s s'
    → find? (is_order pk) s.orders ≡ none
    → find? (is_order pk) s'.orders ≡ none
Moved-absent pk k r s s' m absent = elim m.stored [
  | inl (_, same) ↦ rw same absent
  | inr wrote ↦
      let own : update_where (is_order m.locked.id) (λ _. r) s.orders
          ≡ update_where (is_order r.id) (λ _. r) s.orders =
        ap (λ j. update_where (is_order j) (λ _. r) s.orders) (sym m.same_id) in
      ap (find? (is_order pk)) (wrote ∙ own) ∙ find?-stored pk r s.orders ∙ rw absent refl
]

-- An order that a step brings has no payment.
Step-new :
    (pk : ℕ) (o : Order) (s s' : Shop)
    → Step s s'
    → find? (is_order pk) s.orders ≡ none
    → find? (is_order pk) s'.orders ≡ some o
    → o.payment_status ≡ unpaid
Step-new pk o s s' (placed new fresh unpaid_yet) = λ absent found.
    elim (Bool-cases (new.id == pk)) [
      | inl e ↦
          let same : new ≡ o = cc (found, e) in
          ap (λ (x : Order). x.payment_status) (sym same) ∙ unpaid_yet
      | inr e ↦ cc (found, e, absent)
    ]
Step-new pk o s s' (changed conflict now saved_at k to_status r run) = λ absent found. cc (
  found,
  Moved-absent pk k r s s' (change-Moved conflict now saved_at k to_status s r s' run).1 absent,
)
Step-new pk o s s' (paid saved_at k transaction_id payer_number r run) = λ absent found. cc (
  found,
  Moved-absent pk k r s s' (submit-Moved saved_at k transaction_id payer_number s r s' run).1
      absent,
)
Step-new pk o s s' (checked conflict now saved_at k valid r run) = λ absent found. cc (
  found,
  Moved-absent pk k r s s' (verification-Moved conflict now saved_at k valid s r s' run).2 absent,
)

-- In every reachable shop, an order whose payment has failed is cancelled.
pub Reachable-failed :
    (pk : ℕ) (o : Order) (s : Shop)
    → Reachable s
    → find? (is_order pk) s.orders ≡ some o
    → o.payment_status ≡ failed
    → is_cancelled o.status ≡ true
Reachable-failed pk o s (start empty) found e = cc (ap (find? (is_order pk)) empty, found)
Reachable-failed pk o s' (next {s} run step) found e =
    elim (Option-cases (find? (is_order pk) s.orders)) [
      | inl absent ↦ cc (e, Step-new pk o s s' step absent found)
      | inr (before, was) ↦
          let after = Step-After pk before s s' step was in
          let same : after.order ≡ o = cc (after.found, found) in
          subst (λ (x : Order). IsFailedOnly x.status x.payment_status) same
            (Move-failed _ _ _ _ after.move (Reachable-failed pk before s run was)) e
    ]

submit-late :
    (saved_at pk : ℕ) (tx payer : Text) (o r : Order) (s s' : Shop)
    → find? (is_order pk) s.orders ≡ some o
    → is_payment_pending o.status ≡ false
    → submit_stripped saved_at pk tx payer s ≢ ok (r, s')
unfolding submit_stripped
submit-late saved_at pk [] payer o r s s' found h run = cc run
submit-late saved_at pk (c ∷ tx) [] o r s s' found h run = cc run
submit-late saved_at pk (c ∷ tx) (d ∷ payer) o r s s' found h run = cc (run, found, h)

-- In no reachable shop does an order whose payment has failed take another payment.
pub failed-final :
    (saved_at pk : ℕ) (transaction_id payer_number : Text) (o r : Order) (s s' : Shop)
    → Reachable s
    → find? (is_order pk) s.orders ≡ some o
    → o.payment_status ≡ failed
    → submit_order_payment saved_at pk transaction_id payer_number s ≢ ok (r, s')
unfolding submit_order_payment
failed-final saved_at pk transaction_id payer_number o r s s' run found e =
    submit-late saved_at pk (strip transaction_id) (strip payer_number) o r s s' found
      (not_pays o.status (Reachable-failed pk o s run found e))
  where
    not_pays : (a : OrderStatus) → is_cancelled a ≡ true → is_payment_pending a ≡ false
    not_pays a h = ground arith
