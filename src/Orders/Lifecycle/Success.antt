-- ===== src/Orders/Lifecycle/Success.antt =====
-- The state machine of an order, and `submit_order_payment` on it.
use api_paperbase.Base.{
  ℕ, ◌≡◌, refl, sym, Bool, true, false, not, ◌&&◌, some, [], ◌∷◌, Bool-cases, Option-cases, ◌⊎◌,
  inl, inr,
}
use mathlib.Core.Path.{subst}
use api_paperbase.Base.Text.{Text, strip}
use api_paperbase.Base.Results.{ok}
use api_paperbase.Base.Queries.{find?, update_where}
use api_paperbase.Orders.{
  Order, OrderStatus, confirmed, cancelled, PaymentStatus, submitted, verified, failed, Shop,
  is_order,
}
use api_paperbase.Orders.Rollup.{is_confirmed, is_cancelled}
use api_paperbase.Orders.Lifecycle.{
  is_payment_pending, is_verified, is_submitted, may_submit, submit_stripped, submit_order_payment,
}

-- The moves of an order's status and payment status.
pub data Move : OrderStatus → PaymentStatus → OrderStatus → PaymentStatus → Type 0 where
  stay : {a : OrderStatus} {p : PaymentStatus} → Move a p a p
  change :
      {a b : OrderStatus} {p : PaymentStatus}
      → is_cancelled a ≡ false
      → is_cancelled b ≡ false
      → (is_payment_pending a && is_confirmed b && not (is_verified p)) ≡ false
      → Move a p b p
  cancel :
      {a : OrderStatus} {p : PaymentStatus}
      → is_cancelled a ≡ false
      → (is_payment_pending a && not (is_verified p)) ≡ false
      → Move a p cancelled p
  cancel_unpaid :
      {a : OrderStatus} {p : PaymentStatus}
      → (is_payment_pending a && not (is_verified p)) ≡ true
      → Move a p cancelled failed
  submit :
      {a : OrderStatus} {p : PaymentStatus}
      → is_payment_pending a ≡ true
      → may_submit p ≡ true
      → Move a p a submitted
  accept :
      {a : OrderStatus} {p : PaymentStatus}
      → is_payment_pending a ≡ true
      → is_submitted p ≡ true
      → Move a p confirmed verified
  reject :
      {a : OrderStatus} {p : PaymentStatus}
      → is_payment_pending a ≡ true
      → is_submitted p ≡ true
      → Move a p cancelled failed

-- An operation that succeeded found the order, moved it, and stored what it returned.
pub record Moved (pk : ℕ) (o : Order) (shop shop' : Shop) : Type 0 where
  pub locked : Order
  pub found : find? (is_order pk) shop.orders ≡ some locked
  pub move : Move locked.status locked.payment_status o.status o.payment_status
  pub same_id : o.id ≡ locked.id
  pub stored :
      ((o ≡ locked) × (shop' ≡ shop))
      ⊎ (shop'.orders ≡ update_where (is_order locked.id) (λ _. o) shop.orders)

pub not-false : (b : Bool) → not b ≡ false → b ≡ true
not-false true h = refl
not-false false h = cc h

-- The payment is submitted, with these texts.
abbrev pub IsSubmitted : Text → Text → Order → Type 0
IsSubmitted tx payer o =
    (o.payment_status ≡ submitted) × (o.transaction_id ≡ tx) × (o.payer_number ≡ payer)

stripped-Moved :
    (saved_at pk : ℕ) (tx payer : Text) (shop : Shop) (o : Order) (shop' : Shop)
    → submit_stripped saved_at pk tx payer shop ≡ ok (o, shop')
    → IsSubmitted tx payer o × Moved pk o shop shop'
unfolding submit_stripped
stripped-Moved saved_at pk [] payer shop o shop' h = cc h
stripped-Moved saved_at pk (c ∷ tx) [] shop o shop' h = cc h
stripped-Moved saved_at pk (c ∷ tx) (d ∷ payer) shop o shop' h =
    elim (Option-cases (find? (is_order pk) shop.orders)) [
      | inl no_order ↦ cc (h, no_order)
      | inr (locked, found) ↦ elim (Bool-cases (not (is_payment_pending locked.status))) [
        | inl late ↦ cc (h, found, late)
        | inr pays ↦ elim (Bool-cases (not (may_submit locked.payment_status))) [
          | inl twice ↦ cc (h, found, pays, twice)
          | inr first ↦
              let saved : Order = record locked {
                payment_status = submitted;
                transaction_id = c ∷ tx;
                payer_number = d ∷ payer;
                updated_at = saved_at;
              } in
              let same : saved ≡ o = cc (h, found, pays, first) in
              let wrote : update_where (is_order locked.id) (λ _. saved) shop.orders
                  ≡ shop'.orders =
                cc (h, found, pays, first) in
              subst (λ (x : Order). IsSubmitted (c ∷ tx) (d ∷ payer) x × Moved pk x shop shop') same
                (
                  (refl, refl, refl),
                  record {
                    locked = locked;
                    found = found;
                    move = submit (not-false _ pays) (not-false _ first);
                    same_id = refl;
                    stored = inr (sym wrote);
                  },
                )
        ]
      ]
    ]

-- Every successful submission leaves a submitted payment with the stripped texts, moves the order
-- along the state machine, and stores it.
pub submit-Moved :
    (saved_at pk : ℕ) (transaction_id payer_number : Text) (shop : Shop) (o : Order) (shop' : Shop)
    → submit_order_payment saved_at pk transaction_id payer_number shop ≡ ok (o, shop')
    → IsSubmitted (strip transaction_id) (strip payer_number) o × Moved pk o shop shop'
unfolding submit_order_payment
submit-Moved saved_at pk transaction_id payer_number =
    stripped-Moved saved_at pk (strip transaction_id) (strip payer_number)
