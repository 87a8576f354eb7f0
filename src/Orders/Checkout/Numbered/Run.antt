-- ===== src/Orders/Checkout/Numbered/Run.antt =====
-- A checkout keeps the numbers of a store's orders apart.
use api_paperbase.Base.{
  ℕ, ◌+◌, ◌≡◌, refl, Bool, true, not, Option, none, some, List, [], ◌∷◌, ◌++◌, any, if_both, inl,
  inr,
}
use mathlib.Core.Path.{subst}
use api_paperbase.Base.Text.{Text}
use api_paperbase.Base.Results.{ok, Result-cases}
use api_paperbase.Base.Queries.{update_where}
use api_paperbase.Base.Tx.{Tx, pure, ◌>>=◌}
use api_paperbase.Base.Triples.{
  Triple, pure-after, weaken, gets-after, lift-after, bind-after, modify-after, raise_if-after,
  or_raise-after,
}
use api_paperbase.Inventory.{Stock, ValidationError}
use api_paperbase.Orders.{
  Order, OrderStatus, Shop, OrderError, is_order, key_error, no_products, stock_failed,
}
use api_paperbase.Orders.Totals.{save_totals, with_totals, resolve_cart_prepayment_type}
use api_paperbase.Orders.Customers.{attach}
use api_paperbase.Orders.Checkout.{CheckoutRequest, OrderLine, ValidatedData, is_valid}
use api_paperbase.Orders.Checkout.Locks.{
  Locks, lock_rows, check_store, stock_errors, product_for, variant_for,
}
use api_paperbase.Orders.Checkout.Numbers.{
  get_next_order_number, counter_value, with_counter, bump, is_counter_of, order_number_of,
}
use api_paperbase.Orders.Checkout.Create.{
  Call, Outcome, placed, refused, initial_status, new_order, new_item, attempt, take_stock,
  place_lines, finish_order, place_order, create,
}
use api_paperbase.Orders.Checkout.Finish.{IsFrame, finish-Kept}
use api_paperbase.Orders.Checkout.Numbered.{
  IsNumbered, IsNext, order_number_of-IsNext, IsNumbered-update_where,
}

IsNumbered-IsFrame : IsFrame IsNumbered
unfolding save_totals with_totals attach
IsNumbered-IsFrame = record {
  totals = λ pk r quote lines s h.
      IsNumbered-update_where (is_order pk) (λ row. with_totals row r quote lines) s (λ o. refl) h;
  attached = λ order c s h. if_both IsNumbered _ _ _ h (
      IsNumbered-update_where (is_order order.id) (λ o. record o { customer_id = some c.id }) s
        (λ o. refl) h);
  customers = λ cs s h. record { below = h.below; distinct = h.distinct };
  ledger = λ entries s h. record { below = h.below; distinct = h.distinct };
  effects = λ e s h. record { below = h.below; distinct = h.distinct };
}

number-after :
    (store_id : ℕ)
    → Triple IsNumbered (get_next_order_number store_id) (λ number s. IsNext store_id number s)
unfolding get_next_order_number
number-after store_id = record {
  after = λ s h number t run.
      let got : order_number_of (counter_value store_id s.counters) ≡ number = cc run in
      let wrote : record s {
        counters = update_where (is_counter_of store_id) bump (with_counter store_id s.counters);
      }
          ≡ t =
        cc run in
      subst (λ n. IsNext store_id n t) got
        (subst (IsNext store_id (order_number_of (counter_value store_id s.counters))) wrote
          (order_number_of-IsNext store_id s h));
}

order-after :
    (call : Call) (number : Text) (status : OrderStatus) (checked : ValidatedData) (s : Shop)
    → IsNext call.store_id number s
    → IsNumbered (record s { orders = new_order call number status checked ∷ s.orders })
unfolding new_order
order-after call number status checked s h = record {
  below = (h.counted, h.numbered.below);
  distinct = (h.fresh, h.numbered.distinct);
}

attempt-after :
    (m : Tx Stock ValidationError (Unit {0})) → Triple IsNumbered (attempt m) (λ _ s. IsNumbered s)
unfolding attempt
attempt-after m = record {
  after = λ s h caught t run. elim (Result-cases (m s.stock)) [
    | inr (e, raised) ↦ let same : s ≡ t = cc (run, raised) in subst IsNumbered same h
    | inl ((_, stock), done) ↦
        let same : record s { stock = stock } ≡ t = cc (run, done) in
        subst IsNumbered same (record { below = h.below; distinct = h.distinct })
  ];
}

lines-after :
    (call : Call) (locks : Locks) (item_id : ℕ) (lines : List OrderLine)
    → Triple IsNumbered (place_lines call locks item_id lines) (λ _ s. IsNumbered s)
unfolding place_lines
lines-after call locks item_id [] = pure-after _ none (λ s h. h)
lines-after call locks item_id (l ∷ lines) =
    bind-after _ _ (weaken _ (or_raise-after (product_for locks l) key_error) (λ _ s h. h.1))
      (λ product.
        bind-after _ _
          (modify-after
            (λ shop. record shop {
              items =
                  shop.items
                  ++ new_item item_id call.order_id product (variant_for locks l) l.quantity ∷ [];
            })
            (λ s h. record { below = h.below; distinct = h.distinct }))
          (λ _.
            bind-after _ _
              (attempt-after (take_stock call product (variant_for locks l) l.quantity))
              (λ caught. next caught (lines-after call locks (item_id + 1) lines))))
  where
    next :
        (caught : Option ValidationError) {rest : Tx Shop OrderError (Option ValidationError)}
        → Triple IsNumbered rest (λ _ s. IsNumbered s)
        → Triple IsNumbered
            (elim caught [ some e ↦ pure (some e) | none ↦ rest ])
            (λ _ s. IsNumbered s)
    next (some e) h = pure-after _ (some e) (λ s k. k)
    next none h = h

place-after :
    (is_digit : ℕ → Bool) (call : Call) (locks : Locks) (checked : ValidatedData)
    → Triple IsNumbered (place_order is_digit call locks checked) (λ _ s. IsNumbered s)
unfolding place_order
place-after is_digit call locks checked = bind-after _ _ (number-after call.store_id) (λ number.
    let status = initial_status (resolve_cart_prepayment_type locks.products) in
    let created = new_order call number status checked in
    bind-after _ _
      (modify-after (λ shop. record shop { orders = created ∷ shop.orders })
        (order-after call number status checked))
      (λ _.
        bind-after _ _ (lines-after call locks call.first_item_id checked.products)
          (λ caught. ending created caught)))
  where
    ending :
        (created : Order) (caught : Option ValidationError)
        → Triple IsNumbered
            (elim caught [
              | some e ↦ pure (refused e)
              | none ↦ finish_order is_digit call created >>= λ order. pure (placed order)
            ])
            (λ _ s. IsNumbered s)
    ending created (some e) = pure-after _ (refused e) (λ s h. h)
    ending created none =
        bind-after _ _ (finish-Kept IsNumbered IsNumbered-IsFrame is_digit call created)
          (λ order. pure-after _ (placed order) (λ s h. h))

create-after :
    (is_digit : ℕ → Bool) (call : Call) (req : CheckoutRequest)
    → Triple IsNumbered (create is_digit call req) (λ _ s. IsNumbered s)
unfolding create
create-after is_digit call req =
    bind-after _ _
      (weaken _ (raise_if-after (not (any req.products (λ _. true))) no_products) (λ _ s h. h.1))
      (λ _.
        bind-after _ _
          (weaken _ (gets-after (λ s. lock_rows call.store_id req.products s.stock)) (λ _ s h. h.1))
          (λ locks.
            bind-after _ _
              (weaken _ (lift-after (check_store call.store_id locks.products)) (λ _ s h. h.1))
              (λ _.
                bind-after _ _
                  (weaken _ (gets-after (is_valid is_digit call.settings call.store_id req))
                    (λ _ s h. h.1))
                  (λ answer.
                    bind-after _ _ (weaken _ (lift-after answer) (λ _ s h. h.1)) (λ checked.
                      let errors = stock_errors locks checked.products in
                      bind-after _ _
                        (weaken _ (raise_if-after (any errors (λ _. true)) (stock_failed errors))
                          (λ _ s h. h.1))
                        (λ _. place-after is_digit call locks checked))))))

-- When no two orders of a store share a number and each number is below the store's counter, this holds
-- after a checkout that is not rolled back, also of the new order.
pub create-IsNumbered :
    (is_digit : ℕ → Bool) (call : Call) (req : CheckoutRequest) (shop : Shop) (outcome : Outcome)
    (shop' : Shop)
    → IsNumbered shop
    → create is_digit call req shop ≡ ok (outcome, shop')
    → IsNumbered shop'
create-IsNumbered is_digit call req shop outcome shop' h run =
    (create-after is_digit call req).after shop h outcome shop' run
