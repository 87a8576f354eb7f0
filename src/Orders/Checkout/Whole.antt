-- ===== src/Orders/Checkout/Whole.antt =====
-- What a checkout that is not rolled back has done.
use api_paperbase.Base.{
  ℕ, ◌≡◌, refl, ap, sym, ◌∙◌, Bool, true, not, Option, none, some, List, ◌∷◌, map, any, All,
  if_both,
}
use mathlib.Core.Path.{subst}
use api_paperbase.Base.Results.{ok}
use api_paperbase.Base.Queries.{update_where}
use api_paperbase.Base.Tx.{Tx, pure, gets, raise_if, lift, ◌>>=◌, ◌>>◌, Delivers-weaken}
use api_paperbase.Base.Triples.{
  Triple, pure-after, weaken, strengthen, known, gets-after, lift-after, bind-after, modify-after,
  raise_if-after, Delivers-after,
}
use api_paperbase.Inventory.{Stock, Inventory, ValidationError}
use api_paperbase.Orders.{Order, Shop, OrderError, no_products, stock_failed}
use api_paperbase.Orders.Totals.{save_totals, resolve_cart_prepayment_type}
use api_paperbase.Orders.Customers.{attach}
use api_paperbase.Orders.Checkout.{CheckoutRequest, ValidatedData, is_valid}
use api_paperbase.Orders.Checkout.Locks.{Locks, lock_rows, check_store, stock_errors}
use api_paperbase.Orders.Checkout.Numbers.{
  get_next_order_number, counter_value, with_counter, bump, is_counter_of, order_number_of,
}
use api_paperbase.Orders.Checkout.Create.{
  Call, Outcome, placed, refused, initial_status, new_order, place_lines, finish_order, place_order,
  create,
}
use api_paperbase.Orders.Checkout.Checked.{IsPaired, IsReady, lines-IsReady}
use api_paperbase.Orders.Checkout.Positive.{is_valid-positive}
use api_paperbase.Orders.Checkout.Loop.{AreSound, units, lowered}
use api_paperbase.Orders.Checkout.Loop.Turns.{place_lines-Delivers}
use api_paperbase.Orders.Checkout.Finish.{IsFrame, finish-Kept}

-- The rows of the inventory are these.
abbrev HasRows : List Inventory → Shop → Type 0
HasRows rows shop = shop.stock.inventories ≡ rows

HasRows-IsFrame : (rows : List Inventory) → IsFrame (HasRows rows)
unfolding save_totals attach
HasRows-IsFrame rows = record {
  totals = λ pk r quote lines s h. h;
  attached = λ order c s h. if_both (HasRows rows) _ _ _ h h;
  customers = λ cs s h. h;
  ledger = λ entries s h. h;
  effects = λ e s h. h;
}

-- The stock is this one.
abbrev HasStock : Stock → Shop → Type 0
HasStock stock shop = shop.stock ≡ stock

number-kept :
    (stock : Stock) (store_id : ℕ)
    → Triple (HasStock stock) (get_next_order_number store_id) (λ _ s. HasStock stock s)
unfolding get_next_order_number
number-kept stock store_id =
    bind-after _ _
      (weaken _ (gets-after (λ shop. counter_value store_id shop.counters)) (λ _ s h. h.1))
      (λ value.
        bind-after _ _
          (modify-after
            (λ shop. record shop {
              counters =
                  update_where (is_counter_of store_id) bump (with_counter store_id shop.counters);
            })
            (λ s h. h))
          (λ _. pure-after _ (order_number_of value) (λ s h. h)))

-- A checkout whose lines are ready ends with an order, and its lines have lowered the rows.
abbrev Sells : List Inventory → Outcome → Shop → Type 0
Sells rows outcome shop = ((order : Order) × (outcome ≡ placed order)) × HasRows rows shop

module _ (is_digit : ℕ → Bool) (call : Call) (locks : Locks) (checked : ValidatedData)
    (stock : Stock) (ready : All (IsReady call.store_id locks stock) checked.products)
    (sound : AreSound stock.inventories) where
  abbrev sold : List Inventory
  sold = map (lowered (units locks stock checked.products)) stock.inventories

  lines-after :
      Triple
        (HasStock stock)
        (place_lines call locks call.first_item_id checked.products)
        (λ o s. (o ≡ none) × HasRows sold s)
  lines-after = Delivers-after _ _ (λ s same.
      Delivers-weaken _ (λ (o : Option ValidationError) s'. (o ≡ none) × HasRows sold s') _
        (place_lines-Delivers call locks call.first_item_id checked.products s
          (subst (λ (st : Stock). All (IsReady call.store_id locks st) checked.products) (sym same)
            ready)
          (subst (λ (st : Stock). AreSound st.inventories) (sym same) sound))
        (λ o s' done. (
          done.0,
          done.1
              ∙ ap (λ (st : Stock). map (lowered (units locks st checked.products)) st.inventories)
                  same,
        )))

  ending-after :
      (created : Order) (caught : Option ValidationError)
      → Triple
          (λ s. (caught ≡ none) × HasRows sold s)
          (elim caught [
            | some e ↦ pure (refused e)
            | none ↦ finish_order is_digit call created >>= λ order. pure (placed order)
          ])
          (Sells sold)
  ending-after created (some e) = record {
    after = λ s p a t h. let none_caught : some e ≡ none = p.0 in cc none_caught;
  }
  ending-after created none =
      strengthen _ (λ s h. h.1)
        (bind-after _ _ (finish-Kept (HasRows sold) (HasRows-IsFrame sold) is_digit call created)
          (λ order. pure-after (Sells sold) (placed order) (λ s h. ((order, refl), h))))

  place-after : Triple (HasStock stock) (place_order is_digit call locks checked) (Sells sold)
  unfolding place_order
  place-after = bind-after _ _ (number-kept stock call.store_id) (λ number.
      let created =
        new_order call number (initial_status (resolve_cart_prepayment_type locks.products))
          checked in
      bind-after _ _
        (modify-after (λ shop. record shop { orders = created ∷ shop.orders }) (λ s h. h))
        (λ _. bind-after _ _ lines-after (λ caught. ending-after created caught)))

-- What a checkout did: it placed an order for a valid request, and each row is left with its quantity less
-- the units that the lines of the request take from it.
pub record IsSold (is_digit : ℕ → Bool) (call : Call) (req : CheckoutRequest) (shop : Shop)
    (outcome : Outcome) (shop' : Shop) : Type 0 where
  pub order : Order
  pub made : outcome ≡ placed order
  pub checked : ValidatedData
  pub valid : is_valid is_digit call.settings call.store_id req shop ≡ ok checked
  pub rows :
      shop'.stock.inventories
      ≡ map
          (lowered
            (units (lock_rows call.store_id req.products shop.stock) shop.stock checked.products))
          shop.stock.inventories

module _ (is_digit : ℕ → Bool) (call : Call) (req : CheckoutRequest) (shop : Shop)
    (paired : IsPaired shop.stock) (sound : AreSound shop.stock.inventories) where
  abbrev locks_of : Locks
  locks_of = lock_rows call.store_id req.products shop.stock

  checked-after :
      (checked : ValidatedData)
      → is_valid is_digit call.settings call.store_id req shop ≡ ok checked
      → Triple
          (λ s. s ≡ shop)
          (raise_if
              (any (stock_errors locks_of checked.products) (λ _. true))
              (stock_failed (stock_errors locks_of checked.products))
            >> place_order is_digit call locks_of checked)
          (IsSold is_digit call req shop)
  checked-after checked valid =
      bind-after _ _
        (raise_if-after (any (stock_errors locks_of checked.products) (λ _. true))
          (stock_failed (stock_errors locks_of checked.products)))
        (λ _.
          known _ (λ s h. h.0)
            (λ none_reported.
              let ready =
                lines-IsReady call.store_id req.products shop.stock checked.products paired
                  none_reported
                  (is_valid-positive is_digit call.settings call.store_id req shop checked valid) in
              weaken _
                (strengthen _ (λ s h. ap (λ (x : Shop). x.stock) h.1)
                  (place-after is_digit call locks_of checked shop.stock ready sound))
                (λ o s h. record {
                  order = h.0.0;
                  made = h.0.1;
                  checked = checked;
                  valid = valid;
                  rows = h.1;
                })))

  -- The call below its locks.
  abbrev below_locks : Locks → Tx Shop OrderError Outcome
  below_locks locks =
      lift (check_store call.store_id locks.products)
      >> (gets (is_valid is_digit call.settings call.store_id req) >>= λ answer.
          lift answer >>= λ checked.
          raise_if (any (stock_errors locks checked.products) (λ _. true))
            (stock_failed (stock_errors locks checked.products))
          >> place_order is_digit call locks checked)

  below-after : Triple (λ s. s ≡ shop) (below_locks locks_of) (IsSold is_digit call req shop)
  below-after =
      bind-after _ _
        (weaken _ (lift-after (check_store call.store_id locks_of.products)) (λ _ s h. h.1))
        (λ _.
          bind-after _ _ (gets-after (is_valid is_digit call.settings call.store_id req)) (λ answer.
            known _ (λ s h. h.0 ∙ ap (is_valid is_digit call.settings call.store_id req) h.1)
              (λ asked. bind-after _ _ (strengthen _ (λ s h. h.1) (lift-after answer)) (λ checked.
                known _ (λ s h. h.0)
                  (λ valid.
                    strengthen _ (λ s h. h.1) (checked-after checked (sym asked ∙ valid)))))))

  create-after : Triple (λ s. s ≡ shop) (create is_digit call req) (IsSold is_digit call req shop)
  unfolding create
  create-after =
      bind-after _ _
        (weaken _ (raise_if-after (not (any req.products (λ _. true))) no_products) (λ _ s h. h.1))
        (λ _.
          bind-after _ _ (gets-after (λ s. lock_rows call.store_id req.products s.stock)) (λ locks.
            known _
              (λ s h. h.0 ∙ ap (λ (x : Shop). lock_rows call.store_id req.products x.stock) h.1)
              (λ same.
                subst
                  (λ (l : Locks).
                    Triple
                      (λ s. (locks ≡ lock_rows call.store_id req.products s.stock) × (s ≡ shop))
                      (below_locks l) (IsSold is_digit call req shop))
                  (sym same) (strengthen _ (λ s h. h.1) below-after))))

-- In a shop where the row of a variant is of its product, the rows have unique keys and none is above the
-- greatest quantity, a checkout that is not rolled back is never refused half way: it placed an order for a
-- valid request, and each row is left with its quantity less the units that the lines take from it, or with
-- 0 where there are more.
pub create-IsSold :
    (is_digit : ℕ → Bool) (call : Call) (req : CheckoutRequest) (shop : Shop) (outcome : Outcome)
    (shop' : Shop)
    → IsPaired shop.stock
    → AreSound shop.stock.inventories
    → create is_digit call req shop ≡ ok (outcome, shop')
    → IsSold is_digit call req shop outcome shop'
create-IsSold is_digit call req shop outcome shop' paired sound run =
    (create-after is_digit call req shop paired sound).after shop refl outcome shop' run
