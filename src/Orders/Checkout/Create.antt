-- ===== src/Orders/Checkout/Create.antt =====
-- Placing an order (`OrderCreateView.create` of engine/apps/orders/views.py). The caller of the public
-- endpoint is never logged in. The keys of the new rows are arguments.
use api_paperbase.Base.{ℕ, ◌+◌, Bool, true, not, Option, none, some, List, [], ◌∷◌, ◌++◌, any}
use api_paperbase.Base.Int.{pos}
use api_paperbase.Base.Text.{Text, strip}
use api_paperbase.Base.Results.{ok, err}
use api_paperbase.Base.Tx.{Tx, pure, gets, lift, modify, raise_if, or_raise, ◌>>=◌, ◌>>◌}
use api_paperbase.Catalog.{
  Product, ProductVariant, PrepaymentType, free, delivery_only, full, unit_price_for_line,
}
use api_paperbase.Inventory.{Stock, ValidationError}
use api_paperbase.Orders.{
  Order, OrderStatus, pending, payment_pending, unpaid, OrderItem, Shop, OrderError, no_products,
  key_error, stock_failed, notify_order_created,
}
use api_paperbase.Orders.Financials.{compute_line_financials}
use api_paperbase.Orders.Restore.{adjust_stock}
use api_paperbase.Orders.Lifecycle.{emit}
use api_paperbase.Orders.Totals.{recalculate_order_totals, resolve_cart_prepayment_type}
use api_paperbase.Orders.Customers.{resolve_and_attach_customer}
use api_paperbase.Orders.Checkout.{CheckoutRequest, OrderLine, ValidatedData, FormVariant, is_valid}
use api_paperbase.Orders.Checkout.Locks.{
  Locks, lock_rows, check_store, product_for, variant_for, stock_errors,
}
use api_paperbase.Orders.Checkout.Numbers.{get_next_order_number}
use api_paperbase.Orders.Checkout.Ledger.{append_ledger_lines_for_order}

-- What a call is made with: the store of the API key and its checkout settings, the clock, and the keys.
pub record Call : Type 0 where
  pub store_id : ℕ
  pub settings : Option FormVariant
  pub now : ℕ
  pub order_id : ℕ
  pub first_item_id : ℕ
  pub customer_id : ℕ

-- The responses that end the transaction without a rollback: 201, and the 400 of the loop over the lines.
pub data Outcome : Type 0 where
  placed : Order → Outcome
  refused : ValidationError → Outcome

-- `initial_status`
unfoldable pub initial_status : PrepaymentType → OrderStatus
initial_status free = pending
initial_status delivery_only = payment_pending
initial_status full = payment_pending

-- `Order.objects.create(…)`; the other columns have their defaults.
unfoldable pub new_order : Call → Text → OrderStatus → ValidatedData → Order
unfolding strip
new_order call number status checked = record {
  id = call.order_id;
  store_id = call.store_id;
  customer_id = none;
  status = status;
  payment_status = unpaid;
  order_number = number;
  email = strip checked.email;
  shipping_name = checked.shipping_name;
  shipping_address = checked.shipping_address;
  phone = checked.phone;
  district = strip checked.district;
  transaction_id = [];
  payer_number = [];
  total = pos 0;
  subtotal_before_discount = pos 0;
  discount_total = pos 0;
  subtotal_after_discount = pos 0;
  shipping_cost = pos 0;
  shipping_zone_id = some checked.shipping_zone.id;
  shipping_method_id = elim checked.shipping_method [ none ↦ none | some m ↦ some m.id ];
  shipping_rate_id = none;
  pricing_snapshot = none;
  updated_at = call.now;
}

abbrev pub key_of : Option ProductVariant → Option ℕ
key_of none = none
key_of (some v) = some v.id

unfoldable pub new_item : ℕ → ℕ → Product → Option ProductVariant → ℕ → OrderItem
unfolding unit_price_for_line compute_line_financials
new_item item_id order_id product variant quantity =
    let fin =
      compute_line_financials (some product) variant (pos quantity)
        (unit_price_for_line product variant) in
    record {
      id = item_id;
      order_id = order_id;
      product_id = some product.id;
      variant_id = key_of variant;
      quantity = quantity;
      unit_price_snapshot = fin.unit_price;
      unit_price = fin.unit_price;
      original_price = fin.original_price;
      discount_amount = fin.discount_amount;
      line_subtotal = fin.line_subtotal;
      line_total = fin.line_total;
    }

-- `try: adjust_stock(…) except ValidationError`: the error is caught, and what it wrote is undone.
unfoldable pub attempt :
    Tx Stock ValidationError (Unit {0}) → Tx Shop OrderError (Option ValidationError)
attempt m shop = elim (m shop.stock) [
  | err e ↦ ok (some e, shop)
  | ok (_, s) ↦ ok (none, record shop { stock = s })
]

abbrev pub take_stock :
    Call → Product → Option ProductVariant → ℕ → Tx Stock ValidationError (Unit {0})
take_stock call product variant quantity =
    adjust_stock (some call.store_id) (some product.id) (key_of variant) (pos quantity)

-- The loop over the lines; it stops at an error of the stock.
unfoldable pub place_lines :
    Call → Locks → ℕ → List OrderLine → Tx Shop OrderError (Option ValidationError)
unfolding product_for variant_for new_item adjust_stock attempt
place_lines call locks item_id [] = pure none
place_lines call locks item_id (l ∷ lines) = do
  product ← or_raise (product_for locks l) key_error
  let variant = variant_for locks l
  modify (λ shop. record shop {
    items = shop.items ++ new_item item_id call.order_id product variant l.quantity ∷ [];
  })
  caught ← attempt (take_stock call product variant l.quantity)
  elim caught [ some e ↦ pure (some e) | none ↦ place_lines call locks (item_id + 1) lines ]

-- What follows the loop.
unfoldable pub finish_order : (ℕ → Bool) → Call → Order → Tx Shop OrderError Order
unfolding recalculate_order_totals resolve_and_attach_customer append_ledger_lines_for_order emit
finish_order is_digit call created = do
  order ← recalculate_order_totals created
  customer ←
      resolve_and_attach_customer is_digit call.customer_id order call.store_id order.shipping_name
        order.phone (some order.email) (some order.shipping_address)
  let attached = record order { customer_id = some customer.id }
  append_ledger_lines_for_order attached
  modify (emit (notify_order_created attached.id))
  pure attached

-- From the creation of the order on.
unfoldable pub place_order : (ℕ → Bool) → Call → Locks → ValidatedData → Tx Shop OrderError Outcome
unfolding resolve_cart_prepayment_type initial_status get_next_order_number new_order place_lines
    finish_order
place_order is_digit call locks checked = do
  number ← get_next_order_number call.store_id
  let created =
      new_order call number (initial_status (resolve_cart_prepayment_type locks.products)) checked
  modify (λ shop. record shop { orders = created ∷ shop.orders })
  caught ← place_lines call locks call.first_item_id checked.products
  elim caught [
    | some e ↦ pure (refused e)
    | none ↦ finish_order is_digit call created >>= λ order. pure (placed order)
  ]

-- The other responses of 400 write nothing, so they are errors.
unfoldable pub create : (ℕ → Bool) → Call → CheckoutRequest → Tx Shop OrderError Outcome
unfolding lock_rows check_store is_valid stock_errors place_order
create is_digit call req = do
  raise_if (not (any req.products (λ _. true))) no_products
  locks ← gets (λ shop. lock_rows call.store_id req.products shop.stock)
  lift (check_store call.store_id locks.products)
  answer ← gets (is_valid is_digit call.settings call.store_id req)
  checked ← lift answer
  let errors = stock_errors locks checked.products
  raise_if (any errors (λ _. true)) (stock_failed errors)
  place_order is_digit call locks checked
