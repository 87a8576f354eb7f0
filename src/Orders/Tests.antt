-- ===== src/Orders/Tests.antt =====
-- The theorems on orders, applied to a small shop.
use api_paperbase.Base.{◌≡◌, refl, true, false, none, some, List, [], ◌∷◌, arith}
use api_paperbase.Base.Int.{pos, ◌+ℤ◌, neg}
use api_paperbase.Base.Text.{codes}
use api_paperbase.Base.Results.{ok, map_ok, value}
use api_paperbase.Catalog.{Product, active, free, delivery_only}
use api_paperbase.Inventory.{Inventory, adjust_inventory_stock}
use api_paperbase.Inventory.Bounds.{IsBounded}
use api_paperbase.Shipping.{Shipping}
use api_paperbase.Orders.{
  Order, payment_pending, pending, confirmed, cancelled, unpaid, OrderItem, Shop, Customer,
}
use api_paperbase.Orders.Financials.{ResolvedLine, preview_lines_to_accounting, pricing_compute}
use api_paperbase.Orders.Financials.Pricing.{cart_line, priced, previewed, pricing-eq-preview}
use api_paperbase.Orders.Restore.{restore_items}
use api_paperbase.Orders.Restore.Once.{restore_items-idempotent, restore_items-IsBounded}
use api_paperbase.Orders.Rollup.{apply_customer_rollup}
use api_paperbase.Orders.Rollup.Laws.{customer_of, totals, cancel-confirm, confirm-twice}
use api_paperbase.Orders.Totals.{resolve_cart_prepayment_type}
use api_paperbase.Orders.Totals.Laws.{IsStrongest, resolve_cart-IsStrongest}

abbrev pub poster : Product
poster = record {
  id = 1;
  store_id = 7;
  public_id = 11;
  price = pos 1000;
  original_price = some (pos 1200);
  status = active;
  stock = 4;
  is_active = true;
  prepayment_type = delivery_only;
}

abbrev pub poster_row : Inventory
poster_row = record {
  id = 3;
  product_id = 1;
  variant_id = none;
  quantity = 4;
  low_stock_threshold = 1;
  is_tracked = true;
}

abbrev pub delivery : Shipping
delivery = record {
  zones = record { id = 2; store_id = 7; public_id = 12; is_active = true } ∷ [];
  methods = record { id = 1; store_id = 7; zones = []; is_active = true; order = 0 } ∷ [];
  rates =
      record {
        id = 5;
        store_id = 7;
        method_id = 1;
        zone_id = 2;
        min_order_total = none;
        max_order_total = none;
        price = pos 600;
        is_active = true;
      }
      ∷ [];
}

abbrev pub two_posters : ResolvedLine
two_posters = record {
  product = some poster;
  variant = none;
  quantity = pos 2;
  unit_price = pos 1000;
}

abbrev ordered : OrderItem
ordered = record {
  id = 8;
  order_id = 9;
  product_id = some 1;
  variant_id = none;
  quantity = 2;
  unit_price_snapshot = pos 1000;
  unit_price = pos 1000;
  original_price = pos 1200;
  discount_amount = pos 200;
  line_subtotal = pos 2400;
  line_total = pos 2000;
}

abbrev pub prepaid : Order
prepaid = record {
  id = 9;
  store_id = 7;
  customer_id = some 6;
  status = payment_pending;
  payment_status = unpaid;
  order_number = [];
  email = [];
  shipping_name = [];
  shipping_address = [];
  phone = [];
  district = [];
  transaction_id = [];
  payer_number = [];
  total = pos 2600;
  subtotal_before_discount = pos 2400;
  discount_total = pos 400;
  subtotal_after_discount = pos 2000;
  shipping_cost = pos 600;
  shipping_zone_id = some 2;
  shipping_method_id = some 1;
  shipping_rate_id = some 5;
  pricing_snapshot = none;
  updated_at = 100;
}

abbrev buyer : Customer
buyer = record {
  id = 6;
  store_id = 7;
  name = [];
  phone = codes "01700000000";
  email = none;
  address = none;
  total_orders = 1;
  total_spent = pos 500;
  first_order_at = some 50;
  last_order_at = some 50;
  is_repeat_customer = false;
  avg_order_interval_days = none;
}

abbrev pub shop_of : List Order → Shop
shop_of orders = record {
  stock = record {
    products = poster ∷ [];
    variants = [];
    inventories = poster_row ∷ [];
    movements = [];
    memberships = [];
    notifications = [];
    context_store = some 7;
  };
  shipping = delivery;
  orders = orders;
  items = ordered ∷ [];
  restore_logs = [];
  customers = buyer ∷ [];
  counters = [];
  ledger = [];
  adjustments = [];
  effects = [];
}

abbrev shop : Shop
shop = shop_of (prepaid ∷ [])

pricing-eq-preview_example :
    map_ok priced (pricing_compute 7 (cart_line two_posters ∷ []) (some 2) none none delivery)
    ≡ previewed (preview_lines_to_accounting 7 (two_posters ∷ []) (some 2) none delivery)
pricing-eq-preview_example =
    pricing-eq-preview 7 (two_posters ∷ []) (some 2) none delivery (omega arith, tt)

resolve_cart-IsStrongest_example :
    IsStrongest free (poster ∷ []) (resolve_cart_prepayment_type (poster ∷ []))
resolve_cart-IsStrongest_example = resolve_cart-IsStrongest (poster ∷ [])

abbrev restored : Shop
restored = (value (restore_items (λ _. false) prepaid (ordered ∷ []) shop) (tt, shop)).1

restore_items-idempotent_example :
    restore_items (λ _. true) prepaid (ordered ∷ []) restored ≡ ok (tt, restored)
unfolding restore_items adjust_inventory_stock neg
restore_items-idempotent_example =
    restore_items-idempotent (λ _. true) prepaid (ordered ∷ []) shop restored refl

restore_items-IsBounded_example : IsBounded restored.stock
unfolding restore_items adjust_inventory_stock neg
restore_items-IsBounded_example =
    restore_items-IsBounded prepaid (λ _. false) (ordered ∷ []) shop restored refl
      (record { rows = (omega arith, tt); cached = (omega arith, tt) })

abbrev counted : Shop
counted = apply_customer_rollup 200 prepaid payment_pending confirmed shop

cancel-confirm_example :
    (c : Customer) × (customer_of prepaid 6
        (apply_customer_rollup 300 prepaid confirmed cancelled counted)
      ≡ some c)
    × (totals c ≡ totals buyer)
cancel-confirm_example =
    cancel-confirm 200 300 prepaid 6 buyer shop refl refl payment_pending refl (omega arith)

confirm-twice_example :
    (c : Customer) × (customer_of prepaid 6 (
        apply_customer_rollup 300 prepaid pending confirmed
          (apply_customer_rollup 300 prepaid confirmed pending counted))
      ≡ some c)
    × (c.total_orders ≡ 3)
    × (c.total_spent ≡ pos 500 +ℤ pos 2000 +ℤ pos 2000)
confirm-twice_example =
    confirm-twice 200 300 prepaid 6 buyer shop refl refl payment_pending pending refl refl refl
