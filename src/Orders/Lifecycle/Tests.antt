-- ===== src/Orders/Lifecycle/Tests.antt =====
-- The theorems on the life of an order, applied to the run of a small shop.
use api_paperbase.Base.{◌≡◌, ◌≢◌, refl, true, false, none, some, [], ◌∷◌}
use api_paperbase.Base.Int.{pos}
use api_paperbase.Base.Text.{codes, strip}
use api_paperbase.Base.Results.{ok, value}
use api_paperbase.Base.Queries.{find?}
use api_paperbase.Orders.{
  Order, payment_pending, confirmed, cancelled, unpaid, failed, verified, Shop, is_order,
}
use api_paperbase.Orders.Rollup.{is_cancelled}
use api_paperbase.Orders.Lifecycle.{
  parse_status, apply_order_status_change, submit_order_payment, apply_payment_verification,
}
use api_paperbase.Orders.Lifecycle.Success.{Moved, IsSubmitted, submit-Moved}
use api_paperbase.Orders.Lifecycle.Change.{change-Moved}
use api_paperbase.Orders.Lifecycle.Verify.{verification-Moved}
use api_paperbase.Orders.Lifecycle.Reachable.{
  placed, changed, Reachable, start, next, After, Step-After, cancelled-final, Reachable-failed,
  failed-final,
}

abbrev fresh_order : Order
fresh_order = record {
  id = 9;
  store_id = 7;
  customer_id = none;
  status = payment_pending;
  payment_status = unpaid;
  order_number = [];
  email = [];
  shipping_name = [];
  shipping_address = [];
  phone = [];
  district = [];
  transaction_id = [];
  payer_number = [];
  total = pos 2600;
  subtotal_before_discount = pos 2400;
  discount_total = pos 400;
  subtotal_after_discount = pos 2000;
  shipping_cost = pos 600;
  shipping_zone_id = some 2;
  shipping_method_id = some 1;
  shipping_rate_id = some 5;
  pricing_snapshot = none;
  updated_at = 100;
}

abbrev empty_shop : Shop
empty_shop = record {
  stock = record {
    products = [];
    variants = [];
    inventories = [];
    movements = [];
    memberships = [];
    notifications = [];
    context_store = none;
  };
  shipping = record { zones = []; methods = []; rates = [] };
  orders = [];
  items = [];
  restore_logs = [];
  customers = [];
  counters = [];
  ledger = [];
  adjustments = [];
  effects = [];
}

abbrev open_shop : Shop
open_shop = record empty_shop { orders = fresh_order ∷ [] }

abbrev dropped : Order × Shop
dropped =
    value (apply_order_status_change (λ _. false) 200 201 9 (codes "cancelled") open_shop)
      (fresh_order, open_shop)

abbrev sent : Order × Shop
sent =
    value (submit_order_payment 150 9 (codes " TX1") (codes "017") open_shop)
      (fresh_order, open_shop)

abbrev accepted : Order × Shop
accepted = value (apply_payment_verification (λ _. false) 200 201 9 true sent.1) sent

change-Moved_example :
    (parse_status (codes "cancelled") ≡ some dropped.0.status)
    × Moved 9 dropped.0 open_shop dropped.1
unfolding apply_order_status_change
change-Moved_example =
    change-Moved (λ _. false) 200 201 9 (codes "cancelled") open_shop dropped.0 dropped.1 refl

submit-Moved_example :
    IsSubmitted (strip (codes " TX1")) (strip (codes "017")) sent.0
    × Moved 9 sent.0 open_shop sent.1
unfolding submit_order_payment
submit-Moved_example = submit-Moved 150 9 (codes " TX1") (codes "017") open_shop sent.0 sent.1 refl

verification-Moved_example :
    (accepted.0.status ≡ confirmed)
    × (accepted.0.payment_status ≡ verified)
    × Moved 9 accepted.0 sent.1 accepted.1
unfolding apply_payment_verification submit_order_payment
verification-Moved_example =
    verification-Moved (λ _. false) 200 201 9 true sent.1 accepted.0 accepted.1 refl

Step-After_example : After 9 fresh_order dropped.1
unfolding apply_order_status_change
Step-After_example =
    Step-After 9 fresh_order open_shop dropped.1
      (changed (λ _. false) 200 201 9 (codes "cancelled") dropped.0 refl) refl

-- A cancelled order, and the order placed after it.
abbrev late_order : Order
late_order = record fresh_order { id = 10 }

cancelled-final_example :
    (o : Order) × (find? (is_order 9) (late_order ∷ dropped.1.orders) ≡ some o)
    × (o.status ≡ cancelled)
    × (o.payment_status ≡ failed)
unfolding apply_order_status_change
cancelled-final_example =
    cancelled-final 9 dropped.0 dropped.1
      (record dropped.1 { orders = late_order ∷ dropped.1.orders }) (placed late_order refl refl)
      refl refl

abbrev open_run : Reachable open_shop
open_run = next (start {s = empty_shop} refl) (placed fresh_order refl refl)

dropped_run : Reachable dropped.1
unfolding apply_order_status_change
dropped_run = next open_run (changed (λ _. false) 200 201 9 (codes "cancelled") dropped.0 refl)

Reachable-failed_example : is_cancelled dropped.0.status ≡ true
unfolding apply_order_status_change
Reachable-failed_example = Reachable-failed 9 dropped.0 dropped.1 dropped_run refl refl

failed-final_example :
    submit_order_payment 300 9 (codes "TX2") (codes "017") dropped.1 ≢ ok (fresh_order, open_shop)
unfolding apply_order_status_change
failed-final_example =
    failed-final 300 9 (codes "TX2") (codes "017") dropped.0 fresh_order dropped.1 open_shop
      dropped_run refl refl
