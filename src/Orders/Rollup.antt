-- ===== src/Orders/Rollup.antt =====
-- The purchase roll-up of a customer: `_apply_customer_rollup_on_status_change` of
-- engine/apps/orders/services.py and `get_confirmed_orders` of
-- engine/apps/customers/services/purchase_service.py. A span of time is divided exactly; the 28
-- digits of the decimal context are not modelled.
pub mod Laws
use api_paperbase.Base.{
  ℕ, ◌+◌, ◌-◌, ◌*◌, Bool, true, false, not, ◌&&◌, ◌||◌, Option, none, some, List, [], ◌∷◌, map, min,
  max, ltb, leb, ◌==◌, opt_eq, if◌then◌else◌,
}
use api_paperbase.Base.Int.{ℤ, pos, ◌+ℤ◌, ◌-ℤ◌, ◌*ℤ◌, ltb_ℤ}
use api_paperbase.Base.Queries.{filter, find?, update_where}
use api_paperbase.Money.{half_up, round_with}
use api_paperbase.Orders.{
  Order, OrderStatus, pending, payment_pending, confirmed, cancelled, Customer, Shop,
}

abbrev pub is_confirmed : OrderStatus → Bool
is_confirmed confirmed = true
is_confirmed pending = false
is_confirmed payment_pending = false
is_confirmed cancelled = false

abbrev pub is_cancelled : OrderStatus → Bool
is_cancelled cancelled = true
is_cancelled pending = false
is_cancelled payment_pending = false
is_cancelled confirmed = false

unfoldable pub get_confirmed_orders : Customer → List Order → List Order
get_confirmed_orders customer orders =
    filter
      (λ o.
        o.store_id == customer.store_id
        && opt_eq o.customer_id (some customer.id)
        && is_confirmed o.status)
      orders

-- `aggregate(Min(…))` and `aggregate(Max(…))`
unfoldable pub earliest : List ℕ → Option ℕ
earliest [] = none
earliest (t ∷ ts) = elim (earliest ts) [ none ↦ some t | some u ↦ some (min t u) ]

unfoldable pub latest : List ℕ → Option ℕ
latest [] = none
latest (t ∷ ts) = elim (latest ts) [ none ↦ some t | some u ↦ some (max t u) ]

-- Hundredths of a day between the orders, for a span in microseconds.
unfoldable pub interval_days : ℕ → ℕ → ℕ → ℤ
unfolding half_up round_with
interval_days first last total_orders =
    round_with half_up ((pos last -ℤ pos first) *ℤ 100) (86400 * 1000000 * (total_orders - 1))

-- `_recompute_derived_fields`
unfoldable pub recompute_derived_fields : Customer → Customer
unfolding interval_days
recompute_derived_fields customer = record customer {
  is_repeat_customer = ltb 1 customer.total_orders;
  avg_order_interval_days =
      if leb customer.total_orders 1 then none else elim customer.first_order_at [
        | none ↦ none
        | some first ↦ elim customer.last_order_at [
          | none ↦ none
          | some last ↦ some (interval_days first last customer.total_orders)
        ]
      ];
}

-- The branch that enters CONFIRMED.
unfoldable pub count_order : ℕ → Order → Customer → Customer
unfolding recompute_derived_fields
count_order now locked customer = recompute_derived_fields (record customer {
  total_orders = customer.total_orders + 1;
  total_spent = customer.total_spent +ℤ locked.subtotal_after_discount;
  last_order_at = some now;
  first_order_at = elim customer.first_order_at [ none ↦ some now | some t ↦ some t ];
})

-- The branch from CONFIRMED to CANCELLED.
unfoldable pub uncount_order : Order → List Order → Customer → Customer
unfolding recompute_derived_fields get_confirmed_orders
uncount_order locked orders customer =
    let spent = customer.total_spent -ℤ locked.subtotal_after_discount in
    let times =
      map (λ o. o.updated_at)
        (filter (λ o. not (o.id == locked.id)) (get_confirmed_orders customer orders)) in
    recompute_derived_fields (record customer {
      total_orders = max (customer.total_orders - 1) 0;
      total_spent = if ltb_ℤ spent (pos 0) then pos 0 else spent;
      first_order_at = earliest times;
      last_order_at = latest times;
    })

-- `customer.save(update_fields=[…])` of the six fields.
unfoldable pub save_rollup : Customer → Customer → Customer
save_rollup new row = record row {
  total_orders = new.total_orders;
  total_spent = new.total_spent;
  first_order_at = new.first_order_at;
  last_order_at = new.last_order_at;
  is_repeat_customer = new.is_repeat_customer;
  avg_order_interval_days = new.avg_order_interval_days;
}

unfoldable pub save_customer : Customer → Shop → Shop
unfolding save_rollup
save_customer customer shop = record shop {
  customers = update_where (λ c. c.id == customer.id) (save_rollup customer) shop.customers;
}

-- What the two branches do to the customer that was found.
unfoldable pub rollup_customer : ℕ → Order → OrderStatus → OrderStatus → Customer → Shop → Shop
unfolding count_order uncount_order save_customer
rollup_customer now locked from_status to_status customer shop =
    if is_confirmed to_status && not (is_confirmed from_status)
    then save_customer (count_order now locked customer) shop
    else if is_confirmed from_status && is_cancelled to_status
    then save_customer (uncount_order locked shop.orders customer) shop
    else shop

-- `_apply_customer_rollup_on_status_change`
unfoldable pub apply_customer_rollup : ℕ → Order → OrderStatus → OrderStatus → Shop → Shop
apply_customer_rollup now locked from_status to_status shop = elim locked.customer_id [
  | none ↦ shop
  | some pk ↦ elim (find? (λ c. c.id == pk && c.store_id == locked.store_id) shop.customers) [
    | none ↦ shop
    | some customer ↦ rollup_customer now locked from_status to_status customer shop
  ]
]
