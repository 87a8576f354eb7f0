-- ===== src/Orders/Lifecycle.antt =====
-- The life of an order: `apply_order_status_change`, `submit_order_payment` and
-- `apply_payment_verification` of engine/apps/orders/services.py. `now` is the time that the customer
-- roll-up reads, `saved_at` the time of the order's save.
pub mod Success
pub mod Change
pub mod Verify
pub mod Reachable
mod Tests
use api_paperbase.Base.{
  ℕ, Bool, true, false, not, ◌&&◌, ◌||◌, Option, none, some, List, [], ◌∷◌, ◌++◌, any, ◌==◌, opt_eq,
  if◌then◌else◌,
}
use api_paperbase.Base.Text.{Text, codes, strip, is_empty, text_eq}
use api_paperbase.Base.Queries.{filter, find?, update_where}
use api_paperbase.Base.Tx.{Tx, pure, raise, gets, modify, or_raise, raise_if, when, ◌>>=◌, ◌>>◌}
use api_paperbase.Orders.{
  Order, OrderStatus, pending, payment_pending, confirmed, cancelled, PaymentStatus, unpaid,
  submitted, verified, failed, OrderItem, Shop, OrderError, order_missing, invalid_status,
  order_is_cancelled, has_unavailable_products, payment_not_verified, transaction_id_required,
  payer_number_required, not_awaiting_submission, already_submitted, not_awaiting_verification,
  no_submitted_payment, Effect, invalidate_caches, notify_payment_submitted, is_order, is_item_of,
}
use api_paperbase.Orders.Restore.{restore_items}
use api_paperbase.Orders.Rollup.{apply_customer_rollup, is_confirmed, is_cancelled}

-- The test `to_status not in valid`.
unfoldable pub parse_status : Text → Option OrderStatus
unfolding text_eq
parse_status to_status =
    if text_eq to_status (codes "pending")
    then some pending
    else if text_eq to_status (codes "payment_pending")
    then some payment_pending
    else if text_eq to_status (codes "confirmed")
    then some confirmed
    else if text_eq to_status (codes "cancelled")
    then some cancelled
    else none

abbrev pub is_payment_pending : OrderStatus → Bool
is_payment_pending payment_pending = true
is_payment_pending pending = false
is_payment_pending confirmed = false
is_payment_pending cancelled = false

abbrev pub same_status : OrderStatus → OrderStatus → Bool
same_status pending pending = true
same_status payment_pending payment_pending = true
same_status confirmed confirmed = true
same_status cancelled cancelled = true
same_status _ _ = false

abbrev pub is_verified : PaymentStatus → Bool
is_verified verified = true
is_verified unpaid = false
is_verified submitted = false
is_verified failed = false

abbrev pub is_submitted : PaymentStatus → Bool
is_submitted submitted = true
is_submitted unpaid = false
is_submitted verified = false
is_submitted failed = false

-- `payment_status in {NONE, FAILED}`
abbrev pub may_submit : PaymentStatus → Bool
may_submit unpaid = true
may_submit failed = true
may_submit submitted = false
may_submit verified = false

unfoldable pub items_of : ℕ → Shop → List OrderItem
items_of pk shop = filter (is_item_of pk) shop.items

unfoldable pub is_unavailable : OrderItem → Bool
is_unavailable item = opt_eq item.product_id none

-- `locked.save(update_fields=…)` with the fields that the caller set; the row is locked.
unfoldable pub save_order : ℕ → Order → Shop → Shop
save_order pk order shop = record shop {
  orders = update_where (is_order pk) (λ _. order) shop.orders;
}

unfoldable pub emit : Effect → Shop → Shop
emit e shop = record shop { effects = shop.effects ++ e ∷ [] }

-- The part of `apply_order_status_change` below its guards.
unfoldable pub change_status :
    (ℕ → Bool) → ℕ → ℕ → Order → List OrderItem → OrderStatus → Tx Shop OrderError Order
unfolding restore_items apply_customer_rollup save_order emit
change_status conflict now saved_at locked items to_status = do
  let from_status = locked.status
  let fails =
      is_cancelled to_status
      && is_payment_pending from_status
      && not (is_verified locked.payment_status)
  when (is_cancelled to_status && not (is_cancelled from_status))
      (restore_items conflict locked items)
  modify (apply_customer_rollup now locked from_status to_status)
  let saved = record locked {
    status = to_status;
    payment_status = if fails then failed else locked.payment_status;
    updated_at = saved_at;
  }
  modify (save_order locked.id saved)
  modify (emit (invalidate_caches locked.store_id))
  pure saved

-- The prepayment guard.
unfoldable pub needs_verification : Order → OrderStatus → Bool
needs_verification locked to_status =
    is_payment_pending locked.status
    && is_confirmed to_status
    && not (is_verified locked.payment_status)

unfoldable pub apply_order_status_change : (ℕ → Bool) → ℕ → ℕ → ℕ → Text → Tx Shop OrderError Order
unfolding parse_status items_of is_unavailable change_status needs_verification
apply_order_status_change conflict now saved_at pk to_text = do
  to_status ← or_raise (parse_status to_text) invalid_status
  found ← gets (λ shop. find? (is_order pk) shop.orders)
  locked ← or_raise found order_missing
  items ← gets (items_of pk)
  raise_if (is_cancelled locked.status && not (is_cancelled to_status)) order_is_cancelled
  raise_if (any items is_unavailable) has_unavailable_products
  if same_status locked.status to_status
      then pure locked
      else (raise_if (needs_verification locked to_status) payment_not_verified
          >> change_status conflict now saved_at locked items to_status)

-- `submit_order_payment`, below its two `strip`s.
unfoldable pub submit_stripped : ℕ → ℕ → Text → Text → Tx Shop OrderError Order
unfolding save_order emit
submit_stripped saved_at pk tx payer = do
  raise_if (is_empty tx) transaction_id_required
  raise_if (is_empty payer) payer_number_required
  found ← gets (λ shop. find? (is_order pk) shop.orders)
  locked ← or_raise found order_missing
  raise_if (not (is_payment_pending locked.status)) not_awaiting_submission
  raise_if (not (may_submit locked.payment_status)) already_submitted
  let saved = record locked {
    payment_status = submitted;
    transaction_id = tx;
    payer_number = payer;
    updated_at = saved_at;
  }
  modify (save_order locked.id saved)
  modify (emit (invalidate_caches locked.store_id))
  modify (emit (notify_payment_submitted locked.id))
  pure saved

unfoldable pub submit_order_payment : ℕ → ℕ → Text → Text → Tx Shop OrderError Order
unfolding strip submit_stripped
submit_order_payment saved_at pk transaction_id payer_number =
    submit_stripped saved_at pk (strip transaction_id) (strip payer_number)

-- The two outcomes of `apply_payment_verification`, without the save.
unfoldable pub verify_locked :
    (ℕ → Bool) → ℕ → ℕ → Order → List OrderItem → Bool → Tx Shop OrderError Order
unfolding is_unavailable restore_items apply_customer_rollup
verify_locked conflict now saved_at locked items true = do
  raise_if (any items is_unavailable) has_unavailable_products
  modify (apply_customer_rollup now locked locked.status confirmed)
  pure (record locked { status = confirmed; payment_status = verified; updated_at = saved_at })
verify_locked conflict now saved_at locked items false = do
  restore_items conflict locked items
  modify (apply_customer_rollup now locked locked.status cancelled)
  pure (record locked { status = cancelled; payment_status = failed; updated_at = saved_at })

unfoldable pub apply_payment_verification : (ℕ → Bool) → ℕ → ℕ → ℕ → Bool → Tx Shop OrderError Order
unfolding items_of verify_locked save_order emit
apply_payment_verification conflict now saved_at pk valid = do
  found ← gets (λ shop. find? (is_order pk) shop.orders)
  locked ← or_raise found order_missing
  items ← gets (items_of pk)
  raise_if (not (is_payment_pending locked.status)) not_awaiting_verification
  raise_if (not (is_submitted locked.payment_status)) no_submitted_payment
  saved ← verify_locked conflict now saved_at locked items valid
  modify (save_order locked.id saved)
  modify (emit (invalidate_caches locked.store_id))
  pure saved
