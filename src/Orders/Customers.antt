-- ===== src/Orders/Customers.antt =====
-- Finding or creating the customer of an order (`_normalize_phone` and `resolve_and_attach_customer` of
-- engine/apps/orders/services.py). `is_digit` is Python's `str.isdigit` of one character, and
-- `new_id` the key that the database gives to a new customer.
pub mod Identity
mod Tests
use api_paperbase.Base.{
  ℕ, Bool, true, false, not, ◌&&◌, Option, none, some, [], ◌∷◌, ◌++◌, ◌==◌, opt_eq, if◌then◌else◌,
}
use api_paperbase.Base.Int.{pos}
use api_paperbase.Base.Text.{Text, strip, is_empty, text_eq}
use api_paperbase.Base.Queries.{filter, find?, update_where}
use api_paperbase.Base.Tx.{Tx, pure, gets, modify, raise_if, when, ◌>>=◌, ◌>>◌}
use api_paperbase.Orders.{Order, Customer, Shop, OrderError, phone_required, is_order}

unfoldable pub normalize_phone : (ℕ → Bool) → Text → Text
unfolding strip
normalize_phone is_digit phone = filter is_digit (strip phone)

-- `(value or "").strip() or None`
unfoldable pub normalize_optional : Option Text → Option Text
unfolding strip
normalize_optional none = none
normalize_optional (some t) = if is_empty (strip t) then none else some (strip t)

-- `(value or "").strip()` is empty.
unfoldable pub is_blank : Option Text → Bool
unfolding strip
is_blank none = true
is_blank (some t) = is_empty (strip t)

unfoldable pub is_identity : ℕ → Text → Customer → Bool
unfolding text_eq
is_identity store_id phone c = c.store_id == store_id && text_eq c.phone phone

-- The row that `get_or_create` inserts, with the defaults of the other columns.
unfoldable pub new_customer : ℕ → ℕ → Text → Text → Option Text → Option Text → Customer
new_customer new_id store_id name phone email address = record {
  id = new_id;
  store_id = store_id;
  name = name;
  phone = phone;
  email = email;
  address = address;
  total_orders = 0;
  total_spent = pos 0;
  first_order_at = none;
  last_order_at = none;
  is_repeat_customer = false;
  avg_order_interval_days = none;
}

-- The given text, where the stored one is blank.
unfoldable pub fill : Option Text → Option Text → Option Text
unfolding is_blank
fill given stored = elim given [
  | none ↦ stored
  | some t ↦ if is_blank stored then some t else stored
]

unfoldable pub fill_name : Text → Text → Text
unfolding is_blank
fill_name given stored = if not (is_empty given) && is_blank (some stored) then given else stored

-- The three fields that the update writes.
unfoldable pub fill_customer : Text → Option Text → Option Text → Customer → Customer
unfolding fill fill_name
fill_customer name email address c = record c {
  name = fill_name name c.name;
  email = fill email c.email;
  address = fill address c.address;
}

-- `get_or_create`, with the insert.
unfoldable pub get_or_create :
    ℕ → ℕ → Text → Text → Option Text → Option Text → Tx Shop OrderError Customer
unfolding is_identity new_customer
get_or_create new_id store_id name phone email address shop =
    elim (find? (is_identity store_id phone) shop.customers) [
      | some c ↦ pure c shop
      | none ↦
          let c = new_customer new_id store_id name phone email address in
          pure c (record shop { customers = shop.customers ++ c ∷ [] })
    ]

-- `order.customer = customer; order.save(…)`, unless it is the customer already.
unfoldable pub attach : Order → Customer → Shop → Shop
attach order customer shop =
    if opt_eq order.customer_id (some customer.id) then shop else record shop {
      orders =
          update_where (is_order order.id) (λ o. record o { customer_id = some customer.id })
            shop.orders;
    }

-- `resolve_and_attach_customer`, below the normalization of its texts.
unfoldable pub resolve_customer :
    ℕ → Order → ℕ → Text → Text → Option Text → Option Text → Tx Shop OrderError Customer
unfolding get_or_create fill_customer attach
resolve_customer new_id order store_id name phone email address = do
  raise_if (is_empty phone) phone_required
  customer ← get_or_create new_id store_id name phone email address
  modify (λ shop. record shop {
    customers =
        update_where (λ c. c.id == customer.id) (fill_customer name email address) shop.customers;
  })
  modify (attach order customer)
  pure (fill_customer name email address customer)

unfoldable pub resolve_and_attach_customer :
    (ℕ → Bool)
    → ℕ
    → Order
    → ℕ
    → Text
    → Text
    → Option Text
    → Option Text
    → Tx Shop OrderError Customer
unfolding normalize_phone normalize_optional strip resolve_customer
resolve_and_attach_customer is_digit new_id order store_id name phone email address =
    resolve_customer new_id order store_id (strip name) (normalize_phone is_digit phone)
      (normalize_optional email) (normalize_optional address)
