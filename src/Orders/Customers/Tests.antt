-- ===== src/Orders/Customers/Tests.antt =====
-- The theorems on customers, applied to two orders of one phone.
use api_paperbase.Base.{ℕ, ◌≡◌, refl, Bool, ◌&&◌, leb, none, some, [], ◌∷◌}
use api_paperbase.Base.Int.{pos}
use api_paperbase.Base.Text.{Text, codes}
use api_paperbase.Base.Results.{ok, value}
use api_paperbase.Base.Queries.{find?}
use api_paperbase.Orders.{Order, payment_pending, unpaid, Customer, Shop}
use api_paperbase.Orders.Customers.{is_identity, normalize_phone, resolve_and_attach_customer}
use api_paperbase.Orders.Customers.Identity.{resolve-found, resolve-same}

abbrev ascii_digit : ℕ → Bool
ascii_digit c = leb 48 c && leb c 57

abbrev first_order : Order
first_order = record {
  id = 9;
  store_id = 7;
  customer_id = none;
  status = payment_pending;
  payment_status = unpaid;
  order_number = [];
  email = [];
  shipping_name = [];
  shipping_address = [];
  phone = [];
  district = [];
  transaction_id = [];
  payer_number = [];
  total = pos 2600;
  subtotal_before_discount = pos 2400;
  discount_total = pos 400;
  subtotal_after_discount = pos 2000;
  shipping_cost = pos 600;
  shipping_zone_id = some 2;
  shipping_method_id = some 1;
  shipping_rate_id = some 5;
  pricing_snapshot = none;
  updated_at = 100;
}

abbrev new_shop : Shop
new_shop = record {
  stock = record {
    products = [];
    variants = [];
    inventories = [];
    movements = [];
    memberships = [];
    notifications = [];
    context_store = none;
  };
  shipping = record { zones = []; methods = []; rates = [] };
  orders = first_order ∷ record first_order { id = 10 } ∷ [];
  items = [];
  restore_logs = [];
  customers = [];
  counters = [];
  ledger = [];
  adjustments = [];
  effects = [];
}

abbrev nobody : Customer
nobody = record {
  id = 0;
  store_id = 0;
  name = [];
  phone = [];
  email = none;
  address = none;
  total_orders = 0;
  total_spent = pos 0;
  first_order_at = none;
  last_order_at = none;
  is_repeat_customer = Bool.false;
  avg_order_interval_days = none;
}

abbrev call : ℕ → Order → Text → Text → Shop → Customer × Shop
call new_id order name phone shop =
    value (resolve_and_attach_customer ascii_digit new_id order 7 name phone none none shop)
      (nobody, shop)

abbrev one : Customer × Shop
one = call 1 first_order (codes "Ada") (codes "017-1") new_shop

abbrev two : Customer × Shop
two = call 2 (record first_order { id = 10 }) (codes "Lovelace") (codes " 0171") one.1

resolve-found_example :
    (c : Customer) × (shop' : Shop) × (resolve_and_attach_customer ascii_digit 1 first_order 7
        (codes "Ada")
        (codes "017-1")
        none
        none
        new_shop
      ≡ ok (c, shop'))
    × (find? (is_identity 7 (normalize_phone ascii_digit (codes "017-1"))) shop'.customers ≡ some c)
unfolding normalize_phone
resolve-found_example =
    resolve-found ascii_digit 7 1 first_order (codes "Ada") (codes "017-1") none none new_shop refl

resolve-same_example : two.0.id ≡ one.0.id
unfolding normalize_phone resolve_and_attach_customer
resolve-same_example =
    resolve-same ascii_digit 7 1 2 first_order (record first_order { id = 10 }) (codes "Ada")
      (codes "Lovelace") (codes "017-1") (codes " 0171") none none none none new_shop one.1 two.1
      one.0 two.0 refl refl refl
