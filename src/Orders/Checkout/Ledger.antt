-- ===== src/Orders/Checkout/Ledger.antt =====
-- The purchase ledger of an order (engine/apps/orders/purchase_ledger_service.py).
pub mod Once
use api_paperbase.Base.{
  ℕ, Bool, true, false, not, Option, none, some, List, [], ◌∷◌, ◌++◌, opt_eq, ◌==◌,
}
use api_paperbase.Base.Queries.{find?}
use api_paperbase.Base.Tx.{Tx, pure, gets, modify, raise_if, ◌>>=◌, ◌>>◌}
use api_paperbase.Orders.{Order, OrderItem, PurchaseLedgerEntry, Shop, OrderError, foreign_item}
use api_paperbase.Orders.Lifecycle.{items_of}
use api_paperbase.Orders.Totals.{product_of}

abbrev pub is_entry_of : ℕ → PurchaseLedgerEntry → Bool
is_entry_of item_id e = e.order_item_id == item_id

-- `order_item.variant.public_id`, if there is one.
unfoldable pub variant_public_id_of : Shop → OrderItem → Option ℕ
variant_public_id_of shop oi =
    elim (find? (λ v. opt_eq oi.variant_id (some v.id)) shop.stock.variants) [
      | none ↦ none
      | some v ↦ some v.public_id
    ]

unfoldable pub entry_of : Order → OrderItem → Option ℕ → Shop → PurchaseLedgerEntry
unfolding product_of variant_public_id_of
entry_of order oi customer shop = record {
  store_id = order.store_id;
  customer_id = customer;
  order_id = order.id;
  order_number = order.order_number;
  order_item_id = oi.id;
  product_public_id = elim (product_of shop oi) [ none ↦ none | some p ↦ some p.public_id ];
  variant_public_id = variant_public_id_of shop oi;
  quantity = oi.quantity;
  unit_price = oi.unit_price;
  line_total = oi.line_total;
  order_status_snapshot = order.status;
}

-- `get_or_create`: whether an entry was created. The order of a line has the store of the order, since
-- it is the same row.
unfoldable pub append_ledger_line_for_order_item :
    Order → OrderItem → Option ℕ → Tx Shop OrderError (PurchaseLedgerEntry × Bool)
unfolding entry_of
append_ledger_line_for_order_item order oi customer = do
  raise_if (not (oi.order_id == order.id)) foreign_item
  found ← gets (λ shop. find? (is_entry_of oi.id) shop.ledger)
  entry ← gets (entry_of order oi customer)
  elim found [
    | some e ↦ pure (e, false)
    | none ↦
        modify (λ shop. record shop { ledger = shop.ledger ++ entry ∷ [] }) >> pure (entry, true)
  ]

unfoldable pub append_each : Order → Option ℕ → List OrderItem → Tx Shop OrderError (Unit {0})
unfolding append_ledger_line_for_order_item
append_each order customer [] = pure tt
append_each order customer (oi ∷ items) = do
  append_ledger_line_for_order_item order oi customer
  append_each order customer items

unfoldable pub append_ledger_lines_for_order : Order → Tx Shop OrderError (Unit {0})
unfolding append_each items_of
append_ledger_lines_for_order order = do
  items ← gets (items_of order.id)
  append_each order order.customer_id items
