-- ===== src/Orders/Totals.antt =====
-- The stored amounts of an order and its prepayment (`write_order_item_financials`,
-- `recalculate_order_totals`, `resolve_cart_prepayment_type` and `resolve_order_prepayment_type` of
-- engine/apps/orders/services.py, `build_pricing_snapshot_dict` of
-- engine/apps/orders/order_financials.py). The snapshot holds amounts, not their text.
pub mod Laws
use api_paperbase.Base.{
  ℕ, Bool, Option, none, some, List, [], ◌∷◌, map, filter_map, ltb, ◌==◌, opt_eq, if◌then◌else◌,
}
use api_paperbase.Base.Int.{ℤ, pos, ◌+ℤ◌}
use api_paperbase.Base.Queries.{find?, update_where}
use api_paperbase.Base.Results.{Result, ok, err}
use api_paperbase.Base.Tx.{Tx, pure, gets, modify, ◌>>=◌, ◌>>◌}
use api_paperbase.Money.{money, cents}
use api_paperbase.Catalog.{Product, ProductVariant, PrepaymentType, free, delivery_only, full}
use api_paperbase.Shipping.{Shipping, ShippingError, ShippingQuote}
use api_paperbase.Orders.{
  Order, OrderItem, SnapshotLine, PricingSnapshot, Shop, OrderError, shipping_error, is_order,
  is_item_of,
}
use api_paperbase.Orders.Financials.{
  LineFinancials, Line, Rollup, compute_line_financials, aggregate_order_item_snapshots,
  quote_shipping_for_order,
}
use api_paperbase.Orders.Lifecycle.{items_of}

unfoldable pub write_order_item_financials :
    OrderItem → Option Product → Option ProductVariant → ℤ → ℤ → OrderItem
unfolding compute_line_financials
write_order_item_financials item product variant quantity unit_price =
    let fin = compute_line_financials product variant quantity unit_price in
    record item {
      original_price = fin.original_price;
      unit_price = fin.unit_price;
      discount_amount = fin.discount_amount;
      line_subtotal = fin.line_subtotal;
      line_total = fin.line_total;
    }

-- The columns of a line that the roll-up reads.
unfoldable pub line_of : OrderItem → Line
line_of item = record {
  quantity = item.quantity;
  amounts = record {
    original_price = item.original_price;
    unit_price = item.unit_price;
    discount_amount = item.discount_amount;
    line_subtotal = item.line_subtotal;
    line_total = item.line_total;
  };
}

-- `oi.product`, by its foreign key.
unfoldable pub product_of : Shop → OrderItem → Option Product
product_of shop item = find? (λ p. opt_eq item.product_id (some p.id)) shop.stock.products

unfoldable pub snapshot_line : Shop → OrderItem → SnapshotLine
unfolding product_of
snapshot_line shop oi = record {
  product_public_id = elim (product_of shop oi) [ none ↦ none | some p ↦ some p.public_id ];
  quantity = oi.quantity;
  unit_price = oi.unit_price;
  original_price = oi.original_price;
  discount_amount = oi.discount_amount;
  line_subtotal = oi.line_subtotal;
  line_total = oi.line_total;
}

-- What `recalculate_order_totals` sets on the order, for a roll-up, a quote and the snapshot's lines.
unfoldable pub with_totals : Order → Rollup → ShippingQuote → List SnapshotLine → Order
with_totals order r quote lines =
    let ship = money (cents quote.shipping_cost) in
    let tot = money (cents (r.subtotal_after_discount +ℤ ship)) in
    record order {
      subtotal_before_discount = r.subtotal_before_discount;
      discount_total = r.discount_total;
      subtotal_after_discount = r.subtotal_after_discount;
      shipping_cost = ship;
      shipping_zone_id = quote.zone;
      shipping_method_id = elim quote.method [ none ↦ none | some m ↦ some m.id ];
      shipping_rate_id = elim quote.rate [ none ↦ none | some rate ↦ some rate.id ];
      total = tot;
      pricing_snapshot = some (record {
        subtotal_before_discount = r.subtotal_before_discount;
        discount_total = r.discount_total;
        subtotal_after_discount = r.subtotal_after_discount;
        shipping_cost = ship;
        total = tot;
        lines = lines;
      });
    }

abbrev pub on_shipping : {A : Type 0} → (Shipping → Result ShippingError A) → Tx Shop OrderError A
on_shipping f shop = elim (f shop.shipping) [ err e ↦ err (shipping_error e) | ok a ↦ ok (a, shop) ]

-- `order.save(update_fields=[…])`
unfoldable pub save_totals : ℕ → (Order → Order) → Shop → Shop
save_totals pk f shop = record shop { orders = update_where (is_order pk) f shop.orders }

-- `recalculate_order_totals`; the order is the caller's, its lines are read from the table.
unfoldable pub recalculate_order_totals : Order → Tx Shop OrderError Order
unfolding aggregate_order_item_snapshots quote_shipping_for_order with_totals line_of snapshot_line
    items_of save_totals
recalculate_order_totals order = do
  items ← gets (items_of order.id)
  let r = aggregate_order_item_snapshots (map line_of items)
  quote ← on_shipping (
      quote_shipping_for_order order.store_id r.subtotal_after_discount order.shipping_zone_id
        order.shipping_method_id)
  lines ← gets (λ shop. map (snapshot_line shop) items)
  modify (save_totals order.id (λ row. with_totals row r quote lines))
  pure (with_totals order r quote lines)

-- `_PREPAYMENT_RANK`
unfoldable pub prepayment_rank : PrepaymentType → ℕ
prepayment_rank free = 0
prepayment_rank delivery_only = 1
prepayment_rank full = 2

unfoldable pub strongest_from : PrepaymentType → List Product → PrepaymentType
unfolding prepayment_rank
strongest_from best [] = best
strongest_from best (product ∷ products) =
    strongest_from
      (if ltb (prepayment_rank best) (prepayment_rank product.prepayment_type)
        then product.prepayment_type
        else best)
      products

unfoldable pub resolve_cart_prepayment_type : List Product → PrepaymentType
unfolding strongest_from
resolve_cart_prepayment_type products = strongest_from free products

unfoldable pub resolve_order_prepayment_type : ℕ → Shop → PrepaymentType
unfolding resolve_cart_prepayment_type product_of items_of
resolve_order_prepayment_type pk shop =
    resolve_cart_prepayment_type (filter_map (product_of shop) (items_of pk shop))
