-- ===== src/Orders/Checkout/Preview.antt =====
-- The preview of a cart (engine/apps/orders/order_financials.py) against what
-- `recalculate_order_totals` stores for an order of the same lines.
use api_paperbase.Base.{ℕ, ◌≡◌, refl, sym, ap, ◌∙◌, Option, some, List, [], ◌∷◌, map, inl, inr}
use api_paperbase.Base.Int.{ℤ, pos, pos_part, ◌+ℤ◌}
use api_paperbase.Base.Results.{Result, ok, err, map_ok, Result-cases}
use api_paperbase.Money.Laws.{money-cents}
use api_paperbase.Catalog.{Product, ProductVariant, unit_price_for_line}
use api_paperbase.Shipping.{ShippingError, ShippingQuote}
use api_paperbase.Orders.{Order, OrderItem, Shop, OrderError, shipping_error}
use api_paperbase.Orders.Financials.{
  Line, ResolvedLine, Rollup, Accounting, financials_of, aggregate_order_item_snapshots,
  quote_shipping_for_order, preview_lines_to_accounting, compute_line_financials,
}
use api_paperbase.Orders.Financials.Laws.{
  stored_line, accounting_of, IsNonneg, preview-eq-aggregate,
}
use api_paperbase.Orders.Lifecycle.{items_of}
use api_paperbase.Orders.Totals.{
  write_order_item_financials, line_of, snapshot_line, save_totals, with_totals,
  recalculate_order_totals,
}
use api_paperbase.Orders.Checkout.Create.{new_item}

-- The item of an order that is stored for a line: by the dashboard, which writes the amounts of the
-- line into an item of its quantity, or by the storefront, at the price of the product.
pub data IsStoredFor : ResolvedLine → OrderItem → Type 0 where
  written :
      {row : ResolvedLine} (item : OrderItem)
      → item.quantity ≡ pos_part row.quantity
      → IsStoredFor row
          (write_order_item_financials item row.product row.variant row.quantity row.unit_price)
  placed :
      (item_id order_id quantity : ℕ) (product : Product) (variant : Option ProductVariant)
      → IsStoredFor
          (record {
            product = some product;
            variant = variant;
            quantity = pos quantity;
            unit_price = unit_price_for_line product variant;
          })
          (new_item item_id order_id product variant quantity)

pub data AreStoredFor : List ResolvedLine → List OrderItem → Type 0 where
  none_stored : AreStoredFor [] []
  one_stored :
      {row : ResolvedLine} {item : OrderItem} {rows : List ResolvedLine} {items : List OrderItem}
      → IsStoredFor row item
      → AreStoredFor rows items
      → AreStoredFor (row ∷ rows) (item ∷ items)

-- A line of a product at a unit price.
priced_at : Product → Option ProductVariant → ℕ → ℤ → Line
priced_at product variant quantity unit_price = record {
  quantity = quantity;
  amounts = compute_line_financials (some product) variant (pos quantity) unit_price;
}

line_of-stored :
    (row : ResolvedLine) (item : OrderItem) → IsStoredFor row item → line_of item ≡ stored_line row
unfolding line_of write_order_item_financials new_item financials_of priced_at
line_of-stored row _ (written item same) = rw (same, money-cents row.unit_price) refl
line_of-stored _ _ (placed item_id order_id quantity product variant) =
    ap (priced_at product variant quantity)
      (sym (money-cents (unit_price_for_line product variant)))

lines_of-stored :
    (rows : List ResolvedLine) (items : List OrderItem)
    → AreStoredFor rows items
    → map line_of items ≡ map stored_line rows
lines_of-stored _ _ none_stored = refl
lines_of-stored (row ∷ rows) (item ∷ items) (one_stored h rest) =
    rw (line_of-stored row item h, lines_of-stored rows items rest) refl

-- The amounts that a preview shows and an order stores.
pub record Amounts : Type 0 where
  pub subtotal_before_discount : ℤ
  pub discount_total : ℤ
  pub subtotal_after_discount : ℤ
  pub shipping_cost : ℤ
  pub total : ℤ

abbrev pub previewed_amounts : Result ShippingError Accounting → Result OrderError Amounts
previewed_amounts (err e) = err (shipping_error e)
previewed_amounts (ok a) = ok (record {
  subtotal_before_discount = a.rollup.subtotal_before_discount;
  discount_total = a.rollup.discount_total;
  subtotal_after_discount = a.rollup.subtotal_after_discount;
  shipping_cost = a.shipping_cost;
  total = a.total;
})

abbrev pub stored_amounts : Order × Shop → Amounts
stored_amounts r = record {
  subtotal_before_discount = r.0.subtotal_before_discount;
  discount_total = r.0.discount_total;
  subtotal_after_discount = r.0.subtotal_after_discount;
  shipping_cost = r.0.shipping_cost;
  total = r.0.total;
}

module _ (order : Order) (shop : Shop) where
  rollup_of : Rollup
  rollup_of = aggregate_order_item_snapshots (map line_of (items_of order.id shop))

  quoted : Result ShippingError ShippingQuote
  unfolding rollup_of
  quoted =
      quote_shipping_for_order order.store_id rollup_of.subtotal_after_discount
        order.shipping_zone_id order.shipping_method_id shop.shipping

  recalculated :
      (quote : ShippingQuote)
      → quoted ≡ ok quote
      → map_ok stored_amounts (recalculate_order_totals order shop)
        ≡ previewed_amounts (ok (accounting_of rollup_of [] quote))
  unfolding recalculate_order_totals with_totals quoted rollup_of
  recalculated quote e =
      let r = rollup_of in
      let lines = map (snapshot_line shop) (items_of order.id shop) in
      let run : recalculate_order_totals order shop
          ≡ ok (
            with_totals order r quote lines,
            save_totals order.id (λ row. with_totals row r quote lines) shop,
          ) =
        cc e in
      ap (map_ok stored_amounts) run
      ∙ rw
          (
            money-cents quote.shipping_cost,
            money-cents (r.subtotal_after_discount +ℤ quote.shipping_cost),
          )
          refl

  not_recalculated :
      (error : ShippingError)
      → quoted ≡ err error
      → map_ok stored_amounts (recalculate_order_totals order shop) ≡ err (shipping_error error)
  unfolding recalculate_order_totals quoted rollup_of
  not_recalculated error e = cc e

-- When an order's items are stored for the lines of a cart, none of which has a negative quantity,
-- the recalculation of its totals sets the amounts that the preview of the cart shows for the
-- order's store, zone and method, or raises the error that the preview raises.
pub recalculate-eq-preview :
    (order : Order) (rows : List ResolvedLine) (shop : Shop)
    → IsNonneg rows
    → AreStoredFor rows (items_of order.id shop)
    → map_ok stored_amounts (recalculate_order_totals order shop)
      ≡ previewed_amounts (
          preview_lines_to_accounting order.store_id rows order.shipping_zone_id
            order.shipping_method_id shop.shipping)
unfolding quoted rollup_of
recalculate-eq-preview order rows shop nonneg stored =
    let shown =
      preview-eq-aggregate order.store_id rows order.shipping_zone_id order.shipping_method_id
        shop.shipping nonneg in
    let lines = lines_of-stored rows (items_of order.id shop) stored in
    rw (shown, ← lines)
      (elim (Result-cases (quoted order shop)) [
        | inl (quote, e) ↦ recalculated order shop quote e ∙ rw e refl
        | inr (error, e) ↦ not_recalculated order shop error e ∙ rw e refl
      ])
