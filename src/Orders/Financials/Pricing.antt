-- ===== src/Orders/Financials/Pricing.antt =====
-- The pricing engine (engine/apps/orders/pricing.py) against the preview of a cart.
use api_paperbase.Base.{
  ℕ, ◌≡◌, refl, sym, ◌∙◌, Option, none, some, List, [], ◌∷◌, map, Bool, not, any, if◌then◌else◌,
  Option-cases, Bool-cases, inl, inr,
}
use api_paperbase.Base.Int.{ℤ, pos, ◌+ℤ◌, ◌*ℤ◌, times, pos_part, ◌≤ℤ◌}
use api_paperbase.Base.Results.{Result, ok, err, map_ok, ◌>>=◌}
use api_paperbase.Base.Queries.{is_some}
use api_paperbase.Money.{money, cents}
use api_paperbase.Money.Laws.{money-cents}
use api_paperbase.Catalog.{Product, ProductVariant}
use api_paperbase.Shipping.{Shipping, ShippingError, ShippingQuote, quote_shipping}
use api_paperbase.Orders.Financials.{
  ResolvedLine, CartLine, Accounting, PricingBreakdown, compute_line_financials, financials_of,
  sum_column, preview_lines_to_accounting, quote_shipping_for_order, base_subtotal_from,
  breakdown_of, pricing_compute, PricingError, attribute_error, not_quoted,
}
use api_paperbase.Orders.Financials.Laws.{IsNonneg, times-nonneg}

-- A resolved line as the pricing engine reads it.
abbrev pub cart_line : ResolvedLine → CartLine
cart_line row = record {
  product = row.product;
  quantity = row.quantity;
  unit_price = row.unit_price;
}

line_total-eq :
    (product : Option Product) (variant : Option ProductVariant) (quantity unit_price : ℤ)
    → (compute_line_financials product variant quantity unit_price).line_total
      ≡ unit_price *ℤ pos_part quantity
unfolding compute_line_financials
line_total-eq none variant quantity unit_price = simp money-cents refl
line_total-eq (some product) variant quantity unit_price = simp money-cents refl

charged-eq :
    (row : ResolvedLine)
    → pos 0 ≤ℤ row.quantity
    → money (cents (times (money (cents row.unit_price)) row.quantity))
      ≡ (financials_of row).line_total
unfolding financials_of
charged-eq row h =
    money-cents _
    ∙ times-nonneg _ row.quantity h
    ∙ sym (line_total-eq row.product row.variant row.quantity (money (cents row.unit_price)))

abbrev pub lacks_product : ResolvedLine → Bool
lacks_product row = not (is_some row.product)

base_subtotal-step :
    (acc : ℤ) (line : CartLine) (lines : List CartLine)
    → base_subtotal_from acc (line ∷ lines) ≡ (
        if is_some line.product
        then base_subtotal_from
            (acc +ℤ money (cents (times (money (cents line.unit_price)) line.quantity)))
            lines
        else err attribute_error)
unfolding base_subtotal_from
base_subtotal-step acc line lines = elim (Option-cases line.product) [
  | inl e ↦ rw e refl
  | inr (p, e) ↦ rw e refl
]

base_subtotal-eq :
    (rows : List ResolvedLine) (acc : ℤ)
    → IsNonneg rows
    → base_subtotal_from acc (map cart_line rows) ≡ (
        if any rows lacks_product
        then err attribute_error
        else ok (sum_column (λ f. f.line_total) acc rows))
unfolding base_subtotal_from sum_column
base_subtotal-eq [] acc h = refl
base_subtotal-eq (row ∷ rows) acc h =
    base_subtotal-step acc (cart_line row) (map cart_line rows)
    ∙ elim (Bool-cases (is_some row.product)) [
      | inl e ↦ rw (e, charged-eq row h.0) (base_subtotal-eq rows _ h.1)
      | inr e ↦ rw e refl
    ]

-- What the two ways to price a cart both show: its subtotal, its shipping quote and its total.
abbrev pub priced : PricingBreakdown → ℤ × (ShippingQuote × ℤ)
priced b = (b.base_subtotal, (b.shipping, b.final_total))

abbrev pub previewed :
    Result ShippingError Accounting → Result PricingError (ℤ × (ShippingQuote × ℤ))
previewed (err e) = err (not_quoted e)
previewed (ok a) = ok (a.rollup.subtotal_after_discount, (a.quote, a.total))

breakdown_of-eq :
    (subtotal : ℤ) (quoted : Result ShippingError ShippingQuote) (show : ShippingQuote → Accounting)
    → ((quote : ShippingQuote)
        → map_ok priced (breakdown_of subtotal (ok quote)) ≡ previewed (ok (show quote)))
    → map_ok priced (breakdown_of subtotal quoted) ≡ previewed (quoted >>= λ quote. ok (show quote))
unfolding breakdown_of
breakdown_of-eq subtotal (ok quote) show h = h quote
breakdown_of-eq subtotal (err e) show h = refl

-- When no line has a negative quantity, the pricing engine raises an AttributeError for a cart that
-- has a line without a product. For every other cart it and the preview ask for the same shipping
-- quote, fail alike, and agree on the subtotal and on the total.
pub pricing-eq-preview :
    (store_id : ℕ) (rows : List ResolvedLine) (zone_pk method_pk : Option ℕ) (db : Shipping)
    → IsNonneg rows
    → map_ok priced (pricing_compute store_id (map cart_line rows) zone_pk method_pk none db) ≡ (
        if any rows lacks_product
        then err attribute_error
        else previewed (preview_lines_to_accounting store_id rows zone_pk method_pk db))
unfolding pricing_compute breakdown_of preview_lines_to_accounting quote_shipping_for_order
pricing-eq-preview store_id rows zone_pk method_pk db h =
    let sa = money (cents (sum_column (λ f. f.line_total) (pos 0) rows)) in
    rw (base_subtotal-eq rows (pos 0) h, money-cents sa)
      (elim (Bool-cases (any rows lacks_product)) [
        | inl e ↦ rw e refl
        | inr e ↦ rw e (
            breakdown_of-eq sa (quote_shipping store_id sa zone_pk method_pk none db) _ (λ q. refl))
      ])
