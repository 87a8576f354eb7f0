-- ===== src/Orders/Financials.antt =====
-- The amounts of an order line, and their roll-up (engine/apps/orders/order_financials.py,
-- engine/apps/orders/pricing.py).
pub mod Laws
pub mod Pricing
use api_paperbase.Base.{ℕ, Bool, Option, none, some, List, [], ◌∷◌, map}
use api_paperbase.Base.Int.{ℤ, pos, ◌+ℤ◌, ◌-ℤ◌, ◌*ℤ◌, times, pos_part}
use api_paperbase.Base.Results.{Result, ok, err, ◌>>=◌}
use api_paperbase.Money.{money, cents}
use api_paperbase.Catalog.{Product, ProductVariant, unit_price_for_line}
use api_paperbase.Shipping.{Shipping, ShippingError, ShippingZone, ShippingQuote, quote_shipping}

pub record LineFinancials : Type 0 where
  pub original_price : ℤ
  pub unit_price : ℤ
  pub discount_amount : ℤ
  pub line_subtotal : ℤ
  pub line_total : ℤ

unfoldable pub reference_unit_price : Option Product → Option ProductVariant → ℤ
unfolding unit_price_for_line
reference_unit_price none variant = pos 0
reference_unit_price (some product) variant = elim product.original_price [
  | none ↦ money (cents (unit_price_for_line product variant))
  | some price ↦ money (cents price)
]

unfoldable pub compute_line_financials :
    Option Product → Option ProductVariant → ℤ → ℤ → LineFinancials
unfolding reference_unit_price
compute_line_financials none variant quantity unit_price =
    let q = pos_part quantity in
    let unit = money (cents unit_price) in
    record {
      original_price = unit;
      unit_price = unit;
      discount_amount = pos 0;
      line_subtotal = money (cents (unit *ℤ q));
      line_total = money (cents (unit *ℤ q));
    }
compute_line_financials (some product) variant quantity unit_price =
    let q = pos_part quantity in
    let ref = reference_unit_price (some product) variant in
    let unit = money (cents unit_price) in
    record {
      original_price = ref;
      unit_price = unit;
      discount_amount = money (cents (ref -ℤ unit));
      line_subtotal = money (cents (ref *ℤ q));
      line_total = money (cents (unit *ℤ q));
    }

-- A line as the roll-up reads it: its quantity and its amounts.
pub record Line : Type 0 where
  pub quantity : ℕ
  pub amounts : LineFinancials

pub record Rollup : Type 0 where
  pub subtotal_before_discount : ℤ
  pub discount_total : ℤ
  pub subtotal_after_discount : ℤ

-- The loop of `aggregate_order_item_snapshots`.
unfoldable pub aggregate_from : Rollup → List Line → Rollup
aggregate_from acc [] = acc
aggregate_from acc (oi ∷ items) =
    aggregate_from
      (record {
        subtotal_before_discount =
            acc.subtotal_before_discount +ℤ money (cents oi.amounts.line_subtotal);
        discount_total =
            acc.discount_total +ℤ money (cents (oi.amounts.discount_amount *ℤ oi.quantity));
        subtotal_after_discount =
            acc.subtotal_after_discount +ℤ money (cents oi.amounts.line_total);
      })
      items

unfoldable pub aggregate_order_item_snapshots : List Line → Rollup
unfolding aggregate_from
aggregate_order_item_snapshots items =
    let acc =
      aggregate_from
        (record {
          subtotal_before_discount = pos 0;
          discount_total = pos 0;
          subtotal_after_discount = pos 0;
        })
        items in
    record {
      subtotal_before_discount = money (cents acc.subtotal_before_discount);
      discount_total = money (cents acc.discount_total);
      subtotal_after_discount = money (cents acc.subtotal_after_discount);
    }

unfoldable pub quote_shipping_for_order :
    ℕ → ℤ → Option ℕ → Option ℕ → Shipping → Result ShippingError ShippingQuote
quote_shipping_for_order store_id subtotal_after_discount zone_pk method_pk db =
    quote_shipping store_id (money (cents subtotal_after_discount)) zone_pk method_pk none db

-- A row of `resolved_lines`.
pub record ResolvedLine : Type 0 where
  pub product : Option Product
  pub variant : Option ProductVariant
  pub quantity : ℤ
  pub unit_price : ℤ

unfoldable pub financials_of : ResolvedLine → LineFinancials
financials_of row =
    compute_line_financials row.product row.variant row.quantity (money (cents row.unit_price))

-- `sum(f[…] for f in snapshots)`
unfoldable pub sum_column : (LineFinancials → ℤ) → ℤ → List ResolvedLine → ℤ
sum_column column acc [] = acc
sum_column column acc (row ∷ rows) = sum_column column (acc +ℤ column (financials_of row)) rows

-- The loop over `zip(resolved_lines, snapshots)`.
unfoldable pub sum_discounts : ℤ → List ResolvedLine → ℤ
sum_discounts acc [] = acc
sum_discounts acc (row ∷ rows) =
    sum_discounts (acc +ℤ money (cents (times (financials_of row).discount_amount row.quantity)))
      rows

pub record Accounting : Type 0 where
  pub rollup : Rollup
  pub shipping_cost : ℤ
  pub total : ℤ
  pub lines : List LineFinancials
  pub quote : ShippingQuote

-- `preview_lines_to_accounting`
unfoldable pub preview_lines_to_accounting :
    ℕ → List ResolvedLine → Option ℕ → Option ℕ → Shipping → Result ShippingError Accounting
unfolding sum_column sum_discounts quote_shipping_for_order
preview_lines_to_accounting store_id rows zone_pk method_pk db =
    let sb = money (cents (sum_column (λ f. f.line_subtotal) (pos 0) rows)) in
    let dt = money (cents (sum_discounts (pos 0) rows)) in
    let sa = money (cents (sum_column (λ f. f.line_total) (pos 0) rows)) in
    quote_shipping_for_order store_id sa zone_pk method_pk db >>= λ quote.
    let ship = money (cents quote.shipping_cost) in
    ok (record {
      rollup = record {
        subtotal_before_discount = sb;
        discount_total = dt;
        subtotal_after_discount = sa;
      };
      shipping_cost = ship;
      total = money (cents (sa +ℤ ship));
      lines = map financials_of rows;
      quote = quote;
    })

-- A line of a cart as `PricingEngine.compute` reads it; its product may be None.
pub record CartLine : Type 0 where
  pub product : Option Product
  pub quantity : ℤ
  pub unit_price : ℤ

pub record PricingBreakdown : Type 0 where
  pub base_subtotal : ℤ
  pub shipping : ShippingQuote
  pub shipping_cost : ℤ
  pub final_total : ℤ

-- What `PricingEngine.compute` raises: the AttributeError of `product.public_id` for None, and what
-- the quote raises.
pub data PricingError : Type 0 where
  attribute_error : PricingError
  not_quoted : ShippingError → PricingError

-- The loop of `PricingEngine.compute`: the sum of `unit_price * quantity`, each rounded.
unfoldable pub base_subtotal_from : ℤ → List CartLine → Result PricingError ℤ
base_subtotal_from acc [] = ok acc
base_subtotal_from acc (line ∷ lines) = elim line.product [
  | none ↦ err attribute_error
  | some p ↦
      base_subtotal_from
        (acc +ℤ money (cents (times (money (cents line.unit_price)) line.quantity))) lines
]

-- What `PricingEngine.compute` makes of the quote.
unfoldable pub breakdown_of :
    ℤ → Result ShippingError ShippingQuote → Result PricingError PricingBreakdown
breakdown_of base_subtotal (err e) = err (not_quoted e)
breakdown_of base_subtotal (ok quote) =
    let shipping_cost = money (cents quote.shipping_cost) in
    ok (record {
      base_subtotal = base_subtotal;
      shipping = quote;
      shipping_cost = shipping_cost;
      final_total = money (cents (base_subtotal +ℤ shipping_cost));
    })

-- `PricingEngine.compute`, without its copy of the lines.
unfoldable pub pricing_compute :
    ℕ
    → List CartLine
    → Option ℕ
    → Option ℕ
    → Option ShippingZone
    → Shipping
    → Result PricingError PricingBreakdown
unfolding base_subtotal_from breakdown_of
pricing_compute store_id lines zone_pk method_pk resolved_zone db =
    base_subtotal_from (pos 0) lines >>= λ sum.
    let base_subtotal = money (cents sum) in
    breakdown_of base_subtotal
      (quote_shipping store_id base_subtotal zone_pk method_pk resolved_zone db)
