-- ===== src/Orders/Financials/Laws.antt =====
-- On the amounts of engine/apps/orders/order_financials.py.
use api_paperbase.Base.{ℕ, ◌≡◌, refl, sym, ◌∙◌, Option, none, some, List, [], ◌∷◌, map, All, arith}
use api_paperbase.Base.Int.{
  ℤ, pos, negsuc, ◌+ℤ◌, ◌-ℤ◌, ◌*ℤ◌, times, pos_part, ◌≤ℤ◌, sub-mul_distrib, eq_of_parts, int_laws,
}
use api_paperbase.Base.Results.{map_ok, bind-map_ok}
use api_paperbase.Money.{money, cents}
use api_paperbase.Money.Laws.{money-cents}
use api_paperbase.Catalog.{Product, ProductVariant}
use api_paperbase.Shipping.{Shipping, ShippingQuote}
use api_paperbase.Orders.Financials.{
  LineFinancials, Line, Rollup, ResolvedLine, Accounting, compute_line_financials, aggregate_from,
  aggregate_order_item_snapshots, financials_of, sum_column, sum_discounts,
  preview_lines_to_accounting, quote_shipping_for_order,
}

no_discount : (x : ℤ) (q : ℕ) → x -ℤ pos 0 *ℤ q ≡ x
no_discount x q = eq_of_parts _ _ (omega int_laws)

sub_self : (x : ℤ) → x -ℤ x ≡ pos 0
sub_self x = eq_of_parts _ _ (omega int_laws)

sub_sub : (x y : ℤ) → x -ℤ (x -ℤ y) ≡ y
sub_sub x y = eq_of_parts _ _ (omega int_laws)

-- For every line the list amount less the discount on the quantity is the charged amount, and the
-- discount of one unit is the list price less the charged price, also for a surcharge.
pub compute_line_financials-balanced :
    (product : Option Product) (variant : Option ProductVariant) (quantity unit_price : ℤ)
    → let f = compute_line_financials product variant quantity unit_price in
      (f.line_subtotal -ℤ f.discount_amount *ℤ pos_part quantity ≡ f.line_total)
      × (f.discount_amount ≡ f.original_price -ℤ f.unit_price)
unfolding compute_line_financials
compute_line_financials-balanced none variant quantity unit_price =
    simp money-cents (no_discount _ _, sym (sub_self _))
compute_line_financials-balanced (some product) variant quantity unit_price =
    simp (money-cents, sub-mul_distrib) (sub_sub _ _, refl)

-- A resolved line with its amounts.
abbrev pub stored_line : ResolvedLine → Line
stored_line row = record { quantity = pos_part row.quantity; amounts = financials_of row }

-- No line has a negative quantity.
abbrev pub IsNonneg : List ResolvedLine → Type 0
IsNonneg rows = All (λ (r : ResolvedLine). pos 0 ≤ℤ r.quantity) rows

pub times-nonneg : (x n : ℤ) → pos 0 ≤ℤ n → times x n ≡ x *ℤ pos_part n
unfolding times
times-nonneg x (pos n) h = refl
times-nonneg x (negsuc n) h = absurd (omega arith)

-- What one line adds to a roll-up.
abbrev rolled_in : Rollup → LineFinancials → ℕ → Rollup
rolled_in acc f q = record {
  subtotal_before_discount = acc.subtotal_before_discount +ℤ f.line_subtotal;
  discount_total = acc.discount_total +ℤ f.discount_amount *ℤ q;
  subtotal_after_discount = acc.subtotal_after_discount +ℤ f.line_total;
}

aggregate_from-rolled_in :
    (acc : Rollup) (f : LineFinancials) (q : ℕ) (rest : List Line)
    → aggregate_from acc (record { quantity = q; amounts = f } ∷ rest)
      ≡ aggregate_from (rolled_in acc f q) rest
unfolding aggregate_from
aggregate_from-rolled_in acc f q rest = simp money-cents refl

aggregate_from-eq :
    (rows : List ResolvedLine) (acc : Rollup)
    → IsNonneg rows
    → aggregate_from acc (map stored_line rows) ≡ record {
      subtotal_before_discount =
          sum_column (λ f. f.line_subtotal) acc.subtotal_before_discount rows;
      discount_total = sum_discounts acc.discount_total rows;
      subtotal_after_discount = sum_column (λ f. f.line_total) acc.subtotal_after_discount rows;
    }
unfolding sum_column sum_discounts aggregate_from
aggregate_from-eq [] acc h = refl
aggregate_from-eq (row ∷ rows) acc h =
    let f = financials_of row in
    aggregate_from-rolled_in acc f (pos_part row.quantity) (map stored_line rows)
    ∙ aggregate_from-eq rows (rolled_in acc f (pos_part row.quantity)) h.1
    ∙ rw
        (
          times-nonneg f.discount_amount row.quantity h.0,
          money-cents (f.discount_amount *ℤ pos_part row.quantity),
        )
        refl

abbrev no_amounts : Rollup
no_amounts = record {
  subtotal_before_discount = pos 0;
  discount_total = pos 0;
  subtotal_after_discount = pos 0;
}

-- What the preview shows of a quote.
abbrev pub accounting_of : Rollup → List ResolvedLine → ShippingQuote → Accounting
accounting_of r rows quote = record {
  rollup = r;
  shipping_cost = quote.shipping_cost;
  total = r.subtotal_after_discount +ℤ quote.shipping_cost;
  lines = map financials_of rows;
  quote = quote;
}

-- When no line has a negative quantity, the preview of a cart quotes shipping for the roll-up of its
-- lines, fails as that quote fails, and otherwise shows that roll-up, with a total of the discounted
-- amount and shipping.
pub preview-eq-aggregate :
    (store_id : ℕ) (rows : List ResolvedLine) (zone_pk method_pk : Option ℕ) (db : Shipping)
    → IsNonneg rows
    → let r = aggregate_order_item_snapshots (map stored_line rows) in
      preview_lines_to_accounting store_id rows zone_pk method_pk db
      ≡ map_ok
          (accounting_of r rows)
          (quote_shipping_for_order store_id r.subtotal_after_discount zone_pk method_pk db)
unfolding preview_lines_to_accounting aggregate_order_item_snapshots
preview-eq-aggregate store_id rows zone_pk method_pk db h =
    rw (aggregate_from-eq rows no_amounts h) (
      bind-map_ok
        (quote_shipping_for_order store_id
          (money (cents (sum_column (λ f. f.line_total) (pos 0) rows))) zone_pk method_pk db)
        _ _ (λ quote. simp money-cents refl))

-- The amounts of a line agree with its quantity.
abbrev pub IsBalanced : Line → Type 0
IsBalanced l =
    l.amounts.line_subtotal -ℤ l.amounts.discount_amount *ℤ l.quantity ≡ l.amounts.line_total

shift : (a b c x y z : ℤ) → a -ℤ b ≡ c → x -ℤ y ≡ z → (a +ℤ x) -ℤ (b +ℤ y) ≡ c +ℤ z
shift a b c x y z p q = eq_of_parts _ _ (rw (sym p, sym q) (omega int_laws))

balanced_from :
    (lines : List Line) (acc : Rollup)
    → acc.subtotal_before_discount -ℤ acc.discount_total ≡ acc.subtotal_after_discount
    → All IsBalanced lines
    → let r = aggregate_from acc lines in
      r.subtotal_before_discount -ℤ r.discount_total ≡ r.subtotal_after_discount
unfolding aggregate_from
balanced_from [] acc h lines_ok = h
balanced_from (line ∷ lines) acc h lines_ok =
    rw (aggregate_from-rolled_in acc line.amounts line.quantity lines) (
      balanced_from lines (rolled_in acc line.amounts line.quantity)
        (shift _ _ _ _ _ _ h lines_ok.0) lines_ok.1)

-- The roll-up of balanced lines is balanced: before discount, less the discount, is after discount.
pub aggregate-balanced :
    (lines : List Line)
    → All IsBalanced lines
    → let r = aggregate_order_item_snapshots lines in
      r.subtotal_before_discount -ℤ r.discount_total ≡ r.subtotal_after_discount
unfolding aggregate_order_item_snapshots
aggregate-balanced lines lines_ok =
    let r = aggregate_from no_amounts lines in
    rw
      (
        money-cents r.subtotal_before_discount,
        money-cents r.discount_total,
        money-cents r.subtotal_after_discount,
      )
      (balanced_from lines no_amounts (sub_self (pos 0)) lines_ok)
