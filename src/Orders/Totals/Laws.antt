-- ===== src/Orders/Totals/Laws.antt =====
-- On `recalculate_order_totals` and `resolve_cart_prepayment_type` of engine/apps/orders/services.py.
use api_paperbase.Base.{
  ◌≤◌, ◌≡◌, refl, sym, ◌∙◌, Option, List, [], ◌∷◌, map, All, arith, ltb, ltb→lt, ◌⊎◌, inl, inr,
  Bool-cases,
}
use mathlib.Core.Path.{subst}
use mathlib.Core.List.{Memᴰ}
use api_paperbase.Base.Int.{ℤ, ◌+ℤ◌, ◌-ℤ◌, pos_part}
use api_paperbase.Base.Results.{ok, Result-cases}
use api_paperbase.Base.Queries.{update_where}
use api_paperbase.Money.Laws.{money-cents}
use api_paperbase.Catalog.{Product, ProductVariant, PrepaymentType, free}
use api_paperbase.Shipping.{ShippingQuote}
use api_paperbase.Orders.{Order, OrderItem, SnapshotLine, Shop, is_order}
use api_paperbase.Orders.Financials.{
  Rollup, aggregate_order_item_snapshots, quote_shipping_for_order,
}
use api_paperbase.Orders.Financials.Laws.{
  IsBalanced, compute_line_financials-balanced, aggregate-balanced,
}
use api_paperbase.Orders.Lifecycle.{items_of}
use api_paperbase.Orders.Totals.{
  write_order_item_financials, line_of, with_totals, recalculate_order_totals, save_totals,
  snapshot_line, prepayment_rank, strongest_from, resolve_cart_prepayment_type,
}

-- A line that `write_order_item_financials` wrote for a quantity that is the line's own, or 0 where
-- that is negative, is balanced.
pub write-IsBalanced :
    (item : OrderItem) (product : Option Product) (variant : Option ProductVariant)
    (quantity unit_price : ℤ)
    → item.quantity ≡ pos_part quantity
    → IsBalanced (line_of (write_order_item_financials item product variant quantity unit_price))
unfolding write_order_item_financials line_of
write-IsBalanced item product variant quantity unit_price h =
    rw h ((compute_line_financials-balanced product variant quantity unit_price).0)

-- The totals of an order agree: the discount takes the one subtotal to the other, and shipping takes
-- that to the total.
pub record IsTotalled (o : Order) : Type 0 where
  pub discounted : o.subtotal_before_discount -ℤ o.discount_total ≡ o.subtotal_after_discount
  pub summed : o.total ≡ o.subtotal_after_discount +ℤ o.shipping_cost

with_totals-IsTotalled :
    (order : Order) (r : Rollup) (quote : ShippingQuote) (lines : List SnapshotLine)
    → r.subtotal_before_discount -ℤ r.discount_total ≡ r.subtotal_after_discount
    → IsTotalled (with_totals order r quote lines)
unfolding with_totals
with_totals-IsTotalled order r quote lines h = record { discounted = h; summed = money-cents _ }

-- When every line of an order is balanced, a recalculation that succeeds returns an order whose
-- totals agree, and does the same to the order's row.
pub recalculate-IsTotalled :
    (order o : Order) (shop shop' : Shop)
    → All (λ i. IsBalanced (line_of i)) (items_of order.id shop)
    → recalculate_order_totals order shop ≡ ok (o, shop')
    → IsTotalled o
      × ((f : Order → Order) × (shop'.orders ≡ update_where (is_order order.id) f shop.orders)
          × ((row : Order) → IsTotalled (f row)))
unfolding recalculate_order_totals save_totals
recalculate-IsTotalled order o shop shop' h run =
    let r = aggregate_order_item_snapshots (map line_of (items_of order.id shop)) in
    let lines = map (snapshot_line shop) (items_of order.id shop) in
    let balanced = aggregate-balanced (map line_of (items_of order.id shop)) (All-map' _ h) in
    elim (Result-cases (
      quote_shipping_for_order order.store_id r.subtotal_after_discount order.shipping_zone_id
        order.shipping_method_id shop.shipping)) [
          | inl (quote, e) ↦
              let same : with_totals order r quote lines ≡ o = cc (run, e) in
              let wrote : update_where (is_order order.id) (λ row. with_totals row r quote lines)
                    shop.orders
                  ≡ shop'.orders =
                cc (run, e) in
              (
                subst IsTotalled same (with_totals-IsTotalled order r quote lines balanced),
                (
                  (λ row. with_totals row r quote lines),
                  sym wrote,
                  λ row. with_totals-IsTotalled row r quote lines balanced,
                ),
              )
          | inr (_, e) ↦ cc (run, e)
        ]
  where
    All-map' :
        (items : List OrderItem)
        → All (λ i. IsBalanced (line_of i)) items
        → All IsBalanced (map line_of items)
    All-map' [] a = tt
    All-map' (i ∷ items) a = (a.0, All-map' items a.1)

-- No product asks for more than `best`, which is `start` or what one of the products asks for.
pub record IsStrongest (start : PrepaymentType) (products : List Product) (best : PrepaymentType)
    : Type 0 where
  pub bound :
      All (λ (p : Product). prepayment_rank p.prepayment_type ≤ prepayment_rank best) products
  pub above : prepayment_rank start ≤ prepayment_rank best
  pub reached : (best ≡ start) ⊎ ((p : Product) × (Memᴰ p products × (p.prepayment_type ≡ best)))

-- The better of `start` and what `p` asks for, then the rest of the products.
IsStrongest-cons :
    (start c best : PrepaymentType) (p : Product) (products : List Product)
    → prepayment_rank start ≤ prepayment_rank c
    → prepayment_rank p.prepayment_type ≤ prepayment_rank c
    → (c ≡ start) ⊎ (p.prepayment_type ≡ c)
    → IsStrongest c products best
    → IsStrongest start (p ∷ products) best
IsStrongest-cons start c best p products hs hp which rest = record {
  bound = (omega (arith, hp, rest.above), rest.bound);
  above = omega (arith, hs, rest.above);
  reached = elim rest.reached [
    | inr (q, (held, asks)) ↦ inr (q, (Memᴰ.tail held, asks))
    | inl e ↦ elim which [ inl e' ↦ inl (e ∙ e') | inr e' ↦ inr (p, (Memᴰ.head refl, e' ∙ sym e)) ]
  ];
}

strongest_from-IsStrongest :
    (start : PrepaymentType) (products : List Product)
    → IsStrongest start products (strongest_from start products)
unfolding strongest_from
strongest_from-IsStrongest start [] = record { bound = tt; above = omega arith; reached = inl refl }
strongest_from-IsStrongest start (p ∷ products) =
    elim (Bool-cases (ltb (prepayment_rank start) (prepayment_rank p.prepayment_type))) [
      | inl e ↦
          let better = ltb→lt _ _ e in
          rw e (
            IsStrongest-cons start p.prepayment_type _ p products (omega (arith, better))
              (omega arith) (inr refl) (strongest_from-IsStrongest p.prepayment_type products))
      | inr e ↦ rw e (
          IsStrongest-cons start start _ p products (omega arith) (ground (arith, e)) (inl refl)
            (strongest_from-IsStrongest start products))
    ]

-- A cart needs the strongest prepayment that one of its products asks for, and none if none does.
pub resolve_cart-IsStrongest :
    (products : List Product) → IsStrongest free products (resolve_cart_prepayment_type products)
unfolding resolve_cart_prepayment_type
resolve_cart-IsStrongest products = strongest_from-IsStrongest free products
