-- ===== src/Shipping.antt =====
-- Shipping zones, methods and rates, and the quote of an order (engine/apps/shipping/models.py,
-- service.py). Amounts are signed numbers of cents.
pub mod Optimal
pub mod Cheapest
mod Tests
use api_paperbase.Base.{
  ℕ, Bool, true, false, ◌&&◌, ◌||◌, not, Option, none, some, List, [], ◌∷◌, any, map, leb, ltb,
  ◌==◌, if◌then◌else◌,
}
use api_paperbase.Base.Int.{ℤ, pos, ltb_ℤ, eqb_ℤ}
use api_paperbase.Base.Order.{order_by}
use api_paperbase.Base.Queries.{filter, find?, is_some}
use api_paperbase.Base.Results.{Result, ok, err, or_raise, ◌>>=◌}

pub record ShippingZone : Type 0 where
  pub id : ℕ
  pub store_id : ℕ
  pub public_id : ℕ
  pub is_active : Bool

pub record ShippingMethod : Type 0 where
  pub id : ℕ
  pub store_id : ℕ
  pub zones : List ℕ
  pub is_active : Bool
  pub order : ℕ

pub record ShippingRate : Type 0 where
  pub id : ℕ
  pub store_id : ℕ
  pub method_id : ℕ
  pub zone_id : ℕ
  pub min_order_total : Option ℤ
  pub max_order_total : Option ℤ
  pub price : ℤ
  pub is_active : Bool

-- The tables.
pub record Shipping : Type 0 where
  pub zones : List ShippingZone
  pub methods : List ShippingMethod
  pub rates : List ShippingRate

pub record ShippingQuote : Type 0 where
  pub shipping_cost : ℤ
  pub method : Option ShippingMethod
  pub rate : Option ShippingRate
  pub zone : Option ℕ

pub data ShippingError : Type 0 where
  zone_required invalid_zone : ShippingError

-- (a, b) ≤ (a', b') on the columns of an `order_by`.
abbrev pub lex : ℕ → ℕ → Bool → Bool
lex a b rest = ltb a b || (a == b && rest)

-- `order_by("order", "id")`
unfoldable pub method_le : ShippingMethod → ShippingMethod → Bool
method_le m n = lex m.order n.order (leb m.id n.id)

-- `order_by("shipping_method_id", "price", "id")`
unfoldable pub rate_le : ShippingRate → ShippingRate → Bool
rate_le r t =
    lex r.method_id t.method_id (ltb_ℤ r.price t.price || (eqb_ℤ r.price t.price && leb r.id t.id))

unfoldable pub find_zone : ℕ → ℕ → Shipping → Option ShippingZone
find_zone store_id pk db =
    find? (λ (z : ShippingZone). z.store_id == store_id && (z.is_active && z.id == pk)) db.zones

-- `method.id == shipping_method_pk`, where a method is asked for.
unfoldable pub is_chosen : Option ℕ → ShippingMethod → Bool
is_chosen none m = true
is_chosen (some pk) m = m.id == pk

-- The query for the methods, and the selection of one of them.
unfoldable pub is_offered : ℕ → Option ℕ → ShippingMethod → Bool
is_offered store_id method_pk m = m.store_id == store_id && (m.is_active && is_chosen method_pk m)

unfoldable pub methods_for : ℕ → Option ℕ → Shipping → List ShippingMethod
methods_for store_id method_pk db =
    filter (is_chosen method_pk)
      (order_by method_le (filter (λ m. m.store_id == store_id && m.is_active) db.methods))

unfoldable pub rates_for : ℕ → ℕ → List ShippingMethod → Shipping → List ShippingRate
rates_for store_id zone_id methods db = order_by rate_le (
    filter
      (λ (r : ShippingRate).
        r.store_id == store_id
        && (r.is_active && (r.zone_id == zone_id && any methods (λ m. m.id == r.method_id))))
      db.rates)

-- A method without zones applies everywhere.
unfoldable pub serves_zone : ℕ → ShippingMethod → Bool
serves_zone zone_id m = not (any m.zones (λ z. true)) || any m.zones (λ z. z == zone_id)

-- The two tests of a rate on the order's total.
unfoldable pub fits : ℤ → ShippingRate → Bool
fits subtotal r =
    not (elim r.min_order_total [ none ↦ false | some low ↦ ltb_ℤ subtotal low ])
    && not (elim r.max_order_total [ none ↦ false | some high ↦ ltb_ℤ high subtotal ])

pub record Match : Type 0 where
  pub method : ShippingMethod
  pub rate : ShippingRate

-- `quote` against `best`: the lower cost, then the smaller (order, id) of the method.
unfoldable pub better : Match → Option Match → Match
better quote none = quote
better quote (some best) =
    if ltb_ℤ quote.rate.price best.rate.price
    then quote
    else if eqb_ℤ quote.rate.price best.rate.price
        && lex quote.method.order best.method.order (ltb quote.method.id best.method.id)
    then quote
    else best

-- One method of the loop: its first rate that fits, if the method serves the zone.
unfoldable pub match_method : ℕ → ℤ → List ShippingRate → ShippingMethod → Option Match
unfolding serves_zone fits
match_method zone_id subtotal rates m =
    if serves_zone zone_id m
    then elim (find? (fits subtotal) (filter (λ r. r.method_id == m.id) rates)) [
      | none ↦ none
      | some r ↦ some (record { method = m; rate = r })
    ]
    else none

unfoldable pub consider : Option Match → Option Match → Option Match
unfolding better
consider none best = best
consider (some quote) best = some (better quote best)

unfoldable pub best_match :
    ℕ → ℤ → List ShippingRate → List ShippingMethod → Option Match → Option Match
unfolding consider match_method
best_match zone_id subtotal rates [] best = best
best_match zone_id subtotal rates (m ∷ ms) best =
    best_match zone_id subtotal rates ms (consider (match_method zone_id subtotal rates m) best)

-- The last line of `quote_shipping`: without a match shipping is free.
unfoldable pub quote_of : ℕ → Option Match → ShippingQuote
quote_of zone_id none = record {
  shipping_cost = pos 0;
  method = none;
  rate = none;
  zone = some zone_id;
}
quote_of zone_id (some best) = record {
  shipping_cost = best.rate.price;
  method = some best.method;
  rate = some best.rate;
  zone = some best.rate.zone_id;
}

-- The quote in a zone that has been found.
unfoldable pub quote_in_zone : ℕ → ℤ → Option ℕ → ℕ → Shipping → ShippingQuote
unfolding methods_for rates_for best_match quote_of
quote_in_zone store_id order_subtotal method_pk zone_id db =
    let methods = methods_for store_id method_pk db in
    quote_of zone_id
      (best_match zone_id order_subtotal (rates_for store_id zone_id methods db) methods none)

-- `quote_shipping`; `resolved_zone` is a zone that the caller has looked up.
unfoldable pub quote_shipping :
    ℕ
    → ℤ
    → Option ℕ
    → Option ℕ
    → Option ShippingZone
    → Shipping
    → Result ShippingError ShippingQuote
unfolding quote_in_zone find_zone
quote_shipping store_id order_subtotal none method_pk resolved_zone db = err zone_required
quote_shipping store_id order_subtotal (some zone_pk) method_pk (some zone) db =
    ok (quote_in_zone store_id order_subtotal method_pk zone.id db)
quote_shipping store_id order_subtotal (some zone_pk) method_pk none db = do
  zone ← or_raise (find_zone store_id zone_pk db) invalid_zone
  ok (quote_in_zone store_id order_subtotal method_pk zone.id db)
