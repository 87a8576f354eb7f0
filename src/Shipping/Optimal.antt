-- ===== src/Shipping/Optimal.antt =====
-- The loop of `quote_shipping` (engine/apps/shipping/service.py) over methods and their rates.
use mathlib.Core.Path.{subst}
use mathlib.Core.Bool.{true≢false}
use api_paperbase.Base.{
  ℕ, ◌≡◌, sym, ◌∙◌, inl, inr, true, false, Option, none, some, List, [], ◌∷◌, All, arith, ◌==◌,
  Option-cases, ==→eq,
}
use api_paperbase.Base.Int.{ℤ, ◌≤ℤ◌}
use api_paperbase.Base.Queries.{filter, find?, All-find?}
use api_paperbase.Base.Order.{
  IsOrdered, All-map, All-filter, filter-test, filter-IsOrdered, find?-first, find?-none,
}
use api_paperbase.Shipping.{
  ShippingMethod, ShippingRate, Match, rate_le, serves_zone, fits, match_method, better, consider,
  best_match,
}

pub rate_le_total : (r t : ShippingRate) → rate_le r t ≡ false → rate_le t r ≡ true
unfolding rate_le
rate_le_total r t h = ground arith

pub rate_le_trans :
    (r t u : ShippingRate) → rate_le r t ≡ true → rate_le t u ≡ true → rate_le r u ≡ true
unfolding rate_le
rate_le_trans r t u h k = ground arith

rate_le_refl : (r : ShippingRate) → rate_le r r ≡ true
unfolding rate_le
rate_le_refl r = ground arith

-- Of two rates of one method, the one that comes first is not dearer.
rate_le-price :
    (r t : ShippingRate) → r.method_id ≡ t.method_id → rate_le r t ≡ true → r.price ≤ℤ t.price
unfolding rate_le
rate_le-price r t e h = ground arith

-- `best` costs no more than `price`.
abbrev pub IsAtMost : Option Match → ℤ → Type 0
IsAtMost none price = ⊥
IsAtMost (some best) price = best.rate.price ≤ℤ price

consider-new :
    (quote : Match) (best : Option Match) → IsAtMost (consider (some quote) best) quote.rate.price
unfolding consider better
consider-new quote none = omega arith
consider-new quote (some best) = ground arith

consider-old :
    (quote best : Option Match) (price : ℤ)
    → IsAtMost best price
    → IsAtMost (consider quote best) price
unfolding consider better
consider-old none best price h = h
consider-old (some quote) none price h = elim h [ ]
consider-old (some quote) (some best) price h = ground arith

module _ (zone_id : ℕ) (subtotal : ℤ) (rates : List ShippingRate) where
  best_match-old :
      (ms : List ShippingMethod) (best : Option Match) (price : ℤ)
      → IsAtMost best price
      → IsAtMost (best_match zone_id subtotal rates ms best) price
  unfolding best_match
  best_match-old [] best price h = h
  best_match-old (m ∷ ms) best price h =
      best_match-old ms _ price (consider-old (match_method zone_id subtotal rates m) best price h)

  pub best_match-new :
      (ms : List ShippingMethod) (best : Option Match)
      → All
          (λ m.
            (quote : Match)
            → match_method zone_id subtotal rates m ≡ some quote
            → IsAtMost (best_match zone_id subtotal rates ms best) quote.rate.price)
          ms
  unfolding best_match
  best_match-new [] best = tt
  best_match-new (m ∷ ms) best = (
    λ quote e. best_match-old ms _ quote.rate.price (
        subst (λ o. IsAtMost (consider o best) quote.rate.price) (sym e) (consider-new quote best)),
    best_match-new ms (consider (match_method zone_id subtotal rates m) best),
  )

  abbrev pub MatchesAtMost : ShippingMethod → ℤ → Type 0
  MatchesAtMost m price =
      (quote : Match) × (match_method zone_id subtotal rates m ≡ some quote)
      × (quote.rate.price ≤ℤ price)

  -- The match of a method is its cheapest rate that fits.
  pub match_method-cheapest :
      (m : ShippingMethod)
      → IsOrdered rate_le rates
      → serves_zone zone_id m ≡ true
      → All
          (λ (r : ShippingRate).
            (r.method_id == m.id) ≡ true → fits subtotal r ≡ true → MatchesAtMost m r.price)
          rates
  unfolding match_method
  match_method-cheapest m ordered serves =
      let own = λ (r : ShippingRate). r.method_id == m.id in
      let mine = filter own rates in
      elim (Option-cases (find? (fits subtotal) mine)) [
        | inl e ↦
            All-map _ _ rates (λ r no own_r fit. absurd (true≢false (sym fit ∙ no own_r)))
              (All-filter _ own rates (find?-none (fits subtotal) mine e))
        | inr (best, e) ↦
            let first =
              find?-first rate_le (fits subtotal) best mine rate_le_refl
                (filter-IsOrdered rate_le own rates ordered) e in
            let mine_best : own best ≡ true =
              All-find? _ (fits subtotal) best mine (filter-test own rates) e in
            All-map _ _ rates
              (λ r le own_r fit. (
                record { method = m; rate = best },
                rw (serves, e),
                rate_le-price best r (==→eq _ _ mine_best ∙ sym (==→eq _ _ own_r)) (le own_r fit),
              ))
              (All-filter _ own rates first)
      ]
