-- ===== src/Shipping/Cheapest.antt =====
-- The quote of `quote_shipping` (engine/apps/shipping/service.py), against the tables.
use mathlib.Core.Path.{subst}
use mathlib.Core.Bool.{true≢false}
use api_paperbase.Base.{
  ℕ, ◌≡◌, refl, sym, ◌∙◌, ◌⊎◌, inl, inr, Bool, true, ◌&&◌, Option, none, some, List, [], ◌∷◌, All,
  any, arith, ◌==◌, Bool-cases, Option-cases, if_both, ==→eq,
}
use api_paperbase.Base.Int.{ℤ, pos, ◌≤ℤ◌}
use api_paperbase.Base.Queries.{filter, find?, All-find?, find?-test}
use api_paperbase.Base.Order.{
  order_by-IsOrdered, order_by-All, All-order_by, All-map, All-filter, All-of, All-both, filter-All,
  filter-test, any_self,
}
use api_paperbase.Shipping.{
  Shipping, ShippingMethod, ShippingRate, ShippingQuote, Match, method_le, rate_le, methods_for,
  rates_for, is_chosen, is_offered, serves_zone, fits, match_method, better, consider, best_match,
  quote_of, quote_in_zone,
}
use api_paperbase.Shipping.Optimal.{
  rate_le_total, rate_le_trans, IsAtMost, best_match-new, match_method-cheapest,
}

-- A rate of the store that applies to the order: it is active, of the zone and of the method, its
-- bounds admit the subtotal, and the method is active, the one asked for, and serves the zone.
pub is_candidate : ℕ → Option ℕ → ℕ → ℤ → ShippingMethod → ShippingRate → Bool
is_candidate store_id method_pk zone_id subtotal m r =
    is_offered store_id method_pk m
    && (serves_zone zone_id m
        && ((r.store_id == store_id && (r.is_active && r.zone_id == zone_id))
            && (r.method_id == m.id && fits subtotal r)))

-- The quote names a rate, and costs at most `price`.
pub CostsAtMost : ShippingQuote → ℤ → Type 0
CostsAtMost q price =
    (r : ShippingRate) × (q.rate ≡ some r)
    × (q.shipping_cost ≡ r.price)
    × (q.shipping_cost ≤ℤ price)

module _ (store_id : ℕ) (subtotal : ℤ) (method_pk : Option ℕ) (zone_id : ℕ) (db : Shipping) where
  abbrev methods : List ShippingMethod
  methods = methods_for store_id method_pk db

  abbrev rates : List ShippingRate
  rates = rates_for store_id zone_id methods db

  abbrev result : Option Match
  result = best_match zone_id subtotal rates methods none

  quote_of-AtMost :
      (best : Option Match) (price : ℤ)
      → IsAtMost best price
      → CostsAtMost (quote_of zone_id best) price
  unfolding quote_of CostsAtMost
  quote_of-AtMost none price h = absurd h
  quote_of-AtMost (some best) price h = (best.rate, refl, refl, h)

  rates-All :
      (P : ShippingRate → Type 0)
      → All P rates
      → All
          (λ r.
            (r.store_id == store_id
                && (r.is_active
                    && (r.zone_id == zone_id && any methods (λ m. m.id == r.method_id))))
              ≡ true
            → P r)
          db.rates
  unfolding rates_for
  rates-All P h = All-filter P _ db.rates (All-order_by rate_le P _ h)

  methods-All :
      (P : ShippingMethod → Type 0)
      → All P methods
      → All (λ m. is_offered store_id method_pk m ≡ true → P m) db.methods
  unfolding methods_for is_offered
  methods-All P h =
      All-map _ _ db.methods (λ m f offered. offered_parts m f offered)
        (All-filter _ _ db.methods (All-order_by method_le _ _ (All-filter P _ _ h)))
    where
      offered_parts :
          (m : ShippingMethod)
          → ((m.store_id == store_id && m.is_active) ≡ true → is_chosen method_pk m ≡ true → P m)
          → is_offered store_id method_pk m ≡ true
          → P m
      offered_parts m f offered = f (ground arith) (ground arith)

  candidate_parts :
      (m : ShippingMethod) (r : ShippingRate)
      → is_candidate store_id method_pk zone_id subtotal m r ≡ true
      → (is_offered store_id method_pk m ≡ true)
        × (serves_zone zone_id m ≡ true)
        × ((r.store_id == store_id && (r.is_active && r.zone_id == zone_id)) ≡ true)
        × ((r.method_id == m.id) ≡ true)
        × (fits subtotal r ≡ true)
  unfolding is_candidate
  candidate_parts m r c = ground arith

  queried :
      (m : ShippingMethod) (r : ShippingRate)
      → any methods (λ m'. m'.id == m.id) ≡ true
      → (r.method_id == m.id) ≡ true
      → (r.store_id == store_id && (r.is_active && r.zone_id == zone_id)) ≡ true
      → (r.store_id == store_id
          && (r.is_active && (r.zone_id == zone_id && any methods (λ m'. m'.id == r.method_id))))
        ≡ true
  queried m r listed own live =
      let listed' : any methods (λ m'. m'.id == r.method_id) ≡ true =
        subst (λ k. any methods (λ m'. m'.id == k) ≡ true) (sym (==→eq r.method_id m.id own))
          listed in
      rw listed' (ground arith)

  IsAtMost-trans : (best : Option Match) (p p' : ℤ) → IsAtMost best p → p ≤ℤ p' → IsAtMost best p'
  IsAtMost-trans none p p' h k = h
  IsAtMost-trans (some best) p p' h k = omega arith

  -- A rate of a method that is on the list costs at least the quote.
  one_method :
      (m : ShippingMethod)
      → ((quote : Match)
          → match_method zone_id subtotal rates m ≡ some quote
          → IsAtMost result quote.rate.price)
      → any methods (λ m'. m'.id == m.id) ≡ true
      → All
          (λ r.
            is_candidate store_id method_pk zone_id subtotal m r ≡ true
            → CostsAtMost (quote_of zone_id result) r.price)
          db.rates
  one_method m new listed = elim (Bool-cases (serves_zone zone_id m)) [
    | inl serves ↦
        All-map _ _ db.rates
          (λ r f c.
            let parts = candidate_parts m r c in
            let (quote, e, le) = f (queried m r listed parts.3 parts.2) parts.3 parts.4 in
            quote_of-AtMost result r.price (IsAtMost-trans result _ _ (new quote e) le))
          (rates-All _ (
            match_method-cheapest zone_id subtotal rates m
              (unfold rates_for in order_by-IsOrdered rate_le rate_le_total rate_le_trans _)
              serves))
    | inr e ↦ All-of _ db.rates (λ r c. absurd (true≢false (sym ((candidate_parts m r c).1) ∙ e)))
  ]

  -- A match in the loop is a candidate.
  abbrev IsGood : Option Match → Type 0
  IsGood none = Unit
  IsGood (some best) = is_candidate store_id method_pk zone_id subtotal best.method best.rate ≡ true

  abbrev IsLive : ShippingRate → Type 0
  IsLive r = (r.store_id == store_id && (r.is_active && r.zone_id == zone_id)) ≡ true

  consider-IsGood :
      (quote best : Option Match) → IsGood quote → IsGood best → IsGood (consider quote best)
  unfolding consider better
  consider-IsGood none best h k = k
  consider-IsGood (some quote) none h k = h
  consider-IsGood (some quote) (some best) h k =
      if_both (λ b. IsGood (some b)) _ quote _ h (if_both (λ b. IsGood (some b)) _ quote best h k)

  match_method-IsGood :
      (m : ShippingMethod) (rs : List ShippingRate)
      → is_offered store_id method_pk m ≡ true
      → All IsLive rs
      → IsGood (match_method zone_id subtotal rs m)
  unfolding match_method is_candidate
  match_method-IsGood m rs offered live =
      let own = λ (r : ShippingRate). r.method_id == m.id in
      elim (Bool-cases (serves_zone zone_id m)) [
        | inr e ↦ rw e tt
        | inl serves ↦ elim (Option-cases (find? (fits subtotal) (filter own rs))) [
          | inl e ↦ rw (serves, e) tt
          | inr (r, e) ↦
              let alive : IsLive r =
                All-find? IsLive (fits subtotal) r (filter own rs) (filter-All IsLive own rs live)
                  e in
              let mine : own r ≡ true =
                All-find? _ (fits subtotal) r (filter own rs) (filter-test own rs) e in
              rw (serves, e)
                (rw (offered, serves, alive, mine, find?-test (fits subtotal) r (filter own rs) e)
                  refl)
        ]
      ]

  best_match-IsGood :
      (rs : List ShippingRate) (ms : List ShippingMethod) (best : Option Match)
      → All IsLive rs
      → All (λ m. is_offered store_id method_pk m ≡ true) ms
      → IsGood best
      → IsGood (best_match zone_id subtotal rs ms best)
  unfolding best_match
  best_match-IsGood rs [] best live offered h = h
  best_match-IsGood rs (m ∷ ms) best live offered h = best_match-IsGood rs ms _ live offered.1 (
      consider-IsGood (match_method zone_id subtotal rs m) best
        (match_method-IsGood m rs offered.0 live) h)

  methods-offered : All (λ m. is_offered store_id method_pk m ≡ true) methods
  unfolding methods_for is_offered
  methods-offered =
      let own = is_chosen method_pk in
      let live = λ (m : ShippingMethod). m.store_id == store_id && m.is_active in
      let active = order_by-All method_le _ _ (filter-test live db.methods) in
      All-map _ _ methods (λ m h. both_offered (m.store_id == store_id) m.is_active (own m) h.0 h.1)
        (All-both _ _ methods (filter-All _ own _ active) (filter-test own _))
    where
      both_offered : (a b c : Bool) → (a && b) ≡ true → c ≡ true → (a && (b && c)) ≡ true
      both_offered a b c h k = ground arith

  rates-IsLive : All IsLive rates
  unfolding rates_for
  rates-IsLive =
      All-map _ _ rates (λ r h. ground (arith, h))
        (order_by-All rate_le _ _ (filter-test _ db.rates))

-- The quote names a candidate at its price, or no rate at all and is free.
pub IsCandidateOrFree : ℕ → Option ℕ → ℕ → ℤ → ShippingQuote → Type 0
IsCandidateOrFree store_id method_pk zone_id subtotal q =
    ((q.rate ≡ none) × (q.shipping_cost ≡ pos 0))
    ⊎ ((m : ShippingMethod) × (r : ShippingRate) × (q.method ≡ some m)
        × (q.rate ≡ some r)
        × (q.shipping_cost ≡ r.price)
        × (is_candidate store_id method_pk zone_id subtotal m r ≡ true))

module _ (store_id : ℕ) (subtotal : ℤ) (method_pk : Option ℕ) (zone_id : ℕ) (db : Shipping) where
  good_quote :
      (best : Option Match)
      → IsGood store_id subtotal method_pk zone_id db best
      → IsCandidateOrFree store_id method_pk zone_id subtotal (quote_of zone_id best)
  unfolding IsCandidateOrFree quote_of
  good_quote none h = inl (refl, refl)
  good_quote (some best) h = inr (best.method, best.rate, refl, refl, refl, h)

  -- In a zone, the quote of a subtotal is the price of a rate of the store that applies to the order,
  -- and no dearer than any rate that applies; if none applies it names no rate and is free.
  pub quote-cheapest :
      let q = quote_in_zone store_id subtotal method_pk zone_id db in
      All
        (λ m.
          All
            (λ r.
              is_candidate store_id method_pk zone_id subtotal m r ≡ true → CostsAtMost q r.price)
            db.rates)
        db.methods
      × IsCandidateOrFree store_id method_pk zone_id subtotal q
  unfolding quote_in_zone
  quote-cheapest =
      let ms = methods_for store_id method_pk db in
      let rs = rates_for store_id zone_id ms db in
      let cheap = λ (m : ShippingMethod).
        All
          (λ r.
            is_candidate store_id method_pk zone_id subtotal m r ≡ true
            → CostsAtMost (quote_in_zone store_id subtotal method_pk zone_id db) r.price)
          db.rates in
      let listed : All cheap ms =
        All-map _ cheap ms (λ m h. one_method store_id subtotal method_pk zone_id db m h.0 h.1)
          (All-both _ _ ms (best_match-new zone_id subtotal rs ms none)
            (any_self (λ m. m.id) ms)) in
      (
        All-map _ cheap db.methods
            (λ m f. elim (Bool-cases (is_offered store_id method_pk m)) [
              | inl e ↦ f e
              | inr e ↦ All-of _ db.rates (λ r c. absurd (
                  true≢false
                    (sym ((candidate_parts store_id subtotal method_pk zone_id db m r c).0) ∙ e)))
            ])
            (methods-All store_id subtotal method_pk zone_id db cheap listed),
        good_quote _ (
            best_match-IsGood store_id subtotal method_pk zone_id db rs ms none
              (rates-IsLive store_id subtotal method_pk zone_id db)
              (methods-offered store_id subtotal method_pk zone_id db) tt),
      )
