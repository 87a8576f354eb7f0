-- ===== src/Shipping/Tests.antt =====
-- The theorem on shipping quotes, applied to a small store.
use api_paperbase.Base.{true, none, some, [], ◌∷◌, All, ◌≡◌}
use api_paperbase.Base.Int.{pos}
use api_paperbase.Shipping.{Shipping, ShippingMethod, ShippingRate, quote_in_zone}
use api_paperbase.Shipping.Cheapest.{is_candidate, CostsAtMost, IsCandidateOrFree, quote-cheapest}

abbrev post : ShippingMethod
post = record { id = 1; store_id = 7; zones = 2 ∷ []; is_active = true; order = 0 }

abbrev courier : ShippingMethod
courier = record { id = 3; store_id = 7; zones = []; is_active = true; order = 1 }

abbrev post_rate : ShippingRate
post_rate = record {
  id = 5;
  store_id = 7;
  method_id = 1;
  zone_id = 2;
  min_order_total = none;
  max_order_total = some (pos 5000);
  price = pos 600;
  is_active = true;
}

abbrev courier_rate : ShippingRate
courier_rate = record post_rate {
  id = 6;
  method_id = 3;
  min_order_total = some (pos 1000);
  max_order_total = none;
  price = pos 450;
}

abbrev depot : Shipping
depot = record {
  zones = record { id = 2; store_id = 7; public_id = 12; is_active = true } ∷ [];
  methods = post ∷ courier ∷ [];
  rates = post_rate ∷ courier_rate ∷ [];
}

quote-cheapest_example :
    All
      (λ m.
        All
          (λ r.
            is_candidate 7 none 2 (pos 2000) m r ≡ true
            → CostsAtMost (quote_in_zone 7 (pos 2000) none 2 depot) r.price)
          depot.rates)
      depot.methods
    × IsCandidateOrFree 7 none 2 (pos 2000) (quote_in_zone 7 (pos 2000) none 2 depot)
quote-cheapest_example = quote-cheapest 7 (pos 2000) none 2 depot
