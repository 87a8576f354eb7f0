-- ===== src/Inventory/Cache.antt =====
-- The cached `Product.stock` (`refresh_product_stock_cache` of engine/apps/inventory/cache_sync.py).
use mathlib.Core.Path.{subst, subst₃, fun_ext}
use api_paperbase.Base.{
  ℕ, ◌≡◌, refl, sym, ap, ◌∙◌, Bool, true, false, Option, some, List, [], ◌∷◌, arith, ◌==◌, ◌&&◌,
  Bool-cases, inl, inr, Option-cases, ◌≢◌, All, any, sum_by, ==_refl,
}
use api_paperbase.Base.Int.{ℤ, pos}
use api_paperbase.Base.Results.{ok}
use api_paperbase.Base.Text.{Text}
use api_paperbase.Base.Queries.{
  filter, find?, update_where, any-update_where, find?-update_where, find?-test, by_key,
}
use api_paperbase.Catalog.{Product}
use api_paperbase.Inventory.{
  Stock, Inventory, Reason, Source, clamp_stock, set_stock, expected_stock, row_contribution,
  in_store, is_product, is_inventory, refresh_product_stock_cache, write_quantity,
  adjust_inventory_stock,
}
use api_paperbase.Inventory.Adjust.{next_quantity, refresh-frame, adjust-Success}
use api_paperbase.Inventory.Audit.{lock-row}
use api_paperbase.Inventory.Total.{IsTotal, expected_stock-IsTotal, All-held}

-- The cached stock of the product is what a refresh writes.
IsCached : ℕ → ℕ → Stock → Type 0
IsCached store_id product_id s =
    All
      (λ (p : Product).
        is_product store_id (some product_id) p ≡ true
        → p.stock ≡ expected_stock s store_id product_id)
      s.products

-- A total does not depend on the cached stocks.
pub expected_stock-products :
    (store_id product_id : ℕ) (s : Stock) (test : Product → Bool) (n : ℕ)
    → expected_stock
        (record s { products = update_where test (set_stock n) s.products })
        store_id
        product_id
      ≡ expected_stock s store_id product_id
unfolding expected_stock in_store row_contribution set_stock
expected_stock-products store_id product_id s test n =
    let same : (λ (inv : Inventory).
      any (update_where test (set_stock n) s.products)
        (λ p. p.id == inv.product_id && p.store_id == store_id))
        ≡ (λ inv. any s.products (λ p. p.id == inv.product_id && p.store_id == store_id)) =
      fun_ext (λ inv.
        any-update_where test (set_stock n) (λ p. p.id == inv.product_id && p.store_id == store_id)
          s.products (λ x. refl)) in
    λ i. clamp_stock (
      pos (
        sum_by (row_contribution s)
          (filter (λ inv. inv.product_id == product_id && same i inv) s.inventories)))

update_where-written :
    (store_id product_id n : ℕ) (ps : List Product)
    → All
        (λ (p : Product). is_product store_id (some product_id) p ≡ true → p.stock ≡ n)
        (update_where (is_product store_id (some product_id)) (set_stock n) ps)
unfolding set_stock is_product
update_where-written store_id product_id n [] = tt
update_where-written store_id product_id n (p ∷ ps) =
    elim (Bool-cases (is_product store_id (some product_id) p)) [
      | inl e ↦ rw e (λ _. refl, update_where-written store_id product_id n ps)
      | inr e ↦ rw e (λ h. cc (e, h), update_where-written store_id product_id n ps)
    ]

none-written :
    (test : Product → Bool) (n : ℕ) (ps : List Product)
    → any ps test ≡ false
    → All (λ (p : Product). test p ≡ true → p.stock ≡ n) ps
none-written test n [] h = tt
none-written test n (p ∷ ps) h = (λ e. cc (h, e), none-written test n ps (ground arith))

refresh-IsCached :
    (store_id product_id : ℕ) (s : Stock)
    → IsCached store_id product_id (refresh_product_stock_cache store_id product_id s)
unfolding IsCached refresh_product_stock_cache
refresh-IsCached store_id product_id s =
    elim (Bool-cases (any s.products (is_product store_id (some product_id)))) [
      | inl e ↦
          rw (e, expected_stock-products) (update_where-written store_id product_id _ s.products)
      | inr e ↦ rw e (none-written _ _ s.products e)
    ]

IsCached-tables :
    (store_id product_id : ℕ) (s t : Stock)
    → s.products ≡ t.products
    → s.variants ≡ t.variants
    → s.inventories ≡ t.inventories
    → IsCached store_id product_id s
    → IsCached store_id product_id t
unfolding IsCached expected_stock in_store row_contribution
IsCached-tables store_id product_id s t hp hv hi =
    subst₃
      (λ ps vs is.
        IsCached store_id product_id (record s { products = ps; variants = vs; inventories = is }))
      hp hv hi

pub product_at : ℕ → List Product → Option Product
product_at j ps = find? (by_key (λ (p : Product). p.id) j) ps

-- A refresh writes no product with another id.
refresh-others :
    (store_id product_id j : ℕ) (s : Stock)
    → j ≢ product_id
    → product_at j (refresh_product_stock_cache store_id product_id s).products
      ≡ product_at j s.products
unfolding product_at refresh_product_stock_cache set_stock is_product
refresh-others store_id product_id j s ne =
    let n = expected_stock s store_id product_id in
    let moved =
      find?-update_where (is_product store_id (some product_id)) (set_stock n)
        (by_key (λ (p : Product). p.id) j) s.products (λ x. refl) in
    elim (Bool-cases (any s.products (is_product store_id (some product_id)))) [
      | inr e ↦ rw e
      | inl e ↦
          rw (e, moved)
            (elim (Option-cases (find? (by_key (λ (p : Product). p.id) j) s.products)) [
              | inl h ↦ rw h
              | inr (x, h) ↦
                  ground (arith, h, find?-test (by_key (λ (p : Product). p.id) j) x s.products h)
            ])
    ]

inventory-product :
    (product_id : ℕ) (variant_id : Option ℕ) (inv : Inventory)
    → is_inventory (some product_id) variant_id inv ≡ true
    → inv.product_id ≡ product_id
unfolding is_inventory
inventory-product product_id variant_id inv h = ground arith

-- The cached stock of the product, in its store, is the stock that its rows make.
abbrev pub IsFresh : ℕ → ℕ → Stock → Type 0
IsFresh store_id product_id s =
    All (λ (p : Product). p.id ≡ product_id → p.store_id ≡ store_id → IsTotal s product_id p.stock)
      s.products

IsCached-IsFresh :
    (store_id product_id : ℕ) (s : Stock)
    → IsCached store_id product_id s
    → IsFresh store_id product_id s
unfolding IsCached is_product
IsCached-IsFresh store_id product_id s = All-held _ _ s.products (λ p held cached same own.
    let hit : (product_id == p.id && p.store_id == store_id) ≡ true =
      rw (same, own, ==_refl product_id, ==_refl store_id) refl in
    let written : expected_stock s store_id p.id ≡ p.stock =
      ap (expected_stock s store_id) same ∙ sym (cached hit) in
    subst (λ k. IsTotal s k p.stock) same
      (subst (IsTotal s p.id) written (expected_stock-IsTotal s store_id p held own)))

module _ (store_id product_id : ℕ) (variant_id : Option ℕ) (delta_qty : Option ℤ) (reason : Reason)
    (source : Source) (reference_id reference : Text) (actor : Option ℕ) (s : Stock) (r : Inventory)
    (s' : Stock) where
  -- After a successful adjustment the cached stock of the product, in its store, is the sum of its
  -- rows as they now stand that have no variant or an active one, each and the sum at most 100000,
  -- and every product with another id is as it was.
  pub adjust-IsFresh :
      adjust_inventory_stock store_id
          (some product_id)
          variant_id
          delta_qty
          reason
          source
          reference_id
          reference
          actor
          s
        ≡ ok (r, s')
      → IsFresh store_id product_id s'
        × ((j : ℕ) → j ≢ product_id → product_at j s'.products ≡ product_at j s.products)
  unfolding write_quantity
  adjust-IsFresh h =
      let done =
        adjust-Success store_id (some product_id) variant_id reason source reference_id reference
          actor s r s' delta_qty h in
      let written = write_quantity done.inv.id (next_quantity done.inv done.delta) s in
      let row = lock-row (some product_id) variant_id done.inv s done.locked in
      let e : done.inv.product_id ≡ product_id =
        inventory-product product_id variant_id done.inv
          (find?-test (is_inventory (some product_id) variant_id) done.inv s.inventories row) in
      let cached : s'.products
          ≡ (refresh_product_stock_cache store_id product_id written).products =
        subst (λ k. s'.products ≡ (refresh_product_stock_cache store_id k written).products) e
          done.adjusted.cached in
      let frame = refresh-frame store_id product_id written in
      (
        IsCached-IsFresh store_id product_id s' (
            IsCached-tables store_id product_id
              (refresh_product_stock_cache store_id product_id written) s' (sym cached)
              (frame.2 ∙ sym done.adjusted.variants) (frame.0 ∙ sym done.adjusted.rows)
              (refresh-IsCached store_id product_id written)),
        λ j ne. ap (product_at j) cached ∙ refresh-others store_id product_id j written ne,
      )
