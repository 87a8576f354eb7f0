-- ===== src/Inventory/Stocked.antt =====
-- When `adjust_inventory_stock` (engine/apps/inventory/services.py) is not refused.
use api_paperbase.Base.{ℕ, ◌≡◌, refl, ap, ◌∙◌, true, false, Option, none, some, any, if_both, ◌==◌}
use api_paperbase.Base.Int.{ℤ, pos, eqb_ℤ}
use api_paperbase.Base.Text.{Text}
use api_paperbase.Base.Results.{ok, IsOk, IsOk-value}
use api_paperbase.Base.Greatest.{found_of_any}
use api_paperbase.Base.Queries.{any-update_where}
use api_paperbase.Inventory.{
  Stock, Inventory, Reason, Source, is_product, is_inventory, is_variant_of, lock_inventory,
  set_quantity, set_stock, write_quantity, refresh_product_stock_cache, adjust_inventory_stock,
}
use api_paperbase.Inventory.Adjustable.{adjust-iff-Passes}
use api_paperbase.Inventory.Adjust.{Adjusted, adjust-Success}

abbrev pub HasVariant : ℕ → Option ℕ → Stock → Type 0
HasVariant product_id none s = Unit
HasVariant product_id (some v) s = any s.variants (is_variant_of (some product_id) (some v)) ≡ true

-- The store has the product, and there is a row for it and for the variant, which is one of its own.
pub record IsStocked (store_id product_id : ℕ) (variant_id : Option ℕ) (s : Stock) : Type 0 where
  pub owned : any s.products (is_product store_id (some product_id)) ≡ true
  pub held : any s.inventories (is_inventory (some product_id) variant_id) ≡ true
  pub matched : HasVariant product_id variant_id s

locked :
    (store_id product_id : ℕ) (variant_id : Option ℕ) (s : Stock)
    → IsStocked store_id product_id variant_id s
    → (inv : Inventory) × (lock_inventory (some product_id) variant_id s ≡ some inv)
unfolding lock_inventory
locked store_id product_id none s h =
    found_of_any (is_inventory (some product_id) none) s.inventories h.held
locked store_id product_id (some v) s h =
    let (inv, found) =
      found_of_any (is_inventory (some product_id) (some v)) s.inventories h.held in
    (inv, cc (found, h.matched))

-- The rows of the tables keep their keys.
pub Adjusted-IsStocked :
    (store_id product_id store_id' : ℕ) (variant_id : Option ℕ) (inv : Inventory) (delta : ℤ)
    (s s' : Stock)
    → Adjusted store_id' inv delta s s'
    → IsStocked store_id product_id variant_id s
    → IsStocked store_id product_id variant_id s'
unfolding write_quantity set_quantity is_inventory is_product refresh_product_stock_cache set_stock
Adjusted-IsStocked store_id product_id store_id' variant_id inv delta s s' done h = record {
  owned =
      ap (λ ps. any ps (is_product store_id (some product_id))) done.cached
      ∙ if_both (λ ps. any ps (is_product store_id (some product_id)) ≡ true) _ _ _
          (any-update_where (is_product store_id' (some inv.product_id)) (set_stock _)
              (is_product store_id (some product_id)) s.products (λ x. refl)
            ∙ h.owned)
          h.owned;
  held =
      ap (λ rows. any rows (is_inventory (some product_id) variant_id)) done.rows
      ∙ any-update_where (λ (x : Inventory). x.id == inv.id) (set_quantity _)
          (is_inventory (some product_id) variant_id) s.inventories (λ x. refl)
      ∙ h.held;
  matched = same_variants variant_id h.matched;
}
  where
    same_variants : (o : Option ℕ) → HasVariant product_id o s → HasVariant product_id o s'
    same_variants none k = tt
    same_variants (some v) k =
        ap (λ vs. any vs (is_variant_of (some product_id) (some v))) done.variants ∙ k

module _ (store_id product_id : ℕ) (variant_id : Option ℕ) (delta : ℤ) (reason : Reason)
    (source : Source) (reference_id reference : Text) (actor : Option ℕ) (s : Stock) where
  adjust-IsOk :
      IsStocked store_id product_id variant_id s
      → eqb_ℤ delta (pos 0) ≡ false
      → IsOk (
          adjust_inventory_stock store_id
            (some product_id)
            variant_id
            (some delta)
            reason
            source
            reference_id
            reference
            actor
            s)
  adjust-IsOk h nonzero =
      let (p, owned) = found_of_any (is_product store_id (some product_id)) s.products h.owned in
      let (inv, lock) = locked store_id product_id variant_id s h in
      (adjust-iff-Passes store_id (some product_id) variant_id (some delta) reason source
          reference_id reference actor s).1
        (record {
          delta = delta;
          product = p;
          inv = inv;
          given = refl;
          nonzero = nonzero;
          owned = owned;
          locked = lock;
        })

  -- An adjustment is refused only for a change of zero, a missing product or a missing row, and each
  -- row that could be adjusted still can.
  pub adjust-IsStocked :
      IsStocked store_id product_id variant_id s
      → eqb_ℤ delta (pos 0) ≡ false
      → (r : Inventory) × (s' : Stock) × (adjust_inventory_stock store_id
            (some product_id)
            variant_id
            (some delta)
            reason
            source
            reference_id
            reference
            actor
            s
          ≡ ok (r, s'))
        × ((p : ℕ) (o : Option ℕ) → IsStocked store_id p o s → IsStocked store_id p o s')
  adjust-IsStocked h nonzero =
      let ((r, s'), run) = IsOk-value _ (adjust-IsOk h nonzero) in
      let done =
        adjust-Success store_id (some product_id) variant_id reason source reference_id reference
          actor s r s' (some delta) run in
      (
        r,
        s',
        run,
        λ p o. Adjusted-IsStocked store_id p store_id o done.inv done.delta s s' done.adjusted,
      )
