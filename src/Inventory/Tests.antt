-- ===== src/Inventory/Tests.antt =====
-- The theorems on stock, applied to a small store.
use api_paperbase.Base.{ℕ, ◌≡◌, ◌↔◌, refl, true, none, some, [], ◌∷◌, All, arith, ◌≢◌}
use api_paperbase.Base.Int.{ℤ, pos, neg, ◌-ℤ◌}
use api_paperbase.Base.Results.{IsOk, value}
use api_paperbase.Catalog.{Product, ProductVariant, active, free}
use api_paperbase.Inventory.{
  Stock, Inventory, owner, sale, Source, clamp_stock, lock_inventory, adjust_inventory_stock,
  refresh_product_stock_cache, notify_if_low, add_movement, write_quantity, first_recipient,
}
use api_paperbase.Inventory.Audit.{UniqueIds, quantity_at, change_sum, adjust-audit}
use api_paperbase.Inventory.Bounds.{IsBounded, adjust-IsBounded}
use api_paperbase.Inventory.Total.{IsTotal}
use api_paperbase.Inventory.Cache.{IsFresh, product_at, adjust-IsFresh}
use api_paperbase.Inventory.Adjustable.{IsAdjustable, adjust-iff-IsAdjustable}
use api_paperbase.Inventory.Restore.{restore-reserve}
use api_paperbase.Inventory.Sync.{sync_product_stock_cache, foreign, sync-fresh}

abbrev mug : Product
mug = record {
  id = 1;
  store_id = 7;
  public_id = 11;
  price = pos 1000;
  original_price = some (pos 1200);
  status = active;
  stock = 9;
  is_active = true;
  prepayment_type = free;
}

abbrev red_mug : ProductVariant
red_mug = record { id = 4; product_id = 1; public_id = 14; price_override = none; is_active = true }

abbrev mug_row : Inventory
mug_row = record {
  id = 3;
  product_id = 1;
  variant_id = none;
  quantity = 5;
  low_stock_threshold = 3;
  is_tracked = true;
}

abbrev red_row : Inventory
red_row = record mug_row { id = 5; variant_id = some 4; quantity = 4 }

abbrev shelf : Stock
shelf = record {
  products = mug ∷ [];
  variants = red_mug ∷ [];
  inventories = mug_row ∷ red_row ∷ [];
  movements = [];
  memberships = record { store_id = 7; user_id = 21; is_active = true; role = owner } ∷ [];
  notifications = [];
  context_store = some 7;
}

abbrev sold : ℤ → Stock → Inventory × Stock
sold delta s =
    value (adjust_inventory_stock 7 (some 1) none (some delta) sale Source.order [] [] none s)
      (mug_row, s)

adjust-audit_example :
    UniqueIds (sold (pos 3) shelf).1
    × ((i : ℕ)
        → pos (quantity_at i (sold (pos 3) shelf).1)
            -ℤ change_sum i (sold (pos 3) shelf).1.movements
          ≡ pos (quantity_at i shelf) -ℤ change_sum i shelf.movements)
unfolding adjust_inventory_stock UniqueIds
adjust-audit_example =
    adjust-audit 7 (some 1) none (some (pos 3)) sale Source.order [] [] none shelf
      (sold (pos 3) shelf).0 (sold (pos 3) shelf).1 (refl, (refl, tt)) refl

adjust-IsBounded_example : IsBounded (sold (pos 3) shelf).1
unfolding adjust_inventory_stock
adjust-IsBounded_example =
    adjust-IsBounded 7 (some 1) none (some (pos 3)) sale Source.order [] [] none shelf
      (sold (pos 3) shelf).0 (sold (pos 3) shelf).1
      (record { rows = (omega arith, (omega arith, tt)); cached = (omega arith, tt) }) refl

adjust-IsFresh_example :
    IsFresh 7 1 (sold (pos 3) shelf).1
    × ((j : ℕ) → j ≢ 1 → product_at j (sold (pos 3) shelf).1.products ≡ product_at j shelf.products)
unfolding adjust_inventory_stock
adjust-IsFresh_example =
    adjust-IsFresh 7 1 none (some (pos 3)) sale Source.order [] [] none shelf (sold (pos 3) shelf).0
      (sold (pos 3) shelf).1 refl

adjust-iff-IsAdjustable_example :
    IsOk
      (adjust_inventory_stock 7 (some 1) (some 4) (some (pos 3)) sale Source.order [] [] none shelf)
    ↔ IsAdjustable 7 (some 1) (some 4) (some (pos 3)) shelf
adjust-iff-IsAdjustable_example =
    adjust-iff-IsAdjustable 7 (some 1) (some 4) (some (pos 3)) sale Source.order [] [] none shelf

abbrev oversold : Inventory × Stock
oversold = sold (pos 8) shelf

abbrev given_back : Inventory × Stock
given_back = sold (neg (pos 8)) oversold.1

restore-reserve_example : given_back.0.quantity ≡ 8
unfolding adjust_inventory_stock lock_inventory neg refresh_product_stock_cache notify_if_low
    clamp_stock ◌-ℤ◌ add_movement write_quantity first_recipient
restore-reserve_example =
    restore-reserve 7 (some 1) none 8 sale sale Source.order Source.order [] [] [] [] none none
      mug_row oversold.0 given_back.0 shelf oversold.1 given_back.1 (omega arith) (omega arith) refl
      refl refl

sync-fresh_example :
    All
      (λ (p : Product). p.store_id ≡ 7 → IsTotal (sync_product_stock_cache 7 shelf) p.id p.stock)
      (sync_product_stock_cache 7 shelf).products
    × (foreign 7 (sync_product_stock_cache 7 shelf).products ≡ foreign 7 shelf.products)
sync-fresh_example = sync-fresh 7 shelf
