-- ===== src/Inventory/Bounds.antt =====
-- The range of quantities (`clamp_stock` of engine/apps/inventory/utils.py).
use api_paperbase.Base.{ℕ, ◌≤◌, ◌≡◌, sym, Option, arith, All, some, if_both, ◌==◌}
use mathlib.Core.Path.{subst}
use api_paperbase.Catalog.{Product}
use api_paperbase.Base.Int.{ℤ, pos, negsuc, ◌≤ℤ◌}
use api_paperbase.Base.Results.{ok}
use api_paperbase.Base.Text.{Text}
use api_paperbase.Base.Queries.{All-update_where}
use api_paperbase.Inventory.{
  Stock, Inventory, Reason, Source, max_stock_quantity, clamp_stock, set_quantity, set_stock,
  expected_stock, write_quantity, is_product, refresh_product_stock_cache, adjust_inventory_stock,
}
use api_paperbase.Inventory.Adjust.{next_quantity, adjust-Success}

pub clamp_stock-le : (n : ℤ) → clamp_stock n ≤ max_stock_quantity
unfolding clamp_stock
clamp_stock-le (pos n) = ground arith
clamp_stock-le (negsuc n) = omega arith

-- A number in range is kept, and one out of range goes to the nearer end.
pub clamp_stock-nearest :
    (n : ℤ)
    → (pos 0 ≤ℤ n → n ≤ℤ pos max_stock_quantity → pos (clamp_stock n) ≡ n)
      × (n ≤ℤ pos 0 → clamp_stock n ≡ 0)
      × (pos max_stock_quantity ≤ℤ n → clamp_stock n ≡ max_stock_quantity)
unfolding clamp_stock
clamp_stock-nearest (pos n) = (λ a b. ground arith, λ a. ground arith, λ a. ground arith)
clamp_stock-nearest (negsuc n) = (λ a b. ground arith, λ a. ground arith, λ a. ground arith)

pub record IsBounded (s : Stock) : Type 0 where
  pub rows : All (λ inv. inv.quantity ≤ max_stock_quantity) s.inventories
  pub cached : All (λ (p : Product). p.stock ≤ max_stock_quantity) s.products

write_quantity-bounded :
    (id n : ℕ) (s : Stock)
    → n ≤ max_stock_quantity
    → All (λ inv. inv.quantity ≤ max_stock_quantity) s.inventories
    → All (λ inv. inv.quantity ≤ max_stock_quantity) (write_quantity id n s).inventories
unfolding write_quantity set_quantity
write_quantity-bounded id n s h =
    All-update_where (λ inv. inv.id == id) (set_quantity n) _ s.inventories (λ x _. h)

refresh-bounded :
    (store_id product_id : ℕ) (s : Stock)
    → All (λ (p : Product). p.stock ≤ max_stock_quantity) s.products
    → All
        (λ (p : Product). p.stock ≤ max_stock_quantity)
        (refresh_product_stock_cache store_id product_id s).products
unfolding refresh_product_stock_cache expected_stock set_stock
refresh-bounded store_id product_id s h =
    if_both (All (λ (p : Product). p.stock ≤ max_stock_quantity)) _ _ _
      (All-update_where (is_product store_id (some product_id)) (set_stock _) _ s.products
        (λ x _. clamp_stock-le (pos _)) h)
      h

-- A successful adjustment keeps every quantity and every cached total in range.
pub adjust-IsBounded :
    (store_id : ℕ) (product_id variant_id : Option ℕ) (delta_qty : Option ℤ) (reason : Reason)
    (source : Source) (reference_id reference : Text) (actor : Option ℕ) (s : Stock) (r : Inventory)
    (s' : Stock)
    → IsBounded s
    → adjust_inventory_stock store_id product_id variant_id delta_qty reason source reference_id
        reference actor s
      ≡ ok (r, s')
    → IsBounded s'
adjust-IsBounded store_id product_id variant_id delta_qty reason source reference_id reference actor
      s r s' b h =
    let done =
      adjust-Success store_id product_id variant_id reason source reference_id reference actor s r
        s' delta_qty h in
    let n = next_quantity done.inv done.delta in
    let written = write_quantity done.inv.id n s in
    record {
      rows =
          subst (All (λ inv. inv.quantity ≤ max_stock_quantity)) (sym done.adjusted.rows)
            (write_quantity-bounded done.inv.id n s (clamp_stock-le _) b.rows);
      cached =
          subst (All (λ (p : Product). p.stock ≤ max_stock_quantity)) (sym done.adjusted.cached) (
            refresh-bounded store_id done.inv.product_id written
              (unfold write_quantity in b.cached));
    }
