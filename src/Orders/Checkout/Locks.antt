-- ===== src/Orders/Checkout/Locks.antt =====
-- The rows that a checkout locks, and its stock check (`OrderCreateView.create` of
-- engine/apps/orders/views.py, up to `stock_errors`).
use api_paperbase.Base.{
  ℕ, not, ◌&&◌, Option, none, some, List, [], ◌∷◌, any, filter_map, ltb, ◌==◌, opt_eq,
  if◌then◌else◌,
}
use api_paperbase.Base.Queries.{find?, filter}
use api_paperbase.Base.Results.{Result, err, raise_if}
use api_paperbase.Catalog.{Product, ProductVariant}
use api_paperbase.Inventory.{Stock, Inventory, in_store}
use api_paperbase.Orders.{
  StockError, product_not_found, variant_unavailable, insufficient_variant_stock,
  insufficient_stock, OrderError, no_valid_products, several_stores, store_mismatch,
}
use api_paperbase.Orders.Checkout.{RequestLine, OrderLine, is_sold}

-- The four dictionaries. Their keys are unique columns of the tables, so a lookup by key is `find?`.
pub record Locks : Type 0 where
  pub products : List Product
  pub variants : List ProductVariant
  pub product_inventory : List Inventory
  pub variant_inventory : List Inventory

unfoldable pub lock_rows : ℕ → List RequestLine → Stock → Locks
unfolding is_sold in_store
lock_rows store_id lines s =
    let products =
      filter (λ p. any lines (λ l. l.product_public_id == p.public_id) && is_sold store_id p)
        s.products in
    let variants =
      filter
        (λ v.
          any lines (λ l. opt_eq l.variant_public_id (some v.public_id))
          && any s.products (λ p. p.id == v.product_id && is_sold store_id p)
          && v.is_active)
        s.variants in
    record {
      products = products;
      variants = variants;
      product_inventory =
          filter
            (λ inv.
              any products (λ p. p.id == inv.product_id)
              && opt_eq inv.variant_id none
              && in_store s store_id inv)
            s.inventories;
      variant_inventory =
          filter
            (λ inv.
              any variants (λ v. opt_eq inv.variant_id (some v.id)) && in_store s store_id inv)
            s.inventories;
    }

-- The tests on the stores of the locked products.
unfoldable pub check_store : ℕ → List Product → Result OrderError (Unit {0})
check_store store_id [] = err no_valid_products
check_store store_id (p ∷ ps) =
    if any ps (λ q. not (q.store_id == p.store_id))
    then err several_stores
    else raise_if (not (p.store_id == store_id)) store_mismatch

unfoldable pub product_for : Locks → OrderLine → Option Product
product_for locks l = find? (λ p. p.public_id == l.product_public_id) locks.products

-- `locked_variants.get(vpid) if vpid else None`
unfoldable pub variant_for : Locks → OrderLine → Option ProductVariant
variant_for locks l = elim l.variant_public_id [
  | none ↦ none
  | some k ↦ find? (λ v. v.public_id == k) locks.variants
]

unfoldable pub variant_row : Locks → ProductVariant → Option Inventory
variant_row locks v = find? (λ inv. opt_eq inv.variant_id (some v.id)) locks.variant_inventory

unfoldable pub product_row : Locks → Product → Option Inventory
product_row locks p = find? (λ inv. inv.product_id == p.id) locks.product_inventory

-- `int(inv.quantity) if inv else 0`
unfoldable pub available : Option Inventory → ℕ
available none = 0
available (some inv) = inv.quantity

unfoldable pub check_variant : Locks → Product → Option ProductVariant → ℕ → Option StockError
unfolding available variant_row
check_variant locks p none quantity = some variant_unavailable
check_variant locks p (some v) quantity =
    let there = available (variant_row locks v) in
    if not (v.product_id == p.id)
    then some variant_unavailable
    else if ltb there quantity
    then some (insufficient_variant_stock there quantity)
    else none

unfoldable pub check_product : Locks → Product → ℕ → Option StockError
unfolding available product_row
check_product locks p quantity =
    let there = available (product_row locks p) in
    if ltb there quantity then some (insufficient_stock there quantity) else none

-- One turn of the loop of the stock check.
unfoldable pub line_error : Locks → OrderLine → Option StockError
unfolding product_for variant_for check_variant check_product
line_error locks l = elim (product_for locks l) [
  | none ↦ some product_not_found
  | some p ↦ elim l.variant_public_id [
    | none ↦ check_product locks p l.quantity
    | some k ↦ check_variant locks p (variant_for locks l) l.quantity
  ]
]

unfoldable pub stock_errors : Locks → List OrderLine → List StockError
unfolding line_error
stock_errors locks lines = filter_map (line_error locks) lines
