-- ===== src/Inventory.antt =====
-- Stock rows, their movements and the stock cache of a product (engine/apps/inventory/models.py,
-- utils.py, services.py, cache_sync.py). The tables are lists of rows in the order of their keys.
pub mod Adjust
pub mod Stocked
pub mod Audit
pub mod Bounds
pub mod Cache
pub mod Total
pub mod Adjustable
pub mod Restore
pub mod Sync
mod Tests
use api_paperbase.Base.{
  ℕ, Bool, ◌&&◌, ◌||◌, Option, none, some, List, [], ◌∷◌, ◌++◌, min, any, sum_by, leb, ltb, ◌==◌,
  if◌then◌else◌, opt_eq,
}
use api_paperbase.Base.Int.{ℤ, pos, negsuc, ◌-ℤ◌, eqb_ℤ}
use api_paperbase.Base.Text.{Text, take}
use api_paperbase.Base.Queries.{filter, find?, update_where}
use api_paperbase.Base.Tx.{Tx, pure, gets, modify, or_raise, raise_if, when, ◌>>=◌, ◌>>◌}
use api_paperbase.Catalog.{Product, ProductVariant}

abbrev pub max_stock_quantity : ℕ
max_stock_quantity = 100000

-- `clamp_stock`; a negative number is below `MIN_STOCK_QUANTITY`, which is 0.
unfoldable pub clamp_stock : ℤ → ℕ
clamp_stock (negsuc n) = 0
clamp_stock (pos n) = if ltb max_stock_quantity n then max_stock_quantity else n

pub record Inventory : Type 0 where
  pub id : ℕ
  pub product_id : ℕ
  pub variant_id : Option ℕ
  pub quantity : ℕ
  pub low_stock_threshold : ℕ
  pub is_tracked : Bool

unfoldable pub is_low_stock : Inventory → Bool
is_low_stock inv = inv.is_tracked && leb inv.quantity inv.low_stock_threshold

-- `StockMovement.Reason`
pub data Reason : Type 0 where
  adjustment sale return restock damaged other : Reason

-- `StockMovement.Source`; `dashboard` is its ADMIN.
pub data Source : Type 0 where
  order dashboard system : Source

pub record StockMovement : Type 0 where
  pub inventory_id : ℕ
  pub change : ℤ
  pub reason : Reason
  pub source : Source
  pub reference_id : Text
  pub reference : Text
  pub actor : Option ℕ

pub data Role : Type 0 where
  owner admin staff : Role

pub record StoreMembership : Type 0 where
  pub store_id : ℕ
  pub user_id : ℕ
  pub is_active : Bool
  pub role : Role

-- A `StaffNotification` of type LOW_STOCK, without its title.
pub record LowStockNotification : Type 0 where
  pub store_id : ℕ
  pub user_id : ℕ
  pub product_id : ℕ
  pub variant_id : Option ℕ
  pub quantity : ℕ
  pub threshold : ℕ

-- The tables, and the store of the current tenant context.
pub record Stock : Type 0 where
  pub products : List Product
  pub variants : List ProductVariant
  pub inventories : List Inventory
  pub movements : List StockMovement
  pub memberships : List StoreMembership
  pub notifications : List LowStockNotification
  pub context_store : Option ℕ

pub data ValidationError : Type 0 where
  store_required delta_required delta_zero invalid_product : ValidationError

-- `Product.objects.get(id=…, store_id=…)`; no row has a null id.
unfoldable pub is_product : ℕ → Option ℕ → Product → Bool
is_product store_id product_id p = opt_eq product_id (some p.id) && p.store_id == store_id

unfoldable pub is_inventory : Option ℕ → Option ℕ → Inventory → Bool
is_inventory product_id variant_id inv =
    opt_eq product_id (some inv.product_id) && opt_eq variant_id inv.variant_id

unfoldable pub is_variant_of : Option ℕ → Option ℕ → ProductVariant → Bool
is_variant_of product_id variant_id v =
    opt_eq variant_id (some v.id) && opt_eq product_id (some v.product_id)

-- The row that `_lock_inventory` returns; `none` is `Inventory.DoesNotExist`.
unfoldable pub lock_inventory : Option ℕ → Option ℕ → Stock → Option Inventory
unfolding is_inventory is_variant_of
lock_inventory product_id none s = find? (is_inventory product_id none) s.inventories
lock_inventory product_id (some v) s =
    elim (find? (is_inventory product_id (some v)) s.inventories) [
      | none ↦ none
      | some inv ↦ if any s.variants (is_variant_of product_id (some v)) then some inv else none
    ]

-- The joins `product__store_id` and `variant__is_active`.
unfoldable pub in_store : Stock → ℕ → Inventory → Bool
in_store s store_id inv = any s.products (λ p. p.id == inv.product_id && p.store_id == store_id)

unfoldable pub has_active_variant : Stock → Inventory → Bool
has_active_variant s inv = any s.variants (λ v. opt_eq inv.variant_id (some v.id) && v.is_active)

-- `_row_contribution_case`
unfoldable pub row_contribution : Stock → Inventory → ℕ
unfolding has_active_variant
row_contribution s inv =
    if opt_eq inv.variant_id none || has_active_variant s inv
    then min inv.quantity max_stock_quantity
    else 0

-- The rows that `refresh_product_stock_cache` aggregates, and the clamped sum of their parts.
unfoldable pub expected_stock : Stock → ℕ → ℕ → ℕ
expected_stock s store_id product_id = clamp_stock (
    pos (
      sum_by (row_contribution s)
        (filter (λ inv. inv.product_id == product_id && in_store s store_id inv) s.inventories)))

unfoldable pub set_stock : ℕ → Product → Product
set_stock n p = record p { stock = n }

-- `refresh_product_stock_cache`: without the product its update matches no row.
unfoldable pub refresh_product_stock_cache : ℕ → ℕ → Stock → Stock
unfolding set_stock is_product
refresh_product_stock_cache store_id product_id s = record s {
  products =
      if any s.products (is_product store_id (some product_id))
      then update_where (is_product store_id (some product_id))
          (set_stock (expected_stock s store_id product_id)) s.products
      else s.products;
}

-- The first user, by id, with an active membership of the store; each role is on the query's list.
unfoldable pub first_recipient : ℕ → List StoreMembership → Option ℕ
first_recipient store_id [] = none
first_recipient store_id (m ∷ ms) =
    let rest = first_recipient store_id ms in
    if m.store_id == store_id && m.is_active
    then elim rest [ none ↦ some m.user_id | some u ↦ some (min m.user_id u) ]
    else rest

-- The store of a product, for `inventory.product.store_id`.
unfoldable pub store_of : Stock → ℕ → Option ℕ
store_of s product_id = elim (find? (λ p. p.id == product_id) s.products) [
  | none ↦ none
  | some p ↦ some p.store_id
]

-- `_create_low_stock_notification`; what raises in it is swallowed, so nothing is created.
unfoldable pub create_low_stock_notification : Inventory → Stock → Stock
unfolding store_of
create_low_stock_notification inv s = elim s.context_store [
  | none ↦ s
  | some store ↦
      if opt_eq (store_of s inv.product_id) (some store)
      then elim (first_recipient store s.memberships) [
        | none ↦ s
        | some user ↦ record s {
          notifications =
              s.notifications
              ++ record {
                store_id = store;
                user_id = user;
                product_id = inv.product_id;
                variant_id = inv.variant_id;
                quantity = inv.quantity;
                threshold = inv.low_stock_threshold;
              }
                ∷ [];
        }
      ]
      else s
]

unfoldable pub set_quantity : ℕ → Inventory → Inventory
set_quantity n inv = record inv { quantity = n }

-- `Inventory.objects.filter(pk=…).update(quantity=…)`
unfoldable pub write_quantity : ℕ → ℕ → Stock → Stock
unfolding set_quantity
write_quantity id n s = record s {
  inventories = update_where (λ inv. inv.id == id) (set_quantity n) s.inventories;
}

unfoldable pub add_movement : StockMovement → Stock → Stock
add_movement m s = record s { movements = s.movements ++ m ∷ [] }

-- The test before `_create_low_stock_notification`.
unfoldable pub notify_if_low : Inventory → Stock → Stock
unfolding is_low_stock create_low_stock_notification
notify_if_low inv s =
    if is_low_stock inv && leb inv.quantity inv.low_stock_threshold
    then create_low_stock_notification inv s
    else s

unfoldable pub movement_of :
    Inventory → ℕ → Reason → Source → Text → Text → Option ℕ → StockMovement
movement_of inv next reason source reference_id reference actor = record {
  inventory_id = inv.id;
  change = pos next -ℤ pos inv.quantity;
  reason = reason;
  source = source;
  reference_id = take 100 reference_id;
  reference = take 255 reference;
  actor = actor;
}

-- The part of `adjust_inventory_stock` below its locks.
unfoldable pub apply_change :
    ℕ
    → Inventory
    → ℤ
    → Reason
    → Source
    → Text
    → Text
    → Option ℕ
    → Tx Stock ValidationError Inventory
unfolding set_quantity
apply_change store_id inv delta reason source reference_id reference actor = do
  let next = clamp_stock (pos inv.quantity -ℤ delta)
  modify (write_quantity inv.id next)
  modify (add_movement (movement_of inv next reason source reference_id reference actor))
  modify (notify_if_low (set_quantity next inv))
  modify (refresh_product_stock_cache store_id inv.product_id)
  pure (set_quantity next inv)

-- `adjust_inventory_stock`; its parameter `allow_negative` is never read.
unfoldable pub adjust_inventory_stock :
    ℕ
    → Option ℕ
    → Option ℕ
    → Option ℤ
    → Reason
    → Source
    → Text
    → Text
    → Option ℕ
    → Tx Stock ValidationError Inventory
unfolding apply_change lock_inventory is_product
adjust_inventory_stock store_id product_id variant_id delta_qty reason source reference_id reference
      actor =
    do
      delta ← or_raise delta_qty delta_required
      raise_if (eqb_ℤ delta (pos 0)) delta_zero
      product ← gets (λ s. find? (is_product store_id product_id) s.products)
      or_raise product invalid_product
      inv ← gets (lock_inventory product_id variant_id)
      inv' ← or_raise inv invalid_product
      apply_change store_id inv' delta reason source reference_id reference actor
