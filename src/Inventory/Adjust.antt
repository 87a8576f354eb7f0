-- ===== src/Inventory/Adjust.antt =====
-- The writes of `adjust_inventory_stock` (engine/apps/inventory/services.py), table by table.
use api_paperbase.Base.{
  ℕ, ◌≡◌, refl, ◌∙◌, false, Option, none, some, [], ◌∷◌, ◌++◌, arith, Bool-cases, Option-cases, inl,
  inr,
}
use api_paperbase.Base.Int.{ℤ, pos, ◌-ℤ◌, eqb_ℤ}
use mathlib.Core.Path.{subst}
use api_paperbase.Catalog.{Product}
use api_paperbase.Base.Results.{ok}
use api_paperbase.Base.Text.{Text}
use api_paperbase.Base.Queries.{find?}
use api_paperbase.Inventory.{
  Stock, Inventory, StockMovement, Reason, Source, clamp_stock, set_quantity, apply_change,
  adjust_inventory_stock, refresh_product_stock_cache, lock_inventory, is_product, notify_if_low,
  add_movement, movement_of, write_quantity, expected_stock, row_contribution, in_store,
}

-- The quantity that a change leaves on a row.
abbrev pub next_quantity : Inventory → ℤ → ℕ
next_quantity inv delta = clamp_stock (pos inv.quantity -ℤ delta)

pub record Adjusted (store_id : ℕ) (inv : Inventory) (delta : ℤ) (s s' : Stock) : Type 0 where
  pub rows : s'.inventories ≡ (write_quantity inv.id (next_quantity inv delta) s).inventories
  pub logged :
      (m : StockMovement) × (s'.movements ≡ s.movements ++ m ∷ [])
      × (m.inventory_id ≡ inv.id)
      × (m.change ≡ pos (next_quantity inv delta) -ℤ pos inv.quantity)
  pub cached :
      s'.products
      ≡ (refresh_product_stock_cache store_id inv.product_id
          (write_quantity inv.id (next_quantity inv delta) s)).products
  pub variants : s'.variants ≡ s.variants

-- The notification writes no other table.
pub notify-products : (inv : Inventory) (s : Stock) → (notify_if_low inv s).products ≡ s.products
unfolding notify_if_low
notify-products inv s = ground arith

pub notify-frame :
    (inv : Inventory) (s : Stock)
    → ((notify_if_low inv s).inventories ≡ s.inventories)
      × ((notify_if_low inv s).movements ≡ s.movements)
      × ((notify_if_low inv s).variants ≡ s.variants)
unfolding notify_if_low
notify-frame inv s = ground arith

pub refresh-frame :
    (store_id product_id : ℕ) (s : Stock)
    → ((refresh_product_stock_cache store_id product_id s).inventories ≡ s.inventories)
      × ((refresh_product_stock_cache store_id product_id s).movements ≡ s.movements)
      × ((refresh_product_stock_cache store_id product_id s).variants ≡ s.variants)
unfolding refresh_product_stock_cache
refresh-frame store_id product_id s = ground arith

-- The cache reads the products, the variants and the rows, and nothing else.
pub refresh-products :
    (store_id product_id : ℕ) (s t : Stock)
    → s.products ≡ t.products
    → s.variants ≡ t.variants
    → s.inventories ≡ t.inventories
    → (refresh_product_stock_cache store_id product_id s).products
      ≡ (refresh_product_stock_cache store_id product_id t).products
unfolding refresh_product_stock_cache expected_stock row_contribution in_store
refresh-products store_id product_id s t hp hv hi = λ i.
    (refresh_product_stock_cache store_id product_id
      (record s { products = hp i; variants = hv i; inventories = hi i })).products

module _ (store_id : ℕ) (inv : Inventory) (delta : ℤ) (m : StockMovement) (s : Stock) where
  abbrev pub after_change : Stock
  after_change = refresh_product_stock_cache store_id inv.product_id (
      notify_if_low (set_quantity (next_quantity inv delta) inv)
        (add_movement m (write_quantity inv.id (next_quantity inv delta) s)))

  -- The four writes of a change, table by table.
  pub after_change-Adjusted :
      m.inventory_id ≡ inv.id
      → m.change ≡ pos (next_quantity inv delta) -ℤ pos inv.quantity
      → Adjusted store_id inv delta s after_change
  unfolding write_quantity add_movement
  after_change-Adjusted hi hc =
      let logged = add_movement m (write_quantity inv.id (next_quantity inv delta) s) in
      let row = set_quantity (next_quantity inv delta) inv in
      let refreshed = refresh-frame store_id inv.product_id (notify_if_low row logged) in
      let noted = notify-frame row logged in
      record {
        rows = refreshed.0 ∙ noted.0;
        logged = (m, refreshed.1 ∙ noted.1, hi, hc);
        cached =
            refresh-products store_id inv.product_id _ _ (notify-products row logged) noted.2
              noted.0;
        variants = refreshed.2 ∙ noted.2;
      }

-- A call that succeeds found a change other than zero, the product in this store and its row, and
-- has made the four writes.
pub record Success (store_id : ℕ) (product_id variant_id : Option ℕ) (delta_qty : Option ℤ)
    (s : Stock) (r : Inventory) (s' : Stock) : Type 0 where
  pub delta : ℤ
  pub inv : Inventory
  pub product : Product
  pub given : delta_qty ≡ some delta
  pub nonzero : eqb_ℤ delta (pos 0) ≡ false
  pub owned : find? (is_product store_id product_id) s.products ≡ some product
  pub locked : lock_inventory product_id variant_id s ≡ some inv
  pub returned : r ≡ set_quantity (next_quantity inv delta) inv
  pub adjusted : Adjusted store_id inv delta s s'

module _ (store_id : ℕ) (product_id variant_id : Option ℕ) (reason : Reason) (source : Source)
    (reference_id reference : Text) (actor : Option ℕ) (s : Stock) (r : Inventory)
    (s' : Stock) where
  apply_change-eq :
      (inv : Inventory) (delta : ℤ)
      → apply_change store_id inv delta reason source reference_id reference actor s ≡ ok (r, s')
      → (r ≡ set_quantity (next_quantity inv delta) inv) × Adjusted store_id inv delta s s'
  unfolding apply_change movement_of
  apply_change-eq inv delta h =
      let m =
        movement_of inv (next_quantity inv delta) reason source reference_id reference actor in
      let e : after_change store_id inv delta m s ≡ s' = cc h in
      (
        cc h,
        subst (Adjusted store_id inv delta s) e
            (after_change-Adjusted store_id inv delta m s refl refl),
      )

  pub adjust-Success :
      (delta_qty : Option ℤ)
      → adjust_inventory_stock store_id product_id variant_id delta_qty reason source reference_id
          reference actor s
        ≡ ok (r, s')
      → Success store_id product_id variant_id delta_qty s r s'
  unfolding adjust_inventory_stock
  adjust-Success none h = cc
  adjust-Success (some delta) h = elim (Bool-cases (eqb_ℤ delta (pos 0))) [
    | inl e ↦ cc (e, h)
    | inr e ↦ elim (Option-cases (find? (is_product store_id product_id) s.products)) [
      | inl no_product ↦ cc (e, no_product, h)
      | inr (p, owned) ↦ elim (Option-cases (lock_inventory product_id variant_id s)) [
        | inl no_row ↦ cc (e, owned, no_row, h)
        | inr (inv, locked) ↦
            let changed = apply_change-eq inv delta (cc (e, owned, locked, h)) in
            record {
              delta = delta;
              inv = inv;
              product = p;
              given = refl;
              nonzero = e;
              owned = owned;
              locked = locked;
              returned = changed.0;
              adjusted = changed.1;
            }
      ]
    ]
  ]
