-- ===== src/Inventory/Audit.antt =====
-- The audit log of `adjust_inventory_stock` (engine/apps/inventory/services.py).
use mathlib.Core.Path.{subst}
use api_paperbase.Base.{
  ℕ, ◌≡◌, refl, sym, ap, ◌∙◌, true, false, Option, none, some, List, [], ◌∷◌, ◌++◌, arith, ◌==◌,
  if◌then◌else◌, Bool-cases, inl, inr, Option-cases, ==→eq,
}
use api_paperbase.Base.Int.{ℤ, pos, ◌+ℤ◌, ◌-ℤ◌, int_laws}
use api_paperbase.Base.Results.{ok}
use api_paperbase.Base.Text.{Text}
use api_paperbase.Base.Queries.{
  find?, find?-update_where, UniqueBy, UniqueBy-update_where, find?-by_key, by_key, find?-test,
}
use api_paperbase.Inventory.{
  Stock, Inventory, StockMovement, Reason, Source, set_quantity, write_quantity, is_inventory,
  lock_inventory, adjust_inventory_stock,
}
use api_paperbase.Inventory.Adjust.{next_quantity, adjust-Success}

abbrev pub quantity_or_zero : Option Inventory → ℕ
quantity_or_zero none = 0
quantity_or_zero (some inv) = inv.quantity

-- The quantity of the row with this key.
pub quantity_at : ℕ → Stock → ℕ
quantity_at i s = quantity_or_zero (find? (by_key (λ inv. inv.id) i) s.inventories)

-- The sum of the recorded changes of a row.
pub change_sum : ℕ → List StockMovement → ℤ
change_sum i [] = pos 0
change_sum i (m ∷ ms) = if m.inventory_id == i then m.change +ℤ change_sum i ms else change_sum i ms

unfoldable pub UniqueIds : Stock → Type 0
UniqueIds s = UniqueBy (λ inv. inv.id) s.inventories

change_sum-append :
    (i : ℕ) (ms : List StockMovement) (m : StockMovement)
    → change_sum i (ms ++ m ∷ [])
      ≡ (if m.inventory_id == i then change_sum i ms +ℤ m.change else change_sum i ms)
unfolding change_sum
change_sum-append i [] m = grind int_laws
change_sum-append i (x ∷ ms) m = grind (int_laws, change_sum-append i ms m)

pub lock-row :
    (product_id variant_id : Option ℕ) (inv : Inventory) (s : Stock)
    → lock_inventory product_id variant_id s ≡ some inv
    → find? (is_inventory product_id variant_id) s.inventories ≡ some inv
unfolding lock_inventory
lock-row product_id none inv s h = h
lock-row product_id (some v) inv s h = ground arith

pub lock-by_key :
    (product_id variant_id : Option ℕ) (inv : Inventory) (s : Stock)
    → UniqueIds s
    → lock_inventory product_id variant_id s ≡ some inv
    → find? (by_key (λ (r : Inventory). r.id) inv.id) s.inventories ≡ some inv
unfolding UniqueIds
lock-by_key product_id variant_id inv s u h =
    find?-by_key (λ (r : Inventory). r.id) (is_inventory product_id variant_id) inv s.inventories u
      (lock-row product_id variant_id inv s h)

-- A write to the row of a key changes the quantity at that key only.
quantity_at-write :
    (i n : ℕ) (inv : Inventory) (s : Stock)
    → find? (by_key (λ (r : Inventory). r.id) inv.id) s.inventories ≡ some inv
    → quantity_at i (write_quantity inv.id n s) ≡ (if inv.id == i then n else quantity_at i s)
unfolding quantity_at write_quantity set_quantity
quantity_at-write i n inv s h =
    rw
      (find?-update_where (λ inv'. inv'.id == inv.id) (set_quantity n) (by_key (λ inv'. inv'.id) i)
        s.inventories (λ x. refl))
      (elim (Option-cases (find? (by_key (λ (r : Inventory). r.id) i) s.inventories)) [
        | inl e ↦ ground (arith, e, h)
        | inr (x, e) ↦
            ground (arith, e, h, find?-test (by_key (λ (r : Inventory). r.id) i) x s.inventories e)
      ])

quantity_at-rows :
    (i : ℕ) (s t : Stock) → s.inventories ≡ t.inventories → quantity_at i s ≡ quantity_at i t
unfolding quantity_at
quantity_at-rows i s t e = ap (λ rows. quantity_or_zero (find? (by_key (λ inv. inv.id) i) rows)) e

quantity_at_self :
    (inv : Inventory) (s : Stock)
    → find? (by_key (λ (r : Inventory). r.id) inv.id) s.inventories ≡ some inv
    → quantity_at inv.id s ≡ inv.quantity
unfolding quantity_at
quantity_at_self inv s h = rw h

write-UniqueIds : (id n : ℕ) (s : Stock) → UniqueIds s → UniqueIds (write_quantity id n s)
unfolding UniqueIds write_quantity set_quantity
write-UniqueIds id n s =
    UniqueBy-update_where (λ inv. inv.id) (λ inv. inv.id == id) (set_quantity n) s.inventories
      (λ x. refl)

UniqueIds-rows : (s t : Stock) → s.inventories ≡ t.inventories → UniqueIds s → UniqueIds t
unfolding UniqueIds
UniqueIds-rows s t e u = subst (UniqueBy (λ inv. inv.id)) e u

balance :
    (k j i q n q' : ℕ) (c c' d : ℤ)
    → q' ≡ (if k == i then n else q)
    → c' ≡ (if j == i then c +ℤ d else c)
    → j ≡ k
    → ((k == i) ≡ true → d ≡ pos n -ℤ pos q)
    → pos q' -ℤ c' ≡ pos q -ℤ c
balance k j i q n q' c c' d hq hc hj hd = elim (Bool-cases (k == i)) [
  | inl e ↦
      let hit : (j == i) ≡ true = rw hj e in
      let wrote : q' ≡ n = cc (hq, e) in
      let added : c' ≡ c +ℤ d = cc (hc, hit) in rw (wrote, added, hd e) (omega int_laws)
  | inr e ↦
      let miss : (j == i) ≡ false = rw hj e in
      let kept : q' ≡ q = cc (hq, e) in let same : c' ≡ c = cc (hc, miss) in rw (kept, same)
]

module _ (store_id : ℕ) (product_id variant_id : Option ℕ) (delta_qty : Option ℤ) (reason : Reason)
    (source : Source) (reference_id reference : Text) (actor : Option ℕ) (s : Stock) (r : Inventory)
    (s' : Stock) where
  -- When the rows' keys are unique, a successful adjustment leaves them so, and moves the quantity of
  -- each row by what it logs for that row: the quantity less the sum of the movements stays the same.
  pub adjust-audit :
      UniqueIds s
      → adjust_inventory_stock store_id product_id variant_id delta_qty reason source reference_id
          reference actor s
        ≡ ok (r, s')
      → UniqueIds s'
        × ((i : ℕ)
            → pos (quantity_at i s') -ℤ change_sum i s'.movements
              ≡ pos (quantity_at i s) -ℤ change_sum i s.movements)
  adjust-audit u h =
      let done =
        adjust-Success store_id product_id variant_id reason source reference_id reference actor s r
          s' delta_qty h in
      let inv = done.inv in
      let n = next_quantity inv done.delta in
      let (m, log, own, change) = done.adjusted.logged in
      let locked = lock-by_key product_id variant_id inv s u done.locked in
      (
        UniqueIds-rows _ s' (sym done.adjusted.rows) (write-UniqueIds inv.id n s u),
        λ i.
            balance inv.id m.inventory_id i (quantity_at i s) n (quantity_at i s')
              (change_sum i s.movements) (change_sum i s'.movements) m.change
              (quantity_at-rows i s' _ done.adjusted.rows ∙ quantity_at-write i n inv s locked)
              (ap (change_sum i) log ∙ change_sum-append i s.movements m) own
              (λ e. cc (change, quantity_at_self inv s locked, ==→eq inv.id i e)),
      )
