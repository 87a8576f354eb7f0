-- ===== src/Inventory/Restore.antt =====
-- Two adjustments in turn.
use api_paperbase.Base.{ℕ, ◌≤◌, ◌≡◌, refl, ap, ◌∙◌, Option, some, arith, ◌==◌, max, ==_refl}
use api_paperbase.Base.Int.{ℤ, pos, neg, ◌-ℤ◌}
use api_paperbase.Base.Results.{ok}
use api_paperbase.Base.Text.{Text}
use api_paperbase.Base.Queries.{find?, find?-update_where}
use api_paperbase.Inventory.{
  Stock, Inventory, Reason, Source, max_stock_quantity, clamp_stock, set_quantity, write_quantity,
  is_inventory, lock_inventory, adjust_inventory_stock,
}
use api_paperbase.Inventory.Adjust.{next_quantity, Adjusted, adjust-Success}
use api_paperbase.Inventory.Audit.{lock-row}

-- Taking `q` from `n` and putting it back.
reserve_restore :
    (n q : ℕ)
    → n ≤ max_stock_quantity
    → q ≤ max_stock_quantity
    → clamp_stock (pos (clamp_stock (pos n -ℤ pos q)) -ℤ neg (pos q)) ≡ max n q
unfolding clamp_stock ◌-ℤ◌ neg
reserve_restore n q hn hq = ground arith

-- The row that a second adjustment of the same product and variant locks.
relocked :
    (store_id : ℕ) (product_id variant_id : Option ℕ) (delta : ℤ) (inv inv' : Inventory)
    (s s' : Stock)
    → Adjusted store_id inv delta s s'
    → lock_inventory product_id variant_id s ≡ some inv
    → lock_inventory product_id variant_id s' ≡ some inv'
    → inv' ≡ set_quantity (next_quantity inv delta) inv
unfolding write_quantity is_inventory set_quantity
relocked store_id product_id variant_id delta inv inv' s s' adjusted h h' =
    let n = next_quantity inv delta in
    let p = is_inventory product_id variant_id in
    let moved =
      find?-update_where (λ r. r.id == inv.id) (set_quantity n) p s.inventories (λ x. refl) in
    let found = lock-row product_id variant_id inv s h in
    let found' = lock-row product_id variant_id inv' s' h' in
    let e : find? p s'.inventories ≡ some (set_quantity n inv) =
      ap (find? p) adjusted.rows ∙ moved ∙ rw found (rw (==_refl inv.id)) in
    cc (found', e)

module _ (store_id : ℕ) (product_id variant_id : Option ℕ) (q : ℕ) (reason reason' : Reason)
    (source source' : Source) (reference_id reference reference_id' reference' : Text)
    (actor actor' : Option ℕ) (inv r r' : Inventory) (s s' s'' : Stock) where
  -- When neither exceeds the limit, reserving `q` items of a row and restoring them leaves the larger of the old quantity and `q`:
  -- the old quantity if it covered the reservation, and `q`, more than there was, if it did not.
  pub restore-reserve :
      inv.quantity ≤ max_stock_quantity
      → q ≤ max_stock_quantity
      → lock_inventory product_id variant_id s ≡ some inv
      → adjust_inventory_stock store_id product_id variant_id
          (some (pos q))
          reason
          source
          reference_id
          reference
          actor
          s
        ≡ ok (r, s')
      → adjust_inventory_stock store_id product_id variant_id
          (some (neg (pos q)))
          reason'
          source'
          reference_id'
          reference'
          actor'
          s'
        ≡ ok (r', s'')
      → r'.quantity ≡ max inv.quantity q
  unfolding set_quantity
  restore-reserve bound small locked h h' =
      let first =
        adjust-Success store_id product_id variant_id reason source reference_id reference actor s r
          s' _ h in
      let second =
        adjust-Success store_id product_id variant_id reason' source' reference_id' reference'
          actor' s' r' s'' _ h' in
      let same : first.inv ≡ inv = cc (first.locked, locked) in
      let d1 : pos q ≡ first.delta = cc first.given in
      let d2 : neg (pos q) ≡ second.delta = cc second.given in
      let again : second.inv ≡ set_quantity (next_quantity first.inv first.delta) first.inv =
        relocked store_id product_id variant_id first.delta first.inv second.inv s s' first.adjusted
          first.locked second.locked in
      let held : second.inv.quantity ≡ clamp_stock (pos inv.quantity -ℤ pos q) =
        cc (ap (λ (x : Inventory). x.quantity) again, same, d1) in
      let given_back : r'.quantity ≡ clamp_stock (pos second.inv.quantity -ℤ neg (pos q)) =
        cc (ap (λ (x : Inventory). x.quantity) second.returned, d2) in
      given_back ∙ rw held (reserve_restore inv.quantity q bound small)
