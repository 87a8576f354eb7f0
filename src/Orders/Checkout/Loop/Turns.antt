-- ===== src/Orders/Checkout/Loop/Turns.antt =====
-- The turns of the loop over the lines of a checkout.
use api_paperbase.Base.{
  ℕ, ◌+◌, ◌-◌, ◌≤◌, ◌≡◌, refl, ap, sym, ◌∙◌, false, Option, none, some, List, [], ◌∷◌, ◌++◌, map,
  any, All, ◌==◌, inl, inr, Bool-cases, Option-cases, arith, if◌then◌else◌,
}
use mathlib.Core.Path.{subst, fun_ext}
use api_paperbase.Base.Text.{codes}
use api_paperbase.Base.Int.{pos, eqb_ℤ, ltb_ℤ}
use api_paperbase.Base.Results.{ok, Delivers}
use api_paperbase.Base.Tx.{Delivers-weaken}
use api_paperbase.Base.Queries.{find?, update_where, by_key, UniqueBy, find?-by_key, All-find?}
use api_paperbase.Base.Order.{All-map}
use api_paperbase.Base.Count.{found_only}
use api_paperbase.Catalog.{Product}
use api_paperbase.Inventory.{
  Stock, Inventory, ValidationError, Source, sale, return, set_quantity, write_quantity,
  lock_inventory, is_inventory, is_variant_of, max_stock_quantity,
}
use api_paperbase.Inventory.Adjust.{Adjusted, adjust-Success}
use api_paperbase.Inventory.Stocked.{IsStocked, adjust-IsStocked}
use api_paperbase.Orders.{Shop}
use api_paperbase.Orders.Restore.{adjust_stock}
use api_paperbase.Orders.Checkout.{OrderLine}
use api_paperbase.Orders.Checkout.Locks.{Locks, product_for, variant_for}
use api_paperbase.Orders.Checkout.Create.{Call, key_of, attempt, take_stock, place_lines, new_item}
use api_paperbase.Orders.Checkout.Checked.{IsReady}
use api_paperbase.Orders.Checkout.Loop.{
  AreSound, row_of, units, lowered, clamp-difference, write-lowered, map-lowered, id_of,
  row_of-kept, units-kept,
}

-- What the adjustment for a line does to the rows, and to what can be adjusted.
record Taken (locks : Locks) (store_id : ℕ) (l : OrderLine) (s s' : Stock) : Type 0 where
  rows : s'.inventories ≡ map (lowered (units locks s (l ∷ []))) s.inventories
  same_rows : (other : OrderLine) → row_of locks s' other ≡ row_of locks s other
  adjustable : (k : ℕ) (o : Option ℕ) → IsStocked store_id k o s → IsStocked store_id k o s'

lock-found :
    (k : ℕ) (variant_id : Option ℕ) (s : Stock) (inv : Inventory)
    → lock_inventory (some k) variant_id s ≡ some inv
    → find? (is_inventory (some k) variant_id) s.inventories ≡ some inv
unfolding lock_inventory
lock-found k none s inv h = h
lock-found k (some v) s inv h =
    elim (Option-cases (find? (is_inventory (some k) (some v)) s.inventories)) [
      | inl e ↦ cc (h, e)
      | inr (x, e) ↦ elim (Bool-cases (any s.variants (is_variant_of (some k) (some v)))) [
        | inl b ↦ let same : x ≡ inv = cc (h, e, b) in e ∙ ap some same
        | inr b ↦ cc (h, e, b)
      ]
    ]

one_line :
    (locks : Locks) (s : Stock) (l : OrderLine) (k : ℕ)
    → row_of locks s l ≡ some k
    → (j : ℕ) → (if j == k then l.quantity else 0) ≡ units locks s (l ∷ []) j
unfolding units
one_line locks s l k h j = rw h (ground arith)

rows-lowered :
    (locks : Locks) (store_id : ℕ) (l : OrderLine) (p : Product) (inv : Inventory) (s s' : Stock)
    → AreSound s.inventories
    → product_for locks l ≡ some p
    → lock_inventory (some p.id) (key_of (variant_for locks l)) s ≡ some inv
    → Adjusted store_id inv (pos l.quantity) s s'
    → s'.inventories ≡ map (lowered (units locks s (l ∷ []))) s.inventories
unfolding write_quantity row_of
rows-lowered locks store_id l p inv s s' sound found lock done =
    let first = lock-found p.id (key_of (variant_for locks l)) s inv lock in
    let row : row_of locks s l ≡ some inv.id = cc (found, lock) in
    let bound : inv.quantity ≤ max_stock_quantity =
      All-find? _ _ inv s.inventories sound.bounded first in
    let own = found_only id_of inv.id inv s.inventories sound.unique (
      find?-by_key id_of (is_inventory (some p.id) (key_of (variant_for locks l))) inv s.inventories
        sound.unique first) in
    done.rows
    ∙ ap (λ q. update_where (λ (x : Inventory). x.id == inv.id) (set_quantity q) s.inventories)
        (clamp-difference inv.quantity l.quantity bound)
    ∙ write-lowered inv.id l.quantity inv s.inventories own
    ∙ ap (λ f. map (lowered f) s.inventories) (fun_ext (one_line locks s l inv.id row))

line-Taken :
    (call : Call) (locks : Locks) (l : OrderLine) (s : Stock)
    (ready : IsReady call.store_id locks s l)
    → AreSound s.inventories
    → (s' : Stock) × (take_stock call ready.product (variant_for locks l) l.quantity s
        ≡ ok (tt, s'))
      × Taken locks call.store_id l s s'
unfolding adjust_stock
line-Taken call locks l s ready sound =
    let reason = if ltb_ℤ (pos 0) (pos l.quantity) then sale else return in
    let (r, s', run, kept) =
      adjust-IsStocked call.store_id ready.product.id (key_of (variant_for locks l))
        (pos l.quantity) reason Source.order [] (codes "order-item-adjustment") none s
        ready.adjustable (nonzero l.quantity ready.positive) in
    let done =
      adjust-Success call.store_id (some ready.product.id) (key_of (variant_for locks l)) reason
        Source.order [] (codes "order-item-adjustment") none s r s' (some (pos l.quantity)) run in
    let asked : done.delta ≡ pos l.quantity = (let given = done.given in cc given) in
    let adjusted = subst (λ d. Adjusted call.store_id done.inv d s s') asked done.adjusted in
    (
      s',
      cc run,
      record {
        rows =
            rows-lowered locks call.store_id l ready.product done.inv s s' sound ready.found
              done.locked adjusted;
        same_rows =
            λ other. row_of-kept locks call.store_id done.inv (pos l.quantity) s s' other adjusted;
        adjustable = kept;
      },
    )
  where
    nonzero : (n : ℕ) → 1 ≤ n → eqb_ℤ (pos n) (pos 0) ≡ false
    nonzero n h = ground (arith, h)

abbrev Delivered : Call → Locks → List OrderLine → Shop → Option ValidationError → Shop → Type 0
Delivered call locks lines shop o shop' =
    (o ≡ none)
    × (shop'.stock.inventories
        ≡ map (lowered (units locks shop.stock lines)) shop.stock.inventories)

none-lowered :
    (f : ℕ → ℕ) (k : ℕ) (rows : List Inventory)
    → find? (by_key id_of k) rows ≡ none
    → find? (by_key id_of k) (map (lowered f) rows) ≡ none
unfolding set_quantity
none-lowered f k [] h = refl
none-lowered f k (x ∷ rows) h = elim (Bool-cases (x.id == k)) [
  | inl e ↦ cc (h, e)
  | inr e ↦ rw e (none-lowered f k rows (cc (h, e)))
]

unique-lowered :
    (f : ℕ → ℕ) (rows : List Inventory)
    → UniqueBy id_of rows
    → UniqueBy id_of (map (lowered f) rows)
unfolding set_quantity
unique-lowered f [] h = tt
unique-lowered f (x ∷ rows) h = (none-lowered f x.id rows h.0, unique-lowered f rows h.1)

bounded-lowered :
    (f : ℕ → ℕ) (rows : List Inventory)
    → All (λ (inv : Inventory). inv.quantity ≤ max_stock_quantity) rows
    → All (λ (inv : Inventory). inv.quantity ≤ max_stock_quantity) (map (lowered f) rows)
unfolding set_quantity
bounded-lowered f [] h = tt
bounded-lowered f (x ∷ rows) h =
    (let first = h.0 in omega (arith, first), bounded-lowered f rows h.1)

AreSound-lowered :
    (f : ℕ → ℕ) (rows : List Inventory) → AreSound rows → AreSound (map (lowered f) rows)
AreSound-lowered f rows h = record {
  unique = unique-lowered f rows h.unique;
  bounded = bounded-lowered f rows h.bounded;
}

map-lowered_none : (rows : List Inventory) → rows ≡ map (lowered (λ _. 0)) rows
unfolding set_quantity
map-lowered_none [] = refl
map-lowered_none (x ∷ rows) =
    let whole : x.quantity ≡ x.quantity - 0 = omega arith in
    rw (← map-lowered_none rows) (ap (λ q. record x { quantity = q } ∷ rows) whole)

IsReady-kept :
    (store_id : ℕ) (locks : Locks) (l other : OrderLine) (s s' : Stock)
    → Taken locks store_id l s s'
    → IsReady store_id locks s other
    → IsReady store_id locks s' other
IsReady-kept store_id locks l other s s' taken ready = record {
  product = ready.product;
  found = ready.found;
  adjustable = taken.adjustable _ _ ready.adjustable;
  positive = ready.positive;
}

units-cons :
    (locks : Locks) (s : Stock) (l : OrderLine) (ls : List OrderLine) (k : ℕ)
    → units locks s (l ∷ []) k + units locks s ls k ≡ units locks s (l ∷ ls) k
unfolding units
units-cons locks s l ls k = omega arith

-- The shop after one turn.
abbrev after_line : Call → Locks → ℕ → OrderLine → Product → Stock → Shop → Shop
after_line call locks item_id l p s shop = record shop {
  items = shop.items ++ new_item item_id call.order_id p (variant_for locks l) l.quantity ∷ [];
  stock = s;
}

next_line :
    (call : Call) (locks : Locks) (item_id : ℕ) (l : OrderLine) (lines : List OrderLine)
    (p : Product) (s : Stock) (shop : Shop)
    → product_for locks l ≡ some p
    → take_stock call p (variant_for locks l) l.quantity shop.stock ≡ ok (tt, s)
    → place_lines call locks item_id (l ∷ lines) shop
      ≡ place_lines call locks (item_id + 1) lines (after_line call locks item_id l p s shop)
unfolding place_lines attempt
next_line call locks item_id l lines p s shop found run = cc (found, run)

-- Lines that are ready are all placed, and lower the rows by their units.
pub place_lines-Delivers :
    (call : Call) (locks : Locks) (item_id : ℕ) (lines : List OrderLine) (shop : Shop)
    → All (IsReady call.store_id locks shop.stock) lines
    → AreSound shop.stock.inventories
    → Delivers (Delivered call locks lines shop) (place_lines call locks item_id lines shop)
unfolding place_lines units
place_lines-Delivers call locks item_id [] shop ready sound =
    (refl, map-lowered_none shop.stock.inventories)
place_lines-Delivers call locks item_id (l ∷ lines) shop ready sound =
    let (s', run, taken) = line-Taken call locks l shop.stock ready.0 sound in
    let kept =
      All-map _ _ lines (λ other h. IsReady-kept call.store_id locks l other shop.stock s' taken h)
        ready.1 in
    let p = ready.0.product in
    let shop' = after_line call locks item_id l p s' shop in
    let rest =
      place_lines-Delivers call locks (item_id + 1) lines shop' kept
        (subst AreSound (sym taken.rows) (AreSound-lowered _ _ sound)) in
    subst (Delivers (Delivered call locks (l ∷ lines) shop))
      (sym (next_line call locks item_id l lines p s' shop ready.0.found run))
      (Delivers-weaken (Delivered call locks lines shop') (Delivered call locks (l ∷ lines) shop) _
        rest
        (λ o shop'' done. (
          done.0,
          done.1
              ∙ ap (map (lowered (units locks s' lines))) taken.rows
              ∙ map-lowered (units locks shop.stock (l ∷ [])) (units locks s' lines)
                  (units locks shop.stock (l ∷ lines)) shop.stock.inventories
                  (λ k.
                    ap (λ n. units locks shop.stock (l ∷ []) k + n)
                      (units-kept locks shop.stock s' k lines taken.same_rows)
                    ∙ units-cons locks shop.stock l lines k),
        )))
