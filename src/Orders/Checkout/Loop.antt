-- ===== src/Orders/Checkout/Loop.antt =====
-- The loop over the lines of a checkout (`OrderCreateView.create` of engine/apps/orders/views.py).
pub mod Turns
use api_paperbase.Base.{
  ℕ, ◌+◌, ◌-◌, ◌≤◌, ◌≡◌, refl, ap, sym, ◌∙◌, Bool, true, false, Option, none, some, List, [], ◌∷◌,
  ◌++◌, map, any, All, sum_by, ◌==◌, opt_eq, inl, inr, Bool-cases, Option-cases, arith, ==_refl,
  if◌then◌else◌,
}
use mathlib.Core.Path.{subst, fun_ext}
use mathlib.Core.Option
use api_paperbase.Base.Text.{codes}
use api_paperbase.Base.Int.{ℤ, pos, ◌-ℤ◌, eqb_ℤ, ltb_ℤ}
use api_paperbase.Base.Results.{Result, ok, err, Delivers}
use api_paperbase.Base.Tx.{Tx, Delivers-weaken}
use api_paperbase.Base.Queries.{
  find?, update_where, by_key, UniqueBy, UniqueBy-update_where, find?-by_key, find?-update_where,
  All-find?,
}
use api_paperbase.Base.Order.{All-map}
use api_paperbase.Base.Count.{found_only}
use api_paperbase.Catalog.{Product, ProductVariant}
use api_paperbase.Inventory.{
  Stock, Inventory, ValidationError, Source, sale, return, clamp_stock, set_quantity,
  write_quantity, lock_inventory, is_inventory, is_variant_of, max_stock_quantity,
}
use api_paperbase.Inventory.Adjust.{Adjusted, next_quantity, adjust-Success}
use api_paperbase.Inventory.Stocked.{IsStocked, adjust-IsStocked, Adjusted-IsStocked}
use api_paperbase.Orders.{Shop, OrderItem, OrderError}
use api_paperbase.Orders.Restore.{adjust_stock}
use api_paperbase.Orders.Checkout.{OrderLine}
use api_paperbase.Orders.Checkout.Locks.{Locks, product_for, variant_for}
use api_paperbase.Orders.Checkout.Create.{Call, key_of, attempt, take_stock, place_lines, new_item}
use api_paperbase.Orders.Checkout.Checked.{IsReady}

-- The keys of the rows are unique, and no row is above the greatest quantity.
pub record AreSound (rows : List Inventory) : Type 0 where
  pub unique : UniqueBy (λ (inv : Inventory). inv.id) rows
  pub bounded : All (λ (inv : Inventory). inv.quantity ≤ max_stock_quantity) rows

-- The row that a line takes its units from.
unfoldable pub row_of : Locks → Stock → OrderLine → Option ℕ
row_of locks s l = elim (product_for locks l) [
  | none ↦ none
  | some p ↦
      Option.map (λ (inv : Inventory). inv.id)
        (lock_inventory (some p.id) (key_of (variant_for locks l)) s)
]

-- The units that the lines take from a row.
unfoldable pub units : Locks → Stock → List OrderLine → ℕ → ℕ
unfolding row_of
units locks s lines k =
    sum_by (λ l. if opt_eq (row_of locks s l) (some k) then l.quantity else 0) lines

abbrev pub lowered : (ℕ → ℕ) → Inventory → Inventory
lowered f inv = set_quantity (inv.quantity - f inv.id) inv

pub clamp-difference : (q n : ℕ) → q ≤ max_stock_quantity → clamp_stock (pos q -ℤ pos n) ≡ q - n
unfolding clamp_stock ◌-ℤ◌
clamp-difference q n h = ground (arith, h)

-- The write of one row, read as a change of every row.
pub write-lowered :
    (k n : ℕ) (inv : Inventory) (rows : List Inventory)
    → All (λ (x : Inventory). (x.id == k) ≡ true → x ≡ inv) rows
    → update_where (λ x. x.id == k) (set_quantity (inv.quantity - n)) rows
      ≡ map (lowered (λ j. if j == k then n else 0)) rows
unfolding set_quantity
write-lowered k n inv [] h = refl
write-lowered k n inv (x ∷ rows) h = elim (Bool-cases (x.id == k)) [
  | inl e ↦
      let same : x.quantity ≡ inv.quantity = ap (λ (y : Inventory). y.quantity) (h.0 e) in
      rw e (rw (same, write-lowered k n inv rows h.1) refl)
  | inr e ↦ rw e (
      rw (write-lowered k n inv rows h.1) (
        let whole : x.quantity ≡ x.quantity - 0 = omega arith in
        ap (λ q. record x { quantity = q } ∷ map (lowered (λ j. if j == k then n else 0)) rows)
          whole))
]

pub map-lowered :
    (f g h : ℕ → ℕ) (rows : List Inventory)
    → ((k : ℕ) → f k + g k ≡ h k)
    → map (lowered g) (map (lowered f) rows) ≡ map (lowered h) rows
unfolding set_quantity
map-lowered f g h [] e = refl
map-lowered f g h (x ∷ rows) e =
    let here : x.quantity - f x.id - g x.id ≡ x.quantity - h x.id =
      let s = e x.id in omega (arith, s) in
    rw (here, map-lowered f g h rows e) refl

abbrev pub id_of : Inventory → ℕ
id_of inv = inv.id

-- A lookup finds the row that it found before the write.
pub lock-kept :
    (store_id k : ℕ) (variant_id : Option ℕ) (inv : Inventory) (delta : ℤ) (s s' : Stock)
    → Adjusted store_id inv delta s s'
    → Option.map id_of (lock_inventory (some k) variant_id s')
      ≡ Option.map id_of (lock_inventory (some k) variant_id s)
unfolding lock_inventory is_inventory write_quantity set_quantity
lock-kept store_id k variant_id inv delta s s' done = of_variant variant_id (found variant_id)
  where
    write : Inventory → Inventory
    write x = if x.id == inv.id then set_quantity (next_quantity inv delta) x else x

    found :
        (o : Option ℕ)
        → find? (is_inventory (some k) o) s'.inventories
          ≡ Option.map write (find? (is_inventory (some k) o) s.inventories)
    found o =
        ap (find? (is_inventory (some k) o)) done.rows
        ∙ find?-update_where (λ (x : Inventory). x.id == inv.id)
            (set_quantity (next_quantity inv delta)) (is_inventory (some k) o) s.inventories
            (λ x. refl)

    same_id : (x : Inventory) → (write x).id ≡ x.id
    same_id x = elim (Bool-cases (x.id == inv.id)) [ inl e ↦ rw e refl | inr e ↦ rw e refl ]

    same_ids : (o : Option Inventory) → Option.map id_of (Option.map write o) ≡ Option.map id_of o
    same_ids none = refl
    same_ids (some x) = ap some (same_id x)

    guarded :
        (b : Bool) (o : Option Inventory)
        → Option.map id_of (elim o [ none ↦ none | some x ↦ if b then some x else none ])
          ≡ (if b then Option.map id_of o else none)
    guarded b none = elim (Bool-cases b) [ inl e ↦ rw e refl | inr e ↦ rw e refl ]
    guarded b (some x) = elim (Bool-cases b) [ inl e ↦ rw e refl | inr e ↦ rw e refl ]

    of_variant :
        (o : Option ℕ)
        → find? (is_inventory (some k) o) s'.inventories
          ≡ Option.map write (find? (is_inventory (some k) o) s.inventories)
        → Option.map id_of (lock_inventory (some k) o s')
          ≡ Option.map id_of (lock_inventory (some k) o s)
    of_variant none e = ap (Option.map id_of) e ∙ same_ids _
    of_variant (some v) e =
        guarded (any s'.variants (is_variant_of (some k) (some v))) _
        ∙ ap
            (λ vs.
              if any vs (is_variant_of (some k) (some v))
              then Option.map id_of (find? (is_inventory (some k) (some v)) s'.inventories)
              else none)
            done.variants
        ∙ ap (λ o. if any s.variants (is_variant_of (some k) (some v)) then o else none)
            (ap (Option.map id_of) e ∙ same_ids _)
        ∙ sym (
            guarded (any s.variants (is_variant_of (some k) (some v)))
              (find? (is_inventory (some k) (some v)) s.inventories))

pub row_of-kept :
    (locks : Locks) (store_id : ℕ) (inv : Inventory) (delta : ℤ) (s s' : Stock) (l : OrderLine)
    → Adjusted store_id inv delta s s'
    → row_of locks s' l ≡ row_of locks s l
unfolding row_of
row_of-kept locks store_id inv delta s s' l done = of_product (product_for locks l)
  where
    of_product :
        (o : Option Product)
        → elim o [
          | none ↦ none
          | some p ↦ Option.map id_of (lock_inventory (some p.id) (key_of (variant_for locks l)) s')
        ]
          ≡ elim o [
            | none ↦ none
            | some p ↦
                Option.map id_of (lock_inventory (some p.id) (key_of (variant_for locks l)) s)
          ]
    of_product none = refl
    of_product (some p) = lock-kept store_id p.id (key_of (variant_for locks l)) inv delta s s' done

pub units-kept :
    (locks : Locks) (s s' : Stock) (k : ℕ) (lines : List OrderLine)
    → ((l : OrderLine) → row_of locks s' l ≡ row_of locks s l)
    → units locks s' lines k ≡ units locks s lines k
unfolding units
units-kept locks s s' k [] same = refl
units-kept locks s s' k (l ∷ ls) same =
    let rest = units-kept locks s s' k ls same in rw (same l, rest) refl
