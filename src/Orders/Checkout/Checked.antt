-- ===== src/Orders/Checkout/Checked.antt =====
-- What the validation and the stock check of a checkout establish of its lines.
use api_paperbase.Base.{
  ℕ, ◌≤◌, ◌≡◌, refl, ap, sym, Bool, true, false, ◌&&◌, Option, none, some, List, [], ◌∷◌, any, All,
  ltb, ◌==◌, opt_eq, inl, inr, Bool-cases, Option-cases, arith, ==_refl,
}
use mathlib.Core.Path.{subst}
use mathlib.Core.List.{filter_map}
use api_paperbase.Base.Queries.{find?, filter, find?-test, All-find?}
use api_paperbase.Base.Order.{filter-All, filter-test}
use api_paperbase.Base.Greatest.{any_of}
use api_paperbase.Catalog.{Product, ProductVariant}
use api_paperbase.Inventory.{Stock, Inventory, is_product, is_inventory, is_variant_of, in_store}
use api_paperbase.Inventory.Stocked.{IsStocked}
use api_paperbase.Orders.Checkout.{RequestLine, OrderLine, is_sold}
use api_paperbase.Orders.Checkout.Locks.{
  Locks, lock_rows, product_for, variant_for, product_row, variant_row, available, check_product,
  check_variant, line_error, stock_errors,
}
use api_paperbase.Orders.Checkout.Create.{key_of}

-- The row of a variant is of the variant's product.
abbrev pub IsPaired : Stock → Type 0
IsPaired s =
    All
      (λ (inv : Inventory).
        All
          (λ (v : ProductVariant).
            opt_eq inv.variant_id (some v.id) ≡ true → inv.product_id ≡ v.product_id)
          s.variants)
      s.inventories

module _ {A : Type 0} (test kept : A → Bool) (xs : List A) (x : A)
    (e : find? test (filter kept xs) ≡ some x) where
  found-any : (q : A → Bool) → q x ≡ true → any xs q ≡ true
  found-any q h = All-find? _ test x (filter kept xs) (filter-All _ kept xs (any_of q xs)) e h

  found-kept : kept x ≡ true
  found-kept = All-find? _ test x (filter kept xs) (filter-test kept xs) e

  found-All : (P : A → Type 0) → All P xs → P x
  found-All P h = All-find? P test x (filter kept xs) (filter-All P kept xs h) e

some_stock :
    (o : Option Inventory) (quantity : ℕ)
    → ltb (available o) quantity ≡ false
    → 1 ≤ quantity
    → (inv : Inventory) × (o ≡ some inv)
unfolding available
some_stock none quantity h le = absurd (ground (arith, h, le))
some_stock (some inv) quantity h le = (inv, refl)

check_product-row :
    (locks : Locks) (p : Product) (quantity : ℕ)
    → check_product locks p quantity ≡ none
    → 1 ≤ quantity
    → (inv : Inventory) × (product_row locks p ≡ some inv)
unfolding check_product
check_product-row locks p quantity h le =
    elim (Bool-cases (ltb (available (product_row locks p)) quantity)) [
      | inl e ↦ cc (h, e)
      | inr e ↦ some_stock (product_row locks p) quantity e le
    ]

check_variant-row :
    (locks : Locks) (p : Product) (o : Option ProductVariant) (quantity : ℕ)
    → check_variant locks p o quantity ≡ none
    → 1 ≤ quantity
    → (v : ProductVariant) × (o ≡ some v)
      × ((v.product_id == p.id) ≡ true)
      × ((inv : Inventory) × (variant_row locks v ≡ some inv))
unfolding check_variant
check_variant-row locks p none quantity h le = cc h
check_variant-row locks p (some v) quantity h le = elim (Bool-cases (v.product_id == p.id)) [
  | inr e ↦ cc (h, e)
  | inl e ↦ elim (Bool-cases (ltb (available (variant_row locks v)) quantity)) [
    | inl short ↦ cc (h, e, short)
    | inr enough ↦ (v, refl, e, some_stock (variant_row locks v) quantity enough le)
  ]
]

-- A line is ready when its product is locked and its stock can be adjusted.
pub record IsReady (store_id : ℕ) (locks : Locks) (s : Stock) (l : OrderLine) : Type 0 where
  pub product : Product
  pub found : product_for locks l ≡ some product
  pub adjustable : IsStocked store_id product.id (key_of (variant_for locks l)) s
  pub positive : 1 ≤ l.quantity

module _ (store_id : ℕ) (lines : List RequestLine) (s : Stock) (p : Product) (l : OrderLine)
    (found : product_for (lock_rows store_id lines s) l ≡ some p) where
  locked-owned : any s.products (is_product store_id (some p.id)) ≡ true
  unfolding product_for lock_rows is_product is_sold
  locked-owned =
      let kept = found-kept _ _ s.products p found in
      found-any _ _ s.products p found (is_product store_id (some p.id))
        (ground (arith, kept, ==_refl p.id))

  product-adjustable :
      (inv : Inventory)
      → product_row (lock_rows store_id lines s) p ≡ some inv
      → IsStocked store_id p.id none s
  unfolding product_row lock_rows is_inventory
  product-adjustable inv row =
      let kept = found-kept _ _ s.inventories inv row in
      let key : (inv.product_id == p.id) ≡ true =
        find?-test (λ (x : Inventory). x.product_id == p.id) inv
          (lock_rows store_id lines s).product_inventory row in
      record {
        owned = locked-owned;
        held =
            found-any _ _ s.inventories inv row (is_inventory (some p.id) none)
              (here inv.product_id inv.variant_id kept key);
        matched = tt;
      }
    where
      here :
          (product_id : ℕ) (variant_id : Option ℕ)
          → (any (lock_rows store_id lines s).products (λ q. q.id == product_id)
              && opt_eq variant_id none
              && in_store s store_id inv)
            ≡ true
          → (product_id == p.id) ≡ true
          → (opt_eq (some p.id) (some product_id) && opt_eq none variant_id) ≡ true
      here product_id variant_id kept key = ground (arith, kept, key)

  variant-adjustable :
      (v : ProductVariant) (inv : Inventory)
      → IsPaired s
      → variant_for (lock_rows store_id lines s) l ≡ some v
      → (v.product_id == p.id) ≡ true
      → variant_row (lock_rows store_id lines s) v ≡ some inv
      → IsStocked store_id p.id (some v.id) s
  unfolding variant_row variant_for lock_rows is_inventory is_variant_of
  variant-adjustable v inv paired chosen mine row =
      let (k, picked) =
        picked_of l.variant_public_id (lock_rows store_id lines s).variants v chosen in
      let key : opt_eq inv.variant_id (some v.id) ≡ true =
        find?-test (λ (x : Inventory). opt_eq x.variant_id (some v.id)) inv
          (lock_rows store_id lines s).variant_inventory row in
      let pair = found-All _ _ s.inventories inv row _ paired in
      let same : inv.product_id ≡ v.product_id = found-All _ _ s.variants v picked _ pair key in
      record {
        owned = locked-owned;
        held =
            found-any _ _ s.inventories inv row (is_inventory (some p.id) (some v.id))
              (held_row inv.product_id v.product_id inv.variant_id same key mine);
        matched =
            found-any _ _ s.variants v picked (is_variant_of (some p.id) (some v.id))
              (own_variant v.product_id mine);
      }
    where
      picked_of :
          (o : Option ℕ) (vs : List ProductVariant) (w : ProductVariant)
          → elim o [ none ↦ none | some k ↦ find? (λ (x : ProductVariant). x.public_id == k) vs ]
            ≡ some w
          → (k : ℕ) × (find? (λ (x : ProductVariant). x.public_id == k) vs ≡ some w)
      picked_of none vs w h = cc h
      picked_of (some k) vs w h = (k, h)

      held_row :
          (a b : ℕ) (o : Option ℕ)
          → a ≡ b
          → opt_eq o (some v.id) ≡ true
          → (b == p.id) ≡ true
          → (opt_eq (some p.id) (some a) && opt_eq (some v.id) o) ≡ true
      held_row a b o same key own = ground (arith, same, key, own)

      own_variant :
          (b : ℕ)
          → (b == p.id) ≡ true
          → (opt_eq (some v.id) (some v.id) && opt_eq (some p.id) (some b)) ≡ true
      own_variant b own = ground (arith, own)

no_variant :
    (locks : Locks) (l : OrderLine)
    → l.variant_public_id ≡ none
    → key_of (variant_for locks l) ≡ none
unfolding variant_for
no_variant locks l e =
    ap
      (λ (o : Option ℕ). key_of (elim o [
        | none ↦ none
        | some k ↦ find? (λ (v : ProductVariant). v.public_id == k) locks.variants
      ]))
      e

-- A line without an error is ready.
line-IsReady :
    (store_id : ℕ) (lines : List RequestLine) (s : Stock) (l : OrderLine)
    → IsPaired s
    → line_error (lock_rows store_id lines s) l ≡ none
    → 1 ≤ l.quantity
    → IsReady store_id (lock_rows store_id lines s) s l
unfolding line_error
line-IsReady store_id lines s l paired h le =
    let locks = lock_rows store_id lines s in
    elim (Option-cases (product_for locks l)) [
      | inl e ↦ cc (h, e)
      | inr (p, e) ↦ elim (Option-cases l.variant_public_id) [
        | inl plain ↦
            let (inv, row) = check_product-row locks p l.quantity (cc (h, e, plain)) le in
            let chosen : key_of (variant_for locks l) ≡ none = no_variant locks l plain in
            record {
              product = p;
              found = e;
              adjustable =
                  subst (λ (o : Option ℕ). IsStocked store_id p.id o s) (sym chosen)
                    (product-adjustable store_id lines s p l e inv row);
              positive = le;
            }
        | inr (k, variant) ↦
            let (v, chosen, mine, (inv, row)) =
              check_variant-row locks p (variant_for locks l) l.quantity (cc (h, e, variant)) le in
            record {
              product = p;
              found = e;
              adjustable =
                  subst (λ (o : Option ProductVariant). IsStocked store_id p.id (key_of o) s)
                    (sym chosen)
                    (variant-adjustable store_id lines s p l e v inv paired chosen mine row);
              positive = le;
            }
      ]
    ]

pub lines-IsReady :
    (store_id : ℕ) (lines : List RequestLine) (s : Stock) (checked : List OrderLine)
    → IsPaired s
    → any (stock_errors (lock_rows store_id lines s) checked) (λ _. true) ≡ false
    → All (λ (l : OrderLine). 1 ≤ l.quantity) checked
    → All (IsReady store_id (lock_rows store_id lines s) s) checked
unfolding stock_errors filter_map
lines-IsReady store_id lines s [] paired h le = tt
lines-IsReady store_id lines s (l ∷ ls) paired h le =
    elim (Option-cases (line_error (lock_rows store_id lines s) l)) [
      | inl e ↦ (
        line-IsReady store_id lines s l paired e le.0,
        lines-IsReady store_id lines s ls paired (cc (h, e)) le.1,
      )
      | inr (error, e) ↦ let reported : true ≡ false = rw e at h in cc reported
    ]
