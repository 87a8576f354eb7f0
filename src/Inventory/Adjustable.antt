-- ===== src/Inventory/Adjustable.antt =====
-- When `adjust_inventory_stock` succeeds.
use mathlib.Core.Path.{subst}
use mathlib.Core.List.{Memᴰ}
use api_paperbase.Base.{
  ℕ, ◌≡◌, ◌≢◌, ◌↔◌, refl, sym, ap, Bool, true, false, ◌&&◌, Option, none, some, arith, ==→eq,
  ==_refl, opt_eq→eq, opt_eq_refl, Bool-cases, Option-cases, inl, inr, any,
}
use api_paperbase.Catalog.{Product, ProductVariant}
use api_paperbase.Base.Int.{ℤ, pos, eqb_ℤ, eq_of_parts}
use api_paperbase.Base.Results.{IsOk, IsOk-value}
use api_paperbase.Base.Text.{Text}
use api_paperbase.Base.Queries.{find?, find?-test}
use api_paperbase.Base.Greatest.{found_of_any, find?-Mem, any-Mem}
use api_paperbase.Inventory.{
  Stock, Inventory, Reason, Source, is_product, is_inventory, is_variant_of, lock_inventory,
  apply_change, adjust_inventory_stock,
}
use api_paperbase.Inventory.Adjust.{adjust-Success}
use api_paperbase.Inventory.Audit.{lock-row}

-- The guards of `adjust_inventory_stock`, as it computes them.
pub record Passes (store_id : ℕ) (product_id variant_id : Option ℕ) (delta_qty : Option ℤ)
    (s : Stock) : Type 0 where
  pub delta : ℤ
  pub product : Product
  pub inv : Inventory
  pub given : delta_qty ≡ some delta
  pub nonzero : eqb_ℤ delta (pos 0) ≡ false
  pub owned : find? (is_product store_id product_id) s.products ≡ some product
  pub locked : lock_inventory product_id variant_id s ≡ some inv

module _ (store_id : ℕ) (product_id variant_id : Option ℕ) (delta_qty : Option ℤ) (reason : Reason)
    (source : Source) (reference_id reference : Text) (actor : Option ℕ) (s : Stock) where
  pub adjust-iff-Passes :
      IsOk (
        adjust_inventory_stock store_id product_id variant_id delta_qty reason source reference_id
          reference actor s)
      ↔ Passes store_id product_id variant_id delta_qty s
  unfolding adjust_inventory_stock apply_change
  adjust-iff-Passes = (
    λ h.
        let ((r, s'), e) = IsOk-value _ h in
        let done =
          adjust-Success store_id product_id variant_id reason source reference_id reference actor s
            r s' delta_qty e in
        record {
          delta = done.delta;
          product = done.product;
          inv = done.inv;
          given = done.given;
          nonzero = done.nonzero;
          owned = done.owned;
          locked = done.locked;
        },
    λ a. rw (a.given, a.nonzero, a.owned, a.locked) tt,
  )

-- What an adjustment needs: a change other than zero, a product of the store with the given id, a
-- stock row of that product and of the given variant, and, where a variant is given, a variant of
-- that product with its id.
pub record IsAdjustable (store_id : ℕ) (product_id variant_id : Option ℕ) (delta_qty : Option ℤ)
    (s : Stock) : Type 0 where
  pub delta : ℤ
  pub product : Product
  pub inv : Inventory
  pub given : delta_qty ≡ some delta
  pub nonzero : delta ≢ pos 0
  pub product_held : Memᴰ product s.products
  pub product_chosen : product_id ≡ some product.id
  pub product_owned : product.store_id ≡ store_id
  pub row_held : Memᴰ inv s.inventories
  pub row_product : inv.product_id ≡ product.id
  pub row_variant : inv.variant_id ≡ variant_id
  pub variant_owned :
      (k : ℕ)
      → variant_id ≡ some k
      → (v : ProductVariant) × (Memᴰ v s.variants × ((v.id ≡ k) × (v.product_id ≡ product.id)))

lock-variant :
    (product_id : Option ℕ) (k : ℕ) (inv : Inventory) (s : Stock)
    → lock_inventory product_id (some k) s ≡ some inv
    → any s.variants (is_variant_of product_id (some k)) ≡ true
unfolding lock_inventory
lock-variant product_id k inv s h =
    elim (Option-cases (find? (is_inventory product_id (some k)) s.inventories)) [
      | inl e ↦ cc (h, e)
      | inr (x, e) ↦ elim (Bool-cases (any s.variants (is_variant_of product_id (some k)))) [
        | inl b ↦ b
        | inr b ↦ cc (h, e, b)
      ]
    ]

lock_found :
    (product_id : Option ℕ) (k : ℕ) (inv : Inventory) (s : Stock)
    → find? (is_inventory product_id (some k)) s.inventories ≡ some inv
    → any s.variants (is_variant_of product_id (some k)) ≡ true
    → lock_inventory product_id (some k) s ≡ some inv
unfolding lock_inventory
lock_found product_id k inv s found owned = cc (found, owned)

lock_of :
    (product_id variant_id : Option ℕ) (s : Stock)
    → any s.inventories (is_inventory product_id variant_id) ≡ true
    → ((k : ℕ) → variant_id ≡ some k → any s.variants (is_variant_of product_id (some k)) ≡ true)
    → (inv : Inventory) × (lock_inventory product_id variant_id s ≡ some inv)
unfolding lock_inventory
lock_of product_id none s row owned = found_of_any (is_inventory product_id none) s.inventories row
lock_of product_id (some k) s row owned =
    let (inv, found) = found_of_any (is_inventory product_id (some k)) s.inventories row in
    (inv, lock_found product_id k inv s found (owned k refl))

-- The two tests of an id that a query makes.
both_of : (a b : Bool) → (a && b) ≡ true → (a ≡ true) × (b ≡ true)
both_of a b h = ground arith

Passes-IsAdjustable :
    (store_id : ℕ) (product_id variant_id : Option ℕ) (delta_qty : Option ℤ) (s : Stock)
    → Passes store_id product_id variant_id delta_qty s
    → IsAdjustable store_id product_id variant_id delta_qty s
unfolding is_product is_inventory is_variant_of
Passes-IsAdjustable store_id product_id variant_id delta_qty s h =
    let test =
      both_of _ _ (find?-test (is_product store_id product_id) h.product s.products h.owned) in
    let chosen = opt_eq→eq product_id (some h.product.id) test.0 in
    let row = lock-row product_id variant_id h.inv s h.locked in
    let test' =
      both_of _ _ (find?-test (is_inventory product_id variant_id) h.inv s.inventories row) in
    let same = opt_eq→eq product_id (some h.inv.product_id) test'.0 in
    record {
      delta = h.delta;
      product = h.product;
      inv = h.inv;
      given = h.given;
      nonzero = λ zero. cc (h.nonzero, ap (λ d. eqb_ℤ d (pos 0)) zero);
      product_held = find?-Mem _ h.product s.products h.owned;
      product_chosen = chosen;
      product_owned = ==→eq h.product.store_id store_id test.1;
      row_held = find?-Mem _ h.inv s.inventories row;
      row_product = cc (chosen, same);
      row_variant = sym (opt_eq→eq variant_id h.inv.variant_id test'.1);
      variant_owned = λ k e.
          let locked = subst (λ o. lock_inventory product_id o s ≡ some h.inv) e h.locked in
          let (v, found) =
            found_of_any (is_variant_of product_id (some k)) s.variants
              (lock-variant product_id k h.inv s locked) in
          let test'' =
            both_of _ _ (find?-test (is_variant_of product_id (some k)) v s.variants found) in
          let mine = opt_eq→eq product_id (some v.product_id) test''.1 in
          (v, (find?-Mem _ v s.variants found, (sym (==→eq k v.id test''.0), cc (chosen, mine))));
    }

eqb_ℤ→eq : (x y : ℤ) → eqb_ℤ x y ≡ true → x ≡ y
eqb_ℤ→eq x y h = eq_of_parts x y (==→eq _ _ h)

IsAdjustable-Passes :
    (store_id : ℕ) (product_id variant_id : Option ℕ) (delta_qty : Option ℤ) (s : Stock)
    → IsAdjustable store_id product_id variant_id delta_qty s
    → Passes store_id product_id variant_id delta_qty s
unfolding is_product is_inventory is_variant_of
IsAdjustable-Passes store_id product_id variant_id delta_qty s h =
    let (p, owned) = found_of_any (is_product store_id product_id) s.products (
      any-Mem _ h.product s.products h.product_held
        (rw (h.product_chosen, h.product_owned, ==_refl h.product.id, ==_refl store_id) refl)) in
    let (inv, locked) =
      lock_of product_id variant_id s
        (any-Mem _ h.inv s.inventories h.row_held (
          rw
            (
              h.product_chosen,
              h.row_product,
              ← h.row_variant,
              ==_refl h.product.id,
              opt_eq_refl h.inv.variant_id,
            )
            refl))
        (λ k e.
          let (v, (held, (same, mine))) = h.variant_owned k e in
          any-Mem _ v s.variants held
            (rw (h.product_chosen, same, mine, ==_refl k, ==_refl h.product.id) refl)) in
    record {
      delta = h.delta;
      product = p;
      inv = inv;
      given = h.given;
      nonzero = elim (Bool-cases (eqb_ℤ h.delta (pos 0))) [
        | inl e ↦ absurd (h.nonzero (eqb_ℤ→eq h.delta (pos 0) e))
        | inr e ↦ e
      ];
      owned = owned;
      locked = locked;
    }

module _ (store_id : ℕ) (product_id variant_id : Option ℕ) (delta_qty : Option ℤ) (reason : Reason)
    (source : Source) (reference_id reference : Text) (actor : Option ℕ) (s : Stock) where
  -- An adjustment succeeds exactly when a change other than zero is given, the product is in the
  -- store, there is a row of the product and the variant, and the variant, if one is given, is the
  -- product's; in every other case it raises.
  pub adjust-iff-IsAdjustable :
      IsOk (
        adjust_inventory_stock store_id product_id variant_id delta_qty reason source reference_id
          reference actor s)
      ↔ IsAdjustable store_id product_id variant_id delta_qty s
  adjust-iff-IsAdjustable =
      let passes =
        adjust-iff-Passes store_id product_id variant_id delta_qty reason source reference_id
          reference actor s in
      (
        λ run. Passes-IsAdjustable store_id product_id variant_id delta_qty s (passes.0 run),
        λ h. passes.1 (IsAdjustable-Passes store_id product_id variant_id delta_qty s h),
      )
