-- ===== src/Inventory/Total.antt =====
-- The stock of a product, counted from its rows (the docstring of engine/apps/inventory/
-- cache_sync.py): a row without a variant or with an active one counts, up to the limit of a row.
use mathlib.Core.List.{Memᴰ}
use api_paperbase.Base.{
  ℕ, ◌+◌, ◌≡◌, refl, sym, ◌⊎◌, inl, inr, Bool, true, ◌&&◌, ◌||◌, none, some, List, [], ◌∷◌, min,
  any, sum_by, ◌==◌, ==→eq, ==_refl, opt_eq, opt_eq→eq, arith, Bool-cases, All,
}
use mathlib.Core.Path.{subst}
use api_paperbase.Base.Queries.{filter, find?-test}
use api_paperbase.Base.Greatest.{found_of_any, find?-Mem, any-Mem}
use api_paperbase.Catalog.{Product, ProductVariant}
use api_paperbase.Inventory.{
  Stock, Inventory, has_active_variant, in_store, row_contribution, expected_stock, clamp_stock,
}

-- The row is sold: it has no variant, or an active one.
abbrev pub IsSellable : Stock → Inventory → Type 0
IsSellable s inv =
    (inv.variant_id ≡ none)
    ⊎ ((v : ProductVariant) × (Memᴰ v s.variants
          × ((inv.variant_id ≡ some v.id) × (v.is_active ≡ true))))

-- `n` is the sum over the rows of the product that are sold, each at most the limit.
pub data IsSum (s : Stock) (product_id : ℕ) : List Inventory → ℕ → Type 0 where
  none_left : IsSum s product_id [] 0
  of_other :
      {inv : Inventory} {rows : List Inventory} {n : ℕ}
      → (inv.product_id ≡ product_id → ⊥)
      → IsSum s product_id rows n
      → IsSum s product_id (inv ∷ rows) n
  unsold :
      {inv : Inventory} {rows : List Inventory} {n : ℕ}
      → (IsSellable s inv → ⊥)
      → IsSum s product_id rows n
      → IsSum s product_id (inv ∷ rows) n
  counted :
      {inv : Inventory} {rows : List Inventory} {n : ℕ}
      → inv.product_id ≡ product_id
      → IsSellable s inv
      → IsSum s product_id rows n
      → IsSum s product_id (inv ∷ rows) (min inv.quantity 100000 + n)

-- `n` is the stock of the product: that sum, or the limit of a product where it is more.
abbrev pub IsTotal : Stock → ℕ → ℕ → Type 0
IsTotal s product_id n = (m : ℕ) × (IsSum s product_id s.inventories m × (n ≡ min m 100000))

-- What the query's condition on the variant decides.
sellable : Stock → Inventory → Bool
sellable s inv = opt_eq inv.variant_id none || has_active_variant s inv

sellable-IsSellable : (s : Stock) (inv : Inventory) → sellable s inv ≡ true → IsSellable s inv
unfolding sellable has_active_variant
sellable-IsSellable s inv h = elim (Bool-cases (opt_eq inv.variant_id none)) [
  | inl e ↦ inl (opt_eq→eq inv.variant_id none e)
  | inr e ↦
      let active_of = λ (v : ProductVariant). opt_eq inv.variant_id (some v.id) && v.is_active in
      let (v, found) = found_of_any active_of s.variants (cc (h, e)) in
      let test = find?-test active_of v s.variants found in
      inr (
        v,
        (
          find?-Mem active_of v s.variants found,
          (opt_eq→eq inv.variant_id (some v.id) (ground (arith, test)), ground (arith, test)),
        ),
      )
]

IsSellable-sellable : (s : Stock) (inv : Inventory) → IsSellable s inv → sellable s inv ≡ true
unfolding sellable has_active_variant
IsSellable-sellable s inv (inl e) = rw e refl
IsSellable-sellable s inv (inr (v, (m, (e, a)))) =
    let active_of = λ (w : ProductVariant). opt_eq inv.variant_id (some w.id) && w.is_active in
    let known = any-Mem active_of v s.variants m (rw (e, a, ==_refl v.id) refl) in
    rw known (ground arith)

row-IsSum :
    (s : Stock) (product_id n : ℕ) (inv : Inventory) (rows : List Inventory)
    → inv.product_id ≡ product_id
    → IsSum s product_id rows n
    → IsSum s product_id (inv ∷ rows) (row_contribution s inv + n)
unfolding row_contribution sellable
row-IsSum s product_id n inv rows own rest = elim (Bool-cases (sellable s inv)) [
  | inl e ↦ rw e (counted own (sellable-IsSellable s inv e) rest)
  | inr e ↦ rw e (
      subst (IsSum s product_id (inv ∷ rows)) (omega arith)
        (unsold (λ k. cc (e, IsSellable-sellable s inv k)) rest))
]

in_store_of :
    (s : Stock) (store_id product_id : ℕ) (inv : Inventory)
    → inv.product_id ≡ product_id
    → any s.products (λ p. p.id == product_id && p.store_id == store_id) ≡ true
    → in_store s store_id inv ≡ true
unfolding in_store
in_store_of s store_id product_id inv own =
    subst (λ k. any s.products (λ p. p.id == k && p.store_id == store_id) ≡ true) (sym own)

sum-IsSum :
    (s : Stock) (store_id product_id : ℕ) (rows : List Inventory)
    → any s.products (λ p. p.id == product_id && p.store_id == store_id) ≡ true
    → IsSum s product_id rows (
        sum_by
          (row_contribution s)
          (filter (λ inv. inv.product_id == product_id && in_store s store_id inv) rows))
sum-IsSum s store_id product_id [] h = none_left
sum-IsSum s store_id product_id (inv ∷ rows) h =
    let rest = sum-IsSum s store_id product_id rows h in
    elim (Bool-cases (inv.product_id == product_id)) [
      | inl e ↦
          let own = ==→eq inv.product_id product_id e in
          let present : in_store s store_id inv ≡ true =
            in_store_of s store_id product_id inv own h in
          rw (e, present) (row-IsSum s product_id _ inv rows own rest)
      | inr e ↦ rw e (of_other (λ own. cc (e, same_id own)) rest)
    ]
  where
    same_id : inv.product_id ≡ product_id → (inv.product_id == product_id) ≡ true
    same_id own = rw own (==_refl product_id)

-- What a refresh writes to a product of the store is its stock.
pub expected_stock-IsTotal :
    (s : Stock) (store_id : ℕ) (p : Product)
    → Memᴰ p s.products
    → p.store_id ≡ store_id
    → IsTotal s p.id (expected_stock s store_id p.id)
unfolding expected_stock clamp_stock
expected_stock-IsTotal s store_id p held own =
    let present =
      any-Mem (λ (q : Product). q.id == p.id && q.store_id == store_id) p s.products held
        (rw (own, ==_refl p.id, ==_refl store_id) refl) in
    let n =
      sum_by (row_contribution s)
        (filter (λ inv. inv.product_id == p.id && in_store s store_id inv) s.inventories) in
    (n, (sum-IsSum s store_id p.id s.inventories present, ground arith))

pub All-held :
    {A : Type 0} (P Q : A → Type 0) (xs : List A)
    → ((x : A) → Memᴰ x xs → P x → Q x)
    → All P xs
    → All Q xs
All-held P Q [] f h = tt
All-held P Q (x ∷ xs) f h =
    (f x (Memᴰ.head refl) h.0, All-held P Q xs (λ y m. f y (Memᴰ.tail m)) h.1)
