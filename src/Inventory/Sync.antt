-- ===== src/Inventory/Sync.antt =====
-- `sync_product_stock_cache` of engine/apps/inventory/cache_sync.py: the cached stocks of a store, in
-- batches of products.
use mathlib.Core.Path.{subst, fun_ext}
use mathlib.Core.List.{append_assoc}
use api_paperbase.Base.{
  ℕ, ◌≡◌, refl, sym, ap, ◌∙◌, Bool, true, false, ◌&&◌, ◌||◌, List, [], ◌∷◌, ◌++◌, ◌⊎◌, inl, inr,
  arith, ◌==◌, leb, if◌then◌else◌, Bool-cases, All, any, map, length, sum_by, not, ==_refl,
}
use api_paperbase.Base.Int.{pos}
use api_paperbase.Base.Queries.{filter, update_where, any-update_where}
use api_paperbase.Catalog.{Product}
use api_paperbase.Inventory.{
  Stock, Inventory, clamp_stock, set_stock, expected_stock, row_contribution, in_store,
}
use api_paperbase.Inventory.Total.{IsTotal, expected_stock-IsTotal, All-held}

abbrev pub sync_batch_size : ℕ
sync_batch_size = 750

-- `id__in`
abbrev pub mem : ℕ → List ℕ → Bool
mem k ids = any ids (λ j. j == k)

-- `totals.get(p.id, 0)`: a product without rows is on no row of the grouped query.
unfoldable pub total_for : Stock → ℕ → ℕ → ℕ
total_for s store_id product_id =
    let rows =
      filter (λ (inv : Inventory). inv.product_id == product_id && in_store s store_id inv)
        s.inventories in
    if any rows (λ _. true) then clamp_stock (pos (sum_by (row_contribution s) rows)) else 0

-- A product whose cached stock differs is written.
unfoldable pub reconcile : Stock → ℕ → Product → Product
unfolding set_stock
reconcile s store_id p =
    let expected = total_for s store_id p.id in
    if p.stock == expected then p else set_stock expected p

unfoldable pub sync_product_stock_cache_batch : ℕ → List ℕ → Stock → Stock
sync_product_stock_cache_batch store_id product_ids s = record s {
  products =
      update_where (λ p. p.store_id == store_id && mem p.id product_ids) (reconcile s store_id)
        s.products;
}

-- The loop over the ids, with the batch that has been collected; the last batch may be short.
unfoldable pub sync_loop : ℕ → List ℕ → List ℕ → Stock → Stock
unfolding sync_product_stock_cache_batch
sync_loop store_id [] batch s =
    if any batch (λ _. true) then sync_product_stock_cache_batch store_id batch s else s
sync_loop store_id (pid ∷ pids) batch s =
    let batch' = batch ++ pid ∷ [] in
    let full = leb sync_batch_size (length batch') in
    sync_loop store_id pids (if full then [] else batch')
      (if full then sync_product_stock_cache_batch store_id batch' s else s)

unfoldable pub sync_product_stock_cache : ℕ → Stock → Stock
sync_product_stock_cache store_id s =
    sync_loop store_id
      (map (λ p. p.id) (filter (λ (p : Product). p.store_id == store_id) s.products)) [] s

-- The grouped total is the total that a refresh of one product computes.
total_for-eq :
    (s : Stock) (store_id product_id : ℕ)
    → total_for s store_id product_id ≡ expected_stock s store_id product_id
unfolding total_for expected_stock clamp_stock
total_for-eq s store_id product_id = go (
    filter (λ (inv : Inventory). inv.product_id == product_id && in_store s store_id inv)
      s.inventories)
  where
    go :
        (rows : List Inventory)
        → (if any rows (λ _. true) then clamp_stock (pos (sum_by (row_contribution s) rows)) else 0)
          ≡ clamp_stock (pos (sum_by (row_contribution s) rows))
    go [] = refl
    go (x ∷ rows) = refl

reconcile-frame :
    (s : Stock) (store_id : ℕ) (p : Product)
    → ((reconcile s store_id p).id ≡ p.id)
      × ((reconcile s store_id p).store_id ≡ p.store_id)
      × ((reconcile s store_id p).stock ≡ expected_stock s store_id p.id)
unfolding reconcile
reconcile-frame s store_id p = ground (arith, total_for-eq s store_id p.id)

expected_stock-batch :
    (store_id k : ℕ) (batch : List ℕ) (s : Stock)
    → expected_stock (sync_product_stock_cache_batch store_id batch s) store_id k
      ≡ expected_stock s store_id k
unfolding expected_stock in_store row_contribution sync_product_stock_cache_batch
expected_stock-batch store_id k batch s =
    let test = λ (p : Product). p.store_id == store_id && mem p.id batch in
    let owned =
      λ (inv : Inventory) (p : Product). p.id == inv.product_id && p.store_id == store_id in
    let same : (λ (inv : Inventory).
      any (update_where test (reconcile s store_id) s.products) (owned inv))
        ≡ (λ inv. any s.products (owned inv)) =
      fun_ext (λ inv.
        any-update_where test (reconcile s store_id) (owned inv) s.products
          (λ x. let f = reconcile-frame s store_id x in rw (f.0, f.1))) in
    λ i. clamp_stock (
      pos (
        sum_by (row_contribution s)
          (filter (λ inv. inv.product_id == k && same i inv) s.inventories)))

-- Every product of the store is fresh, or is still on the list.
abbrev Pending : ℕ → (ℕ → ℕ) → List ℕ → List Product → Type 0
Pending store_id expected todo ps =
    All
      (λ (p : Product).
        (p.store_id == store_id) ≡ true → (p.stock ≡ expected p.id) ⊎ (mem p.id todo ≡ true))
      ps

mem-append : (k : ℕ) (xs ys : List ℕ) → mem k (xs ++ ys) ≡ (mem k xs || mem k ys)
mem-append k [] ys = refl
mem-append k (x ∷ xs) ys = ground (arith, mem-append k xs ys)

left_todo : (a b c : Bool) → a ≡ true → (a && b) ≡ false → (b || c) ≡ true → c ≡ true
left_todo a b c ha hab hbc = ground arith

batch-Pending :
    (store_id : ℕ) (batch todo : List ℕ) (s : Stock) (ps : List Product)
    → Pending store_id (expected_stock s store_id) (batch ++ todo) ps
    → Pending store_id
        (expected_stock s store_id)
        todo
        (update_where (λ p. p.store_id == store_id && mem p.id batch) (reconcile s store_id) ps)
batch-Pending store_id batch todo s [] h = tt
batch-Pending store_id batch todo s (p ∷ ps) h =
    let rest = batch-Pending store_id batch todo s ps h.1 in
    let f = reconcile-frame s store_id p in
    elim (Bool-cases (p.store_id == store_id && mem p.id batch)) [
      | inl e ↦ rw e (λ _. inl (f.2 ∙ ap (expected_stock s store_id) (sym f.0)), rest)
      | inr e ↦ rw e (
        λ st. elim (h.0 st) [
          | inl fresh ↦ inl fresh
          | inr m ↦ inr (left_todo _ (mem p.id batch) _ st e (sym (mem-append p.id batch todo) ∙ m))
        ],
        rest,
      )
    ]

abbrev IsPending : ℕ → List ℕ → Stock → Type 0
IsPending store_id todo s = Pending store_id (expected_stock s store_id) todo s.products

sync_batch-IsPending :
    (store_id : ℕ) (batch todo : List ℕ) (s : Stock)
    → IsPending store_id (batch ++ todo) s
    → IsPending store_id todo (sync_product_stock_cache_batch store_id batch s)
unfolding sync_product_stock_cache_batch
sync_batch-IsPending store_id batch todo s h =
    subst (λ f. Pending store_id f todo (sync_product_stock_cache_batch store_id batch s).products)
      (fun_ext (λ k. sym (expected_stock-batch store_id k batch s)))
      (batch-Pending store_id batch todo s s.products h)

sync_loop-IsPending :
    (store_id : ℕ) (pids batch : List ℕ) (s : Stock)
    → IsPending store_id (batch ++ pids) s
    → IsPending store_id [] (sync_loop store_id pids batch s)
unfolding sync_loop
sync_loop-IsPending store_id [] [] s h = h
sync_loop-IsPending store_id [] (k ∷ batch) s h = sync_batch-IsPending store_id (k ∷ batch) [] s h
sync_loop-IsPending store_id (pid ∷ pids) batch s h =
    let batch' = batch ++ pid ∷ [] in
    let h' : IsPending store_id (batch' ++ pids) s =
      subst (λ todo. IsPending store_id todo s) (sym (append_assoc batch (pid ∷ []) pids)) h in
    elim (leb sync_batch_size (length batch'))
      as (λ full. IsPending store_id [] (
        sync_loop store_id pids (if full then [] else batch')
          (if full then sync_product_stock_cache_batch store_id batch' s else s))) [
            | true ↦
                sync_loop-IsPending store_id pids []
                  (sync_product_stock_cache_batch store_id batch' s)
                  (sync_batch-IsPending store_id batch' pids s h')
            | false ↦ sync_loop-IsPending store_id pids batch' s h'
          ]

-- The rows of other stores.
abbrev pub foreign : ℕ → List Product → List Product
foreign store_id ps = filter (λ p. not (p.store_id == store_id)) ps

foreign-update :
    (store_id : ℕ) (batch : List ℕ) (s : Stock) (ps : List Product)
    → foreign store_id
        (update_where (λ p. p.store_id == store_id && mem p.id batch) (reconcile s store_id) ps)
      ≡ foreign store_id ps
foreign-update store_id batch s [] = refl
foreign-update store_id batch s (p ∷ ps) =
    ground (arith, foreign-update store_id batch s ps, reconcile-frame s store_id p)

sync_loop-foreign :
    (store_id : ℕ) (pids batch : List ℕ) (s : Stock)
    → foreign store_id (sync_loop store_id pids batch s).products ≡ foreign store_id s.products
unfolding sync_loop
sync_loop-foreign store_id [] [] s = refl
sync_loop-foreign store_id [] (k ∷ batch) s = foreign-update store_id (k ∷ batch) s s.products
sync_loop-foreign store_id (pid ∷ pids) batch s =
    let batch' = batch ++ pid ∷ [] in
    elim (leb sync_batch_size (length batch'))
      as (λ full.
        foreign store_id
          (sync_loop store_id pids (if full then [] else batch')
            (if full then sync_product_stock_cache_batch store_id batch' s else s)).products
        ≡ foreign store_id s.products) [
          | true ↦
              sync_loop-foreign store_id pids [] (sync_product_stock_cache_batch store_id batch' s)
              ∙ foreign-update store_id batch' s s.products
          | false ↦ sync_loop-foreign store_id pids batch' s
        ]

abbrev ids_of : ℕ → List Product → List ℕ
ids_of store_id ps = map (λ p. p.id) (filter (λ (p : Product). p.store_id == store_id) ps)

mem-ids_of :
    (store_id k : ℕ) (p : Product) (ps : List Product)
    → mem k (ids_of store_id ps) ≡ true
    → mem k (ids_of store_id (p ∷ ps)) ≡ true
mem-ids_of store_id k p ps h = ground arith

mem-ids_of_self :
    (store_id : ℕ) (p : Product) (ps : List Product)
    → (p.store_id == store_id) ≡ true
    → mem p.id (ids_of store_id (p ∷ ps)) ≡ true
mem-ids_of_self store_id p ps h = ground arith

all_listed :
    (store_id : ℕ) (f : ℕ → ℕ) (todo : List ℕ) (ps : List Product)
    → ((k : ℕ) → mem k (ids_of store_id ps) ≡ true → mem k todo ≡ true)
    → Pending store_id f todo ps
all_listed store_id f todo [] h = tt
all_listed store_id f todo (p ∷ ps) h = (
  λ own. inr (h p.id (mem-ids_of_self store_id p ps own)),
  all_listed store_id f todo ps (λ k m. h k (mem-ids_of store_id k p ps m)),
)

none-Pending :
    (store_id : ℕ) (f : ℕ → ℕ) (ps : List Product)
    → Pending store_id f [] ps
    → All (λ (p : Product). (p.store_id == store_id) ≡ true → p.stock ≡ f p.id) ps
none-Pending store_id f [] h = tt
none-Pending store_id f (p ∷ ps) h =
    (λ own. elim (h.0 own) [ inl fresh ↦ fresh | inr m ↦ cc m ], none-Pending store_id f ps h.1)

-- After a full sync the cached stock of every product of the store is the sum of its rows that have
-- no variant or an active one, each and the sum at most 100000, however the products fall into
-- batches, and the products of other stores are as they were.
pub sync-fresh :
    (store_id : ℕ) (s : Stock)
    → let s' = sync_product_stock_cache store_id s in
      All (λ (p : Product). p.store_id ≡ store_id → IsTotal s' p.id p.stock) s'.products
      × (foreign store_id s'.products ≡ foreign store_id s.products)
unfolding sync_product_stock_cache
sync-fresh store_id s =
    let ids = ids_of store_id s.products in
    (
      All-held _ _ (sync_loop store_id ids [] s).products
          (λ p held cached own.
            subst (IsTotal (sync_loop store_id ids [] s) p.id)
              (sym (cached (rw own (==_refl store_id))))
              (expected_stock-IsTotal (sync_loop store_id ids [] s) store_id p held own))
          (none-Pending store_id _ (sync_loop store_id ids [] s).products (
            sync_loop-IsPending store_id ids [] s
              (all_listed store_id (expected_stock s store_id) ids s.products (λ k m. m)))),
      sync_loop-foreign store_id ids [] s,
    )
