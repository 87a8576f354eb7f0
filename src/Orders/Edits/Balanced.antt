-- ===== src/Orders/Edits/Balanced.antt =====
-- The amounts of an edited order.
use api_paperbase.Base.{
  ℕ, ◌+◌, ◌≡◌, refl, sym, ap, ◌∙◌, not, Option, none, some, List, [], ◌∷◌, ◌++◌, All, All-append,
  ◌==◌, inl, inr, Bool-cases, if_both, arith,
}
use mathlib.Core.Path.{subst}
use api_paperbase.Base.Int.{pos}
use api_paperbase.Base.Results.{ok, Result-cases}
use api_paperbase.Base.Queries.{filter, find?, update_where, is_some, All-update_where}
use api_paperbase.Base.Order.{filter-All}
use api_paperbase.Base.Tx.{Tx, gets, modify, or_raise}
use api_paperbase.Base.Triples.{
  Triple, pure-after, weaken, gets-after, bind-after, modify-after, or_raise-after, when-after,
}
use api_paperbase.Catalog.{Product, ProductVariant}
use api_paperbase.Inventory.{Stock, ValidationError}
use api_paperbase.Orders.{
  Order, OrderItem, Shop, OrderError, line_removed, item_missing, product_unavailable,
  variant_missing, quantity_missing, order_missing, is_order,
}
use api_paperbase.Orders.Financials.Laws.{IsBalanced}
use api_paperbase.Orders.Lifecycle.{items_of, save_order}
use api_paperbase.Orders.Restore.{adjust_stock, restore_order_item_stock, on_stock}
use api_paperbase.Orders.Totals.{
  line_of, product_of, write_order_item_financials, recalculate_order_totals, save_totals,
}
use api_paperbase.Orders.Totals.Laws.{write-IsBalanced, IsTotalled, recalculate-IsTotalled}
use api_paperbase.Orders.Customers.{attach}
use api_paperbase.Orders.Checkout.Create.{key_of}
use api_paperbase.Orders.Checkout.Finish.{IsFrame, totals-Kept, entry-Kept}
use api_paperbase.Orders.Edits.{
  ItemEdit, OrderPatch, patch_order, find_line, delete_line, record_purchase_adjustment,
  remove_line, move_stock, chosen_price, edited_line, save_line, record_changes, change_line,
  blank_line, add_line, edit_item, edit_items, apply_edits, update, resolve_active_store_product,
  resolve_active_variant_for_product,
}

-- Every stored line is balanced.
abbrev pub AreBalanced : Shop → Type 0
AreBalanced shop = All (λ (i : OrderItem). IsBalanced (line_of i)) shop.items

AreBalanced-IsFrame : IsFrame AreBalanced
unfolding save_totals attach
AreBalanced-IsFrame = record {
  totals = λ pk r quote lines s h. h;
  attached = λ order c s h. if_both AreBalanced _ _ _ h h;
  customers = λ cs s h. h;
  ledger = λ entries s h. h;
  effects = λ e s h. h;
}

abbrev Keeps : {A : Type 0} → Tx Shop OrderError A → Type 0
Keeps m = Triple AreBalanced m (λ _ s. AreBalanced s)

reads : {A : Type 0} (f : Shop → A) → Keeps (gets f)
reads f = weaken _ (gets-after f) (λ a s h. h.1)

finds : {A : Type 0} (o : Option A) (e : OrderError) → Keeps (or_raise o e)
finds o e = weaken _ (or_raise-after o e) (λ a s h. h.1)

stocks : (m : Tx Stock ValidationError (Unit {0})) → Keeps (on_stock m)
stocks m = record {
  after = λ s h a t run. elim (Result-cases (m s.stock)) [
    | inr (e, raised) ↦ cc (run, raised)
    | inl ((_, stock), done) ↦
        let same : record s { stock = stock } ≡ t = cc (run, done) in subst AreBalanced same h
  ];
}

removes :
    (actor : Option ℕ) (order : Order) (existing : List OrderItem) (edit : ItemEdit)
    → Keeps (remove_line actor order existing edit)
unfolding remove_line record_purchase_adjustment delete_line
removes actor order existing edit =
    bind-after _ _ (finds (find_line edit.public_id existing) item_missing) (λ oi.
      bind-after _ _
        (modify-after (record_purchase_adjustment actor order oi.id (line_removed oi)) (λ s h. h))
        (λ _.
          bind-after _ _
            (when-after (is_some oi.product_id)
              (on_stock
                (restore_order_item_stock order.store_id oi.product_id oi.variant_id oi.quantity))
              (stocks
                (restore_order_item_stock order.store_id oi.product_id oi.variant_id oi.quantity))
              (λ s h. h))
            (λ _.
              bind-after _ _
                (modify-after (delete_line oi.id)
                  (λ s h. filter-All _ (λ i. not (i.id == oi.id)) s.items h))
                (λ _. pure-after _ (filter (λ i. not (i.id == oi.id)) existing) (λ s h. h)))))

record_changes-items :
    (actor : Option ℕ) (order : Order) (old new : OrderItem) (s : Shop)
    → (record_changes actor order old new s).items ≡ s.items
unfolding record_changes record_purchase_adjustment
record_changes-items actor order old new s = ground arith

edited-IsBalanced :
    (edit : ItemEdit) (product : Product) (variant : Option ProductVariant) (qty : ℕ)
    (oi : OrderItem)
    → IsBalanced (line_of (edited_line edit product variant qty oi))
unfolding edited_line
edited-IsBalanced edit product variant qty oi =
    write-IsBalanced (record oi { variant_id = key_of variant; quantity = qty }) (some product)
      variant (pos qty) (chosen_price edit product variant) refl

changes :
    (actor : Option ℕ) (order : Order) (existing : List OrderItem) (edit : ItemEdit) (qty : ℕ)
    → Keeps (change_line actor order existing edit qty)
unfolding change_line save_line
changes actor order existing edit qty =
    bind-after _ _ (finds (find_line edit.public_id existing) item_missing) (λ oi.
      bind-after _ _ (reads (λ shop. product_of shop oi)) (λ found.
        bind-after _ _ (finds found product_unavailable) (λ product.
          bind-after _ _
            (reads (λ shop.
              resolve_active_variant_for_product order.store_id product edit.variant_public_id
                shop.stock))
            (λ resolved. bind-after _ _ (finds resolved variant_missing) (λ variant.
              let new = edited_line edit product variant qty oi in
              bind-after _ _ (stocks (move_stock order.store_id oi (key_of variant) qty)) (λ _.
                bind-after _ _
                  (modify-after (save_line new) (λ s h.
                    All-update_where (λ i. i.id == new.id) (λ _. new) _ s.items
                      (λ x _. edited-IsBalanced edit product variant qty oi) h))
                  (λ _.
                    bind-after _ _
                      (modify-after (record_changes actor order oi new) (λ s h.
                        subst (All (λ (i : OrderItem). IsBalanced (line_of i)))
                          (sym (record_changes-items actor order oi new s)) h))
                      (λ _.
                        pure-after _ (update_where (λ i. i.id == new.id) (λ _. new) existing)
                          (λ s h. h)))))))))

adds :
    (item_id : ℕ) (order : Order) (edit : ItemEdit) (qty : ℕ)
    → Keeps (add_line item_id order edit qty)
unfolding add_line blank_line
adds item_id order edit qty =
    bind-after _ _ (finds edit.product_public_id product_unavailable) (λ public_id.
      bind-after _ _
        (reads (λ shop. resolve_active_store_product order.store_id public_id shop.stock))
        (λ found. bind-after _ _ (finds found product_unavailable) (λ product.
          bind-after _ _
            (reads (λ shop.
              resolve_active_variant_for_product order.store_id product edit.variant_public_id
                shop.stock))
            (λ resolved. bind-after _ _ (finds resolved variant_missing) (λ variant.
              let chosen = chosen_price edit product variant in
              let blank = blank_line item_id order product variant chosen qty in
              let oi = write_order_item_financials blank (some product) variant (pos qty) chosen in
              bind-after _ _
                (stocks
                  (adjust_stock (some order.store_id) (some product.id) (key_of variant) (pos qty)))
                (λ _.
                  bind-after _ _
                    (modify-after (λ shop. record shop { items = shop.items ++ oi ∷ [] })
                      (λ s h.
                        All-append _ s.items (oi ∷ []) h (
                          write-IsBalanced blank (some product) variant (pos qty) chosen refl,
                          tt,
                        )))
                    (λ _.
                      bind-after _ _
                        (entry-Kept AreBalanced AreBalanced-IsFrame order oi order.customer_id)
                        (λ _. pure-after _ tt (λ s h. h)))))))))

edits_one :
    (actor : Option ℕ) (item_id : ℕ) (order : Order) (existing : List OrderItem) (edit : ItemEdit)
    → Keeps (edit_item actor item_id order existing edit)
unfolding edit_item
edits_one actor item_id order existing edit =
    if_both Keeps edit.remove _ _ (removes actor order existing edit) (
      bind-after _ _ (finds edit.quantity quantity_missing) (λ qty.
        if_both Keeps (is_some edit.public_id) _ _ (changes actor order existing edit qty)
          (bind-after _ _ (adds item_id order edit qty) (λ _. pure-after _ existing (λ s h. h)))))

edits_all :
    (actor : Option ℕ) (item_id : ℕ) (order : Order) (existing : List OrderItem)
    (edits : List ItemEdit)
    → Keeps (edit_items actor item_id order existing edits)
unfolding edit_items
edits_all actor item_id order existing [] = pure-after _ tt (λ s h. h)
edits_all actor item_id order existing (edit ∷ edits) =
    bind-after _ _ (edits_one actor item_id order existing edit)
      (λ existing'. edits_all actor (item_id + 1) order existing' edits)

applies :
    (actor : Option ℕ) (item_id : ℕ) (order : Order) (edits : Option (List ItemEdit))
    → Keeps (apply_edits actor item_id order edits)
unfolding apply_edits
applies actor item_id order none = pure-after _ tt (λ s h. h)
applies actor item_id order (some edits) =
    bind-after _ _ (reads (items_of order.id))
      (λ existing. edits_all actor item_id order existing edits)

-- The stored lines are balanced, and the totals of the row of an order agree.
abbrev Totalled : ℕ → Shop → Type 0
Totalled pk shop =
    AreBalanced shop × ((row : Order) → find? (is_order pk) shop.orders ≡ some row → IsTotalled row)

row-IsTotalled :
    (pk : ℕ) (f : Order → Order) (orders : List Order) (row : Order)
    → ((o : Order) → IsTotalled (f o))
    → find? (is_order pk) (update_where (is_order pk) f orders) ≡ some row
    → IsTotalled row
row-IsTotalled pk f [] row totalled found = cc found
row-IsTotalled pk f (o ∷ orders) row totalled found = elim (Bool-cases (o.id == pk)) [
  | inr e ↦ row-IsTotalled pk f orders row totalled (cc (found, e))
  | inl e ↦ elim (Bool-cases ((f o).id == pk)) [
    | inl e' ↦ let same : f o ≡ row = cc (found, e, e') in subst IsTotalled same (totalled o)
    | inr e' ↦ row-IsTotalled pk f orders row totalled (cc (found, e, e'))
  ]
]

recalculates :
    (order : Order)
    → Triple AreBalanced (recalculate_order_totals order) (λ _ s. Totalled order.id s)
unfolding items_of
recalculates order = record {
  after = λ s h o t run.
      let kept = (totals-Kept AreBalanced AreBalanced-IsFrame order).after s h o t run in
      let lines = filter-All _ (λ (i : OrderItem). i.order_id == order.id) s.items h in
      let (one, (f, wrote, totalled)) = recalculate-IsTotalled order o s t lines run in
      (
        kept,
        λ row found.
            row-IsTotalled order.id f s.orders row totalled
              (sym (ap (find? (is_order order.id)) wrote) ∙ found),
      );
}

patches : (order : Order) → Keeps (modify (save_order order.id order))
unfolding save_order
patches order = modify-after (save_order order.id order) (λ s h. h)

update-after :
    (actor : Option ℕ) (item_id : ℕ) (instance_ : Order) (patch : OrderPatch)
    (edits : Option (List ItemEdit))
    → Triple AreBalanced
        (update actor item_id instance_ patch edits)
        (λ row s. IsTotalled row × AreBalanced s)
unfolding update
update-after actor item_id instance_ patch edits =
    let order = patch_order patch instance_ in
    bind-after _ _ (patches order) (λ _. bind-after _ _ (applies actor item_id order edits) (λ _.
      bind-after _ _ (recalculates order) (λ _.
        bind-after _ _ (gets-after (λ s. find? (is_order order.id) s.orders)) (λ found.
          weaken _ (or_raise-after found order_missing)
            (λ row s h. (h.1.1.1 row (sym h.1.0 ∙ h.0), h.1.1.0))))))

-- When every stored line is balanced, an edit of an order that succeeds leaves every stored line balanced,
-- the changed and the new ones included, and the totals of the order that it returns agree.
pub update-IsTotalled :
    (actor : Option ℕ) (item_id : ℕ) (order : Order) (patch : OrderPatch)
    (edits : Option (List ItemEdit)) (shop : Shop) (row : Order) (shop' : Shop)
    → AreBalanced shop
    → update actor item_id order patch edits shop ≡ ok (row, shop')
    → IsTotalled row × AreBalanced shop'
update-IsTotalled actor item_id order patch edits shop row shop' h run =
    (update-after actor item_id order patch edits).after shop h row shop' run
