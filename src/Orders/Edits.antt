-- ===== src/Orders/Edits.antt =====
-- Editing an order and its lines from the dashboard (`AdminOrderUpdateSerializer.update` of
-- engine/apps/orders/admin_serializers.py, `record_purchase_adjustment` of purchase_ledger_service.py and
-- the lookups of services.py). `actor` is the logged-in user, and `item_id` the key of the next new line. A
-- line that an edit removed is not in `existing` any more: the source raises when it saves it again.
pub mod Balanced
mod Tests
use api_paperbase.Base.{
  ℕ, ◌+◌, Bool, true, false, not, ◌&&◌, Option, none, some, List, [], ◌∷◌, ◌++◌, any, ◌==◌, opt_eq,
  if◌then◌else◌,
}
use api_paperbase.Base.Int.{ℤ, pos, neg, ◌-ℤ◌, eqb_ℤ}
use api_paperbase.Base.Text.{Text}
use api_paperbase.Base.Queries.{filter, find?, update_where, is_some}
use api_paperbase.Base.Tx.{Tx, pure, gets, modify, or_raise, when, ◌>>=◌, ◌>>◌}
use api_paperbase.Money.{money, cents}
use api_paperbase.Catalog.{Product, ProductVariant, unit_price_for_line}
use api_paperbase.Inventory.{Stock, ValidationError}
use api_paperbase.Orders.{
  Order, OrderItem, Shop, OrderError, PurchaseLedgerAdjustment, LedgerChange, line_removed,
  variant_changed, quantity_changed, unit_price_changed, item_missing, product_unavailable,
  variant_missing, quantity_missing, order_missing, is_order,
}
use api_paperbase.Orders.Lifecycle.{items_of, save_order}
use api_paperbase.Orders.Restore.{adjust_stock, restore_order_item_stock, on_stock}
use api_paperbase.Orders.Totals.{product_of, write_order_item_financials, recalculate_order_totals}
use api_paperbase.Orders.Checkout.{is_sold}
use api_paperbase.Orders.Checkout.Create.{key_of}
use api_paperbase.Orders.Checkout.Ledger.{append_ledger_line_for_order_item}

-- `AdminOrderItemUpdateSerializer`, with a blank variant read as none.
pub record ItemEdit : Type 0 where
  pub public_id : Option ℕ
  pub product_public_id : Option ℕ
  pub remove : Bool
  pub variant_public_id : Option ℕ
  pub quantity : Option ℕ
  pub unit_price : Option ℤ

-- The fields of the order that are given.
pub record OrderPatch : Type 0 where
  pub email : Option Text
  pub shipping_name : Option Text
  pub shipping_address : Option Text
  pub phone : Option Text
  pub district : Option Text
  pub shipping_zone_id : Option ℕ
  pub shipping_method_id : Option (Option ℕ)

abbrev pub given {ℓ} : {A : Type ℓ} → Option A → A → A
given none old = old
given (some new) old = new

-- `setattr` for each of them.
unfoldable pub patch_order : OrderPatch → Order → Order
patch_order patch o = record o {
  email = given patch.email o.email;
  shipping_name = given patch.shipping_name o.shipping_name;
  shipping_address = given patch.shipping_address o.shipping_address;
  phone = given patch.phone o.phone;
  district = given patch.district o.district;
  shipping_zone_id = elim patch.shipping_zone_id [ none ↦ o.shipping_zone_id | some k ↦ some k ];
  shipping_method_id = given patch.shipping_method_id o.shipping_method_id;
}

unfoldable pub resolve_active_store_product : ℕ → ℕ → Stock → Option Product
unfolding is_sold
resolve_active_store_product store_id public_id s =
    find? (λ p. p.public_id == public_id && is_sold store_id p) s.products

-- `none` where it raises.
unfoldable pub resolve_active_variant_for_product :
    ℕ → Product → Option ℕ → Stock → Option (Option ProductVariant)
unfolding is_sold
resolve_active_variant_for_product store_id product none s = some none
resolve_active_variant_for_product store_id product (some public_id) s =
    elim (find?
      (λ v.
        v.public_id == public_id
        && v.product_id == product.id
        && any s.products (λ p. p.id == v.product_id && is_sold store_id p)
        && v.is_active)
      s.variants) [ none ↦ none | some v ↦ some (some v) ]

unfoldable pub record_purchase_adjustment : Option ℕ → Order → ℕ → LedgerChange → Shop → Shop
record_purchase_adjustment actor order item_id change shop = record shop {
  adjustments =
      shop.adjustments
      ++ record {
        store_id = order.store_id;
        customer_id = order.customer_id;
        order_id = order.id;
        order_item_id = item_id;
        change = change;
        created_by = actor;
      }
        ∷ [];
}

abbrev pub is_item : ℕ → OrderItem → Bool
is_item k i = i.id == k

abbrev pub find_line : Option ℕ → List OrderItem → Option OrderItem
find_line none existing = none
find_line (some k) existing = find? (is_item k) existing

unfoldable pub delete_line : ℕ → Shop → Shop
delete_line k shop = record shop { items = filter (λ i. not (i.id == k)) shop.items }

unfoldable pub remove_line :
    Option ℕ → Order → List OrderItem → ItemEdit → Tx Shop OrderError (List OrderItem)
unfolding record_purchase_adjustment restore_order_item_stock delete_line
remove_line actor order existing edit = do
  oi ← or_raise (find_line edit.public_id existing) item_missing
  modify (record_purchase_adjustment actor order oi.id (line_removed oi))
  when (is_some oi.product_id)
      (on_stock (restore_order_item_stock order.store_id oi.product_id oi.variant_id oi.quantity))
  modify (delete_line oi.id)
  pure (filter (λ i. not (i.id == oi.id)) existing)

-- The adjustments of an edited line.
unfoldable pub move_stock : ℕ → OrderItem → Option ℕ → ℕ → Tx Stock ValidationError (Unit {0})
unfolding adjust_stock
move_stock store_id oi new_variant_id qty =
    if opt_eq oi.variant_id new_variant_id
    then when (not (qty == oi.quantity))
        (adjust_stock (some store_id) oi.product_id oi.variant_id (pos qty -ℤ pos oi.quantity))
    else (adjust_stock (some store_id) oi.product_id oi.variant_id (neg (pos oi.quantity))
        >> adjust_stock (some store_id) oi.product_id new_variant_id (pos qty))

-- `chosen`
unfoldable pub chosen_price : ItemEdit → Product → Option ProductVariant → ℤ
unfolding unit_price_for_line
chosen_price edit product variant = elim edit.unit_price [
  | none ↦ unit_price_for_line product variant
  | some price ↦ money (cents price)
]

unfoldable pub edited_line : ItemEdit → Product → Option ProductVariant → ℕ → OrderItem → OrderItem
unfolding chosen_price write_order_item_financials
edited_line edit product variant qty oi =
    write_order_item_financials (record oi { variant_id = key_of variant; quantity = qty })
      (some product) variant (pos qty) (chosen_price edit product variant)

unfoldable pub save_line : OrderItem → Shop → Shop
save_line oi shop = record shop { items = update_where (is_item oi.id) (λ _. oi) shop.items }

-- The three adjustments that an edit may record; the variants are told apart by their keys.
unfoldable pub record_changes : Option ℕ → Order → OrderItem → OrderItem → Shop → Shop
unfolding record_purchase_adjustment
record_changes actor order old new shop =
    let log = λ (b : Bool) (change : LedgerChange) (s : Shop).
      if b then record_purchase_adjustment actor order new.id change s else s in
    log (not (eqb_ℤ old.unit_price new.unit_price))
      (unit_price_changed old.unit_price new.unit_price)
      (log (not (old.quantity == new.quantity)) (quantity_changed old.quantity new.quantity) (
        log (not (opt_eq old.variant_id new.variant_id))
          (variant_changed old.variant_id new.variant_id) shop))

unfoldable pub change_line :
    Option ℕ → Order → List OrderItem → ItemEdit → ℕ → Tx Shop OrderError (List OrderItem)
unfolding product_of resolve_active_variant_for_product move_stock edited_line save_line
    record_changes
change_line actor order existing edit qty = do
  oi ← or_raise (find_line edit.public_id existing) item_missing
  found ← gets (λ shop. product_of shop oi)
  product ← or_raise found product_unavailable
  resolved ← gets (λ shop.
      resolve_active_variant_for_product order.store_id product edit.variant_public_id shop.stock)
  variant ← or_raise resolved variant_missing
  on_stock (move_stock order.store_id oi (key_of variant) qty)
  let new = edited_line edit product variant qty oi
  modify (save_line new)
  modify (record_changes actor order oi new)
  pure (update_where (is_item new.id) (λ _. new) existing)

-- `OrderItem(…)` before its amounts are written.
unfoldable pub blank_line : ℕ → Order → Product → Option ProductVariant → ℤ → ℕ → OrderItem
blank_line item_id order product variant chosen qty = record {
  id = item_id;
  order_id = order.id;
  product_id = some product.id;
  variant_id = key_of variant;
  quantity = qty;
  unit_price_snapshot = chosen;
  unit_price = pos 0;
  original_price = pos 0;
  discount_amount = pos 0;
  line_subtotal = pos 0;
  line_total = pos 0;
}

unfoldable pub add_line : ℕ → Order → ItemEdit → ℕ → Tx Shop OrderError (Unit {0})
unfolding resolve_active_store_product resolve_active_variant_for_product adjust_stock chosen_price
    blank_line write_order_item_financials append_ledger_line_for_order_item
add_line item_id order edit qty = do
  public_id ← or_raise edit.product_public_id product_unavailable
  found ← gets (λ shop. resolve_active_store_product order.store_id public_id shop.stock)
  product ← or_raise found product_unavailable
  resolved ← gets (λ shop.
      resolve_active_variant_for_product order.store_id product edit.variant_public_id shop.stock)
  variant ← or_raise resolved variant_missing
  on_stock (adjust_stock (some order.store_id) (some product.id) (key_of variant) (pos qty))
  let chosen = chosen_price edit product variant
  let oi =
      write_order_item_financials (blank_line item_id order product variant chosen qty)
        (some product) variant (pos qty) chosen
  modify (λ shop. record shop { items = shop.items ++ oi ∷ [] })
  append_ledger_line_for_order_item order oi order.customer_id
  pure tt

-- One turn of the loop over the edits; its value is `existing` afterwards.
unfoldable pub edit_item :
    Option ℕ → ℕ → Order → List OrderItem → ItemEdit → Tx Shop OrderError (List OrderItem)
unfolding remove_line change_line add_line
edit_item actor item_id order existing edit =
    if edit.remove
    then remove_line actor order existing edit
    else (or_raise edit.quantity quantity_missing >>= λ qty.
        if is_some edit.public_id
        then change_line actor order existing edit qty
        else (add_line item_id order edit qty >> pure existing))

unfoldable pub edit_items :
    Option ℕ → ℕ → Order → List OrderItem → List ItemEdit → Tx Shop OrderError (Unit {0})
unfolding edit_item
edit_items actor item_id order existing [] = pure tt
edit_items actor item_id order existing (edit ∷ edits) =
    edit_item actor item_id order existing edit >>= λ existing'.
    edit_items actor (item_id + 1) order existing' edits

-- `if items is None` and the loop.
unfoldable pub apply_edits :
    Option ℕ → ℕ → Order → Option (List ItemEdit) → Tx Shop OrderError (Unit {0})
unfolding edit_items items_of
apply_edits actor item_id order none = pure tt
apply_edits actor item_id order (some edits) = do
  existing ← gets (items_of order.id)
  edit_items actor item_id order existing edits

-- `AdminOrderUpdateSerializer.update`; its value is the order's row.
unfoldable pub update :
    Option ℕ → ℕ → Order → OrderPatch → Option (List ItemEdit) → Tx Shop OrderError Order
unfolding patch_order save_order apply_edits recalculate_order_totals
update actor item_id instance patch edits = do
  let order = patch_order patch instance
  modify (save_order order.id order)
  apply_edits actor item_id order edits
  recalculate_order_totals order
  row ← gets (λ shop. find? (is_order order.id) shop.orders)
  or_raise row order_missing
