-- ===== src/Orders/Restore.antt =====
-- Returning the stock of a cancelled order (engine/apps/orders/stock.py, and
-- `restore_order_item_stock` and `_restore_stock_for_cancellation` of
-- engine/apps/orders/services.py). `conflict` says for which lines another transaction writes the
-- log between the lookup and the insert, so that `get_or_create` raises an IntegrityError.
pub mod Once
use api_paperbase.Base.{
  ℕ, Bool, true, false, not, ◌&&◌, Option, none, some, List, [], ◌∷◌, ◌++◌, any, ltb, ◌==◌,
  if◌then◌else◌,
}
use api_paperbase.Base.Int.{ℤ, pos, neg, ltb_ℤ}
use api_paperbase.Base.Text.{Text, codes}
use api_paperbase.Base.Queries.{update_where}
use api_paperbase.Base.Results.{Result, ok, err}
use api_paperbase.Base.Tx.{Tx, pure, raise, gets, modify, when, ◌>>=◌, ◌>>◌}
use api_paperbase.Inventory.{
  Stock, ValidationError, store_required, Reason, sale, return, Source, Inventory,
  adjust_inventory_stock,
}
use api_paperbase.Orders.{Order, OrderItem, StockRestoreLog, Shop, OrderError, stock_error}

-- `adjust_stock` of orders/stock.py. A `store_id` of None is refused.
unfoldable pub adjust_stock :
    Option ℕ → Option ℕ → Option ℕ → ℤ → Tx Stock ValidationError (Unit {0})
adjust_stock none product_id variant_id delta_qty = raise store_required
adjust_stock (some store_id) product_id variant_id delta_qty = do
  adjust_inventory_stock store_id product_id variant_id (some delta_qty)
      (if ltb_ℤ (pos 0) delta_qty then sale else return) Source.order []
      (codes "order-item-adjustment") none
  pure tt

-- Code of the inventory, run in a transaction of the orders.
abbrev pub on_stock : {A : Type 0} → Tx Stock ValidationError A → Tx Shop OrderError A
on_stock m shop = elim (m shop.stock) [
  | err e ↦ err (stock_error e)
  | ok (a, s) ↦ ok (a, record shop { stock = s })
]

unfoldable pub restore_order_item_stock :
    ℕ → Option ℕ → Option ℕ → ℕ → Tx Stock ValidationError (Unit {0})
unfolding adjust_stock
restore_order_item_stock store_id product_id variant_id quantity =
    adjust_stock (some store_id) product_id variant_id (neg (pos quantity))

-- The columns of the unique constraint; CANCELLED is the only reason.
abbrev pub is_log_of : ℕ → ℕ → StockRestoreLog → Bool
is_log_of order_id item_id log = log.order_id == order_id && log.order_item_id == item_id

unfoldable pub log_of : Order → OrderItem → StockRestoreLog
log_of locked item = record {
  order_id = locked.id;
  order_item_id = item.id;
  store_id = locked.store_id;
  quantity = item.quantity;
}

-- `restore_log.quantity = …; restore_log.save(…)`
unfoldable pub save_quantity : Order → OrderItem → List StockRestoreLog → List StockRestoreLog
save_quantity locked item logs =
    update_where (is_log_of locked.id item.id) (λ log. record log { quantity = item.quantity }) logs

-- One turn of the loop of `_restore_stock_for_cancellation`, when the log is not there yet.
unfoldable pub restore_item : Order → OrderItem → Tx Shop OrderError (Unit {0})
unfolding restore_order_item_stock log_of save_quantity
restore_item locked item = do
  let restore_log = log_of locked item
  modify (λ shop. record shop { restore_logs = shop.restore_logs ++ restore_log ∷ [] })
  on_stock (restore_order_item_stock locked.store_id item.product_id item.variant_id item.quantity)
  when (not (restore_log.quantity == item.quantity))
      (modify (λ shop. record shop { restore_logs = save_quantity locked item shop.restore_logs }))

-- `_restore_stock_for_cancellation`, on the prefetched lines of the order.
unfoldable pub restore_items : (ℕ → Bool) → Order → List OrderItem → Tx Shop OrderError (Unit {0})
unfolding restore_item
restore_items conflict locked [] = pure tt
restore_items conflict locked (item ∷ items) = do
  logged ← gets (λ shop. any shop.restore_logs (is_log_of locked.id item.id))
  when (not logged && not (conflict item.id)) (restore_item locked item)
  restore_items conflict locked items
