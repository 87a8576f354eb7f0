-- ===== src/Orders/Edits/Tests.antt =====
-- The theorem on edits, applied to an order of one line.
use api_paperbase.Base.{◌≡◌, refl, true, false, none, some, [], ◌∷◌}
use api_paperbase.Base.Int.{pos, neg, ◌-ℤ◌, ◌*ℤ◌}
use api_paperbase.Base.Text.{codes}
use api_paperbase.Base.Results.{value}
use api_paperbase.Inventory.{
  adjust_inventory_stock, refresh_product_stock_cache, notify_if_low, clamp_stock, add_movement,
  write_quantity, first_recipient,
}
use api_paperbase.Money.{money}
use api_paperbase.Shipping.{quote_shipping}
use api_paperbase.Orders.{Order, Shop}
use api_paperbase.Orders.Lifecycle.{apply_order_status_change}
use api_paperbase.Orders.Rollup.{rollup_customer}
use api_paperbase.Orders.Tests.{prepaid, poster_row, shop_of}
use api_paperbase.Orders.Totals.Laws.{IsTotalled}
use api_paperbase.Orders.Edits.{ItemEdit, OrderPatch, update}
use api_paperbase.Orders.Edits.Balanced.{AreBalanced, update-IsTotalled}

abbrev no_patch : OrderPatch
no_patch = record {
  email = none;
  shipping_name = none;
  shipping_address = none;
  phone = some (codes "01700000000");
  district = none;
  shipping_zone_id = none;
  shipping_method_id = none;
}

-- The line of two posters becomes one of three, and a line of one more is added.
abbrev three : ItemEdit
three = record {
  public_id = some 8;
  product_public_id = none;
  remove = false;
  variant_public_id = none;
  quantity = some 3;
  unit_price = none;
}

abbrev one_more : ItemEdit
one_more = record {
  public_id = none;
  product_public_id = some 11;
  remove = false;
  variant_public_id = none;
  quantity = some 1;
  unit_price = some (pos 900);
}

abbrev shop : Shop
shop = shop_of (prepaid ∷ [])

abbrev edited : Order × Shop
edited =
    value (update (some 1) 70 prepaid no_patch (some (three ∷ one_more ∷ [])) shop) (prepaid, shop)

-- The stock was 4; one more went to each of the two lines.
edited_stock : edited.1.stock.inventories ≡ record poster_row { quantity = 2 } ∷ []
unfolding update adjust_inventory_stock quote_shipping refresh_product_stock_cache notify_if_low
    clamp_stock ◌-ℤ◌ ◌*ℤ◌ money add_movement write_quantity first_recipient
edited_stock = refl

-- A cancelled order can be edited: its line goes back to the stock of 4 with the cancellation, and again
-- when it is removed.
abbrev cancelled_order : Order × Shop
cancelled_order =
    value (apply_order_status_change (λ _. false) 200 201 9 (codes "cancelled") shop)
      (prepaid, shop)

abbrev removed : Order × Shop
removed =
    value
      (update (some 1) 70 cancelled_order.0 no_patch (some (record three { remove = true } ∷ []))
        cancelled_order.1)
      cancelled_order

restored_twice : removed.1.stock.inventories ≡ record poster_row { quantity = 8 } ∷ []
unfolding update apply_order_status_change adjust_inventory_stock quote_shipping
    refresh_product_stock_cache notify_if_low clamp_stock ◌-ℤ◌ ◌*ℤ◌ neg money add_movement
    write_quantity first_recipient rollup_customer
restored_twice = refl

update-IsTotalled_example : IsTotalled edited.0 × AreBalanced edited.1
unfolding update adjust_inventory_stock quote_shipping refresh_product_stock_cache notify_if_low
    clamp_stock ◌-ℤ◌ ◌*ℤ◌ money add_movement write_quantity first_recipient
update-IsTotalled_example =
    update-IsTotalled (some 1) 70 prepaid no_patch (some (three ∷ one_more ∷ [])) shop edited.0
      edited.1 (refl, tt) refl
