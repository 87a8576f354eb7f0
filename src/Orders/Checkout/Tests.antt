-- ===== src/Orders/Checkout/Tests.antt =====
-- The theorems on the checkout, applied to two lines for the same row.
use api_paperbase.Base.{ℕ, ◌≡◌, refl, Bool, ◌&&◌, leb, none, some, [], ◌∷◌, length, arith, All, max}
use api_paperbase.Base.Decimal.{digits_of, to_text}
use api_paperbase.Base.Int.{pos, ◌-ℤ◌}
use api_paperbase.Base.Text.{codes}
use api_paperbase.Base.Results.{value, Delivers, map_ok}
use mathlib.Core.List.{filter_map}
use api_paperbase.Inventory.{
  adjust_inventory_stock, refresh_product_stock_cache, notify_if_low, clamp_stock, add_movement,
  write_quantity, first_recipient, ValidationError,
}
use api_paperbase.Shipping.{quote_shipping}
use api_paperbase.Orders.{Shop}
use api_paperbase.Orders.Tests.{poster, poster_row, prepaid, shop_of, two_posters}
use api_paperbase.Orders.Financials.{preview_lines_to_accounting}
use api_paperbase.Orders.Lifecycle.{items_of}
use api_paperbase.Orders.Totals.{recalculate_order_totals}
use api_paperbase.Orders.Checkout.Preview.{
  placed, none_stored, one_stored, previewed_amounts, stored_amounts, recalculate-eq-preview,
}
use api_paperbase.Orders.Checkout.{RequestLine, CheckoutRequest, minimal}
use api_paperbase.Orders.Checkout.Numbers.{order_number_of, counter_value}
use api_paperbase.Orders.Checkout.Numbers.Read.{IsDigit, read_number, read-order_number}
use api_paperbase.Orders.Checkout.Numbered.{IsNumbered}
use api_paperbase.Orders.Checkout.Numbered.Run.{create-IsNumbered}
use api_paperbase.Orders.Checkout.Ledger.{append_ledger_lines_for_order}
use api_paperbase.Orders.Checkout.Ledger.Once.{IsRecorded, append-IsRecorded}
use api_paperbase.Orders.Checkout.Create.{Call, Outcome, refused, create, new_item}
use api_paperbase.Orders.Checkout.Whole.{IsSold, create-IsSold}

abbrev ascii_digit : ℕ → Bool
ascii_digit c = leb 48 c && leb c 57

abbrev three_posters : RequestLine
three_posters = record { product_public_id = 11; variant_public_id = none; quantity = pos 3 }

abbrev request : CheckoutRequest
request = record {
  shipping_zone_public_id = 12;
  shipping_method_id = none;
  shipping_name = codes " Ada ";
  phone = codes "01700-000000";
  email = [];
  shipping_address = [];
  district = codes "Dhaka";
  products = three_posters ∷ three_posters ∷ [];
}

abbrev call : Call
call = record {
  store_id = 7;
  settings = some minimal;
  now = 500;
  order_id = 20;
  first_item_id = 30;
  customer_id = 40;
}

abbrev before : Shop
before = record (shop_of (record prepaid { order_number = order_number_of 1 } ∷ [])) {
  counters = record { store_id = 7; next_value = 2 } ∷ [];
}

abbrev run : Outcome × Shop
run = value (create ascii_digit call request before) (refused ValidationError.delta_zero, before)

-- The stock was 4, and 6 were sold.
oversold : run.1.stock.inventories ≡ record poster_row { quantity = 0 } ∷ []
unfolding create adjust_inventory_stock quote_shipping filter_map refresh_product_stock_cache
    notify_if_low clamp_stock ◌-ℤ◌ add_movement write_quantity first_recipient
oversold = refl

create-IsSold_example : IsSold ascii_digit call request before run.0 run.1
unfolding create adjust_inventory_stock quote_shipping filter_map refresh_product_stock_cache
    notify_if_low clamp_stock ◌-ℤ◌ add_movement write_quantity first_recipient
create-IsSold_example =
    create-IsSold ascii_digit call request before run.0 run.1 (tt, tt)
      (record { unique = (refl, tt); bounded = (omega arith, tt) }) refl

create-IsNumbered_example : IsNumbered run.1
unfolding create adjust_inventory_stock quote_shipping filter_map refresh_product_stock_cache
    notify_if_low clamp_stock ◌-ℤ◌ add_movement write_quantity first_recipient read_number
    order_number_of counter_value
create-IsNumbered_example =
    create-IsNumbered ascii_digit call request before run.0 run.1
      (record { below = (omega arith, tt); distinct = (tt, tt) }) refl

read-order_number_example :
    (read_number 0 (order_number_of 4200) ≡ 4200)
    × All IsDigit (order_number_of 4200)
    × (length (order_number_of 4200) ≡ max 8 (length (to_text (digits_of 4200))))
read-order_number_example = read-order_number 4200

append-IsRecorded_example :
    Delivers (λ _ shop'. IsRecorded prepaid shop') (append_ledger_lines_for_order prepaid before)
append-IsRecorded_example = append-IsRecorded prepaid before

abbrev stored_shop : Shop
stored_shop = record (shop_of (prepaid ∷ [])) { items = new_item 8 9 poster none 2 ∷ [] }

recalculate-eq-preview_example :
    map_ok stored_amounts (recalculate_order_totals prepaid stored_shop)
    ≡ previewed_amounts
        (preview_lines_to_accounting 7 (two_posters ∷ []) (some 2) (some 1) stored_shop.shipping)
unfolding new_item items_of
recalculate-eq-preview_example =
    recalculate-eq-preview prepaid (two_posters ∷ []) stored_shop (omega arith, tt)
      (one_stored (placed 8 9 2 poster none) none_stored)
