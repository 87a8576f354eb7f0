-- ===== src/Orders/Rollup/Laws.antt =====
-- On `_apply_customer_rollup_on_status_change` of engine/apps/orders/services.py.
use api_paperbase.Base.{
  ℕ, ◌+◌, ◌-◌, max, ◌≡◌, refl, ap, ◌∙◌, false, ◌&&◌, Option, some, List, arith, ◌==◌, if◌then◌else◌,
  ==_refl,
}
use api_paperbase.Base.Int.{ℤ, pos, ◌+ℤ◌, ◌-ℤ◌, ◌≤ℤ◌, ltb_ℤ, int_laws, eq_of_parts}
use api_paperbase.Base.Queries.{find?, find?-update_where}
use api_paperbase.Orders.{Order, OrderStatus, confirmed, cancelled, Customer, Shop}
use api_paperbase.Orders.Rollup.{
  apply_customer_rollup, rollup_customer, count_order, uncount_order, save_customer, save_rollup,
  is_confirmed, is_cancelled,
}

-- The roll-up writes no table but the customers.
pub rollup-frame :
    (now : ℕ) (locked : Order) (from_status to_status : OrderStatus) (shop : Shop)
    → ((apply_customer_rollup now locked from_status to_status shop).orders ≡ shop.orders)
      × ((apply_customer_rollup now locked from_status to_status shop).stock ≡ shop.stock)
      × ((apply_customer_rollup now locked from_status to_status shop).restore_logs
          ≡ shop.restore_logs)
      × ((apply_customer_rollup now locked from_status to_status shop).items ≡ shop.items)
unfolding apply_customer_rollup rollup_customer
rollup-frame now locked from_status to_status shop = ground arith

-- The customer of an order, as the roll-up finds it.
abbrev pub customer_of : Order → ℕ → Shop → Option Customer
customer_of locked pk shop = find? (λ c. c.id == pk && c.store_id == locked.store_id) shop.customers

save_customer-found :
    (locked : Order) (pk : ℕ) (c new : Customer) (shop : Shop)
    → new.id ≡ c.id
    → customer_of locked pk shop ≡ some c
    → customer_of locked pk (save_customer new shop) ≡ some (save_rollup new c)
unfolding save_customer save_rollup
save_customer-found locked pk c new shop same found =
    find?-update_where (λ (x : Customer). x.id == new.id) (save_rollup new)
      (λ c. c.id == pk && c.store_id == locked.store_id) shop.customers (λ x. refl)
    ∙ rw found (rw (same, ==_refl c.id) refl)

module _ (now : ℕ) (locked : Order) (pk : ℕ) (c : Customer) (shop : Shop)
    (owner : locked.customer_id ≡ some pk) (found : customer_of locked pk shop ≡ some c) where
  rolled :
      (from_status to_status : OrderStatus)
      → apply_customer_rollup now locked from_status to_status shop
        ≡ rollup_customer now locked from_status to_status c shop
  unfolding apply_customer_rollup
  rolled from_status to_status = cc (owner, found)

  -- Entering CONFIRMED counts the order and its discounted amount.
  confirm-counts :
      (from_status : OrderStatus)
      → is_confirmed from_status ≡ false
      → customer_of locked pk (apply_customer_rollup now locked from_status confirmed shop)
        ≡ some (save_rollup (count_order now locked c) c)
  unfolding rollup_customer
  confirm-counts from_status h =
      let written : apply_customer_rollup now locked from_status confirmed shop
          ≡ save_customer (count_order now locked c) shop =
        rolled from_status confirmed ∙ rw h refl in
      ap (customer_of locked pk) written
      ∙ save_customer-found locked pk c (count_order now locked c) shop refl found

  -- Cancelling a confirmed order takes it back.
  cancel-counts :
      customer_of locked pk (apply_customer_rollup now locked confirmed cancelled shop)
      ≡ some (save_rollup (uncount_order locked shop.orders c) c)
  unfolding rollup_customer
  cancel-counts =
      ap (customer_of locked pk) (rolled confirmed cancelled)
      ∙ save_customer-found locked pk c (uncount_order locked shop.orders c) shop refl found

  -- The other ways out of CONFIRMED leave the customer as it is.
  back-counts :
      (back : OrderStatus)
      → is_confirmed back ≡ false
      → is_cancelled back ≡ false
      → apply_customer_rollup now locked confirmed back shop ≡ shop
  unfolding rollup_customer
  back-counts back hb hc = rolled confirmed back ∙ rw (hb, hc) refl

add_sub : (x y : ℤ) → x +ℤ y -ℤ y ≡ x
add_sub x y = eq_of_parts _ _ (omega int_laws)

back_to : (n : ℕ) → max (n + 1 - 1) 0 ≡ n
back_to n = ground arith

clamped : (x : ℤ) → pos 0 ≤ℤ x → (if ltb_ℤ x (pos 0) then pos 0 else x) ≡ x
clamped x h = ground arith

-- The number of orders and the amount of a customer, as the roll-up keeps them.
abbrev pub totals : Customer → ℕ × ℤ
totals c = (c.total_orders, c.total_spent)

uncount-count :
    (now : ℕ) (locked : Order) (orders : List Order) (c : Customer)
    → pos 0 ≤ℤ c.total_spent
    → totals
        (save_rollup (uncount_order locked orders (save_rollup (count_order now locked c) c)) c)
      ≡ totals c
unfolding uncount_order count_order save_rollup
uncount-count now locked orders c h =
    rw (add_sub c.total_spent locked.subtotal_after_discount, clamped c.total_spent h)
      (ap (λ (n : ℕ). (n, c.total_spent)) (back_to c.total_orders))

module _ (now now' : ℕ) (locked : Order) (pk : ℕ) (c : Customer) (shop : Shop)
    (owner : locked.customer_id ≡ some pk) (found : customer_of locked pk shop ≡ some c) where
  -- Confirming an order of a customer and then cancelling it leaves the customer's number of orders
  -- and amount as they were, if the amount was not negative.
  pub cancel-confirm :
      (from_status : OrderStatus)
      → is_confirmed from_status ≡ false
      → pos 0 ≤ℤ c.total_spent
      → let shop' = apply_customer_rollup now locked from_status confirmed shop in
        (c' : Customer) × (customer_of locked pk
            (apply_customer_rollup now' locked confirmed cancelled shop')
          ≡ some c')
        × (totals c' ≡ totals c)
  unfolding save_rollup
  cancel-confirm from_status h paid =
      let shop' = apply_customer_rollup now locked from_status confirmed shop in
      let first = confirm-counts now locked pk c shop owner found from_status h in
      let counted = save_rollup (count_order now locked c) c in
      (
        save_rollup (uncount_order locked shop'.orders counted) counted,
        cancel-counts now' locked pk counted shop' owner first,
        uncount-count now locked shop'.orders c paid,
      )

  -- An order that is confirmed, sent back to another status but CANCELLED, and confirmed again is
  -- counted twice: the customer's number of orders grows by two, and the amount by twice the order's.
  pub confirm-twice :
      (from_status back : OrderStatus)
      → is_confirmed from_status ≡ false
      → is_confirmed back ≡ false
      → is_cancelled back ≡ false
      → let shop' = apply_customer_rollup now locked from_status confirmed shop in
        let shop'' = apply_customer_rollup now' locked confirmed back shop' in
        (c' : Customer) × (customer_of locked pk
            (apply_customer_rollup now' locked back confirmed shop'')
          ≡ some c')
        × (c'.total_orders ≡ c.total_orders + 2)
        × (c'.total_spent
            ≡ c.total_spent +ℤ locked.subtotal_after_discount +ℤ locked.subtotal_after_discount)
  unfolding save_rollup count_order
  confirm-twice from_status back h hb hc =
      let shop' = apply_customer_rollup now locked from_status confirmed shop in
      let counted = save_rollup (count_order now locked c) c in
      let first = confirm-counts now locked pk c shop owner found from_status h in
      let idle = back-counts now' locked pk counted shop' owner first back hb hc in
      (
        save_rollup (count_order now' locked counted) counted,
        rw idle (confirm-counts now' locked pk counted shop' owner first back hb),
        omega arith,
        refl,
      )
