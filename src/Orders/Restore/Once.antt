-- ===== src/Orders/Restore/Once.antt =====
-- On `_restore_stock_for_cancellation` of engine/apps/orders/services.py.
use api_paperbase.Base.{
  ℕ, ◌+◌, ◌≡◌, refl, ◌∙◌, Bool, true, false, not, ◌&&◌, none, some, if◌then◌else◌, List, [], ◌∷◌,
  ◌++◌, any, All, length, arith, Bool-cases, inl, inr, ==_refl, any-append, length-append,
}
use mathlib.Core.Path.{subst}
use api_paperbase.Base.Int.{pos, neg, ltb_ℤ}
use api_paperbase.Base.Text.{codes}
use api_paperbase.Base.Results.{ok, Result-cases}
use api_paperbase.Base.Tx.{Tx}
use api_paperbase.Inventory.{
  Stock, Inventory, ValidationError, Source, sale, return, adjust_inventory_stock,
}
use api_paperbase.Inventory.Adjust.{adjust-Success}
use api_paperbase.Inventory.Bounds.{IsBounded, adjust-IsBounded}
use api_paperbase.Orders.{Order, OrderItem, StockRestoreLog, Shop}
use api_paperbase.Orders.Restore.{
  is_log_of, log_of, restore_item, restore_items, restore_order_item_stock,
}

-- What the restoration of one line has written, and what it left alone.
pub record Restored (locked : Order) (item : OrderItem) (shop shop' : Shop) : Type 0 where
  pub logged : shop'.restore_logs ≡ shop.restore_logs ++ log_of locked item ∷ []
  pub adjusted :
      restore_order_item_stock locked.store_id item.product_id item.variant_id item.quantity
        shop.stock
      ≡ ok (tt, shop'.stock)
  pub orders : shop'.orders ≡ shop.orders
  pub items : shop'.items ≡ shop.items
  pub customers : shop'.customers ≡ shop.customers

pub restore_item-Restored :
    (locked : Order) (item : OrderItem) (shop shop' : Shop)
    → restore_item locked item shop ≡ ok (tt, shop')
    → Restored locked item shop shop'
unfolding restore_item
restore_item-Restored locked item shop shop' h =
    elim (Result-cases (
      restore_order_item_stock locked.store_id item.product_id item.variant_id item.quantity
        shop.stock)) [
          | inl ((_, s), e) ↦
              let same = ==_refl item.quantity in
              let done : Shop = record shop {
                restore_logs = shop.restore_logs ++ log_of locked item ∷ [];
                stock = s;
              } in
              let written : done ≡ shop' = cc (h, e, same) in
              subst (Restored locked item shop) written (record {
                logged = refl;
                adjusted = e;
                orders = refl;
                items = refl;
                customers = refl;
              })
          | inr (_, e) ↦ cc (h, e)
        ]

-- The adjustment behind a restored line.
abbrev adjustment : Order → OrderItem → Tx Stock ValidationError Inventory
adjustment locked item =
    adjust_inventory_stock locked.store_id item.product_id item.variant_id
      (some (neg (pos item.quantity)))
      (if ltb_ℤ (pos 0) (neg (pos item.quantity)) then sale else return) Source.order []
      (codes "order-item-adjustment") none

adjusted_stock :
    (locked : Order) (item : OrderItem) (s s' : Stock)
    → restore_order_item_stock locked.store_id item.product_id item.variant_id item.quantity s
      ≡ ok (tt, s')
    → (r : Inventory) × (adjustment locked item s ≡ ok (r, s'))
unfolding restore_order_item_stock
adjusted_stock locked item s s' h = elim (Result-cases (adjustment locked item s)) [
  | inl ((r, t), e) ↦ (r, cc (h, e))
  | inr (_, e) ↦ cc (h, e)
]

-- What holds of no step, of the restoration of one line, and of two steps in turn, holds of the loop.
module _ (R : Shop → Shop → Type 0) (locked : Order) (conflict : ℕ → Bool) where
  pub restore_items-induct :
      ((shop : Shop) → R shop shop)
      → ((a b c : Shop) → R a b → R b c → R a c)
      → ((item : OrderItem) (a b : Shop) → Restored locked item a b → R a b)
      → (items : List OrderItem) (shop shop' : Shop)
      → restore_items conflict locked items shop ≡ ok (tt, shop')
      → R shop shop'
  unfolding restore_items
  restore_items-induct idle next turn [] shop shop' h =
      let same : shop ≡ shop' = cc h in subst (R shop) same (idle shop)
  restore_items-induct idle next turn (item ∷ items) shop shop' h =
      let rest = restore_items-induct idle next turn items in
      elim (Bool-cases
        (not (any shop.restore_logs (is_log_of locked.id item.id)) && not (conflict item.id))) [
          | inl e ↦ elim (Result-cases (restore_item locked item shop)) [
            | inl ((_, mid), r) ↦
                next shop mid shop'
                  (turn item shop mid (restore_item-Restored locked item shop mid r))
                  (rest mid shop' (cc (h, e, r)))
            | inr (_, r) ↦ cc (h, e, r)
          ]
          | inr e ↦ rest shop shop' (cc (h, e))
        ]

module _ (locked : Order) (conflict : ℕ → Bool) (items : List OrderItem) (shop shop' : Shop)
    (run : restore_items conflict locked items shop ≡ ok (tt, shop')) where
  -- The tables that the restoration does not write.
  pub restore_items-frame :
      (shop'.orders ≡ shop.orders) × (shop'.items ≡ shop.items) × (shop'.customers ≡ shop.customers)
  restore_items-frame =
      restore_items-induct
        (λ a b. (b.orders ≡ a.orders) × (b.items ≡ a.items) × (b.customers ≡ a.customers)) locked
        conflict (λ a. (refl, refl, refl)) (λ a b c x y. (y.0 ∙ x.0, y.1 ∙ x.1, y.2 ∙ x.2))
        (λ item a b r. (r.orders, r.items, r.customers)) items shop shop' run

  restore_items-logs :
      (p : StockRestoreLog → Bool)
      → any shop.restore_logs p ≡ true
      → any shop'.restore_logs p ≡ true
  restore_items-logs =
      restore_items-induct
        (λ a b.
          (p : StockRestoreLog → Bool) → any a.restore_logs p ≡ true → any b.restore_logs p ≡ true)
        locked conflict (λ a p h. h) (λ a b c x y p h. y p (x p h))
        (λ item a b r p h.
          rw (r.logged, any-append a.restore_logs (log_of locked item ∷ []) p, h) refl)
        items shop shop' run

  -- A restoration that succeeds keeps every quantity and every cached total in range.
  pub restore_items-IsBounded : IsBounded shop.stock → IsBounded shop'.stock
  restore_items-IsBounded =
      restore_items-induct (λ a b. IsBounded a.stock → IsBounded b.stock) locked conflict (λ a b. b)
        (λ a b c x y z. y (x z))
        (λ item a b r h.
          let (t, e) = adjusted_stock locked item a.stock b.stock r.adjusted in
          adjust-IsBounded locked.store_id item.product_id item.variant_id _ _ _ _ _ _ a.stock t
            b.stock h e)
        items shop shop' run

  -- A restoration that succeeds adds as many stock movements as restore logs.
  pub restore_items-audit :
      length shop'.stock.movements + length shop.restore_logs
      ≡ length shop.stock.movements + length shop'.restore_logs
  restore_items-audit =
      restore_items-induct
        (λ a b.
          length b.stock.movements + length a.restore_logs
          ≡ length a.stock.movements + length b.restore_logs)
        locked conflict (λ a. refl) (λ a b c x y. omega (arith, x, y))
        (λ item a b r.
          let (t, e) = adjusted_stock locked item a.stock b.stock r.adjusted in
          let (m, moved, _, _) =
            (adjust-Success locked.store_id item.product_id item.variant_id _ _ _ _ _ a.stock t
              b.stock _ e).adjusted.logged in
          rw (moved, r.logged)
            (omega (
              arith,
              length-append a.stock.movements (m ∷ []),
              length-append a.restore_logs (log_of locked item ∷ []),
            )))
        items shop shop' run

-- Every line of the order has its log.
abbrev pub IsLogged : Order → List OrderItem → Shop → Type 0
IsLogged locked items shop =
    All (λ (i : OrderItem). any shop.restore_logs (is_log_of locked.id i.id) ≡ true) items

own_log :
    (locked : Order) (item : OrderItem)
    → any (log_of locked item ∷ []) (is_log_of locked.id item.id) ≡ true
unfolding log_of
own_log locked item = rw (==_refl locked.id, ==_refl item.id) refl

pub restore_items-IsLogged :
    (locked : Order) (items : List OrderItem) (shop shop' : Shop)
    → restore_items (λ _. false) locked items shop ≡ ok (tt, shop')
    → IsLogged locked items shop'
unfolding restore_items
restore_items-IsLogged locked [] shop shop' h = tt
restore_items-IsLogged locked (item ∷ items) shop shop' h =
    let p = is_log_of locked.id item.id in
    elim (Bool-cases (any shop.restore_logs p)) [
      | inl e ↦
          let run : restore_items (λ _. false) locked items shop ≡ ok (tt, shop') = cc (h, e) in
          (
            restore_items-logs locked (λ _. false) items shop shop' run p e,
            restore_items-IsLogged locked items shop shop' run,
          )
      | inr e ↦ elim (Result-cases (restore_item locked item shop)) [
        | inl ((_, mid), r) ↦
            let run : restore_items (λ _. false) locked items mid ≡ ok (tt, shop') = cc (h, e, r) in
            let done = restore_item-Restored locked item shop mid r in
            (
              restore_items-logs locked (λ _. false) items mid shop' run p
                  (rw (done.logged, any-append shop.restore_logs (log_of locked item ∷ []) p, e)
                    (own_log locked item)),
              restore_items-IsLogged locked items mid shop' run,
            )
        | inr (_, r) ↦ cc (h, e, r)
      ]
    ]

restore_items-idle :
    (conflict : ℕ → Bool) (locked : Order) (items : List OrderItem) (shop : Shop)
    → IsLogged locked items shop
    → restore_items conflict locked items shop ≡ ok (tt, shop)
unfolding restore_items
restore_items-idle conflict locked [] shop h = refl
restore_items-idle conflict locked (item ∷ items) shop h =
    rw (h.0) (restore_items-idle conflict locked items shop h.1)

-- A restoration that succeeds without conflicts, run again, with conflicts or not, writes nothing.
pub restore_items-idempotent :
    (conflict : ℕ → Bool) (locked : Order) (items : List OrderItem) (shop shop' : Shop)
    → restore_items (λ _. false) locked items shop ≡ ok (tt, shop')
    → restore_items conflict locked items shop' ≡ ok (tt, shop')
restore_items-idempotent conflict locked items shop shop' h =
    restore_items-idle conflict locked items shop'
      (restore_items-IsLogged locked items shop shop' h)
