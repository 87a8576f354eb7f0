-- ===== src/Orders/Lifecycle/Change.antt =====
-- `apply_order_status_change` on the state machine of an order.
use api_paperbase.Base.{
  ℕ, ◌≡◌, refl, ap, sym, ◌∙◌, Bool, true, false, not, ◌&&◌, some, List, any, arith, Bool-cases,
  Option-cases, inl, inr, if◌then◌else◌,
}
use mathlib.Core.Path.{subst}
use api_paperbase.Base.Text.{Text}
use api_paperbase.Base.Results.{ok, Result-cases}
use api_paperbase.Base.Queries.{find?, update_where}
use api_paperbase.Orders.{
  Order, OrderStatus, pending, payment_pending, confirmed, cancelled, PaymentStatus, failed,
  OrderItem, Shop, is_order, invalidate_caches,
}
use api_paperbase.Orders.Restore.{restore_items}
use api_paperbase.Orders.Restore.Once.{restore_items-frame}
use api_paperbase.Orders.Rollup.{apply_customer_rollup, is_confirmed, is_cancelled}
use api_paperbase.Orders.Rollup.Laws.{rollup-frame}
use api_paperbase.Orders.Lifecycle.{
  parse_status, is_payment_pending, same_status, is_verified, items_of, is_unavailable, save_order,
  emit, change_status, needs_verification, apply_order_status_change,
}
use api_paperbase.Orders.Lifecycle.Success.{Move, stay, change, cancel, cancel_unpaid, Moved}

-- The move behind a change of status that passed the guards.
Move-of :
    (a b : OrderStatus) (p : PaymentStatus)
    → (is_cancelled a && not (is_cancelled b)) ≡ false
    → same_status a b ≡ false
    → (is_payment_pending a && is_confirmed b && not (is_verified p)) ≡ false
    → Move a p b
        (if is_cancelled b && is_payment_pending a && not (is_verified p) then failed else p)
Move-of pending pending p g s n = cc s
Move-of pending payment_pending p g s n = change refl refl refl
Move-of pending confirmed p g s n = change refl refl refl
Move-of pending cancelled p g s n = cancel refl refl
Move-of payment_pending pending p g s n = change refl refl refl
Move-of payment_pending payment_pending p g s n = cc s
Move-of payment_pending confirmed p g s n = change refl refl n
Move-of payment_pending cancelled p g s n = elim (Bool-cases (not (is_verified p))) [
  | inl e ↦ rw e (cancel_unpaid e)
  | inr e ↦ rw e (cancel refl e)
]
Move-of confirmed pending p g s n = change refl refl refl
Move-of confirmed payment_pending p g s n = change refl refl refl
Move-of confirmed confirmed p g s n = cc s
Move-of confirmed cancelled p g s n = cancel refl refl
Move-of cancelled pending p g s n = cc g
Move-of cancelled payment_pending p g s n = cc g
Move-of cancelled confirmed p g s n = cc g
Move-of cancelled cancelled p g s n = cc s

-- The order that a change of status saves.
abbrev saved_status : ℕ → Order → OrderStatus → Order
saved_status saved_at locked to_status = record locked {
  status = to_status;
  payment_status =
      if is_cancelled to_status
        && is_payment_pending locked.status
        && not (is_verified locked.payment_status)
      then failed
      else locked.payment_status;
  updated_at = saved_at;
}

-- The order that the part below the guards returns, and that it stores, when the restoration ended in `mid`.
finished :
    (now saved_at : ℕ) (locked : Order) (to_status : OrderStatus) (shop mid shop' : Shop)
    (o : Order)
    → mid.orders ≡ shop.orders
    → saved_status saved_at locked to_status ≡ o
    → emit (invalidate_caches locked.store_id) (
        save_order locked.id
          (saved_status saved_at locked to_status)
          (apply_customer_rollup now locked locked.status to_status mid))
      ≡ shop'
    → (saved_status saved_at locked to_status ≡ o)
      × (shop'.orders ≡ update_where (is_order locked.id) (λ _. o) shop.orders)
unfolding emit save_order
finished now saved_at locked to_status shop mid shop' o kept same wrote = (
  same,
  ap (λ (x : Shop). x.orders) (sym wrote) ∙ λ i.
      update_where (is_order locked.id) (λ _. same i)
        (((rollup-frame now locked locked.status to_status mid).0 ∙ kept) i),
)

change_status-stored :
    (conflict : ℕ → Bool) (now saved_at : ℕ) (locked : Order) (items : List OrderItem)
    (to_status : OrderStatus) (shop : Shop) (o : Order) (shop' : Shop)
    → change_status conflict now saved_at locked items to_status shop ≡ ok (o, shop')
    → (saved_status saved_at locked to_status ≡ o)
      × (shop'.orders ≡ update_where (is_order locked.id) (λ _. o) shop.orders)
unfolding change_status
change_status-stored conflict now saved_at locked items to_status shop o shop' h =
    elim (Bool-cases (is_cancelled to_status && not (is_cancelled locked.status))) [
      | inl e ↦ elim (Result-cases (restore_items conflict locked items shop)) [
        | inl ((_, mid), r) ↦
            finished now saved_at locked to_status shop mid shop' o
              ((restore_items-frame locked conflict items shop mid r).0) (cc (h, e, r))
              (cc (h, e, r))
        | inr (_, r) ↦ cc (h, e, r)
      ]
      | inr e ↦
          finished now saved_at locked to_status shop shop shop' o refl (cc (h, e)) (cc (h, e))
    ]

same_status→eq : (a b : OrderStatus) → same_status a b ≡ true → a ≡ b
same_status→eq a b h = ground arith

-- Every successful change of status moves the order along the state machine to the status that was
-- asked for, and stores it.
pub change-Moved :
    (conflict : ℕ → Bool) (now saved_at pk : ℕ) (to_text : Text) (shop : Shop) (o : Order)
    (shop' : Shop)
    → apply_order_status_change conflict now saved_at pk to_text shop ≡ ok (o, shop')
    → (parse_status to_text ≡ some o.status) × Moved pk o shop shop'
unfolding apply_order_status_change needs_verification
change-Moved conflict now saved_at pk to_text shop o shop' h =
    elim (Option-cases (parse_status to_text)) [
      | inl bad ↦ cc (h, bad)
      | inr (to_status, to_eq) ↦ elim (Option-cases (find? (is_order pk) shop.orders)) [
        | inl no_order ↦ cc (h, to_eq, no_order)
        | inr (locked, found) ↦
            elim (Bool-cases (is_cancelled locked.status && not (is_cancelled to_status))) [
              | inl e₁ ↦ cc (h, to_eq, found, e₁)
              | inr e₁ ↦ elim (Bool-cases (any (items_of pk shop) is_unavailable)) [
                | inl e₂ ↦ cc (h, to_eq, found, e₁, e₂)
                | inr e₂ ↦ elim (Bool-cases (same_status locked.status to_status)) [
                  | inl e₃ ↦
                      let same : locked ≡ o = cc (h, to_eq, found, e₁, e₂, e₃) in
                      let kept : shop ≡ shop' = cc (h, to_eq, found, e₁, e₂, e₃) in
                      (
                        to_eq
                            ∙ ap some (sym (same_status→eq locked.status to_status e₃))
                            ∙ ap (λ (x : Order). some x.status) same,
                        record {
                          locked = locked;
                          found = found;
                          move =
                              subst
                                (λ (x : Order).
                                  Move locked.status locked.payment_status x.status
                                    x.payment_status)
                                same stay;
                          same_id = ap (λ (x : Order). x.id) (sym same);
                          stored = inl (sym same, sym kept);
                        },
                      )
                  | inr e₃ ↦ elim (Bool-cases (needs_verification locked to_status)) [
                    | inl e₄ ↦ cc (h, to_eq, found, e₁, e₂, e₃, e₄)
                    | inr e₄ ↦
                        let run : change_status conflict now saved_at locked (items_of pk shop)
                              to_status shop
                            ≡ ok (o, shop') =
                          cc (h, to_eq, found, e₁, e₂, e₃, e₄) in
                        let (same, wrote) =
                          change_status-stored conflict now saved_at locked (items_of pk shop)
                            to_status shop o shop' run in
                        (
                          to_eq ∙ ap (λ (x : Order). some x.status) same,
                          record {
                            locked = locked;
                            found = found;
                            move =
                                subst
                                  (λ (x : Order).
                                    Move locked.status locked.payment_status x.status
                                      x.payment_status)
                                  same
                                  (Move-of locked.status to_status locked.payment_status e₁ e₃ e₄);
                            same_id = ap (λ (x : Order). x.id) (sym same);
                            stored = inr wrote;
                          },
                        )
                  ]
                ]
              ]
            ]
      ]
    ]
