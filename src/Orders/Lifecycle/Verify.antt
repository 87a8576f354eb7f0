-- ===== src/Orders/Lifecycle/Verify.antt =====
-- `apply_payment_verification` on the state machine of an order.
use api_paperbase.Base.{
  ℕ, ◌≡◌, ap, sym, ◌∙◌, Bool, true, false, not, List, any, Bool-cases, Option-cases, inl, inr,
  if◌then◌else◌,
}
use mathlib.Core.Path.{subst}
use api_paperbase.Base.Results.{ok, Result-cases}
use api_paperbase.Base.Queries.{find?, update_where}
use api_paperbase.Orders.{Order, confirmed, cancelled, verified, failed, OrderItem, Shop, is_order}
use api_paperbase.Orders.Restore.{restore_items}
use api_paperbase.Orders.Restore.Once.{restore_items-frame}
use api_paperbase.Orders.Rollup.{apply_customer_rollup}
use api_paperbase.Orders.Rollup.Laws.{rollup-frame}
use api_paperbase.Orders.Lifecycle.{
  is_payment_pending, is_submitted, items_of, is_unavailable, save_order, emit, verify_locked,
  apply_payment_verification,
}
use api_paperbase.Orders.Lifecycle.Success.{Move, accept, reject, Moved, not-false}

-- What the two outcomes of a verification return, and the orders they leave.
verify_locked-Moved :
    (conflict : ℕ → Bool) (now saved_at : ℕ) (locked : Order) (items : List OrderItem)
    (valid : Bool) (shop : Shop) (o : Order) (shop' : Shop)
    → is_payment_pending locked.status ≡ true
    → is_submitted locked.payment_status ≡ true
    → verify_locked conflict now saved_at locked items valid shop ≡ ok (o, shop')
    → Move locked.status locked.payment_status o.status o.payment_status
      × (o.status ≡ (if valid then confirmed else cancelled))
      × (o.payment_status ≡ (if valid then verified else failed))
      × (o.id ≡ locked.id)
      × (shop'.orders ≡ shop.orders)
unfolding verify_locked
verify_locked-Moved conflict now saved_at locked items true shop o shop' pays sent h =
    elim (Bool-cases (any items is_unavailable)) [
      | inl e ↦ cc (h, e)
      | inr e ↦
          let saved : Order = record locked {
            status = confirmed;
            payment_status = verified;
            updated_at = saved_at;
          } in
          let same : saved ≡ o = cc (h, e) in
          let kept : apply_customer_rollup now locked locked.status confirmed shop ≡ shop' =
            cc (h, e) in
          (
            subst
                (λ (x : Order). Move locked.status locked.payment_status x.status x.payment_status)
                same (accept pays sent),
            ap (λ (x : Order). x.status) (sym same),
            ap (λ (x : Order). x.payment_status) (sym same),
            ap (λ (x : Order). x.id) (sym same),
            ap (λ (x : Shop). x.orders) (sym kept)
                ∙ (rollup-frame now locked locked.status confirmed shop).0,
          )
    ]
verify_locked-Moved conflict now saved_at locked items false shop o shop' pays sent h =
    elim (Result-cases (restore_items conflict locked items shop)) [
      | inl ((_, mid), r) ↦
          let saved : Order = record locked {
            status = cancelled;
            payment_status = failed;
            updated_at = saved_at;
          } in
          let same : saved ≡ o = cc (h, r) in
          let kept : apply_customer_rollup now locked locked.status cancelled mid ≡ shop' =
            cc (h, r) in
          (
            subst
                (λ (x : Order). Move locked.status locked.payment_status x.status x.payment_status)
                same (reject pays sent),
            ap (λ (x : Order). x.status) (sym same),
            ap (λ (x : Order). x.payment_status) (sym same),
            ap (λ (x : Order). x.id) (sym same),
            ap (λ (x : Shop). x.orders) (sym kept)
                ∙ (rollup-frame now locked locked.status cancelled mid).0
                ∙ (restore_items-frame locked conflict items shop mid r).0,
          )
      | inr (_, r) ↦ cc (h, r)
    ]

-- Every successful verification confirms the order and verifies a valid payment, cancels the order
-- and fails an invalid one, moves the order along the state machine, and stores it.
pub verification-Moved :
    (conflict : ℕ → Bool) (now saved_at pk : ℕ) (valid : Bool) (shop : Shop) (o : Order)
    (shop' : Shop)
    → apply_payment_verification conflict now saved_at pk valid shop ≡ ok (o, shop')
    → (o.status ≡ (if valid then confirmed else cancelled))
      × (o.payment_status ≡ (if valid then verified else failed))
      × Moved pk o shop shop'
unfolding apply_payment_verification save_order emit
verification-Moved conflict now saved_at pk valid shop o shop' h =
    elim (Option-cases (find? (is_order pk) shop.orders)) [
      | inl no_order ↦ cc (h, no_order)
      | inr (locked, found) ↦ elim (Bool-cases (not (is_payment_pending locked.status))) [
        | inl e₁ ↦ cc (h, found, e₁)
        | inr e₁ ↦ elim (Bool-cases (not (is_submitted locked.payment_status))) [
          | inl e₂ ↦ cc (h, found, e₁, e₂)
          | inr e₂ ↦
              elim (Result-cases
                (verify_locked conflict now saved_at locked (items_of pk shop) valid shop)) [
                  | inl ((saved, mid), r) ↦
                      let (move, status_eq, paid_eq, id_eq, kept) =
                        verify_locked-Moved conflict now saved_at locked (items_of pk shop) valid
                          shop saved mid (not-false _ e₁) (not-false _ e₂) r in
                      let same : saved ≡ o = cc (h, found, e₁, e₂, r) in
                      let wrote : update_where (is_order locked.id) (λ _. saved) mid.orders
                          ≡ shop'.orders =
                        cc (h, found, e₁, e₂, r) in
                      subst
                        (λ (x : Order).
                          (x.status ≡ (if valid then confirmed else cancelled))
                          × (x.payment_status ≡ (if valid then verified else failed))
                          × Moved pk x shop shop')
                        same
                        (
                          status_eq,
                          paid_eq,
                          record {
                            locked = locked;
                            found = found;
                            move = move;
                            same_id = id_eq;
                            stored = inr (
                                sym wrote
                                ∙ ap (update_where (is_order locked.id) (λ _. saved)) kept);
                          },
                        )
                  | inr (_, r) ↦ cc (h, found, e₁, e₂, r)
                ]
        ]
      ]
    ]
