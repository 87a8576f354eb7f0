-- ===== src/Billing/Tidy/Activation.antt =====
-- Activation and extension keep the tables in order.
use api_paperbase.Base.{
  max, ℕ, ◌+◌, ◌≤◌, ◌≡◌, refl, Bool, false, not, ◌&&◌, Option, none, some, List, [], ◌∷◌, ◌==◌,
  if◌then◌else◌, arith,
}
use api_paperbase.Base.Int.{ℤ}
use api_paperbase.Base.Queries.{find?}
use api_paperbase.Base.Triples.{
  Triple, strengthen, pure-after, gets-after, lift-after, bind-after, modify-after, raise_if-after,
}
use api_paperbase.Billing.{
  sync_email_settings, invalidate_feature_config, amount_mismatch, not_active, BillingCycle, Plan,
  Subscription, Source, Provider, Payment, Clock, is_subscription, is_payment, update_subscriptions,
  create_subscription, create_payment, emit,
}
use api_paperbase.Billing.Status.{is_active}
use api_paperbase.Billing.Emails.{activation_effects}
use api_paperbase.Billing.Services.{
  cycle_or, term_days, amount_is_wrong, previous_plan, Term, expire_active, new_row, new_payment,
  activate_new, activate_rows, finish_activation, activate_subscription, extend_row,
  extend_subscription,
}
use api_paperbase.Billing.Tidy.{TidyPayments, IsTidy, TidyRows-update, TidyRows-new}
use api_paperbase.Billing.Tidy.Writes.{IsFresh, IsCleared, expire-IsCleared}
use api_paperbase.Billing.Tidy.Approval.{activate_pending-IsTidy}

new_payment-tidy :
    (clock : Clock) (term : Term) (sub_id pay_id user : ℕ) (amount : ℤ) (provider : Provider)
    (ps : List Payment)
    → find? (is_payment pay_id) ps ≡ none
    → TidyPayments ps
    → TidyPayments (new_payment clock term sub_id pay_id user amount provider ∷ ps)
unfolding new_payment
new_payment-tidy clock term sub_id pay_id user amount provider ps fresh tidy =
    ((fresh, tidy.0), λ v. let before = tidy.1 v in omega (arith, before, never (user == v)))
  where
    never : (b : Bool) → (if b && false then 1 else 0) ≤ 0
    never b = ground arith

activate_new-IsTidy :
    (clock : Clock) (sub_id pay_id user : ℕ) (term : Term) (amount : ℤ) (provider : Provider)
    → Triple
        (λ db. IsTidy db × IsFresh sub_id pay_id db)
        (activate_new clock sub_id pay_id user term amount provider)
        (λ _ db. IsTidy db)
unfolding activate_new create_subscription create_payment
activate_new-IsTidy clock sub_id pay_id user term amount provider =
    bind-after _ _
      (modify-after {Q = λ db. IsCleared user db × IsFresh sub_id pay_id db}
        (expire_active clock user) (λ db h. expire-IsCleared clock user sub_id pay_id db h.0 h.1))
      (λ _.
        bind-after _ _
          (modify-after {Q = λ db. IsTidy db × (find? (is_payment pay_id) db.payments ≡ none)}
            (create_subscription (new_row clock term sub_id user))
            (λ db h. (
              (TidyRows-new clock term sub_id user db.subscriptions h.1.0 h.0.0.0 h.0.1, h.0.0.1),
              h.1.1,
            )))
          (λ _.
            bind-after _ _
              (modify-after {Q = IsTidy}
                (create_payment (new_payment clock term sub_id pay_id user amount provider))
                (λ db h. (
                  h.0.0,
                  new_payment-tidy clock term sub_id pay_id user amount provider db.payments h.1
                      h.0.1,
                )))
              (λ _.
                pure-after (λ _ db. IsTidy db)
                  (
                    new_row clock term sub_id user,
                    new_payment clock term sub_id pay_id user amount provider,
                  )
                  (λ db h. h))))

activate_rows-IsTidy :
    (clock : Clock) (sub_id pay_id user : ℕ) (plan : Plan) (term : Term) (amount : ℤ)
    (provider : Provider) (pending_payment : Option Payment)
    → Triple
        (λ db. IsTidy db × IsFresh sub_id pay_id db)
        (activate_rows clock sub_id pay_id user plan term amount provider pending_payment)
        (λ _ db. IsTidy db)
unfolding activate_rows
activate_rows-IsTidy clock sub_id pay_id user plan term amount provider none =
    activate_new-IsTidy clock sub_id pay_id user term amount provider
activate_rows-IsTidy clock sub_id pay_id user plan term amount provider (some ep) =
    activate_pending-IsTidy clock sub_id pay_id user plan term ep

finish_activation-IsTidy :
    (user : ℕ) (prev_plan : Option ℕ) (rows : Subscription × Payment)
    → Triple IsTidy (finish_activation user prev_plan rows) (λ _ db. IsTidy db)
unfolding finish_activation emit
finish_activation-IsTidy user prev_plan rows =
    bind-after _ _ (modify-after {Q = IsTidy} (emit (sync_email_settings user ∷ [])) (λ db h. h))
      (λ _.
        bind-after _ _
          (modify-after {Q = IsTidy} (emit (activation_effects user rows.0 rows.1 prev_plan))
            (λ db h. h))
          (λ _. pure-after (λ _ db. IsTidy db) rows.0 (λ db h. h)))

-- An activation keeps the tables tidy.
pub activate_subscription-IsTidy :
    (clock : Clock) (sub_id pay_id user : ℕ) (plan : Plan) (billing_cycle : Option BillingCycle)
    (duration_days : Option ℕ) (source : Source) (amount : ℤ) (provider : Provider)
    (pending_payment : Option Payment)
    → Triple
        (λ db. IsTidy db × IsFresh sub_id pay_id db)
        (activate_subscription clock sub_id pay_id user plan billing_cycle duration_days source
          amount provider pending_payment)
        (λ _ db. IsTidy db)
unfolding activate_subscription
activate_subscription-IsTidy clock sub_id pay_id user plan billing_cycle duration_days source amount
      provider pending_payment =
    let cycle = cycle_or billing_cycle plan.billing_cycle in
    bind-after _ _ (lift-after (term_days cycle duration_days source)) (λ days.
      bind-after _ _ (lift-after (amount_is_wrong plan source amount pending_payment)) (λ wrong.
        bind-after _ _ (raise_if-after wrong amount_mismatch) (λ _.
          bind-after _ _ (gets-after (previous_plan user)) (λ prev_plan.
            let term : Term = record {
              plan_id = plan.id;
              billing_cycle = cycle;
              days = days;
              source = source;
            } in
            bind-after _ _
              (strengthen _ (λ db h. h.1.1.1.1)
                (activate_rows-IsTidy clock sub_id pay_id user plan term amount provider
                  pending_payment))
              (λ rows. finish_activation-IsTidy user prev_plan rows)))))

-- An extension keeps them so.
pub extend_subscription-IsTidy :
    (clock : Clock) (s : Subscription) (days : ℕ)
    → Triple IsTidy (extend_subscription clock s days) (λ _ db. IsTidy db)
unfolding extend_subscription extend_row update_subscriptions emit
extend_subscription-IsTidy clock s days =
    bind-after _ _ (raise_if-after (not (is_active s.status)) not_active) (λ _.
      bind-after _ _
        (modify-after {Q = IsTidy}
          (update_subscriptions (is_subscription s.id)
            (extend_row clock (max s.end_date clock.today + days)))
          (λ db h. (
            TidyRows-update (is_subscription s.id)
                (extend_row clock (max s.end_date clock.today + days)) db.subscriptions (λ x. refl)
                (λ x. (refl, λ k. k, λ k. k)) h.1.0,
            h.1.1,
          )))
        (λ _.
          bind-after _ _
            (modify-after {Q = IsTidy} (emit (invalidate_feature_config s.user_id ∷ []))
              (λ db h. h))
            (λ _.
              pure-after (λ _ db. IsTidy db)
                (extend_row clock (max s.end_date clock.today + days) s) (λ db h. h))))
