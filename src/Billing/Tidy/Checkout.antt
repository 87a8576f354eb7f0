-- ===== src/Billing/Tidy/Checkout.antt =====
-- Submitting a transaction and rejecting a payment keep the tables in order.
use api_paperbase.Base.{
  ℕ, ◌≡◌, refl, Bool, true, false, not, ◌&&◌, Option, none, some, [], ◌∷◌, ◌==◌, any, arith,
}
use api_paperbase.Base.Text.{Text, strip, is_empty}
use api_paperbase.Base.Queries.{find?}
use api_paperbase.Base.Triples.{
  Triple, strengthen, pure-after, weaken, gets-after, bind-after, modify-after, raise_if-after,
  or_raise-after, when-after,
}
use api_paperbase.Base.Tx.{modify}
use api_paperbase.Billing.{
  Plan, Subscription, Payment, Clock, Billing, user_mismatch, invalid_subscription_state,
  no_pending_payment, no_plan_linked, transaction_id_required, duplicate_transaction_id,
  payment_not_pending, invalid_field, already_active, already_pending_review,
  invalidate_feature_config, is_subscription, is_payment, is_plan, linked_of, update_subscriptions,
  update_payments, create_subscription, emit,
}
use api_paperbase.Billing.Status.{is_row, is_active, is_pending_review, latest_pending}
use api_paperbase.Billing.Services.{is_pending}
use api_paperbase.Billing.Payments.{
  pending_payment, clean, is_unsupported, full_clean, retarget_row, retarget, review_row,
  keep_linked, link_review, reviewed, has_transaction, submit_row, submit_texts,
  submit_pending_payment_transaction, reject_row, reject_linked, fail_row,
  reject_pending_review_for_payment,
}
use api_paperbase.Billing.Tidy.{IsTidy, TidyRows-update}
use api_paperbase.Billing.Tidy.Writes.{TidyPayments-update}
use api_paperbase.Billing.Tidy.Choice.{FreshSubscription, review_row-tidy}

retarget-IsTidy :
    (clock : Clock) (plan : Plan) (s : Subscription)
    → Triple IsTidy (retarget clock plan s) (λ _ db. IsTidy db)
unfolding retarget retarget_row update_subscriptions
retarget-IsTidy clock plan s =
    when-after (not (s.plan_id == plan.id))
      (modify (update_subscriptions (is_subscription s.id) (retarget_row clock plan)))
      (modify-after {Q = IsTidy}
        (update_subscriptions (is_subscription s.id) (retarget_row clock plan))
        (λ db h. (
          TidyRows-update (is_subscription s.id) (retarget_row clock plan) db.subscriptions
              (λ x. refl) (λ x. (refl, λ k. k, λ k. k)) h.0,
          h.1,
        )))
      (λ db h. h)

keep_linked-IsTidy :
    (clock : Clock) (user : ℕ) (plan : Plan) (linked : Option Subscription)
    → Triple IsTidy (keep_linked clock user plan linked) (λ _ db. IsTidy db)
unfolding keep_linked
keep_linked-IsTidy clock user plan linked =
    bind-after _ _ (or_raise-after linked invalid_subscription_state) (λ s.
      bind-after _ _ (raise_if-after (not (s.user_id == user)) user_mismatch) (λ _.
        bind-after _ _
          (raise_if-after (not (is_pending_review s.status)) invalid_subscription_state)
          (λ _.
            bind-after _ _ (strengthen _ (λ db h. h.1.1.1) (retarget-IsTidy clock plan s))
              (λ _. pure-after (λ _ db. IsTidy db) s.id (λ db h. h)))))

-- `clean` writes nothing.
clean-keeps : (P : Billing → Type 0) (s : Subscription) → Triple P (full_clean s) (λ _ db. P db)
unfolding full_clean clean
clean-keeps P s =
    bind-after _ _ (raise_if-after (is_unsupported s.billing_cycle) invalid_field) (λ _.
      bind-after _ _ (gets-after (λ (db : Billing). db)) (λ db.
        bind-after _ _
          (raise_if-after
            (is_active s.status
              && any db.subscriptions (λ t. is_row s.user_id is_active t && not (t.id == s.id)))
            already_active)
          (λ _.
            weaken _
              (raise_if-after
                (is_pending_review s.status
                  && any db.subscriptions
                      (λ t. is_row s.user_id is_pending_review t && not (t.id == s.id)))
                already_pending_review)
              (λ _ _ h. h.1.1.1.1))))

link_review-IsTidy :
    (clock : Clock) (sub_id user : ℕ) (plan : Plan) (orphan : Option Subscription)
    → Triple
        (λ db. (orphan ≡ latest_pending user db) × (IsTidy db × FreshSubscription sub_id db))
        (link_review clock sub_id user plan orphan)
        (λ _ db. IsTidy db)
unfolding link_review create_subscription
link_review-IsTidy clock sub_id user plan (some s) =
    bind-after _ _ (strengthen _ (λ db h. h.1.0) (retarget-IsTidy clock plan s))
      (λ _. pure-after (λ _ db. IsTidy db) s.id (λ db h. h))
link_review-IsTidy clock sub_id user plan none =
    bind-after _ _ (clean-keeps _ (review_row clock sub_id user plan)) (λ _.
      bind-after _ _
        (modify-after {Q = IsTidy} (create_subscription (review_row clock sub_id user plan))
          (λ db h. (review_row-tidy clock sub_id user plan db h.1.0 h.1.1 h.0, h.1.0.1)))
        (λ _. pure-after (λ _ db. IsTidy db) sub_id (λ db h. h)))

reviewed-IsTidy :
    (clock : Clock) (sub_id user : ℕ) (plan : Plan) (p : Payment) (link : Option ℕ)
    → Triple
        (λ db. IsTidy db × FreshSubscription sub_id db)
        (reviewed clock sub_id user plan p link)
        (λ _ db. IsTidy db)
unfolding reviewed
reviewed-IsTidy clock sub_id user plan p none =
    bind-after _ _ (gets-after (latest_pending user))
      (λ orphan. link_review-IsTidy clock sub_id user plan orphan)
reviewed-IsTidy clock sub_id user plan p (some k) =
    bind-after _ _ (gets-after (linked_of p))
      (λ linked. strengthen _ (λ db h. h.1.0) (keep_linked-IsTidy clock user plan linked))

submit_texts-IsTidy :
    (clock : Clock) (sub_id user : ℕ) (tid sn : Text)
    → Triple
        (λ db. IsTidy db × FreshSubscription sub_id db)
        (submit_texts clock sub_id user tid sn)
        (λ _ db. IsTidy db)
unfolding submit_texts update_payments submit_row emit
submit_texts-IsTidy clock sub_id user tid sn =
    bind-after _ _ (gets-after (pending_payment user)) (λ found.
      bind-after _ _ (or_raise-after found no_pending_payment) (λ pending.
        bind-after _ _ (or_raise-after pending.plan_id no_plan_linked) (λ plan_id.
          bind-after _ _ (raise_if-after (is_empty tid) transaction_id_required) (λ _.
            bind-after _ _ (gets-after (λ db. find? (is_plan plan_id) db.plans)) (λ row.
              bind-after _ _ (or_raise-after row no_plan_linked) (λ plan.
                bind-after _ _
                  (strengthen _ (λ db h. h.1.1.1.1.1.1)
                    (reviewed-IsTidy clock sub_id user plan pending pending.subscription_id))
                  (λ k.
                    bind-after _ _
                      (gets-after (λ db.
                        any db.payments (λ p. has_transaction tid p && not (p.id == pending.id))))
                      (λ used. bind-after _ _ (raise_if-after used duplicate_transaction_id) (λ _.
                        bind-after _ _
                          (modify-after {Q = IsTidy}
                            (update_payments (is_payment pending.id) (submit_row tid sn k))
                            (λ db h. (
                              h.1.1.0,
                              TidyPayments-update (is_payment pending.id) (submit_row tid sn k)
                                  db.payments (λ q. refl) (λ q v t. t) h.1.1.1,
                            )))
                          (λ _.
                            bind-after _ _
                              (modify-after {Q = IsTidy}
                                (emit (invalidate_feature_config user ∷ [])) (λ db h. h))
                              (λ _.
                                pure-after (λ _ db. IsTidy db) (submit_row tid sn k pending)
                                  (λ db h. h))))))))))))

-- The submission of a transaction keeps the tables tidy.
pub submit-IsTidy :
    (clock : Clock) (sub_id user : ℕ) (transaction_id sender_number : Text)
    → Triple
        (λ db. IsTidy db × FreshSubscription sub_id db)
        (submit_pending_payment_transaction clock sub_id user transaction_id sender_number)
        (λ _ db. IsTidy db)
unfolding submit_pending_payment_transaction
submit-IsTidy clock sub_id user transaction_id sender_number =
    submit_texts-IsTidy clock sub_id user (strip transaction_id) (strip sender_number)

reject_linked-IsTidy :
    (clock : Clock) (linked : Option Subscription)
    → Triple IsTidy (reject_linked clock linked) (λ _ db. IsTidy db)
unfolding reject_linked reject_row update_subscriptions
reject_linked-IsTidy clock none = pure-after (λ _ db. IsTidy db) tt (λ db h. h)
reject_linked-IsTidy clock (some s) =
    when-after (is_pending_review s.status)
      (modify (update_subscriptions (is_subscription s.id) (reject_row clock)))
      (modify-after {Q = IsTidy} (update_subscriptions (is_subscription s.id) (reject_row clock))
        (λ db h. (
          TidyRows-update (is_subscription s.id) (reject_row clock) db.subscriptions (λ x. refl)
              (λ x. (refl, λ k. cc k, λ k. cc k)) h.0,
          h.1,
        )))
      (λ db h. h)

-- The rejection of a payment keeps the tables tidy.
pub reject-IsTidy :
    (clock : Clock) (p : Payment)
    → Triple IsTidy (reject_pending_review_for_payment clock p) (λ _ db. IsTidy db)
unfolding reject_pending_review_for_payment fail_row update_payments emit
reject-IsTidy clock p =
    bind-after _ _ (raise_if-after (not (is_pending p.status)) payment_not_pending) (λ _.
      bind-after _ _ (gets-after (linked_of p)) (λ linked.
        bind-after _ _ (strengthen _ (λ db h. h.1.1) (reject_linked-IsTidy clock linked)) (λ _.
          bind-after _ _
            (modify-after {Q = IsTidy} (update_payments (is_payment p.id) fail_row) (λ db h. (
              h.0,
              TidyPayments-update (is_payment p.id) fail_row db.payments (λ q. refl)
                  (λ q v t. absurd (never (q.user_id == v) t)) h.1,
            )))
            (λ _.
              modify-after {Q = IsTidy} (emit (invalidate_feature_config p.user_id ∷ []))
                (λ db h. h)))))
  where
    never : (b : Bool) → (b && false) ≡ true → ⊥
    never b h = ground arith
