-- ===== src/Billing/Payments.antt =====
-- The checkout of a plan: choosing it (`InitiatePaymentView.post` of engine/apps/billing/views.py with
-- its serializer), submitting the transaction, and the rejection of the payment (services.py). The texts
-- of a call are those of its request; the keys of the rows that it creates are arguments.
use api_paperbase.Base.{
  ℕ, Bool, true, false, not, ◌&&◌, Option, none, some, [], ◌∷◌, ◌==◌, if◌then◌else◌, any,
}
use api_paperbase.Base.Int.{ℤ}
use api_paperbase.Base.Text.{Text, strip, is_empty, text_eq}
use api_paperbase.Base.Queries.{find?, filter}
use api_paperbase.Base.Greatest.{greatest_by}
use api_paperbase.Base.Tx.{Tx, pure, gets, lift, modify, raise_if, or_raise, when, ◌>>=◌, ◌>>◌}
use api_paperbase.Base.{ltb}
use api_paperbase.Billing.{
  BillingCycle, unsupported, monthly, yearly, Plan, SubscriptionStatus, Subscription, Source,
  PaymentStatus, Provider, Payment, invalidate_feature_config, Clock, Billing, BillingError,
  no_pending_payment, no_plan_linked, transaction_id_required, duplicate_transaction_id,
  user_mismatch, invalid_subscription_state, invalid_field, payment_not_pending, plan_not_found,
  already_active, already_pending_review, already_submitted, plan_charge_amount, is_plan,
  is_subscription, is_payment, update_subscriptions, update_payments, create_subscription,
  create_payment, emit, linked_of,
}
use api_paperbase.Billing.Status.{is_row, is_active, is_pending_review, latest_pending}
use api_paperbase.Billing.Services.{is_pending}

abbrev pub is_pending_of : ℕ → Payment → Bool
is_pending_of user p = p.user_id == user && is_pending p.status

unfoldable pub by_payment_creation : Payment → Payment → Bool
by_payment_creation p q = ltb p.created_at q.created_at

-- `Payment.objects.filter(user=…, status=PENDING).first()`, in the order of `Payment.Meta`.
unfoldable pub pending_payment : ℕ → Billing → Option Payment
unfolding by_payment_creation
pending_payment user db = greatest_by by_payment_creation (filter (is_pending_of user) db.payments)

-- `(payment.transaction_id or "").strip()`
unfoldable pub is_submitted : Payment → Bool
unfolding strip
is_submitted p = elim p.transaction_id [ none ↦ false | some t ↦ not (is_empty (strip t)) ]

unfoldable pub is_submitted_row : Option Payment → Bool
unfolding is_submitted
is_submitted_row none = false
is_submitted_row (some p) = is_submitted p

unfoldable pub choose_row : Plan → ℤ → Payment → Payment
choose_row plan amount p = record p {
  plan_id = some plan.id;
  amount = amount;
  sender_number = none;
}

unfoldable pub pending_row : Clock → ℕ → ℕ → Plan → ℤ → Payment
pending_row clock pay_id user plan amount = record {
  id = pay_id;
  user_id = user;
  plan_id = some plan.id;
  subscription_id = none;
  amount = amount;
  status = PaymentStatus.pending;
  provider = Provider.by_hand;
  transaction_id = none;
  sender_number = none;
  created_at = clock.now;
}

-- The two outcomes of the view.
unfoldable pub store_choice :
    Clock → ℕ → ℕ → Plan → ℤ → Option Payment → Tx Billing BillingError Payment
unfolding is_submitted choose_row pending_row update_payments create_payment
store_choice clock pay_id user plan amount existing = elim existing [
  | some p ↦
      if is_submitted p
      then (modify (create_payment (pending_row clock pay_id user plan amount))
          >> pure (pending_row clock pay_id user plan amount))
      else (modify (update_payments (is_payment p.id) (choose_row plan amount))
          >> pure (choose_row plan amount p))
  | none ↦
      modify (create_payment (pending_row clock pay_id user plan amount))
      >> pure (pending_row clock pay_id user plan amount)
]

-- What a request has read before the view writes.
pub record PlanChoice : Type 0 where
  pub plan : Plan
  pub amount : ℤ
  pub existing : Option Payment

-- The serializer and the reads of the view, which looks the pending payment up again.
unfoldable pub read_choice : ℕ → ℕ → Tx Billing BillingError PlanChoice
unfolding pending_payment is_submitted_row plan_charge_amount
read_choice user plan_id = do
  found ← gets (λ db. find? (λ plan. is_plan plan_id plan && plan.is_active) db.plans)
  plan ← or_raise found plan_not_found
  pending ← gets (pending_payment user)
  raise_if (is_submitted_row pending) already_submitted
  amount ← lift (plan_charge_amount plan)
  existing ← gets (pending_payment user)
  pure (record { plan = plan; amount = amount; existing = existing })

-- A request that no other one overlaps: the view has no transaction, so the tables may change between
-- its reads and its write.
unfoldable pub initiate_payment : Clock → ℕ → ℕ → ℕ → Tx Billing BillingError Payment
unfolding read_choice store_choice
initiate_payment clock pay_id user plan_id = do
  choice ← read_choice user plan_id
  store_choice clock pay_id user choice.plan choice.amount choice.existing

-- `Subscription.clean`
unfoldable pub clean : Subscription → Tx Billing BillingError (Unit {0})
clean s = do
  db ← gets (λ db. db)
  raise_if
      (is_active s.status
        && any db.subscriptions (λ t. is_row s.user_id is_active t && not (t.id == s.id)))
      already_active
  raise_if
      (is_pending_review s.status
        && any db.subscriptions (λ t. is_row s.user_id is_pending_review t && not (t.id == s.id)))
      already_pending_review

-- The choices of `Subscription.billing_cycle`.
abbrev pub is_unsupported : BillingCycle → Bool
is_unsupported unsupported = true
is_unsupported monthly = false
is_unsupported yearly = false

unfoldable pub full_clean : Subscription → Tx Billing BillingError (Unit {0})
unfolding clean
full_clean s = raise_if (is_unsupported s.billing_cycle) invalid_field >> clean s

unfoldable pub retarget_row : Clock → Plan → Subscription → Subscription
retarget_row clock plan s = record s {
  plan_id = plan.id;
  billing_cycle = plan.billing_cycle;
  updated_at = clock.now;
}

-- A row under review that is for another plan takes the payment's.
unfoldable pub retarget : Clock → Plan → Subscription → Tx Billing BillingError (Unit {0})
unfolding update_subscriptions retarget_row
retarget clock plan s =
    when (not (s.plan_id == plan.id))
      (modify (update_subscriptions (is_subscription s.id) (retarget_row clock plan)))

unfoldable pub review_row : Clock → ℕ → ℕ → Plan → Subscription
review_row clock sub_id user plan = record {
  id = sub_id;
  user_id = user;
  plan_id = plan.id;
  status = SubscriptionStatus.pending_review;
  billing_cycle = plan.billing_cycle;
  start_date = clock.today;
  end_date = clock.today;
  auto_renew = false;
  source = Source.payment;
  created_at = clock.now;
  updated_at = clock.now;
}

-- The branch with a linked subscription; a foreign key always finds its row.
unfoldable pub keep_linked : Clock → ℕ → Plan → Option Subscription → Tx Billing BillingError ℕ
unfolding retarget
keep_linked clock user plan linked = do
  s ← or_raise linked invalid_subscription_state
  raise_if (not (s.user_id == user)) user_mismatch
  raise_if (not (is_pending_review s.status)) invalid_subscription_state
  retarget clock plan s
  pure s.id

-- The branch without one: the row under review that nothing is linked to, or a new row.
unfoldable pub link_review : Clock → ℕ → ℕ → Plan → Option Subscription → Tx Billing BillingError ℕ
unfolding retarget review_row full_clean create_subscription
link_review clock sub_id user plan (some orphan) = retarget clock plan orphan >> pure orphan.id
link_review clock sub_id user plan none = do
  full_clean (review_row clock sub_id user plan)
  modify (create_subscription (review_row clock sub_id user plan))
  pure sub_id

-- The key of the subscription that the payment is linked to afterwards, by `pending.subscription_id`.
unfoldable pub reviewed : Clock → ℕ → ℕ → Plan → Payment → Option ℕ → Tx Billing BillingError ℕ
unfolding linked_of latest_pending keep_linked link_review
reviewed clock sub_id user plan p (some k) = gets (linked_of p) >>= keep_linked clock user plan
reviewed clock sub_id user plan p none =
    gets (latest_pending user) >>= link_review clock sub_id user plan

unfoldable pub has_transaction : Text → Payment → Bool
unfolding text_eq
has_transaction tid p = elim p.transaction_id [ none ↦ false | some t ↦ text_eq t tid ]

-- The fields that `pending.save` writes.
unfoldable pub submit_row : Text → Text → ℕ → Payment → Payment
submit_row tid sn k p = record p {
  transaction_id = some tid;
  sender_number = if is_empty sn then p.sender_number else some sn;
  subscription_id = some k;
}

-- `submit_pending_payment_transaction`, below its two `strip`s.
unfoldable pub submit_texts : Clock → ℕ → ℕ → Text → Text → Tx Billing BillingError Payment
unfolding pending_payment reviewed has_transaction submit_row update_payments emit
submit_texts clock sub_id user tid sn = do
  found ← gets (pending_payment user)
  pending ← or_raise found no_pending_payment
  plan_id ← or_raise pending.plan_id no_plan_linked
  raise_if (is_empty tid) transaction_id_required
  row ← gets (λ db. find? (is_plan plan_id) db.plans)
  plan ← or_raise row no_plan_linked
  k ← reviewed clock sub_id user plan pending pending.subscription_id
  used ← gets (λ db. any db.payments (λ p. has_transaction tid p && not (p.id == pending.id)))
  raise_if used duplicate_transaction_id
  modify (update_payments (is_payment pending.id) (submit_row tid sn k))
  modify (emit (invalidate_feature_config user ∷ []))
  pure (submit_row tid sn k pending)

unfoldable pub submit_pending_payment_transaction :
    Clock → ℕ → ℕ → Text → Text → Tx Billing BillingError Payment
unfolding strip submit_texts
submit_pending_payment_transaction clock sub_id user transaction_id sender_number =
    submit_texts clock sub_id user (strip transaction_id) (strip sender_number)

unfoldable pub reject_row : Clock → Subscription → Subscription
reject_row clock s = record s { status = SubscriptionStatus.rejected; updated_at = clock.now }

-- The linked subscription, if it is under review.
unfoldable pub reject_linked : Clock → Option Subscription → Tx Billing BillingError (Unit {0})
unfolding update_subscriptions reject_row
reject_linked clock none = pure tt
reject_linked clock (some s) =
    when (is_pending_review s.status)
      (modify (update_subscriptions (is_subscription s.id) (reject_row clock)))

unfoldable pub fail_row : Payment → Payment
fail_row p = record p { status = PaymentStatus.failed }

unfoldable pub reject_pending_review_for_payment :
    Clock → Payment → Tx Billing BillingError (Unit {0})
unfolding linked_of reject_linked fail_row update_payments emit
reject_pending_review_for_payment clock p = do
  raise_if (not (is_pending p.status)) payment_not_pending
  linked ← gets (linked_of p)
  reject_linked clock linked
  modify (update_payments (is_payment p.id) fail_row)
  modify (emit (invalidate_feature_config p.user_id ∷ []))
