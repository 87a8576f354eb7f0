-- ===== src/Billing/Tidy/Serial.antt =====
-- Runs of the services on subscriptions and payments, one call after another. Nothing in the code keeps
-- two calls apart: billing locks no rows.
use api_paperbase.Base.{ℕ, ◌≡◌, Option, none, [], arith}
use api_paperbase.Base.Int.{ℤ}
use api_paperbase.Base.Text.{Text}
use api_paperbase.Base.Results.{ok}
use api_paperbase.Base.Queries.{find?}
use api_paperbase.Billing.{
  BillingCycle, Plan, Subscription, Source, Provider, Payment, Clock, Billing, is_subscription,
  is_payment,
}
use api_paperbase.Billing.Services.{activate_subscription, extend_subscription}
use api_paperbase.Billing.Payments.{
  initiate_payment, submit_pending_payment_transaction, reject_pending_review_for_payment,
}
use api_paperbase.Billing.Tidy.{IsTidy}
use api_paperbase.Billing.Tidy.Writes.{IsFresh}
use api_paperbase.Billing.Tidy.Activation.{activate_subscription-IsTidy, extend_subscription-IsTidy}
use api_paperbase.Billing.Tidy.Choice.{initiate_payment-IsTidy}
use api_paperbase.Billing.Tidy.Checkout.{submit-IsTidy, reject-IsTidy}

-- A call that succeeds; the keys that it gives to new rows are new.
pub data Step : Billing → Billing → Type 0 where
  initiated :
      {s s' : Billing} (clock : Clock) (pay_id user plan_id : ℕ) (p : Payment)
      → find? (is_payment pay_id) s.payments ≡ none
      → initiate_payment clock pay_id user plan_id s ≡ ok (p, s')
      → Step s s'
  submitted :
      {s s' : Billing} (clock : Clock) (sub_id user : ℕ) (transaction_id sender_number : Text)
      (p : Payment)
      → find? (is_subscription sub_id) s.subscriptions ≡ none
      → submit_pending_payment_transaction clock sub_id user transaction_id sender_number s
        ≡ ok (p, s')
      → Step s s'
  rejected :
      {s s' : Billing} (clock : Clock) (p : Payment)
      → reject_pending_review_for_payment clock p s ≡ ok (tt, s')
      → Step s s'
  activated :
      {s s' : Billing} (clock : Clock) (sub_id pay_id user : ℕ) (plan : Plan)
      (billing_cycle : Option BillingCycle) (duration_days : Option ℕ) (source : Source)
      (amount : ℤ) (provider : Provider) (pending_payment : Option Payment) (row : Subscription)
      → IsFresh sub_id pay_id s
      → activate_subscription clock sub_id pay_id user plan billing_cycle duration_days source
          amount provider pending_payment s
        ≡ ok (row, s')
      → Step s s'
  extended :
      {s s' : Billing} (clock : Clock) (row : Subscription) (days : ℕ) (row' : Subscription)
      → extend_subscription clock row days s ≡ ok (row', s')
      → Step s s'

-- The tables that calls which do not overlap reach from empty ones, whatever the plans are.
pub data Serial : Billing → Type 0 where
  start : {s : Billing} → s.subscriptions ≡ [] → s.payments ≡ [] → Serial s
  next : {s s' : Billing} → Serial s → Step s s' → Serial s'

Step-IsTidy : (s s' : Billing) → Step s s' → IsTidy s → IsTidy s'
Step-IsTidy s s' (initiated clock pay_id user plan_id p fresh run) h =
    (initiate_payment-IsTidy clock pay_id user plan_id).after s (h, fresh) p s' run
Step-IsTidy s s' (submitted clock sub_id user transaction_id sender_number p fresh run) h =
    (submit-IsTidy clock sub_id user transaction_id sender_number).after s (h, fresh) p s' run
Step-IsTidy s s' (rejected clock p run) h = (reject-IsTidy clock p).after s h tt s' run
Step-IsTidy s s'
      (activated clock sub_id pay_id user plan billing_cycle duration_days source amount provider
        pending_payment row fresh run)
      h =
    (activate_subscription-IsTidy clock sub_id pay_id user plan billing_cycle duration_days source
        amount provider pending_payment).after
      s (h, fresh) row s' run
Step-IsTidy s s' (extended clock row days row' run) h =
    (extend_subscription-IsTidy clock row days).after s h row' s' run

-- As long as the calls of the services do not overlap, keys are unique in all tables that they reach,
-- and a user has at most one ACTIVE subscription, at most one under review, and at most one pending
-- payment.
pub Serial-IsTidy : (s : Billing) → Serial s → IsTidy s
Serial-IsTidy s (start no_rows no_payments) =
    rw (no_rows, no_payments) ((tt, λ v. omega arith, λ v. omega arith), (tt, λ v. omega arith))
Serial-IsTidy s' (next {s} run step) = Step-IsTidy s s' step (Serial-IsTidy s run)
