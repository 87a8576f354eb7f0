-- ===== src/Billing/Tests.antt =====
-- A checkout of a plan, and rows of other kinds.
use api_paperbase.Base.{◌≡◌, refl, true, false, none, some, [], ◌∷◌}
use api_paperbase.Base.Int.{pos, ◌*ℤ◌}
use api_paperbase.Base.Greatest.{greatest_by}
use api_paperbase.Money.{quantize_money}
use api_paperbase.Base.Results.{Delivers, value, is_ok}
use api_paperbase.Base.Text.{strip, codes}
use api_paperbase.Billing.{
  BillingCycle, Plan, SubscriptionStatus, Subscription, Source, PaymentStatus, Provider, Payment,
  Clock, Billing, billing_cycle_duration_days, plan_charge_amount,
}
use api_paperbase.Billing.Status.{assert_storefront_subscription_allows_for_owner}
use api_paperbase.Billing.Status.Access.{has_paid}
use api_paperbase.Billing.Status.Storefront.{storefront-eq-has_paid}
use api_paperbase.Billing.Services.{activate_subscription, extend_subscription}
use api_paperbase.Billing.Payments.{
  read_choice, pending_payment, initiate_payment, submit_pending_payment_transaction,
}
use api_paperbase.Billing.Tidy.{IsTidy}
use api_paperbase.Billing.Tidy.Serial.{initiated, submitted, start, next, Serial-IsTidy}
use api_paperbase.Billing.Opens.{IsOpenUntil}
use api_paperbase.Billing.Opens.Approval.{approve-opens}
use api_paperbase.Billing.Opens.Journey.{subscribe, subscribe-opens}
use api_paperbase.Billing.Opens.Extension.{extend-opens}

abbrev basic : Plan
basic = record { id = 1; price = pos 49900; billing_cycle = BillingCycle.monthly; is_active = true }

abbrev clock : Clock
clock = record { today = 100; now = 5000 }

abbrev shop : Billing
shop = record { plans = basic ∷ []; subscriptions = []; payments = []; effects = [] }

abbrev no_payment : Payment
no_payment = record {
  id = 0;
  user_id = 0;
  plan_id = none;
  subscription_id = none;
  amount = pos 0;
  status = PaymentStatus.failed;
  provider = Provider.by_hand;
  transaction_id = none;
  sender_number = none;
  created_at = 0;
}

abbrev chosen : Payment × Billing
chosen = value (initiate_payment clock 300 7 1 shop) (no_payment, shop)

abbrev waiting : Payment × Billing
waiting =
    value (submit_pending_payment_transaction clock 200 7 (codes " TX9 ") (codes "") chosen.1)
      (no_payment, shop)

Serial-IsTidy_example : IsTidy waiting.1
unfolding initiate_payment read_choice submit_pending_payment_transaction greatest_by
    billing_cycle_duration_days quantize_money ◌*ℤ◌
Serial-IsTidy_example = Serial-IsTidy waiting.1 (
    next (next (start {s = shop} refl refl) (initiated clock 300 7 1 chosen.0 refl refl))
      (submitted clock 200 7 (codes " TX9 ") (codes "") waiting.0 refl refl))

approve-opens_example :
    Delivers
      (λ row db'. IsOpenUntil 7 130 db')
      (activate_subscription clock 201 301 7 basic none none Source.payment
        (pos 49900)
        Provider.by_hand
        (some waiting.0)
        waiting.1)
unfolding initiate_payment read_choice submit_pending_payment_transaction greatest_by
    billing_cycle_duration_days quantize_money ◌*ℤ◌
approve-opens_example = approve-opens clock 201 301 30 basic waiting.0 waiting.1 refl refl refl refl

subscribe-opens_example :
    Delivers
      (λ row db'. IsOpenUntil 7 130 db')
      (subscribe clock clock clock 300 200 201 301 7 basic (codes " TX9 ") (codes "") shop)
unfolding greatest_by billing_cycle_duration_days quantize_money ◌*ℤ◌ plan_charge_amount
    pending_payment strip
subscribe-opens_example =
    subscribe-opens clock clock clock 300 200 201 301 7 30 basic (pos 49900) (codes " TX9 ")
      (codes "") shop refl refl refl refl refl refl refl

-- An active row, and one under review that is newer.
abbrev active_row : Subscription
active_row = record {
  id = 1;
  user_id = 7;
  plan_id = 1;
  status = SubscriptionStatus.active;
  billing_cycle = BillingCycle.monthly;
  start_date = 60;
  end_date = 90;
  auto_renew = false;
  source = Source.payment;
  created_at = 10;
  updated_at = 10;
}

abbrev waiting_row : Subscription
waiting_row = record active_row {
  id = 2;
  status = SubscriptionStatus.pending_review;
  created_at = 20;
  updated_at = 20;
}

abbrev renewing : Billing
renewing = record shop { subscriptions = waiting_row ∷ active_row ∷ [] }

storefront-eq-has_paid_example :
    is_ok (assert_storefront_subscription_allows_for_owner 91 (some 7) renewing)
    ≡ has_paid 91 7 renewing
storefront-eq-has_paid_example = storefront-eq-has_paid 91 7 renewing

extend-opens_example :
    Delivers
      (λ row db'. (row.end_date ≡ 130) × IsOpenUntil 7 130 db')
      (extend_subscription clock active_row 30 renewing)
extend-opens_example = extend-opens clock active_row 30 renewing refl refl
