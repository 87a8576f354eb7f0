-- ===== src/Billing.antt =====
-- Plans, subscriptions and payments (engine/apps/billing/models.py, pricing.py). A user is known by its
-- key. Dates are numbers of days, times numbers of microseconds, amounts signed numbers of cents.
-- Emails, cache invalidations and the sync of email settings are a list of effects.
pub mod Status
pub mod Emails
pub mod Services
pub mod Payments
pub mod Tidy
pub mod Opens
mod Tests
use api_paperbase.Base.Queries.{find?, update_where}
use api_paperbase.Base.{◌==◌, ◌++◌, [], ◌∷◌, none, some, ℕ, Bool, Option, List, ◌*◌}
use api_paperbase.Base.Int.{ℤ, ◌*ℤ◌}
use api_paperbase.Base.Results.{Result, ok, err}
use api_paperbase.Base.Text.{Text}
use api_paperbase.Money.{quantize_money, cents}

-- `Plan.BillingCycle`; `unsupported` is any other text that is not empty.
pub data BillingCycle : Type 0 where
  monthly yearly unsupported : BillingCycle

pub record Plan : Type 0 where
  pub id : ℕ
  pub price : ℤ
  pub billing_cycle : BillingCycle
  pub is_active : Bool

-- `Subscription.Status`
pub data SubscriptionStatus : Type 0 where
  active pending_review rejected expired canceled : SubscriptionStatus

-- `Subscription.Source`
pub data Source : Type 0 where
  payment manual trial : Source

pub record Subscription : Type 0 where
  pub id : ℕ
  pub user_id : ℕ
  pub plan_id : ℕ
  pub status : SubscriptionStatus
  pub billing_cycle : BillingCycle
  pub start_date : ℕ
  pub end_date : ℕ
  pub auto_renew : Bool
  pub source : Source
  pub created_at : ℕ
  pub updated_at : ℕ

-- `Payment.Status`
pub data PaymentStatus : Type 0 where
  pending success failed refunded : PaymentStatus

-- `Payment.Provider`; `by_hand` is its MANUAL.
pub data Provider : Type 0 where
  by_hand bkash nagad : Provider

-- `sender_number` is the one key of `metadata` that the services write.
pub record Payment : Type 0 where
  pub id : ℕ
  pub user_id : ℕ
  pub plan_id : Option ℕ
  pub subscription_id : Option ℕ
  pub amount : ℤ
  pub status : PaymentStatus
  pub provider : Provider
  pub transaction_id : Option Text
  pub sender_number : Option Text
  pub created_at : ℕ

-- What a service asks for besides its writes; the first argument of each is the user.
pub data Effect : Type 0 where
  invalidate_feature_config : ℕ → Effect
  sync_email_settings : ℕ → Effect
  payment_email : ℕ → (subscription_id : ℕ) → (payment_id : ℕ) → Effect
  changed_email : ℕ → (subscription_id : ℕ) → (old_plan : ℕ) → Effect
  activated_email : ℕ → (subscription_id : ℕ) → (receipt_sent_separately : Bool) → Effect
  new_subscription_email : ℕ → (subscription_id : ℕ) → Effect

-- `bd_today()` and `timezone.now()` of a call.
pub record Clock : Type 0 where
  pub today : ℕ
  pub now : ℕ

-- The tables.
pub record Billing : Type 0 where
  pub plans : List Plan
  pub subscriptions : List Subscription
  pub payments : List Payment
  pub effects : List Effect

pub data BillingError : Type 0 where
  no_pending_payment no_plan_linked transaction_id_required duplicate_transaction_id : BillingError
  user_mismatch invalid_subscription_state invalid_field payment_not_pending : BillingError
  unsupported_cycle invalid_duration amount_mismatch plan_mismatch not_active plan_not_found :
      BillingError
  already_active already_pending_review already_submitted : BillingError

unfoldable pub billing_cycle_duration_days : BillingCycle → Result BillingError ℕ
billing_cycle_duration_days monthly = ok 30
billing_cycle_duration_days yearly = ok 365
billing_cycle_duration_days unsupported = err unsupported_cycle

-- The amounts of `plan_charge_amount`, by the plan's cycle.
unfoldable pub charge_for : BillingCycle → ℤ → Result BillingError ℤ
charge_for monthly price = ok (quantize_money (cents price))
charge_for yearly price = ok (quantize_money (cents (price *ℤ 12)))
charge_for unsupported price = err unsupported_cycle

unfoldable pub plan_charge_amount : Plan → Result BillingError ℤ
unfolding charge_for
plan_charge_amount plan = charge_for plan.billing_cycle plan.price

abbrev pub is_plan : ℕ → Plan → Bool
is_plan k plan = plan.id == k

abbrev pub is_subscription : ℕ → Subscription → Bool
is_subscription k s = s.id == k

abbrev pub is_payment : ℕ → Payment → Bool
is_payment k p = p.id == k

-- `row.save(update_fields=…)` and `filter(…).update(…)`.
unfoldable pub update_subscriptions :
    (Subscription → Bool) → (Subscription → Subscription) → Billing → Billing
update_subscriptions test f db = record db { subscriptions = update_where test f db.subscriptions }

unfoldable pub update_payments : (Payment → Bool) → (Payment → Payment) → Billing → Billing
update_payments test f db = record db { payments = update_where test f db.payments }

unfoldable pub create_subscription : Subscription → Billing → Billing
create_subscription s db = record db { subscriptions = s ∷ db.subscriptions }

unfoldable pub create_payment : Payment → Billing → Billing
create_payment p db = record db { payments = p ∷ db.payments }

unfoldable pub emit : List Effect → Billing → Billing
emit es db = record db { effects = db.effects ++ es }

-- `payment.subscription`
unfoldable pub linked_of : Payment → Billing → Option Subscription
linked_of p db = elim p.subscription_id [
  | none ↦ none
  | some k ↦ find? (is_subscription k) db.subscriptions
]
