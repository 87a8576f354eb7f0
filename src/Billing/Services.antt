-- ===== src/Billing/Services.antt =====
-- Activation and extension of a subscription (engine/apps/billing/services.py). The keys of the rows
-- that a call creates are arguments. The names and reasons that only the emails print are left out.
use api_paperbase.Base.{
  ℕ, ◌+◌, Bool, true, false, not, ◌&&◌, ◌||◌, Option, none, some, [], ◌∷◌, ◌==◌, if◌then◌else◌, max,
  opt_eq,
}
use api_paperbase.Base.Int.{ℤ, eqb_ℤ}
use api_paperbase.Base.Queries.{is_some}
use api_paperbase.Base.Greatest.{greatest_by}
use api_paperbase.Base.Results.{Result, ok, err}
use api_paperbase.Base.Tx.{Tx, pure, gets, lift, modify, raise_if, ◌>>=◌, ◌>>◌}
use api_paperbase.Money.{quantize_money, cents}
use api_paperbase.Billing.{
  BillingCycle, Plan, SubscriptionStatus, Subscription, Source, PaymentStatus, Provider, Payment,
  invalidate_feature_config, sync_email_settings, Clock, Billing, BillingError, invalid_duration,
  amount_mismatch, user_mismatch, payment_not_pending, plan_mismatch, not_active,
  billing_cycle_duration_days, plan_charge_amount, is_subscription, is_payment,
  update_subscriptions, update_payments, create_subscription, create_payment, emit, linked_of,
}
use api_paperbase.Billing.Emails.{is_payment_source, activation_effects}
use api_paperbase.Billing.Status.{is_row, is_active, is_pending_review, rows_of, by_creation}

abbrev pub is_pending : PaymentStatus → Bool
is_pending PaymentStatus.pending = true
is_pending PaymentStatus.success = false
is_pending PaymentStatus.failed = false
is_pending PaymentStatus.refunded = false

-- `duration_days`, or the days of the cycle; a paid term must have these.
unfoldable pub term_days : BillingCycle → Option ℕ → Source → Result BillingError ℕ
term_days cycle duration source = elim (billing_cycle_duration_days cycle) [
  | err e ↦ err e
  | ok expected ↦ elim duration [
    | none ↦ ok expected
    | some days ↦
        if is_payment_source source && not (days == expected) then err invalid_duration else ok days
  ]
]

-- `quantize_money(amount) != plan_charge_amount(plan)`
unfoldable pub charge_differs : Plan → ℤ → Result BillingError Bool
charge_differs plan amount = elim (plan_charge_amount plan) [
  | err e ↦ err e
  | ok expected ↦ ok (not (eqb_ℤ (quantize_money (cents amount)) expected))
]

-- The plan of the active row that was created last.
unfoldable pub previous_plan : ℕ → Billing → Option ℕ
unfolding rows_of by_creation
previous_plan user db = elim (greatest_by by_creation (rows_of user is_active db)) [
  | none ↦ none
  | some s ↦ some s.plan_id
]

unfoldable pub expire_row : Clock → Subscription → Subscription
expire_row clock s = record s { status = SubscriptionStatus.expired; updated_at = clock.now }

unfoldable pub expire_active : Clock → ℕ → Billing → Billing
unfolding update_subscriptions expire_row
expire_active clock user = update_subscriptions (is_row user is_active) (expire_row clock)

-- What an activation grants: `plan`, `billing_cycle`, `end_date - today` and `source`.
pub record Term : Type 0 where
  pub plan_id : ℕ
  pub billing_cycle : BillingCycle
  pub days : ℕ
  pub source : Source

unfoldable pub is_upgradable : ℕ → Term → Subscription → Bool
is_upgradable user term s =
    is_pending_review s.status && (s.user_id == user && s.plan_id == term.plan_id)

-- The fields that the upgrade of a linked row saves.
unfoldable pub upgrade_row : Clock → Term → Subscription → Subscription
upgrade_row clock term s = record s {
  status = SubscriptionStatus.active;
  billing_cycle = term.billing_cycle;
  start_date = clock.today;
  end_date = clock.today + term.days;
  auto_renew = false;
  source = term.source;
  updated_at = clock.now;
}

unfoldable pub new_row : Clock → Term → ℕ → ℕ → Subscription
new_row clock term sub_id user = record {
  id = sub_id;
  user_id = user;
  plan_id = term.plan_id;
  status = SubscriptionStatus.active;
  billing_cycle = term.billing_cycle;
  start_date = clock.today;
  end_date = clock.today + term.days;
  auto_renew = false;
  source = term.source;
  created_at = clock.now;
  updated_at = clock.now;
}

unfoldable pub approve_row : Payment → Payment
approve_row p = record p { status = PaymentStatus.success }

unfoldable pub link_row : ℕ → Payment → Payment
link_row k p = record p { status = PaymentStatus.success; subscription_id = some k }

-- The rows of a pending payment that is approved: a linked row under review is upgraded, or a row is
-- created and linked.
unfoldable pub approve_pending :
    Clock
    → ℕ
    → ℕ
    → Term
    → Payment
    → Option Subscription
    → Tx Billing BillingError (Subscription × Payment)
unfolding upgrade_row new_row approve_row link_row update_subscriptions update_payments
    create_subscription
approve_pending clock sub_id user term ep (some linked) = do
  modify (update_subscriptions (is_subscription linked.id) (upgrade_row clock term))
  modify (update_payments (is_payment ep.id) approve_row)
  pure (upgrade_row clock term linked, approve_row ep)
approve_pending clock sub_id user term ep none = do
  modify (create_subscription (new_row clock term sub_id user))
  modify (update_payments (is_payment ep.id) (link_row sub_id))
  pure (new_row clock term sub_id user, link_row sub_id ep)

-- The linked row, if it is to be upgraded.
unfoldable pub upgradable : ℕ → Term → Option Subscription → Option Subscription
unfolding is_upgradable
upgradable user term none = none
upgradable user term (some linked) = if is_upgradable user term linked then some linked else none

unfoldable pub new_payment : Clock → Term → ℕ → ℕ → ℕ → ℤ → Provider → Payment
new_payment clock term sub_id pay_id user amount provider = record {
  id = pay_id;
  user_id = user;
  plan_id = some term.plan_id;
  subscription_id = some sub_id;
  amount = amount;
  status = PaymentStatus.success;
  provider = provider;
  transaction_id = none;
  sender_number = none;
  created_at = clock.now;
}

-- The branch with a pending payment. Its tests come first, and raise before any write.
unfoldable pub activate_pending :
    Clock → ℕ → ℕ → Plan → Term → Payment → Tx Billing BillingError (Subscription × Payment)
unfolding charge_differs linked_of upgradable expire_active approve_pending
activate_pending clock sub_id user plan term ep = do
  raise_if (not (ep.user_id == user)) user_mismatch
  raise_if (not (is_pending ep.status)) payment_not_pending
  raise_if (not (opt_eq ep.plan_id (some plan.id))) plan_mismatch
  differs ← lift (charge_differs plan ep.amount)
  raise_if differs amount_mismatch
  linked ← gets (linked_of ep)
  modify (expire_active clock user)
  approve_pending clock sub_id user term ep (upgradable user term linked)

-- The branch without one.
unfoldable pub activate_new :
    Clock → ℕ → ℕ → ℕ → Term → ℤ → Provider → Tx Billing BillingError (Subscription × Payment)
unfolding expire_active new_row new_payment create_subscription create_payment
activate_new clock sub_id pay_id user term amount provider = do
  modify (expire_active clock user)
  modify (create_subscription (new_row clock term sub_id user))
  modify (create_payment (new_payment clock term sub_id pay_id user amount provider))
  pure (new_row clock term sub_id user, new_payment clock term sub_id pay_id user amount provider)

unfoldable pub activate_rows :
    Clock
    → ℕ
    → ℕ
    → ℕ
    → Plan
    → Term
    → ℤ
    → Provider
    → Option Payment
    → Tx Billing BillingError (Subscription × Payment)
unfolding activate_pending activate_new
activate_rows clock sub_id pay_id user plan term amount provider none =
    activate_new clock sub_id pay_id user term amount provider
activate_rows clock sub_id pay_id user plan term amount provider (some ep) =
    activate_pending clock sub_id user plan term ep

-- The writes after the rows, and what runs on commit.
unfoldable pub finish_activation :
    ℕ → Option ℕ → Subscription × Payment → Tx Billing BillingError Subscription
unfolding emit activation_effects
finish_activation user prev_plan rows = do
  modify (emit (sync_email_settings user ∷ []))
  modify (emit (activation_effects user rows.0 rows.1 prev_plan))
  pure rows.0

-- The test of the amount, for a paid source or a pending payment.
unfoldable pub amount_is_wrong : Plan → Source → ℤ → Option Payment → Result BillingError Bool
amount_is_wrong plan source amount pending_payment =
    if is_payment_source source || is_some pending_payment
    then charge_differs plan amount
    else ok false

-- `billing_cycle or plan.billing_cycle`
unfoldable pub cycle_or : Option BillingCycle → BillingCycle → BillingCycle
cycle_or none cycle = cycle
cycle_or (some c) cycle = c

unfoldable pub activate_subscription :
    Clock
    → ℕ
    → ℕ
    → ℕ
    → Plan
    → Option BillingCycle
    → Option ℕ
    → Source
    → ℤ
    → Provider
    → Option Payment
    → Tx Billing BillingError Subscription
unfolding cycle_or term_days amount_is_wrong previous_plan activate_rows finish_activation
activate_subscription clock sub_id pay_id user plan billing_cycle duration_days source amount
      provider pending_payment =
    do
      let cycle = cycle_or billing_cycle plan.billing_cycle
      days ← lift (term_days cycle duration_days source)
      wrong ← lift (amount_is_wrong plan source amount pending_payment)
      raise_if wrong amount_mismatch
      prev_plan ← gets (previous_plan user)
      let term : Term = record {
        plan_id = plan.id;
        billing_cycle = cycle;
        days = days;
        source = source;
      }
      rows ← activate_rows clock sub_id pay_id user plan term amount provider pending_payment
      finish_activation user prev_plan rows

unfoldable pub extend_row : Clock → ℕ → Subscription → Subscription
extend_row clock new_end s = record s { end_date = new_end; updated_at = clock.now }

-- `days` is not negative: its callers give 30.
unfoldable pub extend_subscription : Clock → Subscription → ℕ → Tx Billing BillingError Subscription
unfolding update_subscriptions extend_row emit
extend_subscription clock s days = do
  raise_if (not (is_active s.status)) not_active
  let new_end = max s.end_date clock.today + days
  modify (update_subscriptions (is_subscription s.id) (extend_row clock new_end))
  modify (emit (invalidate_feature_config s.user_id ∷ []))
  pure (extend_row clock new_end s)
