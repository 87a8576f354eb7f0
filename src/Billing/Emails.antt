-- ===== src/Billing/Emails.antt =====
-- What an activation asks for once it is committed (engine/apps/billing/services.py, and
-- `subscription_payment_receipt_worth_sending` of engine/apps/emails/triggers.py).
use api_paperbase.Base.{
  ℕ, Bool, true, false, not, ◌||◌, Option, none, some, List, [], ◌∷◌, ◌++◌, ◌==◌, if◌then◌else◌,
}
use api_paperbase.Base.Int.{ℤ, pos, ltb_ℤ}
use api_paperbase.Base.Queries.{is_some}
use api_paperbase.Billing.{
  Subscription, Source, Provider, Payment, Effect, invalidate_feature_config, payment_email,
  changed_email, activated_email, new_subscription_email,
}

abbrev pub is_payment_source : Source → Bool
is_payment_source Source.payment = true
is_payment_source Source.manual = false
is_payment_source Source.trial = false

abbrev pub is_by_hand : Provider → Bool
is_by_hand Provider.by_hand = true
is_by_hand Provider.bkash = false
is_by_hand Provider.nagad = false

unfoldable pub subscription_payment_receipt_worth_sending : Source → ℤ → Provider → Bool
subscription_payment_receipt_worth_sending source amount provider =
    is_payment_source source || ltb_ℤ (pos 0) amount || not (is_by_hand provider)

-- The email about the plan, by the plan before.
unfoldable pub plan_email : ℕ → Subscription → Option ℕ → Bool → Effect
plan_email user s none receipt = activated_email user s.id receipt
plan_email user s (some old) receipt =
    if old == s.plan_id then activated_email user s.id receipt else changed_email user s.id old

-- `_finalize_subscription_activation_emails_and_side_effects`
unfoldable pub activation_effects : ℕ → Subscription → Payment → Option ℕ → List Effect
unfolding subscription_payment_receipt_worth_sending plan_email
activation_effects user s p prev_plan =
    let receipt = subscription_payment_receipt_worth_sending s.source p.amount p.provider in
    (if receipt then payment_email user s.id p.id ∷ [] else [])
    ++ plan_email user s prev_plan receipt ∷ []
    ++ (if is_some prev_plan then [] else new_subscription_email user s.id ∷ [])
    ++ invalidate_feature_config user ∷ []
