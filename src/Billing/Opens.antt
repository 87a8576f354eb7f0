-- ===== src/Billing/Opens.antt =====
-- What an activation and an extension do to the storefront of the user.
pub mod Approval
pub mod Extension
pub mod Journey
use api_paperbase.Base.{
  ℕ, ◌+◌, ◌≤◌, ◌≡◌, refl, sym, ap, ◌∙◌, Bool, true, false, not, ◌&&◌, ◌||◌, Option, none, some,
  List, [], ◌∷◌, ◌==◌, if◌then◌else◌, any, arith, Bool-cases, inl, inr, ==→eq, ==_refl,
  Option-cases, leb, max, opt_eq, opt_eq_refl,
}
use mathlib.Core.Option
use mathlib.Core.Path.{subst}
use api_paperbase.Base.Int.{ℤ, eqb_ℤ, pos_part, neg_part}
use api_paperbase.Base.Results.{Result, ok, err, Delivers, is_ok}
use api_paperbase.Base.Queries.{find?, find?-test, update_where, find?-update_where}
use api_paperbase.Money.{quantize_money, cents}
use api_paperbase.Money.Laws.{quantize_money-cents}
use api_paperbase.Base.Tx.{andthen}
use api_paperbase.Billing.{
  BillingCycle, BillingError, Plan, Provider, SubscriptionStatus, Subscription, Source, Payment,
  Clock, Billing, billing_cycle_duration_days, plan_charge_amount, is_subscription, is_payment,
  linked_of, update_subscriptions, update_payments, create_subscription, emit,
}
use api_paperbase.Billing.Status.{
  is_row, is_active, is_pending_review, assert_storefront_subscription_allows_for_owner,
}
use api_paperbase.Billing.Status.Access.{has_paid}
use api_paperbase.Billing.Status.Storefront.{storefront-eq-has_paid}
use api_paperbase.Billing.Services.{
  Term, expire_row, expire_active, is_upgradable, upgradable, upgrade_row, new_row, approve_row,
  link_row, approve_pending, activate_pending, activate_rows, finish_activation,
  activate_subscription, extend_row, extend_subscription, is_pending, charge_differs, term_days,
  cycle_or, amount_is_wrong, previous_plan,
}

-- The storefront is open on every day up to the day after `until`.
abbrev pub IsOpenUntil : ℕ → ℕ → Billing → Type 0
IsOpenUntil user until db =
    (day : ℕ)
    → day ≤ until + 1
    → is_ok (assert_storefront_subscription_allows_for_owner day (some user) db) ≡ true

-- An active row of the user ends on a day.
abbrev HasRow : ℕ → ℕ → List Subscription → Type 0
HasRow user end xs = any xs (λ s. is_row user is_active s && s.end_date == end) ≡ true

pub or_left : (a b : Bool) → a ≡ true → (a || b) ≡ true
or_left a b h = rw h refl

or_right : (a b : Bool) → b ≡ true → (a || b) ≡ true
or_right a b h = ground (arith, h)

pub both_true : (a b : Bool) → (a && b) ≡ true → (a ≡ true) × (b ≡ true)
both_true a b h = ground arith

in_time : (day end until : ℕ) → (end == until) ≡ true → day ≤ until + 1 → leb day (end + 1) ≡ true
in_time day end until e h = ground arith

paid_of_row :
    (day user end : ℕ) (xs : List Subscription)
    → day ≤ end + 1
    → HasRow user end xs
    → any xs (λ s. is_row user is_active s && leb day (s.end_date + 1)) ≡ true
paid_of_row day user end [] h row = cc row
paid_of_row day user end (x ∷ xs) h row =
    elim (Bool-cases (is_row user is_active x && x.end_date == end)) [
      | inl e ↦
          let (mine, ends) = both_true (is_row user is_active x) (x.end_date == end) e in
          let paid : (is_row user is_active x && leb day (x.end_date + 1)) ≡ true =
            rw (mine, in_time day x.end_date end ends h) refl in
          or_left _ _ paid
      | inr e ↦ let rest = paid_of_row day user end xs h (rw e at row) in or_right _ _ rest
    ]

pub open_of_row :
    (user end : ℕ) (db : Billing) → HasRow user end db.subscriptions → IsOpenUntil user end db
unfolding has_paid
open_of_row user end db row day h =
    storefront-eq-has_paid day user db ∙ paid_of_row day user end db.subscriptions h row

pub any-updated :
    {A : Type 0} (p test : A → Bool) (f : A → A) (x : A) (xs : List A)
    → find? test xs ≡ some x
    → p (f x) ≡ true
    → any (update_where test f xs) p ≡ true
any-updated p test f x [] h e = cc h
any-updated {A} p test f x (y ∷ ys) h e = elim (Bool-cases (test y)) [
  | inl t ↦ let same : y ≡ x = cc (h, t) in rw t (or_left _ _ (ap (λ (z : A). p (f z)) same ∙ e))
  | inr t ↦ let rest = any-updated p test f x ys (cc (h, t)) e in rw t (or_right _ _ rest)
]

pub ends_on :
    (user end : ℕ) (s : Subscription)
    → (s.user_id == user) ≡ true
    → is_active s.status ≡ true
    → (s.end_date == end) ≡ true
    → (is_row user is_active s && s.end_date == end) ≡ true
ends_on user end s h k e = rw (h, k, e) refl
