-- ===== src/Billing/Tidy/Writes.antt =====
-- The writes that activation and checkout share.
use api_paperbase.Base.{ℕ, ◌≡◌, refl, ap, ◌∙◌, Bool, true, none, List, ◌==◌, arith}
use api_paperbase.Base.Queries.{find?, update_where, UniqueBy-update_where, find?-update_where}
use api_paperbase.Base.Order.{All-of}
use api_paperbase.Base.Count.{count, count-update_where}
use api_paperbase.Billing.{
  Subscription, Payment, Clock, Billing, is_subscription, is_payment, update_subscriptions,
}
use api_paperbase.Billing.Status.{is_row, is_active}
use api_paperbase.Billing.Services.{expire_row, expire_active}
use api_paperbase.Billing.Payments.{is_pending_of}
use api_paperbase.Billing.Tidy.{pay_key, TidyPayments, IsTidy, expired_tidy, expired_none}

-- A payment that is written keeps its user, and does not become pending.
pub TidyPayments-update :
    (test : Payment → Bool) (f : Payment → Payment) (ps : List Payment)
    → ((p : Payment) → (f p).id ≡ p.id)
    → ((p : Payment) (v : ℕ) → is_pending_of v (f p) ≡ true → is_pending_of v p ≡ true)
    → TidyPayments ps
    → TidyPayments (update_where test f ps)
TidyPayments-update test f ps same low tidy = (
  UniqueBy-update_where pay_key test f ps same tidy.0,
  λ v.
      let less = count-update_where (is_pending_of v) test f ps (All-of _ ps (λ p t. low p v)) in
      let before = tidy.1 v in omega (arith, less, before),
)

-- The keys that a call gives to new rows are new.
abbrev pub IsFresh : ℕ → ℕ → Billing → Type 0
IsFresh sub_id pay_id db =
    (find? (is_subscription sub_id) db.subscriptions ≡ none)
    × (find? (is_payment pay_id) db.payments ≡ none)

-- The state between the expiry of a user's active rows and the write of their new one.
abbrev pub IsCleared : ℕ → Billing → Type 0
IsCleared user db = IsTidy db × (count (is_row user is_active) db.subscriptions ≡ 0)

find?-absent :
    (k : ℕ) (test : Subscription → Bool) (f : Subscription → Subscription) (xs : List Subscription)
    → ((x : Subscription) → (f x).id ≡ x.id)
    → find? (is_subscription k) xs ≡ none
    → find? (is_subscription k) (update_where test f xs) ≡ none
find?-absent k test f xs same h =
    find?-update_where test f (is_subscription k) xs (λ x. ap (λ (n : ℕ). n == k) (same x))
    ∙ rw h refl

pub expire-IsCleared :
    (clock : Clock) (user sub_id pay_id : ℕ) (db : Billing)
    → IsTidy db
    → IsFresh sub_id pay_id db
    → IsCleared user (expire_active clock user db)
      × IsFresh sub_id pay_id (expire_active clock user db)
unfolding expire_active update_subscriptions expire_row
expire-IsCleared clock user sub_id pay_id db tidy fresh = (
  (
    (expired_tidy clock user db.subscriptions tidy.0, tidy.1),
    expired_none clock user db.subscriptions,
  ),
  (
    find?-absent sub_id (is_row user is_active) (expire_row clock) db.subscriptions (λ x. refl)
        fresh.0,
    fresh.1,
  ),
)
