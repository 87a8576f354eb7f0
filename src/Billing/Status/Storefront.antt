-- ===== src/Billing/Status/Storefront.antt =====
-- Which storefronts are open on a day.
use api_paperbase.Base.{
  ℕ, ◌+◌, ◌≤◌, ◌≡◌, ◌≢◌, refl, sym, ◌∙◌, true, false, ◌&&◌, none, some, leb, arith, Bool-cases,
  Option-cases, inl, inr, All,
}
use api_paperbase.Base.Queries.{filter}
use api_paperbase.Base.Order.{filter-test, filter-All, All-filter, All-map}
use api_paperbase.Base.Greatest.{
  greatest_by-none, greatest_by-All, greatest_by-max, filter-empty, any_of, any_none, none_of_any,
}
use api_paperbase.Base.Results.{is_ok}
use api_paperbase.Billing.{Subscription, Billing}
use api_paperbase.Billing.Status.{
  CalendarStatus, get_subscription_status, is_paid, is_active, is_row, rows_of, latest_active,
  latest_pending, latest_rejected, latest_other, candidate_with_active, candidate,
  get_candidate_subscription_row, status_of_row, get_user_subscription_status, paid_row,
  storefront_allows, assert_storefront_subscription_allows_for_owner, by_end,
}
use api_paperbase.Billing.Status.Access.{
  has_paid, active_is_paid, allowed, denied, waiting_status, found_pending, found_rejected,
  found-IsWaiting, candidate_of_paid, candidate_of_unpaid, unpaid_active, row_has,
}
use api_paperbase.Billing.Status.Unpaid.{found_other, IsUnpaid-candidate}

-- The latest active row is active, and no active row of the user ends later.
latest_active_lem :
    (user : ℕ) (db : Billing) (a : Subscription)
    → latest_active user db ≡ some a
    → (is_row user is_active a ≡ true)
      × All (λ s. is_row user is_active s ≡ true → s.end_date ≤ a.end_date) db.subscriptions
unfolding latest_active rows_of by_end
latest_active_lem user db a h = (
  greatest_by-All (λ x. is_row user is_active x ≡ true) _ _ a
      (filter-test (is_row user is_active) db.subscriptions) h,
  All-filter (λ s. s.end_date ≤ a.end_date) (is_row user is_active) db.subscriptions
      (greatest_by-max (λ s. s.end_date) (filter (is_row user is_active) db.subscriptions) a h),
)

-- The latest active row is a row of the table.
latest_active-All :
    (P : Subscription → Type 0) (user : ℕ) (db : Billing) (a : Subscription)
    → All P db.subscriptions
    → latest_active user db ≡ some a
    → P a
unfolding latest_active rows_of
latest_active-All P user db a h e =
    greatest_by-All P _ _ a (filter-All P (is_row user is_active) db.subscriptions h) e

-- Whether the user has paid is decided by the latest active row.
paid_by_latest :
    (today user : ℕ) (db : Billing) (a : Subscription)
    → latest_active user db ≡ some a
    → has_paid today user db ≡ is_paid (get_subscription_status today a)
unfolding has_paid
paid_by_latest today user db a h =
    let found = latest_active_lem user db a h in
    let this = active_is_paid today a (row_has user is_active a found.0) in
    elim (Bool-cases (leb today (a.end_date + 1))) [
      | inl e ↦
          let member =
            latest_active-All
              (λ s.
                (is_row user is_active s && leb today (s.end_date + 1)) ≡ true
                → has_paid today user db ≡ true)
              user db a (any_of _ db.subscriptions) h in
          member (ground (arith, found.0, e)) ∙ sym (this ∙ e)
      | inr e ↦
          any_none _ db.subscriptions
            (All-map _ _ db.subscriptions (λ s k. late today user s a e k) found.1)
          ∙ sym (this ∙ e)
    ]
  where
    late :
        (today user : ℕ) (s a : Subscription)
        → leb today (a.end_date + 1) ≡ false
        → (is_row user is_active s ≡ true → s.end_date ≤ a.end_date)
        → (is_row user is_active s && leb today (s.end_date + 1)) ≡ false
    late today user s a e k = elim (Bool-cases (is_row user is_active s)) [
      | inl m ↦ let under = k m in rw m (ground (arith, under, e))
      | inr m ↦ rw m refl
    ]

unpaid_without :
    (today user : ℕ) (db : Billing) → latest_active user db ≡ none → has_paid today user db ≡ false
unfolding has_paid latest_active rows_of
unpaid_without today user db h = any_none _ db.subscriptions (
    All-map _ _ db.subscriptions (λ s k. rw k refl)
      (none_of_any (is_row user is_active) db.subscriptions
        (filter-empty (is_row user is_active) db.subscriptions (greatest_by-none by_end _ h))))

paid_row_of :
    (today : ℕ) (a : Subscription)
    → is_paid (get_subscription_status today a) ≡ true
    → paid_row today (some a) ≡ some a
unfolding paid_row
paid_row_of today a h = rw h refl

live_of_paid : (st : CalendarStatus) → is_paid st ≡ true → st ≢ CalendarStatus.expired
live_of_paid st h e = cc (h, e)

closed_to :
    (today : ℕ) (a : Subscription)
    → get_subscription_status today a ≡ CalendarStatus.expired
    → is_ok (storefront_allows today (some (get_subscription_status today a)) (some a)) ≡ false
unfolding storefront_allows
closed_to today a h = rw h refl

open_with :
    (today user : ℕ) (db : Billing) (a : Subscription)
    → latest_active user db ≡ some a
    → is_ok (
        storefront_allows today
          (status_of_row today (
            some
              (candidate_with_active today a (latest_pending user db) (latest_rejected user db))))
          (some a))
      ≡ is_paid (get_subscription_status today a)
unfolding status_of_row
open_with today user db a h = elim (Bool-cases (is_paid (get_subscription_status today a))) [
  | inl paid ↦
      let row = paid_row_of today a paid in
      candidate_of_paid
        (λ c.
          is_ok (storefront_allows today (some (get_subscription_status today c)) (some a)) ≡ true)
        today a _ _ paid
        (allowed today a (get_subscription_status today a) row (live_of_paid _ paid))
        (All-map _ _ _
          (λ s w.
            allowed today a (get_subscription_status today s) row (waiting_status today s w).0)
          (found-IsWaiting user db a))
      ∙ sym paid
  | inr unpaid ↦
      let mine = row_has user is_active a (latest_active_lem user db a h).0 in
      rw
        (
          candidate_of_unpaid today a (latest_pending user db) (latest_rejected user db) unpaid,
          unpaid,
        )
        (closed_to today a (unpaid_active today a mine unpaid))
]

-- An owner's storefront is open on a day exactly if they have paid for it: an ACTIVE row of theirs
-- ends no earlier than the day before, whatever rows wait for review, were rejected or have expired.
pub storefront-eq-has_paid :
    (today owner : ℕ) (db : Billing)
    → is_ok (assert_storefront_subscription_allows_for_owner today (some owner) db)
      ≡ has_paid today owner db
unfolding assert_storefront_subscription_allows_for_owner get_user_subscription_status
    get_candidate_subscription_row candidate
storefront-eq-has_paid today owner db = elim (Option-cases (latest_active owner db)) [
  | inl e ↦
      let unpaid =
        IsUnpaid-candidate today (latest_pending owner db) (latest_rejected owner db)
          (latest_other owner db) (λ s h. found_pending owner db s h)
          (λ s h. found_rejected owner db s h) (λ s hp h. found_other owner db s e hp h) in
      rw e (denied today _ unpaid.0 unpaid.1 ∙ sym (unpaid_without today owner db e))
  | inr (a, e) ↦ rw e (open_with today owner db a e ∙ sym (paid_by_latest today owner db a e))
]
