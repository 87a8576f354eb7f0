-- ===== src/Billing/Status/Access.antt =====
-- Who has access on a day, by the rows of the table.
use api_paperbase.Base.{
  if_both, All-append, ℕ, ◌+◌, ◌≡◌, ◌≢◌, ◌⊎◌, refl, Bool, true, false, ◌&&◌, Option, none, some, [],
  ◌∷◌, ◌++◌, ltb, leb, arith, inl, inr, All, any,
}
use api_paperbase.Base.Order.{filter-test}
use api_paperbase.Base.Greatest.{greatest_by, greatest_by-All}
use api_paperbase.Base.Results.{ok, err, is_ok}
use api_paperbase.Billing.{SubscriptionStatus, Subscription, Billing}
use api_paperbase.Billing.Status.{
  CalendarStatus, PermissionDenied, status_on, get_subscription_status, is_paid, is_active,
  is_pending_review, is_rejected, is_expired, is_row, rows_of, latest_pending, latest_rejected,
  newer_than, candidate_with_active, paid_row, storefront_allows, by_update,
}

-- A user has paid for a day when an ACTIVE row of theirs ends no earlier than the day before.
unfoldable pub has_paid : ℕ → ℕ → Billing → Bool
has_paid today user db =
    any db.subscriptions (λ s. is_row user is_active s && leb today (s.end_date + 1))

-- An ACTIVE row gives access up to the day after its end.
pub active_is_paid :
    (today : ℕ) (s : Subscription)
    → is_active s.status ≡ true
    → is_paid (get_subscription_status today s) ≡ leb today (s.end_date + 1)
unfolding get_subscription_status
active_is_paid today s h = of_status s.status s.end_date h
  where
    of_status :
        (st : SubscriptionStatus) (end : ℕ)
        → is_active st ≡ true
        → is_paid (status_on today end st) ≡ leb today (end + 1)
    of_status SubscriptionStatus.active end h = ground arith
    of_status SubscriptionStatus.pending_review end h = cc h
    of_status SubscriptionStatus.rejected end h = cc h
    of_status SubscriptionStatus.expired end h = cc h
    of_status SubscriptionStatus.canceled end h = cc h

-- The calendar says nothing of a row that waits, was rejected or was marked expired.
pub stored_status :
    (today : ℕ) (s : Subscription)
    → (is_pending_review s.status ≡ true
        → get_subscription_status today s ≡ CalendarStatus.pending_review)
      × (is_rejected s.status ≡ true → get_subscription_status today s ≡ CalendarStatus.rejected)
      × (is_expired s.status ≡ true → get_subscription_status today s ≡ CalendarStatus.expired)
unfolding get_subscription_status
stored_status today s = of_status s.status s.end_date
  where
    of_status :
        (st : SubscriptionStatus) (end : ℕ)
        → (is_pending_review st ≡ true → status_on today end st ≡ CalendarStatus.pending_review)
          × (is_rejected st ≡ true → status_on today end st ≡ CalendarStatus.rejected)
          × (is_expired st ≡ true → status_on today end st ≡ CalendarStatus.expired)
    of_status SubscriptionStatus.active end = (λ h. cc h, λ h. cc h, λ h. cc h)
    of_status SubscriptionStatus.pending_review end = (λ h. refl, λ h. cc h, λ h. cc h)
    of_status SubscriptionStatus.rejected end = (λ h. cc h, λ h. refl, λ h. cc h)
    of_status SubscriptionStatus.expired end = (λ h. cc h, λ h. cc h, λ h. refl)
    of_status SubscriptionStatus.canceled end = (λ h. cc h, λ h. cc h, λ h. cc h)

is_ok_of_paid :
    (a : Subscription) (r : Option Subscription)
    → r ≡ some a
    → is_ok {E = PermissionDenied}
        (elim r [ none ↦ err PermissionDenied.storefront_unavailable | some s ↦ ok tt ])
      ≡ true
is_ok_of_paid a none h = cc h
is_ok_of_paid a (some s) h = refl

-- A live status and a paid active row leave the storefront open.
pub allowed :
    (today : ℕ) (a : Subscription) (st : CalendarStatus)
    → paid_row today (some a) ≡ some a
    → st ≢ CalendarStatus.expired
    → is_ok (storefront_allows today (some st) (some a)) ≡ true
unfolding storefront_allows
allowed today a CalendarStatus.active paid live = refl
allowed today a CalendarStatus.grace paid live = refl
allowed today a CalendarStatus.pending_review paid live =
    is_ok_of_paid a (paid_row today (some a)) paid
allowed today a CalendarStatus.rejected paid live = is_ok_of_paid a (paid_row today (some a)) paid
allowed today a CalendarStatus.expired paid live = absurd (live refl)

-- No status leaves it open to a user without an active row, but ACTIVE and GRACE.
pub denied :
    (today : ℕ) (st : Option CalendarStatus)
    → st ≢ some CalendarStatus.active
    → st ≢ some CalendarStatus.grace
    → is_ok (storefront_allows today st none) ≡ false
unfolding storefront_allows paid_row
denied today none na ng = refl
denied today (some CalendarStatus.active) na ng = absurd (na refl)
denied today (some CalendarStatus.grace) na ng = absurd (ng refl)
denied today (some CalendarStatus.pending_review) na ng = refl
denied today (some CalendarStatus.rejected) na ng = refl
denied today (some CalendarStatus.expired) na ng = refl

abbrev pub IsWaiting : Subscription → Type 0
IsWaiting s = (is_pending_review s.status ≡ true) ⊎ (is_rejected s.status ≡ true)

-- A row that waits for review or was rejected has neither of the paid states, nor the expired one.
pub waiting_status :
    (today : ℕ) (s : Subscription)
    → IsWaiting s
    → (get_subscription_status today s ≢ CalendarStatus.expired)
      × (get_subscription_status today s ≢ CalendarStatus.active)
      × (get_subscription_status today s ≢ CalendarStatus.grace)
waiting_status today s (inl h) =
    let e = (stored_status today s).0 h in rw e (λ q. cc q, λ q. cc q, λ q. cc q)
waiting_status today s (inr h) =
    let e = (stored_status today s).1 h in rw e (λ q. cc q, λ q. cc q, λ q. cc q)

newer-IsWaiting :
    (a : Subscription) (o : Option Subscription)
    → ((s : Subscription) → o ≡ some s → IsWaiting s)
    → All IsWaiting (newer_than a o)
unfolding newer_than
newer-IsWaiting a none h = tt
newer-IsWaiting a (some s) h =
    if_both (All IsWaiting) (ltb a.updated_at s.updated_at) (s ∷ []) [] (h s refl, tt) tt

pub row_has :
    (user : ℕ) (test : SubscriptionStatus → Bool) (s : Subscription)
    → is_row user test s ≡ true
    → test s.status ≡ true
row_has user test s h = ground arith

-- The rows that the queries find have the status that they ask for.
pub found_pending :
    (user : ℕ) (db : Billing) (s : Subscription)
    → latest_pending user db ≡ some s
    → is_pending_review s.status ≡ true
unfolding latest_pending rows_of
found_pending user db s h = row_has user is_pending_review s (
    greatest_by-All (λ x. is_row user is_pending_review x ≡ true) _ _ s
      (filter-test (is_row user is_pending_review) db.subscriptions) h)

pub found_rejected :
    (user : ℕ) (db : Billing) (s : Subscription)
    → latest_rejected user db ≡ some s
    → is_rejected s.status ≡ true
unfolding latest_rejected rows_of
found_rejected user db s h = row_has user is_rejected s (
    greatest_by-All (λ x. is_row user is_rejected x ≡ true) _ _ s
      (filter-test (is_row user is_rejected) db.subscriptions) h)

pub found-IsWaiting :
    (user : ℕ) (db : Billing) (a : Subscription)
    → All IsWaiting
        (newer_than a (latest_pending user db) ++ newer_than a (latest_rejected user db))
found-IsWaiting user db a =
    All-append IsWaiting _ _
      (newer-IsWaiting a (latest_pending user db) (λ s h. inl (found_pending user db s h)))
      (newer-IsWaiting a (latest_rejected user db) (λ s h. inr (found_rejected user db s h)))

-- With a paid active row, the row that decides is that one or a newer one.
pub candidate_of_paid :
    (P : Subscription → Type 0) (today : ℕ) (a : Subscription)
    (pending rejected : Option Subscription)
    → is_paid (get_subscription_status today a) ≡ true
    → P a
    → All P (newer_than a pending ++ newer_than a rejected)
    → P (candidate_with_active today a pending rejected)
unfolding candidate_with_active
candidate_of_paid P today a pending rejected paid ha h = rw paid (of_greatest _ refl)
  where
    of_greatest :
        (o : Option Subscription)
        → greatest_by by_update (newer_than a pending ++ newer_than a rejected) ≡ o
        → P (elim o [ none ↦ a | some s ↦ s ])
    of_greatest none e = ha
    of_greatest (some s) e = greatest_by-All P by_update _ s h e

pub candidate_of_unpaid :
    (today : ℕ) (a : Subscription) (pending rejected : Option Subscription)
    → is_paid (get_subscription_status today a) ≡ false
    → candidate_with_active today a pending rejected ≡ a
unfolding candidate_with_active
candidate_of_unpaid today a pending rejected unpaid = rw unpaid refl

-- An active row is paid or expired.
pub unpaid_active :
    (today : ℕ) (s : Subscription)
    → is_active s.status ≡ true
    → is_paid (get_subscription_status today s) ≡ false
    → get_subscription_status today s ≡ CalendarStatus.expired
unfolding get_subscription_status
unpaid_active today s h unpaid = of_status s.status s.end_date h unpaid
  where
    of_status :
        (st : SubscriptionStatus) (end : ℕ)
        → is_active st ≡ true
        → is_paid (status_on today end st) ≡ false
        → status_on today end st ≡ CalendarStatus.expired
    of_status SubscriptionStatus.active end h unpaid = ground arith
    of_status SubscriptionStatus.pending_review end h unpaid = cc h
    of_status SubscriptionStatus.rejected end h unpaid = cc h
    of_status SubscriptionStatus.expired end h unpaid = refl
    of_status SubscriptionStatus.canceled end h unpaid = cc h
