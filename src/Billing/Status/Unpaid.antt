-- ===== src/Billing/Status/Unpaid.antt =====
-- The row that decides for a user without an active row.
use api_paperbase.Base.{
  ℕ, ◌≡◌, ◌≢◌, ◌⊎◌, refl, Bool, true, false, Option, none, some, [], ◌==◌, arith, inl, inr, All,
}
use api_paperbase.Base.Order.{filter-test, filter-All, All-map, All-both}
use api_paperbase.Base.Greatest.{greatest_by-none, greatest_by-All, filter-empty, none_of_any}
use api_paperbase.Billing.{SubscriptionStatus, Subscription, Billing}
use api_paperbase.Billing.Status.{
  CalendarStatus, is_active, is_pending_review, is_rejected, is_other, is_expired, is_row, rows_of,
  latest_active, latest_pending, latest_other, candidate_of_rest, candidate, status_of_row,
}
use api_paperbase.Billing.Status.Access.{stored_status, IsWaiting, waiting_status}

no_rows :
    (user : ℕ) (test : SubscriptionStatus → Bool) (db : Billing)
    → rows_of user test db ≡ []
    → All (λ s. is_row user test s ≡ false) db.subscriptions
unfolding rows_of
no_rows user test db h =
    none_of_any (is_row user test) db.subscriptions
      (filter-empty (is_row user test) db.subscriptions h)

expired_of :
    (user : ℕ) (s : Subscription)
    → (is_row user is_active s ≡ false) × (is_row user is_pending_review s ≡ false)
    → is_row user is_other s ≡ true
    → is_expired s.status ≡ true
expired_of user s h m =
    let mine : (s.user_id == user) ≡ true = ground arith in
    of_status s.status (rw mine at h.0) (rw mine at h.1) (rw mine at m)
  where
    of_status :
        (st : SubscriptionStatus)
        → is_active st ≡ false
        → is_pending_review st ≡ false
        → is_other st ≡ true
        → is_expired st ≡ true
    of_status SubscriptionStatus.active a p o = cc a
    of_status SubscriptionStatus.pending_review a p o = cc p
    of_status SubscriptionStatus.rejected a p o = cc o
    of_status SubscriptionStatus.expired a p o = refl
    of_status SubscriptionStatus.canceled a p o = cc o

-- With neither an active nor a pending row, the other row was marked expired.
pub found_other :
    (user : ℕ) (db : Billing) (s : Subscription)
    → latest_active user db ≡ none
    → latest_pending user db ≡ none
    → latest_other user db ≡ some s
    → is_expired s.status ≡ true
unfolding latest_active latest_pending latest_other rows_of
found_other user db s ha hp ho =
    let no_active = no_rows user is_active db (greatest_by-none _ _ ha) in
    let no_pending = no_rows user is_pending_review db (greatest_by-none _ _ hp) in
    let all_expired =
      All-map _ (λ x. is_row user is_other x ≡ true → is_expired x.status ≡ true) db.subscriptions
        (λ x h. expired_of user x h) (All-both _ _ db.subscriptions no_active no_pending) in
    greatest_by-All (λ x. is_row user is_other x ≡ true → is_expired x.status ≡ true) _ _ s
      (filter-All _ (is_row user is_other) db.subscriptions all_expired) ho
      (greatest_by-All (λ x. is_row user is_other x ≡ true) _ _ s
        (filter-test (is_row user is_other) db.subscriptions) ho)

abbrev pub IsUnpaid : ℕ → Option Subscription → Type 0
IsUnpaid today row =
    (status_of_row today row ≢ some CalendarStatus.active)
    × (status_of_row today row ≢ some CalendarStatus.grace)

IsUnpaid-row :
    (today : ℕ) (s : Subscription)
    → IsWaiting s ⊎ (is_expired s.status ≡ true)
    → IsUnpaid today (some s)
unfolding status_of_row
IsUnpaid-row today s (inl w) =
    let h = waiting_status today s w in (λ e. h.1 (cc e), λ e. h.2 (cc e))
IsUnpaid-row today s (inr x) = let e = (stored_status today s).2 x in rw e (λ q. cc q, λ q. cc q)

IsUnpaid-rest :
    (today : ℕ) (other rejected : Option Subscription)
    → ((s : Subscription) → other ≡ some s → is_expired s.status ≡ true)
    → ((s : Subscription) → rejected ≡ some s → is_rejected s.status ≡ true)
    → IsUnpaid today (candidate_of_rest other rejected)
unfolding candidate_of_rest status_of_row
IsUnpaid-rest today none none ho hr = (λ e. cc e, λ e. cc e)
IsUnpaid-rest today none (some s) ho hr = IsUnpaid-row today s (inl (inr (hr s refl)))
IsUnpaid-rest today (some s) none ho hr = IsUnpaid-row today s (inr (ho s refl))
IsUnpaid-rest today (some s) (some t) ho hr =
    rw (ho s refl) (IsUnpaid-row today s (inr (ho s refl)))

pub IsUnpaid-candidate :
    (today : ℕ) (pending rejected other : Option Subscription)
    → ((s : Subscription) → pending ≡ some s → is_pending_review s.status ≡ true)
    → ((s : Subscription) → rejected ≡ some s → is_rejected s.status ≡ true)
    → ((s : Subscription) → pending ≡ none → other ≡ some s → is_expired s.status ≡ true)
    → IsUnpaid today (candidate today none pending rejected other)
unfolding candidate
IsUnpaid-candidate today (some s) rejected other hp hr ho =
    IsUnpaid-row today s (inl (inl (hp s refl)))
IsUnpaid-candidate today none rejected other hp hr ho =
    IsUnpaid-rest today other rejected (λ s. ho s refl) hr
