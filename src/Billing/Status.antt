-- ===== src/Billing/Status.antt =====
-- The state of a subscription on a day, and the access that follows from it
-- (engine/apps/billing/subscription_status.py, `get_active_subscription` of services.py and
-- `_get_effective_plan` of feature_gate.py). `today` is the date in Dhaka.
pub mod Access
pub mod Unpaid
pub mod Storefront
use api_paperbase.Base.{
  ℕ, ◌+◌, Bool, true, false, not, ◌&&◌, ◌||◌, Option, none, some, List, [], ◌∷◌, ◌++◌, ltb, leb,
  ◌==◌, if◌then◌else◌,
}
use api_paperbase.Base.Queries.{filter}
use api_paperbase.Base.Greatest.{greatest_by}
use api_paperbase.Base.Results.{Result, ok, err}
use api_paperbase.Billing.{SubscriptionStatus, Subscription, Billing}

-- The texts that `get_subscription_status` returns.
pub data CalendarStatus : Type 0 where
  active grace pending_review rejected expired : CalendarStatus

unfoldable pub calendar_status : ℕ → ℕ → CalendarStatus
calendar_status today end =
    if leb today end
    then CalendarStatus.active
    else if today == end + 1
    then CalendarStatus.grace
    else CalendarStatus.expired

-- `get_subscription_status`, by the stored status; a canceled row falls through to the calendar.
unfoldable pub status_on : ℕ → ℕ → SubscriptionStatus → CalendarStatus
unfolding calendar_status
status_on today end SubscriptionStatus.pending_review = CalendarStatus.pending_review
status_on today end SubscriptionStatus.rejected = CalendarStatus.rejected
status_on today end SubscriptionStatus.expired = CalendarStatus.expired
status_on today end SubscriptionStatus.active = calendar_status today end
status_on today end SubscriptionStatus.canceled = calendar_status today end

unfoldable pub get_subscription_status : ℕ → Subscription → CalendarStatus
unfolding status_on
get_subscription_status today s = status_on today s.end_date s.status

-- `in ("ACTIVE", "GRACE")`
abbrev pub is_paid : CalendarStatus → Bool
is_paid CalendarStatus.active = true
is_paid CalendarStatus.grace = true
is_paid CalendarStatus.pending_review = false
is_paid CalendarStatus.rejected = false
is_paid CalendarStatus.expired = false

abbrev pub is_active : SubscriptionStatus → Bool
is_active SubscriptionStatus.active = true
is_active SubscriptionStatus.pending_review = false
is_active SubscriptionStatus.rejected = false
is_active SubscriptionStatus.expired = false
is_active SubscriptionStatus.canceled = false

abbrev pub is_pending_review : SubscriptionStatus → Bool
is_pending_review SubscriptionStatus.pending_review = true
is_pending_review SubscriptionStatus.active = false
is_pending_review SubscriptionStatus.rejected = false
is_pending_review SubscriptionStatus.expired = false
is_pending_review SubscriptionStatus.canceled = false

abbrev pub is_rejected : SubscriptionStatus → Bool
is_rejected SubscriptionStatus.rejected = true
is_rejected SubscriptionStatus.active = false
is_rejected SubscriptionStatus.pending_review = false
is_rejected SubscriptionStatus.expired = false
is_rejected SubscriptionStatus.canceled = false

-- `exclude(status=CANCELED).exclude(status=REJECTED)`
abbrev pub is_other : SubscriptionStatus → Bool
is_other SubscriptionStatus.active = true
is_other SubscriptionStatus.pending_review = true
is_other SubscriptionStatus.expired = true
is_other SubscriptionStatus.rejected = false
is_other SubscriptionStatus.canceled = false

abbrev pub is_expired : SubscriptionStatus → Bool
is_expired SubscriptionStatus.expired = true
is_expired SubscriptionStatus.active = false
is_expired SubscriptionStatus.pending_review = false
is_expired SubscriptionStatus.rejected = false
is_expired SubscriptionStatus.canceled = false

-- The rows of a user with a status.
abbrev pub is_row : ℕ → (SubscriptionStatus → Bool) → Subscription → Bool
is_row user test s = s.user_id == user && test s.status

unfoldable pub rows_of : ℕ → (SubscriptionStatus → Bool) → Billing → List Subscription
rows_of user test db = filter (is_row user test) db.subscriptions

unfoldable pub by_end : Subscription → Subscription → Bool
by_end s t = ltb s.end_date t.end_date

unfoldable pub by_creation : Subscription → Subscription → Bool
by_creation s t = ltb s.created_at t.created_at

unfoldable pub by_update : Subscription → Subscription → Bool
by_update s t = ltb s.updated_at t.updated_at

unfoldable pub by_update_and_creation : Subscription → Subscription → Bool
by_update_and_creation s t =
    ltb s.updated_at t.updated_at || s.updated_at == t.updated_at && ltb s.created_at t.created_at

unfoldable pub latest_active : ℕ → Billing → Option Subscription
unfolding rows_of by_end
latest_active user db = greatest_by by_end (rows_of user is_active db)

unfoldable pub latest_pending : ℕ → Billing → Option Subscription
unfolding rows_of by_creation
latest_pending user db = greatest_by by_creation (rows_of user is_pending_review db)

unfoldable pub latest_rejected : ℕ → Billing → Option Subscription
unfolding rows_of by_update_and_creation
latest_rejected user db = greatest_by by_update_and_creation (rows_of user is_rejected db)

unfoldable pub latest_other : ℕ → Billing → Option Subscription
unfolding rows_of by_end
latest_other user db = greatest_by by_end (rows_of user is_other db)

-- The rows of `(pending, rejected)` that are there and newer than the active one.
unfoldable pub newer_than : Subscription → Option Subscription → List Subscription
newer_than active_row none = []
newer_than active_row (some s) = if ltb active_row.updated_at s.updated_at then s ∷ [] else []

-- The branch with an active row.
unfoldable pub candidate_with_active :
    ℕ → Subscription → Option Subscription → Option Subscription → Subscription
unfolding newer_than by_update
candidate_with_active today active_row pending_row rejected_row =
    if is_paid (get_subscription_status today active_row)
    then elim (greatest_by by_update
        (newer_than active_row pending_row ++ newer_than active_row rejected_row)) [
          | none ↦ active_row
          | some s ↦ s
        ]
    else active_row

-- The branch with neither an active nor a pending row.
unfoldable pub candidate_of_rest : Option Subscription → Option Subscription → Option Subscription
candidate_of_rest none rejected_row = rejected_row
candidate_of_rest (some other) none = some other
candidate_of_rest (some other) (some rejected_row) =
    if is_expired other.status
    then some other
    else if ltb other.updated_at rejected_row.updated_at
    then some rejected_row
    else some other

-- The tests of `get_candidate_subscription_row` on the rows that its four queries found.
unfoldable pub candidate :
    ℕ
    → Option Subscription
    → Option Subscription
    → Option Subscription
    → Option Subscription
    → Option Subscription
unfolding candidate_with_active candidate_of_rest
candidate today (some active_row) pending_row rejected_row other =
    some (candidate_with_active today active_row pending_row rejected_row)
candidate today none (some pending_row) rejected_row other = some pending_row
candidate today none none rejected_row other = candidate_of_rest other rejected_row

unfoldable pub get_candidate_subscription_row : ℕ → ℕ → Billing → Option Subscription
unfolding latest_active latest_pending latest_rejected latest_other candidate
get_candidate_subscription_row today user db =
    candidate today (latest_active user db) (latest_pending user db) (latest_rejected user db)
      (latest_other user db)

-- The status of a row that may be missing; `none` is NONE.
unfoldable pub status_of_row : ℕ → Option Subscription → Option CalendarStatus
status_of_row today none = none
status_of_row today (some s) = some (get_subscription_status today s)

unfoldable pub get_user_subscription_status : ℕ → ℕ → Billing → Option CalendarStatus
unfolding status_of_row get_candidate_subscription_row
get_user_subscription_status today user db =
    status_of_row today (get_candidate_subscription_row today user db)

unfoldable pub paid_row : ℕ → Option Subscription → Option Subscription
paid_row today none = none
paid_row today (some s) = if is_paid (get_subscription_status today s) then some s else none

-- `get_subscription_for_api_access`, and `get_active_subscription` of services.py.
unfoldable pub get_subscription_for_api_access : ℕ → ℕ → Billing → Option Subscription
unfolding paid_row get_candidate_subscription_row
get_subscription_for_api_access today user db =
    paid_row today (get_candidate_subscription_row today user db)

pub data PermissionDenied : Type 0 where
  store_inactive subscription_expired storefront_unavailable : PermissionDenied

-- The tests of `assert_storefront_subscription_allows_for_owner` on the status and the active row.
unfoldable pub storefront_allows :
    ℕ → Option CalendarStatus → Option Subscription → Result PermissionDenied (Unit {0})
unfolding paid_row
storefront_allows today none active_row = err store_inactive
storefront_allows today (some CalendarStatus.expired) active_row = err subscription_expired
storefront_allows today (some CalendarStatus.active) active_row = ok tt
storefront_allows today (some CalendarStatus.grace) active_row = ok tt
storefront_allows today (some CalendarStatus.pending_review) active_row =
    elim (paid_row today active_row) [ none ↦ err storefront_unavailable | some s ↦ ok tt ]
storefront_allows today (some CalendarStatus.rejected) active_row =
    elim (paid_row today active_row) [ none ↦ err storefront_unavailable | some s ↦ ok tt ]

unfoldable pub assert_storefront_subscription_allows_for_owner :
    ℕ → Option ℕ → Billing → Result PermissionDenied (Unit {0})
unfolding storefront_allows get_user_subscription_status latest_active
assert_storefront_subscription_allows_for_owner today none db = ok tt
assert_storefront_subscription_allows_for_owner today (some owner) db =
    storefront_allows today (get_user_subscription_status today owner db) (latest_active owner db)

-- `uss in ("NONE", "REJECTED", "PENDING_REVIEW", "EXPIRED")`
unfoldable pub is_open_to_dashboard : Option CalendarStatus → Bool
is_open_to_dashboard none = true
is_open_to_dashboard (some CalendarStatus.rejected) = true
is_open_to_dashboard (some CalendarStatus.pending_review) = true
is_open_to_dashboard (some CalendarStatus.expired) = true
is_open_to_dashboard (some CalendarStatus.active) = false
is_open_to_dashboard (some CalendarStatus.grace) = false

unfoldable pub dashboard_subscription_access_ok : ℕ → ℕ → Billing → Bool
unfolding is_open_to_dashboard get_user_subscription_status get_subscription_for_api_access
dashboard_subscription_access_ok today user db =
    if is_open_to_dashboard (get_user_subscription_status today user db)
    then true
    else elim (get_subscription_for_api_access today user db) [ none ↦ false | some s ↦ true ]

-- The plan of `_get_effective_plan`, by its key.
unfoldable pub get_effective_plan : ℕ → ℕ → Billing → Option ℕ
unfolding get_subscription_for_api_access get_user_subscription_status
    get_candidate_subscription_row
get_effective_plan today user db = elim (get_subscription_for_api_access today user db) [
  | some s ↦ some s.plan_id
  | none ↦ elim (get_user_subscription_status today user db) [
    | none ↦ none
    | some st ↦ elim (get_candidate_subscription_row today user db) [
      | none ↦ none
      | some s ↦ elim st [
        | CalendarStatus.pending_review ↦ some s.plan_id
        | CalendarStatus.expired ↦ some s.plan_id
        | _ ↦ none
      ]
    ]
  ]
]
