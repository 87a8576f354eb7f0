-- ===== src/Billing/Opens/Extension.antt =====
-- The extension of a subscription.
use api_paperbase.Base.{ℕ, ◌+◌, ◌≡◌, refl, true, ◌&&◌, some, ◌==◌, ==_refl, max}
use api_paperbase.Base.Results.{Delivers}
use api_paperbase.Base.Queries.{find?}
use api_paperbase.Billing.{
  Subscription, Clock, Billing, is_subscription, update_subscriptions, emit,
}
use api_paperbase.Billing.Status.{is_row, is_active}
use api_paperbase.Billing.Services.{extend_row, extend_subscription}
use api_paperbase.Billing.Opens.{IsOpenUntil, open_of_row, any-updated, ends_on}

-- The extension of an ACTIVE row of the table succeeds, and opens the storefront of its user up to the day
-- after the new end, which is counted from the later of the old end and today.
pub extend-opens :
    (clock : Clock) (s : Subscription) (days : ℕ) (db : Billing)
    → find? (is_subscription s.id) db.subscriptions ≡ some s
    → is_active s.status ≡ true
    → Delivers
        (λ row db'.
          (row.end_date ≡ max s.end_date clock.today + days)
          × IsOpenUntil s.user_id (max s.end_date clock.today + days) db')
        (extend_subscription clock s days db)
unfolding extend_subscription extend_row update_subscriptions emit
extend-opens clock s days db found live =
    let end = max s.end_date clock.today + days in
    rw live (
      refl,
      open_of_row s.user_id end _ (
          any-updated (λ r. is_row s.user_id is_active r && r.end_date == end)
            (is_subscription s.id) (extend_row clock end) s db.subscriptions found
            (ends_on s.user_id end (extend_row clock end s) (==_refl s.user_id) live
              (==_refl end))),
    )
