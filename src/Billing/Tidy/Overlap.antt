-- ===== src/Billing/Tidy/Overlap.antt =====
-- Two requests of `InitiatePaymentView.post` (engine/apps/billing/views.py) that overlap: both read
-- before either of them writes.
use api_paperbase.Base.{ℕ, ◌≡◌, refl, sym, ◌&&◌, none, some, ==_refl}
use api_paperbase.Base.Int.{ℤ}
use api_paperbase.Base.Queries.{find?}
use api_paperbase.Base.Count.{count}
use api_paperbase.Base.Results.{ok, Delivers}
use api_paperbase.Base.Tx.{Tx, ◌>>=◌}
use api_paperbase.Billing.{
  Plan, Payment, Clock, Billing, BillingError, is_plan, plan_charge_amount, create_payment,
}
use api_paperbase.Billing.Payments.{
  is_pending_of, pending_payment, is_submitted_row, pending_row, store_choice, read_choice,
}
use api_paperbase.Billing.Tidy.Choice.{none_pending}

overlapping : Clock → ℕ → ℕ → ℕ → ℕ → Tx Billing BillingError Payment
overlapping clock first_id second_id user plan_id = do
  one ← read_choice user plan_id
  two ← read_choice user plan_id
  store_choice clock first_id user one.plan one.amount one.existing >>= λ _.
      store_choice clock second_id user two.plan two.amount two.existing

read-eq :
    (user plan_id : ℕ) (plan : Plan) (charge : ℤ) (db : Billing)
    → find? (λ p. is_plan plan_id p && p.is_active) db.plans ≡ some plan
    → pending_payment user db ≡ none
    → plan_charge_amount plan ≡ ok charge
    → read_choice user plan_id db
      ≡ ok (record { plan = plan; amount = charge; existing = none }, db)
unfolding read_choice is_submitted_row
read-eq user plan_id plan charge db found free amount = rw (found, free, amount) (rw free refl)

-- Two requests of a user without a pending payment that overlap leave two pending payments.
overlapping-two :
    (clock : Clock) (first_id second_id user plan_id : ℕ) (plan : Plan) (charge : ℤ) (db : Billing)
    → find? (λ p. is_plan plan_id p && p.is_active) db.plans ≡ some plan
    → pending_payment user db ≡ none
    → plan_charge_amount plan ≡ ok charge
    → Delivers
        (λ _ db'. count (is_pending_of user) db'.payments ≡ 2)
        (overlapping clock first_id second_id user plan_id db)
unfolding overlapping store_choice create_payment pending_row
overlapping-two clock first_id second_id user plan_id plan charge db found free amount =
    let read = read-eq user plan_id plan charge db found free amount in
    let none_yet = none_pending user db (sym free) in
    rw read (rw read (rw (==_refl user) (rw none_yet refl)))
