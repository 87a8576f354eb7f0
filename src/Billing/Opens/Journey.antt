-- ===== src/Billing/Opens/Journey.antt =====
-- A plan chosen, its transaction submitted and its payment approved.
use api_paperbase.Base.{
  ℕ, ◌+◌, ◌≡◌, refl, sym, ap, ◌∙◌, Bool, true, false, not, ◌&&◌, Option, none, some, List, [], ◌∷◌,
  ◌==◌, if◌then◌else◌, any, Bool-cases, inl, inr, ==_refl,
}
use mathlib.Core.Path.{subst}
use api_paperbase.Base.Int.{ℤ}
use api_paperbase.Base.Text.{Text, strip, is_empty}
use api_paperbase.Base.Results.{ok, Delivers}
use api_paperbase.Base.Tx.{Delivers-bind, Tx, pure, ◌>>=◌, ◌>>◌}
use api_paperbase.Base.Queries.{find?, filter}
use api_paperbase.Base.Greatest.{greatest_by, greatest_by-none, any_none, none_of_any, filter-empty}
use api_paperbase.Billing.{
  update_subscriptions, create_subscription, BillingCycle, BillingError, Plan, Subscription, Source,
  Payment, Clock, Billing, billing_cycle_duration_days, plan_charge_amount, is_plan, create_payment,
}
use api_paperbase.Base.Order.{All-map}
use api_paperbase.Billing.Status.{latest_pending, rows_of, is_row, is_pending_review}
use api_paperbase.Billing.Services.{activate_subscription}
use api_paperbase.Billing.Payments.{
  is_unsupported, clean, review_row, is_pending_of, pending_payment, by_payment_creation,
  is_submitted_row, pending_row, store_choice, read_choice, initiate_payment, submit_texts,
  reviewed, link_review, retarget, full_clean, submit_row, has_transaction,
  submit_pending_payment_transaction,
}
use api_paperbase.Billing.Opens.{IsOpenUntil}
use api_paperbase.Billing.Opens.Approval.{approve-opens}

active_plan :
    (k : ℕ) (plan : Plan) (plans : List Plan)
    → find? (is_plan k) plans ≡ some plan
    → plan.is_active ≡ true
    → find? (λ p. is_plan k p && p.is_active) plans ≡ some plan
active_plan k plan [] found live = cc found
active_plan k plan (p ∷ ps) found live = elim (Bool-cases (is_plan k p)) [
  | inl e ↦
      let same : p ≡ plan = cc (found, e) in
      let here : p.is_active ≡ true = ap (λ (q : Plan). q.is_active) same ∙ live in
      let kept : (is_plan k p && p.is_active) ≡ true = rw (e, here) refl in
      take_first _ p plan _ kept same
  | inr e ↦ rw e (active_plan k plan ps (cc (found, e)) live)
]
  where
    take_first :
        (b : Bool) (p q : Plan) (o : Option Plan)
        → b ≡ true
        → p ≡ q
        → (if b then some p else o) ≡ some q
    take_first b p q o h same = cc (h, same)

-- Choosing a plan without a pending payment creates one for its charge.
initiate-eq :
    (clock : Clock) (pay_id user k : ℕ) (plan : Plan) (charge : ℤ) (db : Billing)
    → find? (is_plan k) db.plans ≡ some plan
    → plan.is_active ≡ true
    → pending_payment user db ≡ none
    → plan_charge_amount plan ≡ ok charge
    → initiate_payment clock pay_id user k db
      ≡ ok (
        pending_row clock pay_id user plan charge,
        create_payment (pending_row clock pay_id user plan charge) db,
      )
unfolding initiate_payment read_choice is_submitted_row store_choice
initiate-eq clock pay_id user k plan charge db found live free amount =
    rw (active_plan k plan db.plans found live, free, amount) (rw free refl)

-- The new payment is then the user's only pending one.
pending-created :
    (clock : Clock) (pay_id user : ℕ) (plan : Plan) (charge : ℤ) (db : Billing)
    → pending_payment user db ≡ none
    → pending_payment user (create_payment (pending_row clock pay_id user plan charge) db)
      ≡ some (pending_row clock pay_id user plan charge)
unfolding pending_payment create_payment pending_row greatest_by
pending-created clock pay_id user plan charge db free =
    let rest =
      greatest_by-none by_payment_creation (filter (is_pending_of user) db.payments) free in
    rw (==_refl user) (rw rest refl)

fewer_any :
    {A : Type 0} (p q : A → Bool) (xs : List A)
    → any xs p ≡ false
    → any xs (λ x. p x && q x) ≡ false
fewer_any p q xs h = any_none _ xs (All-map _ _ xs (λ x e. rw e refl) (none_of_any p xs h))

-- Neither outcome of the review writes a payment, and one is always reached.
retarget-Delivers :
    (clock : Clock) (plan : Plan) (s : Subscription) (k : ℕ) (db : Billing)
    → Delivers (λ _ db'. db'.payments ≡ db.payments) ((retarget clock plan s >> pure k) db)
unfolding retarget update_subscriptions
retarget-Delivers clock plan s k db = elim (Bool-cases (not (s.plan_id == plan.id))) [
  | inl e ↦ rw e refl
  | inr e ↦ rw e refl
]

none_waiting :
    (user : ℕ) (db : Billing)
    → latest_pending user db ≡ none
    → any db.subscriptions (is_row user is_pending_review) ≡ false
unfolding latest_pending rows_of
none_waiting user db e =
    filter-empty (is_row user is_pending_review) db.subscriptions
      (greatest_by-none _ (filter (is_row user is_pending_review) db.subscriptions) e)

review-Delivers :
    (clock : Clock) (sub_id user : ℕ) (plan : Plan) (orphan : Option Subscription) (db : Billing)
    → is_unsupported plan.billing_cycle ≡ false
    → latest_pending user db ≡ orphan
    → Delivers (λ _ db'. db'.payments ≡ db.payments) (link_review clock sub_id user plan orphan db)
unfolding link_review full_clean clean review_row create_subscription
review-Delivers clock sub_id user plan (some s) db supported e =
    retarget-Delivers clock plan s s.id db
review-Delivers clock sub_id user plan none db supported e = rw (supported, alone) refl
  where
    alone :
        any db.subscriptions (λ t. is_row user is_pending_review t && not (t.id == sub_id)) ≡ false
    alone =
        fewer_any (is_row user is_pending_review) (λ t. not (t.id == sub_id)) db.subscriptions
          (none_waiting user db e)

-- The row that waits is submitted, once its plan is found and the transaction is new.
abbrev IsSubmitted : Text → Text → Payment → Payment → Type 0
IsSubmitted tid sn row p = (k : ℕ) × (p ≡ submit_row tid sn k row)

submit-Delivers :
    (clock : Clock) (row_clock : Clock) (sub_id pay_id user : ℕ) (plan : Plan) (charge : ℤ)
    (tid sn : Text) (db : Billing)
    → pending_payment user db ≡ some (pending_row row_clock pay_id user plan charge)
    → is_empty tid ≡ false
    → find? (is_plan plan.id) db.plans ≡ some plan
    → is_unsupported plan.billing_cycle ≡ false
    → any db.payments (has_transaction tid) ≡ false
    → Delivers
        (λ p db'. IsSubmitted tid sn (pending_row row_clock pay_id user plan charge) p)
        (submit_texts clock sub_id user tid sn db)
unfolding submit_texts reviewed pending_row
submit-Delivers clock row_clock sub_id pay_id user plan charge tid sn db waiting given found
      supported unused =
    rw (waiting, given, found)
      (Delivers-bind (λ _ db'. db'.payments ≡ db.payments)
        (λ p db'. IsSubmitted tid sn (pending_row row_clock pay_id user plan charge) p) _ _
        (review-Delivers clock sub_id user plan (latest_pending user db) db supported refl)
        (λ k db' same.
          let free : any db'.payments (λ p. has_transaction tid p && not (p.id == pay_id)) ≡ false =
            fewer_any (has_transaction tid) (λ p. not (p.id == pay_id)) db'.payments
              (ap (λ ps. any ps (has_transaction tid)) same ∙ unused) in
          rw free (k, refl)))

supported_cycle :
    (cycle : BillingCycle) (days : ℕ)
    → billing_cycle_duration_days cycle ≡ ok days
    → is_unsupported cycle ≡ false
unfolding billing_cycle_duration_days
supported_cycle BillingCycle.unsupported days h = cc h
supported_cycle BillingCycle.monthly days h = refl
supported_cycle BillingCycle.yearly days h = refl

-- An approval of the submitted row.
submitted-opens :
    (clock row_clock : Clock) (sub_id pay_id new_id user days : ℕ) (plan : Plan) (charge : ℤ)
    (tid sn : Text) (p : Payment) (db : Billing)
    → plan_charge_amount plan ≡ ok charge
    → billing_cycle_duration_days plan.billing_cycle ≡ ok days
    → IsSubmitted tid sn (pending_row row_clock new_id user plan charge) p
    → Delivers
        (λ s db'. IsOpenUntil user (clock.today + days) db')
        (activate_subscription clock sub_id pay_id user plan none none Source.payment p.amount
          p.provider
          (some p)
          db)
unfolding pending_row submit_row
submitted-opens clock row_clock sub_id pay_id new_id user days plan charge tid sn p db amount term
      (k, e) =
    subst
      (λ (q : Payment).
        Delivers (λ s db'. IsOpenUntil user (clock.today + days) db')
          (activate_subscription clock sub_id pay_id user plan none none Source.payment q.amount
            q.provider (some q) db))
      (sym e)
      (approve-opens clock sub_id pay_id days plan
        (submit_row tid sn k (pending_row row_clock new_id user plan charge)) db refl refl amount
        term)

created-plans : (row : Payment) (db : Billing) → (create_payment row db).plans ≡ db.plans
unfolding create_payment
created-plans row db = refl

created_unused :
    (clock : Clock) (pay_id user : ℕ) (plan : Plan) (charge : ℤ) (tid : Text) (db : Billing)
    → any db.payments (has_transaction tid) ≡ false
    → any
        (create_payment (pending_row clock pay_id user plan charge) db).payments
        (has_transaction tid)
      ≡ false
unfolding create_payment pending_row has_transaction
created_unused clock pay_id user plan charge tid db h = h

-- The three calls that a new subscriber's payment goes through.
abbrev pub subscribe :
    Clock
    → Clock
    → Clock
    → ℕ
    → ℕ
    → ℕ
    → ℕ
    → ℕ
    → Plan
    → Text
    → Text
    → Tx Billing BillingError Subscription
subscribe chosen_at submitted_at approved_at new_id review_id sub_id pay_id user plan transaction_id
      sender_number =
    initiate_payment chosen_at new_id user plan.id >>= λ _.
    submit_pending_payment_transaction submitted_at review_id user transaction_id sender_number
    >>= λ p.
        activate_subscription approved_at sub_id pay_id user plan none none Source.payment p.amount
          p.provider (some p)

-- A user without a pending payment chooses an active plan that has a charge and a cycle with a number of
-- days, submits a transaction id that is not blank and that no payment has, and the payment is approved:
-- none of the three calls is refused, and the user's storefront is open up to the day after the cycle's
-- days from the day of the approval, whatever subscriptions the user already had.
pub subscribe-opens :
    (chosen_at submitted_at approved_at : Clock) (new_id review_id sub_id pay_id user days : ℕ)
    (plan : Plan) (charge : ℤ) (tid sn : Text) (db : Billing)
    → find? (is_plan plan.id) db.plans ≡ some plan
    → plan.is_active ≡ true
    → plan_charge_amount plan ≡ ok charge
    → billing_cycle_duration_days plan.billing_cycle ≡ ok days
    → pending_payment user db ≡ none
    → is_empty (strip tid) ≡ false
    → any db.payments (has_transaction (strip tid)) ≡ false
    → Delivers
        (λ s db'. IsOpenUntil user (approved_at.today + days) db')
        (subscribe chosen_at submitted_at approved_at new_id review_id sub_id pay_id user plan tid
          sn db)
unfolding submit_pending_payment_transaction
subscribe-opens chosen_at submitted_at approved_at new_id review_id sub_id pay_id user days plan
      charge tid sn db found live amount term free given unused =
    let row = pending_row chosen_at new_id user plan charge in
    rw (initiate-eq chosen_at new_id user plan.id plan charge db found live free amount) (
      Delivers-bind (λ p db'. IsSubmitted (strip tid) (strip sn) row p) _ _ _
        (submit-Delivers submitted_at chosen_at review_id new_id user plan charge (strip tid)
          (strip sn) (create_payment row db)
          (pending-created chosen_at new_id user plan charge db free) given
          (ap (find? (is_plan plan.id)) (created-plans row db) ∙ found)
          (supported_cycle plan.billing_cycle days term)
          (created_unused chosen_at new_id user plan charge (strip tid) db unused))
        (λ p db' h.
          submitted-opens approved_at chosen_at sub_id pay_id new_id user days plan charge
            (strip tid) (strip sn) p db' amount term h))
