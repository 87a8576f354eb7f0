-- ===== src/Billing/Opens/Approval.antt =====
-- The approval of a pending payment.
use api_paperbase.Base.{
  ℕ, ◌+◌, ◌≡◌, refl, sym, ap, ◌∙◌, Bool, true, false, not, ◌&&◌, Option, none, some, ◌==◌,
  if◌then◌else◌, arith, Bool-cases, inl, inr, ==→eq, ==_refl, Option-cases, opt_eq, opt_eq_refl,
}
use mathlib.Core.Option
use mathlib.Core.Path.{subst}
use api_paperbase.Base.Int.{ℤ, eqb_ℤ, pos_part, neg_part}
use api_paperbase.Base.Results.{Result, ok, err, Delivers}
use api_paperbase.Base.Queries.{find?, find?-test, find?-update_where}
use api_paperbase.Money.{quantize_money, cents}
use api_paperbase.Money.Laws.{quantize_money-cents}
use api_paperbase.Base.Tx.{andthen}
use api_paperbase.Billing.{
  BillingCycle, BillingError, Plan, Provider, SubscriptionStatus, Subscription, Source, Payment,
  Clock, Billing, billing_cycle_duration_days, plan_charge_amount, is_subscription, linked_of,
  update_subscriptions, update_payments, create_subscription, emit,
}
use api_paperbase.Billing.Status.{is_row, is_active, is_pending_review}
use api_paperbase.Billing.Services.{
  Term, expire_row, expire_active, is_upgradable, upgradable, upgrade_row, new_row, approve_pending,
  activate_pending, activate_rows, finish_activation, activate_subscription, is_pending,
  charge_differs, term_days, cycle_or, amount_is_wrong, previous_plan,
}
use api_paperbase.Billing.Opens.{
  IsOpenUntil, HasRow, both_true, or_left, open_of_row, any-updated, ends_on,
}

-- A linked row, if it is upgradable, is there to be upgraded once the active rows have expired.
abbrev IsThere : ℕ → Option Subscription → Billing → Type 0
IsThere user none db = Unit
IsThere user (some s) db =
    (find? (is_subscription s.id) db.subscriptions ≡ some s) × (s.user_id ≡ user)

approve_pending-row :
    (clock : Clock) (sub_id user : ℕ) (term : Term) (ep : Payment) (o : Option Subscription)
    (db : Billing)
    → IsThere user o db
    → Delivers
        (λ rows db'. HasRow user (clock.today + term.days) db'.subscriptions)
        (approve_pending clock sub_id user term ep o db)
unfolding approve_pending update_subscriptions update_payments create_subscription upgrade_row
    new_row
approve_pending-row clock sub_id user term ep none db there = or_left _ _ (
    ends_on user (clock.today + term.days) (new_row clock term sub_id user) (==_refl user) refl
      (==_refl (clock.today + term.days)))
approve_pending-row clock sub_id user term ep (some s) db there =
    any-updated (λ r. is_row user is_active r && r.end_date == clock.today + term.days)
      (is_subscription s.id) (upgrade_row clock term) s db.subscriptions there.0
      (ends_on user (clock.today + term.days) (upgrade_row clock term s)
        (rw (there.1) (==_refl user)) refl (==_refl (clock.today + term.days)))

upgradable-parts :
    (user : ℕ) (term : Term) (s : Subscription)
    → is_upgradable user term s ≡ true
    → (s.user_id ≡ user) × (is_row user is_active s ≡ false)
unfolding is_upgradable
upgradable-parts user term s h =
    let (pending, rest) = both_true _ _ h in
    let (mine, _) = both_true _ _ rest in
    (
      ==→eq s.user_id user mine,
      rw (pending_not_active s.status pending) (and_false (s.user_id == user)),
    )
  where
    and_false : (b : Bool) → (b && false) ≡ false
    and_false b = ground arith

    pending_not_active :
        (st : SubscriptionStatus) → is_pending_review st ≡ true → is_active st ≡ false
    pending_not_active st h = ground arith

linked-IsThere :
    (clock : Clock) (user : ℕ) (term : Term) (ep : Payment) (linked : Option Subscription)
    (db : Billing)
    → linked_of ep db ≡ linked
    → IsThere user (upgradable user term linked) (expire_active clock user db)
unfolding upgradable linked_of expire_active update_subscriptions expire_row
linked-IsThere clock user term ep none db h = tt
linked-IsThere clock user term ep (some s) db h = elim (Bool-cases (is_upgradable user term s)) [
  | inr e ↦ rw e tt
  | inl e ↦
      let (mine, waits) = upgradable-parts user term s e in
      rw e (elim (Option-cases ep.subscription_id) [
        | inl absent ↦ let no_link : none ≡ some s = rw absent at h in cc no_link
        | inr (k, link) ↦
            let found : find? (is_subscription k) db.subscriptions ≡ some s = rw link at h in
            let key : s.id ≡ k =
              ==→eq s.id k (find?-test (is_subscription k) s db.subscriptions found) in
            let same : find? (is_subscription s.id) db.subscriptions ≡ some s =
              subst (λ (j : ℕ). find? (is_subscription j) db.subscriptions ≡ some s) (sym key)
                found in
            (
              find?-update_where (is_row user is_active) (expire_row clock) (is_subscription s.id)
                    db.subscriptions (λ x. refl)
                  ∙ ap
                      (Option.map (λ (x : Subscription).
                        if is_row user is_active x then expire_row clock x else x))
                      same
                  ∙ rw waits refl,
              mine,
            )
      ])
]

charge-right :
    (plan : Plan) (amount : ℤ)
    → plan_charge_amount plan ≡ ok amount
    → charge_differs plan amount ≡ ok false
unfolding charge_differs
charge-right plan amount h = of_charge (plan_charge_amount plan) h
  where
    of_charge :
        (r : Result BillingError ℤ)
        → r ≡ ok amount
        → elim r [
          | err e ↦ err e
          | ok expected ↦ ok (not (eqb_ℤ (quantize_money (cents amount)) expected))
        ]
          ≡ (ok false)
    of_charge (ok expected) h =
        let same : expected ≡ amount = cc h in
        rw (same, quantize_money-cents amount)
          (rw (==_refl (pos_part amount + neg_part amount)) refl)
    of_charge (err e) h = cc h

term-right :
    (cycle : BillingCycle) (days : ℕ)
    → billing_cycle_duration_days cycle ≡ ok days
    → term_days cycle none Source.payment ≡ ok days
unfolding term_days
term-right cycle days h = of_days (billing_cycle_duration_days cycle) h
  where
    of_days :
        (r : Result BillingError ℕ)
        → r ≡ ok days
        → elim r [ err e ↦ err e | ok expected ↦ ok expected ] ≡ ok days
    of_days (ok d) h = h
    of_days (err e) h = cc h

-- A paid approval is compared with the charge of the plan.
amount-right :
    (plan : Plan) (amount : ℤ) (ep : Payment)
    → charge_differs plan amount ≡ ok false
    → amount_is_wrong plan Source.payment amount (some ep) ≡ ok false
unfolding amount_is_wrong
amount-right plan amount ep h = h

activate_pending-row :
    (clock : Clock) (sub_id user : ℕ) (plan : Plan) (term : Term) (ep : Payment) (db : Billing)
    → (ep.user_id == user) ≡ true
    → is_pending ep.status ≡ true
    → opt_eq ep.plan_id (some plan.id) ≡ true
    → charge_differs plan ep.amount ≡ ok false
    → Delivers
        (λ rows db'. HasRow user (clock.today + term.days) db'.subscriptions)
        (activate_pending clock sub_id user plan term ep db)
unfolding activate_pending
activate_pending-row clock sub_id user plan term ep db mine waits for right =
    rw (mine, waits, for, right)
      (approve_pending-row clock sub_id user term ep (upgradable user term (linked_of ep db))
        (expire_active clock user db) (linked-IsThere clock user term ep (linked_of ep db) db refl))

finish-row :
    (user end : ℕ) (prev_plan : Option ℕ)
    (r : Result BillingError ((Subscription × Payment) × Billing))
    → Delivers (λ rows db'. HasRow user end db'.subscriptions) r
    → Delivers (λ row db'. IsOpenUntil user end db') (andthen r (finish_activation user prev_plan))
unfolding finish_activation emit
finish-row user end prev_plan (ok (rows, db)) h = open_of_row user end _ h
finish-row user end prev_plan (err e) h = h

-- The call, once its tests have passed.
activate-eq :
    (clock : Clock) (sub_id pay_id user days : ℕ) (plan : Plan) (duration : Option ℕ)
    (source : Source) (amount : ℤ) (provider : Provider) (ep : Option Payment) (db : Billing)
    → term_days plan.billing_cycle duration source ≡ ok days
    → amount_is_wrong plan source amount ep ≡ ok false
    → activate_subscription clock sub_id pay_id user plan none duration source amount provider ep db
      ≡ andthen
          (activate_rows clock sub_id pay_id user plan
            (record {
              plan_id = plan.id;
              billing_cycle = plan.billing_cycle;
              days = days;
              source = source;
            })
            amount
            provider
            ep
            db)
          (finish_activation user (previous_plan user db))
unfolding activate_subscription cycle_or
activate-eq clock sub_id pay_id user days plan duration source amount provider ep db term right =
    rw (term, right) refl

-- The approval of a pending payment for the charge of its plan succeeds, and opens the owner's storefront
-- up to the day after the days of the plan's cycle, whatever else the tables hold.
pub approve-opens :
    (clock : Clock) (sub_id pay_id days : ℕ) (plan : Plan) (ep : Payment) (db : Billing)
    → is_pending ep.status ≡ true
    → ep.plan_id ≡ some plan.id
    → plan_charge_amount plan ≡ ok ep.amount
    → billing_cycle_duration_days plan.billing_cycle ≡ ok days
    → Delivers
        (λ row db'. IsOpenUntil ep.user_id (clock.today + days) db')
        (activate_subscription clock sub_id pay_id ep.user_id plan none none Source.payment
          ep.amount ep.provider
          (some ep)
          db)
unfolding activate_rows
approve-opens clock sub_id pay_id days plan ep db waits for charge term =
    let right = charge-right plan ep.amount charge in
    let granted : Term = record {
      plan_id = plan.id;
      billing_cycle = plan.billing_cycle;
      days = days;
      source = Source.payment;
    } in
    let start =
      activate_pending-row clock sub_id ep.user_id plan granted ep db (==_refl ep.user_id) waits
        (rw for (opt_eq_refl (some plan.id))) right in
    let run =
      activate-eq clock sub_id pay_id ep.user_id days plan none Source.payment ep.amount ep.provider
        (some ep) db (term-right plan.billing_cycle days term)
        (amount-right plan ep.amount ep right) in
    subst (λ r. Delivers (λ row db'. IsOpenUntil ep.user_id (clock.today + days) db') r) (sym run)
      (finish-row ep.user_id (clock.today + days) (previous_plan ep.user_id db) _ start)
