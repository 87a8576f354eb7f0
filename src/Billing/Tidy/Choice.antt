-- ===== src/Billing/Tidy/Choice.antt =====
-- New rows under review and pending payments, and the choice of a plan.
use api_paperbase.Base.{
  ℕ, ◌+◌, ◌≤◌, ◌≡◌, refl, sym, ap, ◌∙◌, Bool, true, false, ◌&&◌, Option, none, some, List, ◌∷◌,
  ◌==◌, if◌then◌else◌, arith, Bool-cases, inl, inr, ==→eq,
}
use mathlib.Core.Path.{subst}
use api_paperbase.Base.Int.{ℤ}
use api_paperbase.Base.Queries.{find?}
use api_paperbase.Base.Count.{count, count_none}
use api_paperbase.Base.Greatest.{greatest_by-none, filter-empty, none_of_any}
use api_paperbase.Base.Triples.{
  Triple, strengthen, known, pure-after, gets-after, lift-after, bind-after, modify-after,
  raise_if-after, or_raise-after,
}
use api_paperbase.Billing.{
  Plan, Payment, Clock, Billing, already_submitted, plan_not_found, is_subscription, is_payment,
  is_plan, plan_charge_amount, update_payments, create_payment,
}
use api_paperbase.Billing.Status.{is_row, is_pending_review, latest_pending, rows_of}
use api_paperbase.Billing.Payments.{
  is_pending_of, pending_payment, is_submitted_row, choose_row, pending_row, store_choice,
  read_choice, initiate_payment, review_row,
}
use api_paperbase.Billing.Tidy.{TidyRows, TidyPayments, IsTidy}
use api_paperbase.Billing.Tidy.Writes.{TidyPayments-update}

abbrev pub FreshPayment : ℕ → Billing → Type 0
FreshPayment pay_id db = find? (is_payment pay_id) db.payments ≡ none

abbrev pub FreshSubscription : ℕ → Billing → Type 0
FreshSubscription sub_id db = find? (is_subscription sub_id) db.subscriptions ≡ none

pub none_pending :
    (user : ℕ) (db : Billing)
    → none ≡ pending_payment user db
    → count (is_pending_of user) db.payments ≡ 0
unfolding pending_payment
none_pending user db h = count_none (is_pending_of user) db.payments (
    none_of_any (is_pending_of user) db.payments
      (filter-empty (is_pending_of user) db.payments (greatest_by-none _ _ (sym h))))

none_reviewed :
    (user : ℕ) (db : Billing)
    → none ≡ latest_pending user db
    → count (is_row user is_pending_review) db.subscriptions ≡ 0
unfolding latest_pending rows_of
none_reviewed user db h = count_none (is_row user is_pending_review) db.subscriptions (
    none_of_any (is_row user is_pending_review) db.subscriptions (
      filter-empty (is_row user is_pending_review) db.subscriptions (greatest_by-none _ _ (sym h))))

-- One more row under a test that no row of its user passes yet.
one_more :
    {A : Type 0} (test : ℕ → A → Bool) (user v : ℕ) (xs : List A)
    → count (test user) xs ≡ 0
    → count (test v) xs ≤ 1
    → (if (user == v) && true then 1 else 0) + count (test v) xs ≤ 1
one_more test user v xs cleared before = elim (Bool-cases (user == v)) [
  | inl e ↦
      let none_yet : count (test v) xs ≡ 0 =
        subst (λ (w : ℕ). count (test w) xs ≡ 0) (==→eq user v e) cleared in
      rw e (omega (arith, none_yet))
  | inr e ↦ rw e (omega (arith, before))
]

none_more : (b : Bool) → (if b && false then 1 else 0) ≤ 0
none_more b = ground arith

pending_row-tidy :
    (clock : Clock) (pay_id user : ℕ) (plan : Plan) (amount : ℤ) (db : Billing)
    → IsTidy db
    → FreshPayment pay_id db
    → none ≡ pending_payment user db
    → TidyPayments (pending_row clock pay_id user plan amount ∷ db.payments)
unfolding pending_row
pending_row-tidy clock pay_id user plan amount db tidy fresh h = (
  (fresh, tidy.1.0),
  λ v. one_more is_pending_of user v db.payments (none_pending user db h) (tidy.1.1 v),
)

pub review_row-tidy :
    (clock : Clock) (sub_id user : ℕ) (plan : Plan) (db : Billing)
    → IsTidy db
    → FreshSubscription sub_id db
    → none ≡ latest_pending user db
    → TidyRows (review_row clock sub_id user plan ∷ db.subscriptions)
unfolding review_row
review_row-tidy clock sub_id user plan db tidy fresh h = (
  (fresh, tidy.0.0),
  λ v. let before = tidy.0.1 v in omega (arith, before, none_more (user == v)),
  λ v.
      one_more (λ w s. is_row w is_pending_review s) user v db.subscriptions
        (none_reviewed user db h) (tidy.0.2 v),
)

store_choice-IsTidy :
    (clock : Clock) (pay_id user : ℕ) (plan : Plan) (amount : ℤ) (existing : Option Payment)
    → is_submitted_row existing ≡ false
    → Triple
        (λ db. IsTidy db × FreshPayment pay_id db × (existing ≡ pending_payment user db))
        (store_choice clock pay_id user plan amount existing)
        (λ _ db. IsTidy db)
unfolding store_choice is_submitted_row choose_row update_payments create_payment
store_choice-IsTidy clock pay_id user plan amount none h =
    bind-after _ _
      (modify-after {Q = IsTidy} (create_payment (pending_row clock pay_id user plan amount))
        (λ db h. (h.0.0, pending_row-tidy clock pay_id user plan amount db h.0 h.1 h.2)))
      (λ _. pure-after (λ _ db. IsTidy db) (pending_row clock pay_id user plan amount) (λ db h. h))
store_choice-IsTidy clock pay_id user plan amount (some p) h = rw h (
    bind-after _ _
      (modify-after {Q = IsTidy} (update_payments (is_payment p.id) (choose_row plan amount))
        (λ db t. (
          t.0.0,
          TidyPayments-update (is_payment p.id) (choose_row plan amount) db.payments (λ q. refl)
              (λ q v k. k) t.0.1,
        )))
      (λ _. pure-after (λ _ db. IsTidy db) (choose_row plan amount p) (λ db t. t)))

-- The reads leave the tables, and find the pending payment that they return.
read_choice-after :
    (pay_id user plan_id : ℕ)
    → Triple
        (λ db. IsTidy db × FreshPayment pay_id db)
        (read_choice user plan_id)
        (λ choice db.
          (is_submitted_row choice.existing ≡ false)
          × ((IsTidy db × FreshPayment pay_id db) × (choice.existing ≡ pending_payment user db)))
unfolding read_choice
read_choice-after pay_id user plan_id =
    bind-after _ _
      (gets-after (λ db. find? (λ plan. is_plan plan_id plan && plan.is_active) db.plans))
      (λ found. bind-after _ _ (or_raise-after found plan_not_found) (λ plan.
        bind-after _ _ (gets-after (pending_payment user)) (λ pending.
          bind-after _ _ (raise_if-after (is_submitted_row pending) already_submitted) (λ _.
            bind-after _ _ (lift-after (plan_charge_amount plan)) (λ amount.
              bind-after _ _ (gets-after (pending_payment user)) (λ existing.
                pure-after _ (record { plan = plan; amount = amount; existing = existing })
                  (λ db h.
                    let same : existing ≡ pending = h.0 ∙ sym h.1.1.1.0 in
                    (ap is_submitted_row same ∙ h.1.1.0, (h.1.1.1.1.1.1, h.0)))))))))

-- The choice of a plan keeps the tables tidy.
pub initiate_payment-IsTidy :
    (clock : Clock) (pay_id user plan_id : ℕ)
    → Triple
        (λ db. IsTidy db × FreshPayment pay_id db)
        (initiate_payment clock pay_id user plan_id)
        (λ _ db. IsTidy db)
unfolding initiate_payment
initiate_payment-IsTidy clock pay_id user plan_id =
    bind-after _ _ (read_choice-after pay_id user plan_id) (λ choice.
      known _ (λ db h. h.0)
        (λ quiet.
          strengthen _ (λ db h. (h.1.0.0, h.1.0.1, h.1.1))
            (store_choice-IsTidy clock pay_id user choice.plan choice.amount choice.existing
              quiet)))
