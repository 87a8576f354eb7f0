-- ===== src/Billing/Tidy.antt =====
-- The tables of subscriptions and payments: their keys, and how many rows of a kind a user has.
pub mod Writes
pub mod Approval
pub mod Activation
pub mod Choice
pub mod Checkout
pub mod Serial
pub mod Overlap
use api_paperbase.Base.{
  ℕ, ◌+◌, ◌≤◌, ◌≡◌, refl, sym, ap, ◌∙◌, Bool, true, false, not, ◌&&◌, Option, none, some, List, [],
  ◌∷◌, ◌==◌, if◌then◌else◌, All, arith, Bool-cases, inl, inr, ==→eq, ==_refl,
}
use mathlib.Core.Path.{subst}
use api_paperbase.Base.Queries.{
  find?, update_where, UniqueBy, by_key, UniqueBy-update_where, All-update_where,
}
use api_paperbase.Base.Order.{All-map, All-of}
use api_paperbase.Base.Count.{
  count, count_none, count-update_where, count_cleared, count-update_by_key, found_only,
}
use api_paperbase.Billing.{
  SubscriptionStatus, Subscription, Payment, Clock, Billing, is_subscription, is_payment,
}
use api_paperbase.Billing.Status.{is_row, is_active, is_pending_review}
use api_paperbase.Billing.Services.{Term, expire_row, upgrade_row, new_row, is_pending}
use api_paperbase.Billing.Payments.{is_pending_of}

abbrev pub sub_key : Subscription → ℕ
sub_key s = s.id

abbrev pub pay_key : Payment → ℕ
pay_key p = p.id

-- Keys are unique, and each user has at most one ACTIVE row and one under review.
abbrev pub TidyRows : List Subscription → Type 0
TidyRows xs =
    UniqueBy sub_key xs
    × ((v : ℕ) → count (is_row v is_active) xs ≤ 1)
    × ((v : ℕ) → count (is_row v is_pending_review) xs ≤ 1)

-- Keys are unique, and each user has at most one pending payment.
abbrev pub TidyPayments : List Payment → Type 0
TidyPayments ps = UniqueBy pay_key ps × ((v : ℕ) → count (is_pending_of v) ps ≤ 1)

abbrev pub IsTidy : Billing → Type 0
IsTidy db = TidyRows db.subscriptions × TidyPayments db.payments

-- A row that is written keeps its user, and comes into neither state.
abbrev Lowers : (Subscription → Subscription) → Subscription → Type 0
Lowers f x =
    ((f x).user_id ≡ x.user_id)
    × (is_active (f x).status ≡ true → is_active x.status ≡ true)
    × (is_pending_review (f x).status ≡ true → is_pending_review x.status ≡ true)

row_kept :
    (v : ℕ) (test : SubscriptionStatus → Bool) (x y : Subscription)
    → y.user_id ≡ x.user_id
    → (test y.status ≡ true → test x.status ≡ true)
    → is_row v test y ≡ true
    → is_row v test x ≡ true
row_kept v test x y same h e =
    let split = both _ _ e in
    let mine : (x.user_id == v) ≡ true = ap (λ (u : ℕ). u == v) (sym same) ∙ split.0 in
    rw (mine, h split.1) refl
  where
    both : (a b : Bool) → (a && b) ≡ true → (a ≡ true) × (b ≡ true)
    both a b h = ground arith

pub TidyRows-update :
    (test : Subscription → Bool) (f : Subscription → Subscription) (xs : List Subscription)
    → ((x : Subscription) → (f x).id ≡ x.id)
    → ((x : Subscription) → Lowers f x)
    → TidyRows xs
    → TidyRows (update_where test f xs)
TidyRows-update test f xs same low tidy = (
  UniqueBy-update_where sub_key test f xs same tidy.0,
  λ v. fewer v is_active (λ x. (low x).1) (tidy.1 v),
  λ v. fewer v is_pending_review (λ x. (low x).2) (tidy.2 v),
)
  where
    fewer :
        (v : ℕ) (kind : SubscriptionStatus → Bool)
        → ((x : Subscription) → kind (f x).status ≡ true → kind x.status ≡ true)
        → count (is_row v kind) xs ≤ 1
        → count (is_row v kind) (update_where test f xs) ≤ 1
    fewer v kind k h =
        let less =
          count-update_where (is_row v kind) test f xs
            (All-of _ xs (λ x t. row_kept v kind x (f x) (low x).0 (k x))) in
        omega (arith, less, h)

expire-Lowers : (clock : Clock) (x : Subscription) → Lowers (expire_row clock) x
unfolding expire_row
expire-Lowers clock x = (refl, λ h. cc h, λ h. cc h)

-- The rows once a user's active rows have expired.
abbrev pub expired_rows : Clock → ℕ → List Subscription → List Subscription
expired_rows clock user xs = update_where (is_row user is_active) (expire_row clock) xs

pub expired_tidy :
    (clock : Clock) (user : ℕ) (xs : List Subscription)
    → TidyRows xs
    → TidyRows (expired_rows clock user xs)
unfolding expire_row
expired_tidy clock user xs =
    TidyRows-update (is_row user is_active) (expire_row clock) xs (λ x. refl) (expire-Lowers clock)

pub expired_none :
    (clock : Clock) (user : ℕ) (xs : List Subscription)
    → count (is_row user is_active) (expired_rows clock user xs) ≡ 0
unfolding expire_row
expired_none clock user xs =
    count_cleared (is_row user is_active) (expire_row clock) xs (λ x. ground arith)

&&-true : (b : Bool) → (b && true) ≡ true → b ≡ true
&&-true b h = ground arith

none_here : (b : Bool) → (if b && false then 1 else 0) ≤ 0
none_here b = ground arith

-- A new active row of a user whose active rows have expired.
pub TidyRows-new :
    (clock : Clock) (term : Term) (k user : ℕ) (xs : List Subscription)
    → find? (is_subscription k) xs ≡ none
    → TidyRows xs
    → count (is_row user is_active) xs ≡ 0
    → TidyRows (new_row clock term k user ∷ xs)
unfolding new_row
TidyRows-new clock term k user xs fresh tidy cleared = (
  (fresh, tidy.0),
  λ v. one v,
  λ v. let waits = tidy.2 v in omega (arith, waits, none_here (user == v)),
)
  where
    one : (v : ℕ) → (if (user == v) && true then 1 else 0) + count (is_row v is_active) xs ≤ 1
    one v = elim (Bool-cases (user == v)) [
      | inl e ↦
          let none_yet : count (is_row v is_active) xs ≡ 0 =
            subst (λ (w : ℕ). count (is_row w is_active) xs ≡ 0) (==→eq user v e) cleared in
          rw e (omega (arith, none_yet))
      | inr e ↦ let before = tidy.1 v in rw e (omega (arith, before))
    ]

-- A row of such a user that becomes active.
pub TidyRows-upgrade :
    (clock : Clock) (term : Term) (k user : ℕ) (xs : List Subscription)
    → All (λ x. by_key sub_key k x ≡ true → x.user_id ≡ user) xs
    → TidyRows xs
    → count (is_row user is_active) xs ≡ 0
    → TidyRows (update_where (is_subscription k) (upgrade_row clock term) xs)
unfolding upgrade_row
TidyRows-upgrade clock term k user xs owned tidy cleared = (
  UniqueBy-update_where sub_key (is_subscription k) (upgrade_row clock term) xs (λ x. refl) tidy.0,
  λ v. one v,
  λ v. waiting v,
)
  where
    other :
        (x : Subscription) (v : ℕ)
        → (user == v) ≡ false
        → x.user_id ≡ user
        → ((x.user_id == v) && true) ≡ true
        → ⊥
    other x v e mine a =
        let same : (user == v) ≡ true = ap (λ (u : ℕ). u == v) (sym mine) ∙ &&-true _ a in
        cc (e, same)

    never : (b : Bool) → (b && false) ≡ true → ⊥
    never b a = ground arith

    one :
        (v : ℕ)
        → count (is_row v is_active) (update_where (is_subscription k) (upgrade_row clock term) xs)
          ≤ 1
    one v = elim (Bool-cases (user == v)) [
      | inl e ↦
          let none_yet : count (is_row v is_active) xs ≡ 0 =
            subst (λ (w : ℕ). count (is_row w is_active) xs ≡ 0) (==→eq user v e) cleared in
          let up =
            count-update_by_key sub_key (is_row v is_active) k (upgrade_row clock term) xs tidy.0 in
          omega (arith, none_yet, up)
      | inr e ↦
          let less =
            count-update_where (is_row v is_active) (is_subscription k) (upgrade_row clock term) xs
              (All-map _ _ xs (λ x own t a. let mine = own t in absurd (other x v e mine a))
                owned) in
          let before = tidy.1 v in omega (arith, less, before)
    ]

    waiting :
        (v : ℕ)
        → count
            (is_row v is_pending_review)
            (update_where (is_subscription k) (upgrade_row clock term) xs)
          ≤ 1
    waiting v =
        let less =
          count-update_where (is_row v is_pending_review) (is_subscription k)
            (upgrade_row clock term) xs
            (All-of _ xs (λ x t a. absurd (never (x.user_id == v) a))) in
        let before = tidy.2 v in omega (arith, less, before)
