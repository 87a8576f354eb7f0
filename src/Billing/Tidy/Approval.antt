-- ===== src/Billing/Tidy/Approval.antt =====
-- The approval of a pending payment keeps the tables in order.
use api_paperbase.Base.{
  opt_eq, ℕ, ◌≡◌, refl, sym, ap, ◌∙◌, Bool, true, false, not, ◌&&◌, Option, none, some, List, ◌==◌,
  All, arith, Bool-cases, inl, inr, ==→eq, Option-cases,
}
use mathlib.Core.Path.{subst}
use api_paperbase.Base.Queries.{find?, find?-test, update_where, UniqueBy, by_key, All-update_where}
use api_paperbase.Base.Order.{All-map}
use api_paperbase.Base.Count.{found_only}
use api_paperbase.Base.Triples.{
  Triple, pure-after, gets-after, lift-after, bind-after, modify-after, raise_if-after,
}
use api_paperbase.Billing.{
  user_mismatch, payment_not_pending, plan_mismatch, amount_mismatch, Plan, Subscription, Payment,
  Clock, Billing, is_subscription, is_payment, linked_of, update_subscriptions, update_payments,
  create_subscription,
}
use api_paperbase.Billing.Status.{is_row, is_active}
use api_paperbase.Billing.Services.{
  charge_differs, Term, expire_row, expire_active, is_upgradable, upgradable, upgrade_row, new_row,
  approve_row, link_row, approve_pending, activate_pending, is_pending,
}
use api_paperbase.Billing.Tidy.{
  sub_key, TidyPayments, IsTidy, expired_rows, TidyRows-new, TidyRows-upgrade,
}
use api_paperbase.Billing.Tidy.Writes.{TidyPayments-update, IsFresh, IsCleared, expire-IsCleared}

-- Every row with the key of the row to upgrade, if there is one, is the user's.
abbrev IsOwned : ℕ → Option Subscription → List Subscription → Type 0
IsOwned user none xs = Unit
IsOwned user (some s) xs = All (λ x. by_key sub_key s.id x ≡ true → x.user_id ≡ user) xs

upgradable_user :
    (user : ℕ) (term : Term) (s : Subscription)
    → is_upgradable user term s ≡ true
    → s.user_id ≡ user
unfolding is_upgradable
upgradable_user user term s h = ground arith

upgradable-IsOwned :
    (user : ℕ) (term : Term) (ep : Payment) (linked : Option Subscription) (db : Billing)
    → UniqueBy sub_key db.subscriptions
    → linked ≡ linked_of ep db
    → IsOwned user (upgradable user term linked) db.subscriptions
unfolding upgradable linked_of
upgradable-IsOwned user term ep none db u h = tt
upgradable-IsOwned user term ep (some s) db u h = elim (Bool-cases (is_upgradable user term s)) [
  | inr e ↦ rw e tt
  | inl e ↦ rw e (elim (Option-cases ep.subscription_id) [
    | inl absent ↦ let no_link : some s ≡ none = rw absent at h in cc no_link
    | inr (k, link) ↦
        let found : some s ≡ find? (is_subscription k) db.subscriptions = rw link at h in
        let key : s.id ≡ k =
          ==→eq s.id k (find?-test (is_subscription k) s db.subscriptions (sym found)) in
        let only = found_only sub_key k s db.subscriptions u (sym found) in
        All-map _ _ db.subscriptions
          (λ x same t.
            ap (λ (y : Subscription). y.user_id)
              (same (subst (λ (j : ℕ). (x.id == j) ≡ true) key t))
            ∙ upgradable_user user term s e)
          only
  ])
]

expire-IsOwned :
    (clock : Clock) (user : ℕ) (o : Option Subscription) (xs : List Subscription)
    → IsOwned user o xs
    → IsOwned user o (expired_rows clock user xs)
unfolding expire_row
expire-IsOwned clock user none xs h = tt
expire-IsOwned clock user (some s) xs h =
    All-update_where (is_row user is_active) (expire_row clock)
      (λ x. by_key sub_key s.id x ≡ true → x.user_id ≡ user) xs (λ x k. k) h

settled_payments :
    (k : ℕ) (ps : List Payment) (f : Payment → Payment)
    → ((p : Payment) → (f p).id ≡ p.id)
    → ((p : Payment) → is_pending (f p).status ≡ false)
    → TidyPayments ps
    → TidyPayments (update_where (is_payment k) f ps)
settled_payments k ps f same settled tidy =
    TidyPayments-update (is_payment k) f ps same
      (λ p v h. cc (both ((f p).user_id == v) (is_pending (f p).status) h, settled p)) tidy
  where
    both : (a b : Bool) → (a && b) ≡ true → b ≡ true
    both a b h = ground arith

approve_pending-IsTidy :
    (clock : Clock) (sub_id user : ℕ) (term : Term) (ep : Payment) (o : Option Subscription)
    → Triple
        (λ db.
          IsCleared user db
          × IsOwned user o db.subscriptions
          × (find? (is_subscription sub_id) db.subscriptions ≡ none))
        (approve_pending clock sub_id user term ep o)
        (λ _ db. IsTidy db)
unfolding approve_pending create_subscription update_subscriptions update_payments approve_row
    link_row
approve_pending-IsTidy clock sub_id user term ep (some s) =
    bind-after _ _
      (modify-after {Q = IsTidy}
        (update_subscriptions (is_subscription s.id) (upgrade_row clock term))
        (λ db h.
          (TidyRows-upgrade clock term s.id user db.subscriptions h.1 h.0.0.0 h.0.1, h.0.0.1)))
      (λ _.
        bind-after _ _
          (modify-after {Q = IsTidy} (update_payments (is_payment ep.id) approve_row) (λ db h.
            (h.0, settled_payments ep.id db.payments approve_row (λ p. refl) (λ p. refl) h.1)))
          (λ _.
            pure-after (λ _ db. IsTidy db) (upgrade_row clock term s, approve_row ep) (λ db h. h)))
approve_pending-IsTidy clock sub_id user term ep none =
    bind-after _ _
      (modify-after {Q = IsTidy} (create_subscription (new_row clock term sub_id user))
        (λ db h. (TidyRows-new clock term sub_id user db.subscriptions h.2 h.0.0.0 h.0.1, h.0.0.1)))
      (λ _.
        bind-after _ _
          (modify-after {Q = IsTidy} (update_payments (is_payment ep.id) (link_row sub_id)) (λ db h.
            (
              h.0,
              settled_payments ep.id db.payments (link_row sub_id) (λ p. refl) (λ p. refl) h.1,
            )))
          (λ _.
            pure-after (λ _ db. IsTidy db) (new_row clock term sub_id user, link_row sub_id ep)
              (λ db h. h)))

pub activate_pending-IsTidy :
    (clock : Clock) (sub_id pay_id user : ℕ) (plan : Plan) (term : Term) (ep : Payment)
    → Triple
        (λ db. IsTidy db × IsFresh sub_id pay_id db)
        (activate_pending clock sub_id user plan term ep)
        (λ _ db. IsTidy db)
unfolding activate_pending expire_active update_subscriptions
activate_pending-IsTidy clock sub_id pay_id user plan term ep =
    bind-after _ _ (raise_if-after (not (ep.user_id == user)) user_mismatch) (λ _.
      bind-after _ _ (raise_if-after (not (is_pending ep.status)) payment_not_pending) (λ _.
        bind-after _ _ (raise_if-after (not (opt_eq ep.plan_id (some plan.id))) plan_mismatch) (λ _.
          bind-after _ _ (lift-after (charge_differs plan ep.amount)) (λ differs.
            bind-after _ _ (raise_if-after differs amount_mismatch) (λ _.
              bind-after _ _ (gets-after (linked_of ep)) (λ linked.
                bind-after _ _
                  (modify-after
                    {Q = λ db.
                      IsCleared user db
                      × IsOwned user (upgradable user term linked) db.subscriptions
                      × (find? (is_subscription sub_id) db.subscriptions ≡ none)}
                    (expire_active clock user)
                    (λ db h.
                      let start : IsTidy db × IsFresh sub_id pay_id db = h.1.1.1.1.1.1 in
                      let cleared = expire-IsCleared clock user sub_id pay_id db start.0 start.1 in
                      (
                        cleared.0,
                        expire-IsOwned clock user _ db.subscriptions
                            (upgradable-IsOwned user term ep linked db start.0.0.0 h.0),
                        cleared.1.0,
                      )))
                  (λ _.
                    approve_pending-IsTidy clock sub_id user term ep
                      (upgradable user term linked))))))))
