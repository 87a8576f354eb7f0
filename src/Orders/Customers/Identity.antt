-- ===== src/Orders/Customers/Identity.antt =====
-- On `resolve_and_attach_customer` of engine/apps/orders/services.py.
use api_paperbase.Base.{
  ℕ, ◌≡◌, refl, ap, sym, ◌∙◌, Bool, true, false, Option, none, some, List, [], ◌∷◌, ◌++◌, ◌==◌,
  ==_refl, inl, inr, Option-cases, opt_eq, Bool-cases,
}
use mathlib.Core.Path.{subst, subst₃}
use api_paperbase.Base.Results.{ok, err, same_result, ok_or_err}
use api_paperbase.Base.Text.{Text, text_eq_refl, is_empty, strip}
use api_paperbase.Base.Queries.{find?, update_where, find?-update_where}
use api_paperbase.Orders.{Order, Customer, Shop, phone_required}
use api_paperbase.Orders.Customers.{
  is_identity, new_customer, fill_customer, get_or_create, attach, resolve_customer,
  normalize_phone, normalize_optional, resolve_and_attach_customer,
}

find?-append :
    {A : Type 0} (p : A → Bool) (xs : List A) (x : A)
    → find? p xs ≡ none
    → p x ≡ true
    → find? p (xs ++ x ∷ []) ≡ some x
find?-append p [] x h hx = rw hx refl
find?-append p (y ∷ xs) x h hx = elim (Bool-cases (p y)) [
  | inl e ↦ cc (h, e)
  | inr e ↦ rw e (find?-append p xs x (cc (h, e)) hx)
]

-- Whichever way the row comes, it is then the one that the lookup finds.
got :
    (new_id store_id : ℕ) (name phone : Text) (email address : Option Text) (shop : Shop)
    → (c : Customer) × (mid : Shop) × (get_or_create new_id store_id name phone email address shop
        ≡ ok (c, mid))
      × (find? (is_identity store_id phone) mid.customers ≡ some c)
unfolding get_or_create is_identity new_customer
got new_id store_id name phone email address shop =
    elim (Option-cases (find? (is_identity store_id phone) shop.customers)) [
      | inr (c, e) ↦ (c, shop, cc e, e)
      | inl e ↦
          let c = new_customer new_id store_id name phone email address in
          let own : is_identity store_id phone c ≡ true =
            rw (==_refl store_id, text_eq_refl phone) refl in
          (
            c,
            record shop { customers = shop.customers ++ c ∷ [] },
            cc e,
            find?-append (is_identity store_id phone) shop.customers c e own,
          )
    ]

attach-customers :
    (order : Order) (c : Customer) (shop : Shop) → (attach order c shop).customers ≡ shop.customers
unfolding attach
attach-customers order c shop = elim (Bool-cases (opt_eq order.customer_id (some c.id))) [
  | inl e ↦ rw e refl
  | inr e ↦ rw e refl
]

-- The customers after the fields of the row were filled.
filled-found :
    (store_id : ℕ) (name phone : Text) (email address : Option Text) (c : Customer)
    (customers : List Customer)
    → find? (is_identity store_id phone) customers ≡ some c
    → find?
        (is_identity store_id phone)
        (update_where (λ x. x.id == c.id) (fill_customer name email address) customers)
      ≡ some (fill_customer name email address c)
unfolding is_identity fill_customer
filled-found store_id name phone email address c customers found =
    find?-update_where (λ (x : Customer). x.id == c.id) (fill_customer name email address)
      (is_identity store_id phone) customers (λ x. refl)
    ∙ rw found (rw (==_refl c.id) refl)

-- A call with a phone returns the row that the lookup finds afterwards: the one it got, filled.
pub record Resolved (store_id : ℕ) (name phone : Text) (email address : Option Text)
    (got_row c : Customer) (shop' : Shop) : Type 0 where
  pub filled : c ≡ fill_customer name email address got_row
  pub found : find? (is_identity store_id phone) shop'.customers ≡ some c

resolved :
    (new_id store_id : ℕ) (order : Order) (name phone : Text) (email address : Option Text)
    (shop mid : Shop) (row : Customer)
    → is_empty phone ≡ false
    → get_or_create new_id store_id name phone email address shop ≡ ok (row, mid)
    → find? (is_identity store_id phone) mid.customers ≡ some row
    → (c : Customer) × (shop' : Shop) × (resolve_customer new_id order store_id name phone email
          address shop
        ≡ ok (c, shop'))
      × Resolved store_id name phone email address row c shop'
unfolding resolve_customer
resolved new_id store_id order name phone email address shop mid row h e found =
    let written : Shop = record mid {
      customers =
          update_where (λ c. c.id == row.id) (fill_customer name email address) mid.customers;
    } in
    (
      fill_customer name email address row,
      attach order row written,
      rw (h, e) refl,
      record {
        filled = refl;
        found =
            rw (attach-customers order row written)
              (filled-found store_id name phone email address row mid.customers found);
      },
    )

existing :
    (new_id store_id : ℕ) (name phone : Text) (email address : Option Text) (shop : Shop)
    (c : Customer)
    → find? (is_identity store_id phone) shop.customers ≡ some c
    → get_or_create new_id store_id name phone email address shop ≡ ok (c, shop)
unfolding get_or_create
existing new_id store_id name phone email address shop c h = cc h

fill_customer-id :
    (name : Text) (email address : Option Text) (c : Customer)
    → (fill_customer name email address c).id ≡ c.id
unfolding fill_customer
fill_customer-id name email address c = refl

module _ (is_digit : ℕ → Bool) (store_id : ℕ) where
  -- With a phone that has a digit, a call succeeds, and the customer that it returns is the one that
  -- the store and the digits of the phone find afterwards.
  pub resolve-found :
      (new_id : ℕ) (order : Order) (name phone : Text) (email address : Option Text) (shop : Shop)
      → is_empty (normalize_phone is_digit phone) ≡ false
      → (c : Customer) × (shop' : Shop) × (resolve_and_attach_customer is_digit new_id order
            store_id name phone email address shop
          ≡ ok (c, shop'))
        × (find? (is_identity store_id (normalize_phone is_digit phone)) shop'.customers ≡ some c)
  unfolding resolve_and_attach_customer
  resolve-found new_id order name phone email address shop h =
      let digits = normalize_phone is_digit phone in
      let e = normalize_optional email in
      let a = normalize_optional address in
      let (row, mid, run, found) = got new_id store_id (strip name) digits e a shop in
      let (c, shop', done, r) =
        resolved new_id store_id order (strip name) digits e a shop mid row h run found in
      (c, shop', done, r.found)

  -- A phone without a digit is refused, whatever else is given.
  pub resolve-refused :
      (new_id : ℕ) (order : Order) (name phone : Text) (email address : Option Text) (shop : Shop)
      → is_empty (normalize_phone is_digit phone) ≡ true
      → resolve_and_attach_customer is_digit new_id order store_id name phone email address shop
        ≡ err phone_required
  unfolding resolve_and_attach_customer
  resolve-refused new_id order name phone email address shop h = cc h

  -- A call whose phone some customer has returns that customer.
  resolve-again :
      (new_id : ℕ) (order : Order) (name phone : Text) (email address : Option Text) (shop : Shop)
      (c : Customer)
      → is_empty (normalize_phone is_digit phone) ≡ false
      → find? (is_identity store_id (normalize_phone is_digit phone)) shop.customers ≡ some c
      → (c' : Customer) × (shop' : Shop) × (resolve_and_attach_customer is_digit new_id order
            store_id name phone email address shop
          ≡ ok (c', shop'))
        × (c'.id ≡ c.id)
  unfolding resolve_and_attach_customer
  resolve-again new_id order name phone email address shop c given found =
      let digits = normalize_phone is_digit phone in
      let e = normalize_optional email in
      let a = normalize_optional address in
      let (c', shop', run, r) =
        resolved new_id store_id order (strip name) digits e a shop shop c given
          (existing new_id store_id (strip name) digits e a shop c found) found in
      (c', shop', run, ap (λ (x : Customer). x.id) r.filled ∙ fill_customer-id (strip name) e a c)

  -- Two calls in turn that succeed and whose phones have the same digits, for whatever orders, names and emails, return
  -- the same customer.
  pub resolve-same :
      (new_id new_id' : ℕ) (order order' : Order) (name name' phone phone' : Text)
      (email email' address address' : Option Text) (shop shop' shop'' : Shop) (c c' : Customer)
      → normalize_phone is_digit phone ≡ normalize_phone is_digit phone'
      → resolve_and_attach_customer is_digit new_id order store_id name phone email address shop
        ≡ ok (c, shop')
      → resolve_and_attach_customer is_digit new_id' order' store_id name' phone' email' address'
          shop'
        ≡ ok (c', shop'')
      → c'.id ≡ c.id
  resolve-same new_id new_id' order order' name name' phone phone' email email' address address'
        shop shop' shop'' c c' same h h' =
      elim (Bool-cases (is_empty (normalize_phone is_digit phone))) [
        | inl none_given ↦ absurd (
            ok_or_err _ _ _ h
              (resolve-refused new_id order name phone email address shop none_given))
        | inr given ↦
            let (c₁, s₁, run, found₁) =
              resolve-found new_id order name phone email address shop given in
            let (c_eq, s_eq) = same_result _ c₁ c s₁ shop' run h in
            let found : find? (is_identity store_id (normalize_phone is_digit phone'))
                  shop'.customers
                ≡ some c =
              subst₃ (λ k (s : Shop) x. find? (is_identity store_id k) s.customers ≡ some x) same
                s_eq c_eq found₁ in
            let (c₂, s₂, run', same_id) =
              resolve-again new_id' order' name' phone' email' address' shop' c
                (subst (λ k. is_empty k ≡ false) same given) found in
            let again : c₂ ≡ c' = (same_result _ c₂ c' s₂ shop'' run' h').0 in
            ap (λ (x : Customer). x.id) (sym again) ∙ same_id
      ]
