-- ===== src/Orders/Checkout/Positive.antt =====
-- The quantities that the validation of a checkout lets through (engine/apps/orders/serializers.py).
use api_paperbase.Base.{
  ℕ, ◌≤◌, ◌≡◌, ap, Bool, true, ◌&&◌, ◌||◌, Option, none, some, List, [], ◌∷◌, any, All, ltb, ◌==◌,
  inl, inr, Bool-cases, Option-cases, arith,
}
use mathlib.Core.Path.{subst}
use api_paperbase.Base.Int.{ℤ, pos, negsuc}
use api_paperbase.Base.Text.{Text}
use api_paperbase.Base.Results.{Result, ok, err, Result-cases}
use api_paperbase.Base.Queries.{find?, filter}
use api_paperbase.Shipping.{ShippingZone, ShippingMethod}
use api_paperbase.Inventory.{Stock}
use api_paperbase.Orders.{Shop, OrderError}
use api_paperbase.Orders.Checkout.{
  resolve_storefront_variant, is_missing, get_required_checkout_fields, zone_of, method_of,
  validate_shipping_name, validate_phone, CheckoutRequest, RequestLine, OrderLine, ValidatedData,
  FormVariant, is_sold, is_valid, assemble, validate, validate_quantity, validate_line,
  validate_lines, validate_products, max_quantity_per_item,
}

-- The validation lets only positive quantities through.
abbrev ArePositive : List OrderLine → Type 0
ArePositive = All (λ (l : OrderLine). 1 ≤ l.quantity)

quantity-positive : (q : ℤ) (n : ℕ) → validate_quantity q ≡ some n → 1 ≤ n
unfolding validate_quantity
quantity-positive (negsuc k) n h = cc h
quantity-positive (pos k) n h = elim (Bool-cases (k == 0 || ltb max_quantity_per_item k)) [
  | inl e ↦ cc (h, e)
  | inr e ↦ let same : k ≡ n = cc (h, e) in ground (arith, e, same)
]

passed_line : RequestLine → ℕ → OrderLine
passed_line r n = record {
  product_public_id = r.product_public_id;
  variant_public_id = r.variant_public_id;
  quantity = n;
}

line-positive :
    (store_id : ℕ) (s : Stock) (r : RequestLine) (l : OrderLine)
    → validate_line store_id s r ≡ some l
    → 1 ≤ l.quantity
unfolding validate_line passed_line
line-positive store_id s r l h = elim (Option-cases (validate_quantity r.quantity)) [
  | inl e ↦ cc (h, e)
  | inr (n, e) ↦
      elim (Option-cases
        (find? (λ p. p.public_id == r.product_public_id && is_sold store_id p) s.products)) [
          | inl absent ↦ cc (h, e, absent)
          | inr (p, found) ↦
              elim (Option-cases (resolve_storefront_variant p r.variant_public_id s)) [
                | inl absent ↦ cc (h, e, found, absent)
                | inr (v, chosen) ↦
                    let same' : passed_line r n ≡ l = cc (h, e, found, chosen) in
                    let same : n ≡ l.quantity = ap (λ (x : OrderLine). x.quantity) same' in
                    subst (λ m. 1 ≤ m) same (quantity-positive r.quantity n e)
              ]
        ]
]

lines-positive :
    (store_id : ℕ) (s : Stock) (rs : List RequestLine) (ls : List OrderLine)
    → validate_lines store_id s rs ≡ some ls
    → ArePositive ls
unfolding validate_lines
lines-positive store_id s [] ls h = let same : [] ≡ ls = cc h in subst ArePositive same tt
lines-positive store_id s (r ∷ rs) ls h = elim (Option-cases (validate_line store_id s r)) [
  | inl e ↦ cc (h, e)
  | inr (l, e) ↦ elim (Option-cases (validate_lines store_id s rs)) [
    | inl e' ↦ cc (h, e, e')
    | inr (rest, e') ↦
        let same : l ∷ rest ≡ ls = cc (h, e, e') in
        subst ArePositive same
          (line-positive store_id s r l e, lines-positive store_id s rs rest e')
  ]
]

validated-positive :
    (store_id : ℕ) (s : Stock) (rs : List RequestLine) (ls : List OrderLine)
    → validate_products store_id s rs ≡ some ls
    → ArePositive ls
unfolding validate_products
validated-positive store_id s [] ls h = cc h
validated-positive store_id s (r ∷ rs) ls h = lines-positive store_id s (r ∷ rs) ls h

assembled_products :
    (z : Option ShippingZone) (m : Option (Option ShippingMethod)) (n d : Option Text)
    (ls : Option (List OrderLine)) (req : CheckoutRequest) (checked : ValidatedData)
    → assemble z m n d ls req ≡ ok checked
    → ls ≡ some checked.products
unfolding assemble
assembled_products (some z) (some m) (some n) (some d) (some ls) req checked h = ap products_of h
  where
    products_of : Result OrderError ValidatedData → Option (List OrderLine)
    products_of (ok v) = some v.products
    products_of (err e) = none
assembled_products none m n d ls req checked h = cc h
assembled_products (some z) none n d ls req checked h = cc h
assembled_products (some z) (some m) none d ls req checked h = cc h
assembled_products (some z) (some m) (some n) none ls req checked h = cc h
assembled_products (some z) (some m) (some n) (some d) none req checked h = cc h

validate-same :
    (settings : Option FormVariant) (a b : ValidatedData) → validate settings a ≡ ok b → a ≡ b
unfolding validate
validate-same settings a b h =
    elim (Bool-cases
      (any (filter (is_missing a) (get_required_checkout_fields settings)) (λ _. true))) [
        | inl e ↦ cc (h, e)
        | inr e ↦ cc (h, e)
      ]

pub is_valid-positive :
    (is_digit : ℕ → Bool) (settings : Option FormVariant) (store_id : ℕ) (req : CheckoutRequest)
    (shop : Shop) (checked : ValidatedData)
    → is_valid is_digit settings store_id req shop ≡ ok checked
    → All (λ (l : OrderLine). 1 ≤ l.quantity) checked.products
unfolding is_valid
is_valid-positive is_digit settings store_id req shop checked h =
    let lines = validate_products store_id shop.stock req.products in
    let fields =
      assemble (zone_of store_id req.shipping_zone_public_id shop.shipping)
        (method_of store_id req.shipping_method_id shop.shipping)
        (validate_shipping_name req.shipping_name) (validate_phone is_digit req.phone) lines req in
    elim (Result-cases fields) [
      | inr (_, e) ↦ cc (h, e)
      | inl (raw, e) ↦
          let same = validate-same settings raw checked (cc (h, e)) in
          subst (λ (v : ValidatedData). ArePositive v.products) same
            (validated-positive store_id shop.stock req.products raw.products
              (assembled_products _ _ _ _ lines req raw e))
    ]
