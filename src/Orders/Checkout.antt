-- ===== src/Orders/Checkout.antt =====
-- The request of a storefront checkout and its validation (`OrderCreateSerializer` of
-- engine/apps/orders/serializers.py, engine/apps/orders/checkout_rules.py, and
-- `resolve_storefront_variant` of engine/apps/products/variant_utils.py). A request holds what the
-- fields of the serializer make of the body, with missing texts blank; identifiers are numbers.
pub mod Locks
pub mod Numbers
pub mod Ledger
pub mod Create
pub mod Checked
pub mod Positive
pub mod Loop
pub mod Finish
pub mod Preview
pub mod Numbered
mod Tests
pub mod Whole
use api_paperbase.Base.{
  ℕ, Bool, true, false, not, ◌&&◌, ◌||◌, Option, none, some, List, [], ◌∷◌, any, length, ltb, ◌==◌,
  if◌then◌else◌,
}
use api_paperbase.Base.Int.{ℤ, pos, negsuc}
use api_paperbase.Base.Text.{Text, codes, strip, is_empty, take, text_eq}
use api_paperbase.Base.Queries.{find?, filter}
use api_paperbase.Base.Results.{Result, ok, err, raise_if, or_raise, ◌>>=◌, ◌>>◌}
use api_paperbase.Catalog.{Product, ProductVariant, ProductStatus, draft, active, archived}
use api_paperbase.Inventory.{Stock}
use api_paperbase.Shipping.{Shipping, ShippingZone, ShippingMethod}
use api_paperbase.Orders.{
  Shop, OrderError, invalid_fields, CheckoutField, zone_field, method_field, name_field,
  phone_field, email_field, address_field, district_field, products_field,
}

pub record RequestLine : Type 0 where
  pub product_public_id : ℕ
  pub variant_public_id : Option ℕ
  pub quantity : ℤ

pub record CheckoutRequest : Type 0 where
  pub shipping_zone_public_id : ℕ
  pub shipping_method_id : Option ℕ
  pub shipping_name : Text
  pub phone : Text
  pub email : Text
  pub shipping_address : Text
  pub district : Text
  pub products : List RequestLine

-- A line that passed `validate_products`.
pub record OrderLine : Type 0 where
  pub product_public_id : ℕ
  pub variant_public_id : Option ℕ
  pub quantity : ℕ

-- `validated_data`
pub record ValidatedData : Type 0 where
  pub shipping_zone : ShippingZone
  pub shipping_method : Option ShippingMethod
  pub shipping_name : Text
  pub phone : Text
  pub email : Text
  pub shipping_address : Text
  pub district : Text
  pub products : List OrderLine

-- `customer_form_variant` of the checkout settings.
pub data FormVariant : Type 0 where
  minimal extended : FormVariant

abbrev pub minimal_required_fields : List CheckoutField
minimal_required_fields = name_field ∷ phone_field ∷ zone_field ∷ district_field ∷ []

abbrev pub extended_required_fields : List CheckoutField
extended_required_fields =
    name_field ∷ phone_field ∷ email_field ∷ zone_field ∷ district_field ∷ address_field ∷ []

unfoldable pub get_required_checkout_fields : Option FormVariant → List CheckoutField
get_required_checkout_fields none = extended_required_fields
get_required_checkout_fields (some minimal) = minimal_required_fields
get_required_checkout_fields (some extended) = extended_required_fields

abbrev pub is_live : ProductStatus → Bool
is_live active = true
is_live draft = false
is_live archived = false

-- `is_active=True, status=ACTIVE` of a store's product.
unfoldable pub is_sold : ℕ → Product → Bool
is_sold store_id p = p.store_id == store_id && p.is_active && is_live p.status

unfoldable pub product_has_active_variants : Product → Stock → Bool
product_has_active_variants p s = any s.variants (λ v. v.product_id == p.id && v.is_active)

-- `none` where it raises.
unfoldable pub resolve_storefront_variant :
    Product → Option ℕ → Stock → Option (Option ProductVariant)
unfolding product_has_active_variants
resolve_storefront_variant p none s = if product_has_active_variants p s then none else some none
resolve_storefront_variant p (some raw) s =
    if product_has_active_variants p s
    then elim (find? (λ v. v.public_id == raw && v.product_id == p.id && v.is_active) s.variants) [
      | none ↦ none
      | some v ↦ some (some v)
    ]
    else none

abbrev pub max_quantity_per_item : ℕ
max_quantity_per_item = 1000

-- The tests on a quantity; `none` where one raises.
unfoldable pub validate_quantity : ℤ → Option ℕ
validate_quantity (negsuc n) = none
validate_quantity (pos n) = if n == 0 || ltb max_quantity_per_item n then none else some n

-- One turn of the loop of `validate_products`.
unfoldable pub validate_line : ℕ → Stock → RequestLine → Option OrderLine
unfolding validate_quantity is_sold resolve_storefront_variant
validate_line store_id s l = elim (validate_quantity l.quantity) [
  | none ↦ none
  | some quantity ↦
      elim (find? (λ p. p.public_id == l.product_public_id && is_sold store_id p) s.products) [
        | none ↦ none
        | some p ↦ elim (resolve_storefront_variant p l.variant_public_id s) [
          | none ↦ none
          | some _ ↦ some (record {
            product_public_id = l.product_public_id;
            variant_public_id = l.variant_public_id;
            quantity = quantity;
          })
        ]
      ]
]

abbrev push_line : Option OrderLine → Option (List OrderLine) → Option (List OrderLine)
push_line none rest = none
push_line (some l) none = none
push_line (some l) (some ls) = some (l ∷ ls)

unfoldable pub validate_lines : ℕ → Stock → List RequestLine → Option (List OrderLine)
unfolding validate_line
validate_lines store_id s [] = some []
validate_lines store_id s (l ∷ ls) =
    push_line (validate_line store_id s l) (validate_lines store_id s ls)

unfoldable pub validate_products : ℕ → Stock → List RequestLine → Option (List OrderLine)
unfolding validate_lines
validate_products store_id s [] = none
validate_products store_id s (l ∷ ls) = validate_lines store_id s (l ∷ ls)

-- `validate_shipping_name`
unfoldable pub validate_shipping_name : Text → Option Text
unfolding strip
validate_shipping_name value = if is_empty (strip value) then none else some (strip value)

-- `validate_phone`; `is_digit` is `str.isdigit` of one character.
unfoldable pub validate_phone : (ℕ → Bool) → Text → Option Text
unfolding strip text_eq take
validate_phone is_digit value =
    let digits = filter is_digit (strip value) in
    if is_empty (strip value)
    then none
    else if not (length digits == 11) || not (text_eq (take 2 digits) (codes "01"))
    then none
    else some digits

-- The querysets that `__init__` gives to the two related fields.
unfoldable pub zone_of : ℕ → ℕ → Shipping → Option ShippingZone
zone_of store_id public_id db =
    find? (λ z. z.public_id == public_id && z.store_id == store_id && z.is_active) db.zones

unfoldable pub method_of : ℕ → Option ℕ → Shipping → Option (Option ShippingMethod)
method_of store_id none db = some none
method_of store_id (some k) db =
    elim (find? (λ m. m.id == k && m.store_id == store_id && m.is_active) db.methods) [
      | none ↦ none
      | some m ↦ some (some m)
    ]

-- A field without a value was refused.
abbrev collect : {A : Type 0} → CheckoutField → Option A → List CheckoutField → List CheckoutField
collect f none errors = f ∷ errors
collect f (some a) errors = errors

-- `value is None or not value.strip()`
unfoldable pub is_missing : ValidatedData → CheckoutField → Bool
unfolding strip
is_missing checked name_field = is_empty (strip checked.shipping_name)
is_missing checked phone_field = is_empty (strip checked.phone)
is_missing checked email_field = is_empty (strip checked.email)
is_missing checked address_field = is_empty (strip checked.shipping_address)
is_missing checked district_field = is_empty (strip checked.district)
is_missing checked zone_field = false
is_missing checked method_field = false
is_missing checked products_field = false

-- The fields are validated each by itself, and all that are refused are reported.
unfoldable pub assemble :
    Option ShippingZone
    → Option (Option ShippingMethod)
    → Option Text
    → Option Text
    → Option (List OrderLine)
    → CheckoutRequest
    → Result OrderError ValidatedData
assemble (some zone) (some method) (some name) (some digits) (some lines) req = ok (record {
  shipping_zone = zone;
  shipping_method = method;
  shipping_name = name;
  phone = digits;
  email = req.email;
  shipping_address = req.shipping_address;
  district = req.district;
  products = lines;
})
assemble zone method name digits lines req = err (
    invalid_fields (
      collect zone_field zone (
        collect method_field method (
          collect name_field name (collect phone_field digits (collect products_field lines []))))))

-- `validate`
unfoldable pub validate : Option FormVariant → ValidatedData → Result OrderError ValidatedData
unfolding get_required_checkout_fields is_missing
validate settings checked =
    let errors = filter (is_missing checked) (get_required_checkout_fields settings) in
    if any errors (λ _. true) then err (invalid_fields errors) else ok checked

-- `ser.is_valid(raise_exception=True)` and its `validated_data`
unfoldable pub is_valid :
    (ℕ → Bool) → Option FormVariant → ℕ → CheckoutRequest → Shop → Result OrderError ValidatedData
unfolding assemble zone_of method_of validate_shipping_name validate_phone validate_products
    validate
is_valid is_digit settings store_id req shop =
    assemble (zone_of store_id req.shipping_zone_public_id shop.shipping)
      (method_of store_id req.shipping_method_id shop.shipping)
      (validate_shipping_name req.shipping_name) (validate_phone is_digit req.phone)
      (validate_products store_id shop.stock req.products) req
    >>= validate settings
