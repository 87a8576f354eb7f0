-- ===== src/Catalog.antt =====
-- Products and their variants, as far as stock, pricing and orders read them
-- (engine/apps/products/models.py). Amounts of money are signed numbers of cents: each of these
-- columns is a `DecimalField` with two places. Identifiers are only compared, so they are numbers.
pub mod Categories
pub mod Slugs
use api_paperbase.Base.{ℕ, Bool, Option, none, some}
use api_paperbase.Base.Int.{ℤ}

-- `Product.Status`
pub data ProductStatus : Type 0 where
  draft active archived : ProductStatus

-- `Product.PrepaymentType`; `free` is its NONE.
pub data PrepaymentType : Type 0 where
  free delivery_only full : PrepaymentType

pub record Product : Type 0 where
  pub id : ℕ
  pub store_id : ℕ
  pub public_id : ℕ
  pub price : ℤ
  pub original_price : Option ℤ
  pub status : ProductStatus
  pub stock : ℕ
  pub is_active : Bool
  pub prepayment_type : PrepaymentType

pub record ProductVariant : Type 0 where
  pub id : ℕ
  pub product_id : ℕ
  pub public_id : ℕ
  pub price_override : Option ℤ
  pub is_active : Bool

-- `ProductVariant.effective_price`, of a variant of `p`
unfoldable pub effective_price : Product → ProductVariant → ℤ
effective_price p v = elim v.price_override [ none ↦ p.price | some price ↦ price ]

-- `unit_price_for_line` of engine/apps/products/variant_utils.py
unfoldable pub unit_price_for_line : Product → Option ProductVariant → ℤ
unfolding effective_price
unit_price_for_line p none = p.price
unit_price_for_line p (some v) = effective_price p v
