-- ===== src/Orders.antt =====
-- Orders, their lines and customers (engine/apps/orders/models.py, engine/apps/customers/models.py):
-- the rows that the order services read and write, and the database that holds them. Amounts are
-- signed numbers of cents; times are microseconds. Emails and cache invalidations are a list of
-- effects.
pub mod Financials
pub mod Restore
pub mod Rollup
pub mod Lifecycle
pub mod Totals
pub mod Customers
pub mod Checkout
pub mod Edits
mod Tests
use api_paperbase.Base.{ℕ, ◌≡◌, Bool, Option, List, ◌==◌}
use api_paperbase.Base.Int.{ℤ}
use api_paperbase.Base.Text.{Text}
use api_paperbase.Inventory.{Stock, ValidationError}
use api_paperbase.Shipping.{Shipping, ShippingError}

-- `Order.Status`
pub data OrderStatus : Type 0 where
  pending payment_pending confirmed cancelled : OrderStatus

-- `Order.PaymentStatus`; `unpaid` is its NONE.
pub data PaymentStatus : Type 0 where
  unpaid submitted verified failed : PaymentStatus

-- One line of the `pricing_snapshot`.
pub record SnapshotLine : Type 0 where
  pub product_public_id : Option ℕ
  pub quantity : ℕ
  pub unit_price : ℤ
  pub original_price : ℤ
  pub discount_amount : ℤ
  pub line_subtotal : ℤ
  pub line_total : ℤ

pub record PricingSnapshot : Type 0 where
  pub subtotal_before_discount : ℤ
  pub discount_total : ℤ
  pub subtotal_after_discount : ℤ
  pub shipping_cost : ℤ
  pub total : ℤ
  pub lines : List SnapshotLine

pub record Order : Type 0 where
  pub id : ℕ
  pub store_id : ℕ
  pub customer_id : Option ℕ
  pub status : OrderStatus
  pub payment_status : PaymentStatus
  pub order_number : Text
  pub email : Text
  pub shipping_name : Text
  pub shipping_address : Text
  pub phone : Text
  pub district : Text
  pub transaction_id : Text
  pub payer_number : Text
  pub total : ℤ
  pub subtotal_before_discount : ℤ
  pub discount_total : ℤ
  pub subtotal_after_discount : ℤ
  pub shipping_cost : ℤ
  pub shipping_zone_id : Option ℕ
  pub shipping_method_id : Option ℕ
  pub shipping_rate_id : Option ℕ
  pub pricing_snapshot : Option PricingSnapshot
  pub updated_at : ℕ

pub record OrderItem : Type 0 where
  pub id : ℕ
  pub order_id : ℕ
  pub product_id : Option ℕ
  pub variant_id : Option ℕ
  pub quantity : ℕ
  pub unit_price_snapshot : ℤ
  pub unit_price : ℤ
  pub original_price : ℤ
  pub discount_amount : ℤ
  pub line_subtotal : ℤ
  pub line_total : ℤ

-- `StockRestoreLog`; CANCELLED is its only reason.
pub record StockRestoreLog : Type 0 where
  pub order_id : ℕ
  pub order_item_id : ℕ
  pub store_id : ℕ
  pub quantity : ℕ

pub record Customer : Type 0 where
  pub id : ℕ
  pub store_id : ℕ
  pub name : Text
  pub phone : Text
  pub email : Option Text
  pub address : Option Text
  pub total_orders : ℕ
  pub total_spent : ℤ
  pub first_order_at : Option ℕ
  pub last_order_at : Option ℕ
  pub is_repeat_customer : Bool
  pub avg_order_interval_days : Option ℤ

pub data Effect : Type 0 where
  invalidate_caches : ℕ → Effect
  notify_payment_submitted : ℕ → Effect
  notify_order_created : ℕ → Effect

pub record OrderNumberCounter : Type 0 where
  pub store_id : ℕ
  pub next_value : ℕ

-- `PurchaseLedgerEntry`, without the names on it; the public identifier of a row stands for its key.
pub record PurchaseLedgerEntry : Type 0 where
  pub store_id : ℕ
  pub customer_id : Option ℕ
  pub order_id : ℕ
  pub order_number : Text
  pub order_item_id : ℕ
  pub product_public_id : Option ℕ
  pub variant_public_id : Option ℕ
  pub quantity : ℕ
  pub unit_price : ℤ
  pub line_total : ℤ
  pub order_status_snapshot : OrderStatus

-- The field and the values of a `PurchaseLedgerAdjustment`.
pub data LedgerChange : Type 0 where
  line_removed : OrderItem → LedgerChange
  variant_changed : Option ℕ → Option ℕ → LedgerChange
  quantity_changed : ℕ → ℕ → LedgerChange
  unit_price_changed : ℤ → ℤ → LedgerChange

pub record PurchaseLedgerAdjustment : Type 0 where
  pub store_id : ℕ
  pub customer_id : Option ℕ
  pub order_id : ℕ
  pub order_item_id : ℕ
  pub change : LedgerChange
  pub created_by : Option ℕ

-- The database.
pub record Shop : Type 0 where
  pub stock : Stock
  pub shipping : Shipping
  pub orders : List Order
  pub items : List OrderItem
  pub restore_logs : List StockRestoreLog
  pub customers : List Customer
  pub counters : List OrderNumberCounter
  pub ledger : List PurchaseLedgerEntry
  pub adjustments : List PurchaseLedgerAdjustment
  pub effects : List Effect

-- The fields of a checkout request.
pub data CheckoutField : Type 0 where
  zone_field method_field name_field phone_field : CheckoutField
  email_field address_field district_field products_field : CheckoutField

-- What the stock check reports of a line; the numbers are what there is and what is asked for.
pub data StockError : Type 0 where
  product_not_found variant_unavailable : StockError
  insufficient_variant_stock insufficient_stock : ℕ → ℕ → StockError

pub data OrderError : Type 0 where
  order_missing invalid_status order_is_cancelled has_unavailable_products : OrderError
  payment_not_verified transaction_id_required payer_number_required : OrderError
  not_awaiting_submission already_submitted not_awaiting_verification : OrderError
  no_submitted_payment phone_required : OrderError
  no_products several_stores no_valid_products store_mismatch key_error : OrderError
  foreign_item item_missing product_unavailable variant_missing quantity_missing : OrderError
  invalid_fields : List CheckoutField → OrderError
  stock_failed : List StockError → OrderError
  stock_error : ValidationError → OrderError
  shipping_error : ShippingError → OrderError

-- The rows of one order.
abbrev pub is_order : ℕ → Order → Bool
is_order pk o = o.id == pk

abbrev pub is_item_of : ℕ → OrderItem → Bool
is_item_of pk i = i.order_id == pk
