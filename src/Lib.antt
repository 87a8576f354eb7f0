-- ===== src/Lib.antt =====
-- The commerce core of the store backend: catalog, stock, shipping, money, orders and billing.
--
-- The program is a Django application in which many stores share one database. A customer's cart is
-- priced and quoted (engine/apps/orders/order_financials.py, pricing.py, engine/apps/shipping/
-- service.py), an order is placed, its payment submitted and verified, its status changed
-- (engine/apps/orders/services.py), and stock follows it (engine/apps/orders/stock.py,
-- engine/apps/inventory/services.py, cache_sync.py). The owner of a store pays for a plan, and the
-- storefront is open while the subscription runs (engine/apps/billing).
--
-- Files:
--   Base         names of the libraries, tests, lists, queries, signed integers, results and
--                transactions that the other files share
--   Catalog      Product, ProductVariant and their unit price (engine/apps/products/models.py,
--                variant_utils.py)
--   Inventory    Inventory, StockMovement, adjust_inventory_stock, refresh_product_stock_cache
--                (engine/apps/inventory); Inventory.Sync has sync_product_stock_cache
--   Shipping     zones, methods, rates and quote_shipping (engine/apps/shipping)
--   Money        money of order_financials.py and quantize_money of engine/apps/billing/pricing.py
--   Orders       the tables of orders (engine/apps/orders/models.py, engine/apps/customers/models.py)
--   Orders.Financials   order_financials.py and pricing.py
--   Orders.Restore      stock.py and the restoration of stock on cancellation
--   Orders.Rollup       the customer's purchase roll-up
--   Orders.Lifecycle    apply_order_status_change, submit_order_payment, apply_payment_verification
--   Orders.Totals       recalculate_order_totals and the prepayment of a cart
--   Orders.Customers    resolve_and_attach_customer
--   Orders.Checkout     OrderCreateSerializer of serializers.py, checkout_rules.py and
--                resolve_storefront_variant; below it OrderCreateView.create of views.py (Locks, Create),
--                utils.py (Numbers) and purchase_ledger_service.py (Ledger)
--   Orders.Edits        AdminOrderUpdateSerializer.update of admin_serializers.py
--   Billing      plans, subscriptions and payments (engine/apps/billing/models.py, pricing.py)
--   Billing.Status      subscription_status.py and _get_effective_plan of feature_gate.py
--   Billing.Emails      what an activation asks for on commit
--   Billing.Services    activate_subscription and extend_subscription of services.py
--   Billing.Payments    InitiatePaymentView (`read_choice` and `store_choice`), submit_pending_payment_transaction and
--                reject_pending_review_for_payment
--   Catalog.Categories  category_tree.py and Category.clean of engine/apps/products
--   Catalog.Slugs       the slug loop of Category.save
--   RateLimit    redis_fixed_window.py, rate_limit.py and _throttle_invalid_api_key of engine/core
--   RateLimit.Cooldown  rate_limit_service.py of engine/core
-- A function keeps its name, without a leading underscore; PricingEngine.compute is
-- `pricing_compute`, _apply_customer_rollup_on_status_change is `apply_customer_rollup`, and
-- _restore_stock_for_cancellation is `restore_items`. The proofs are in the child modules.
--
-- State. A table is a list of rows in the order of their keys (a new row of billing and a new
-- order come first), a query is an operation on lists, and
-- a service is a function from the tables to a result with the new tables, or to the error that it
-- raises. transaction.atomic rolls back on an error, so an error carries no tables. The
-- services of orders and stock lock rows by select_for_update and are one step each; so are an edit of
-- an order and a whole sync of the stock cache, which lock their rows only in part.
-- Billing locks nothing: its services are atomic at most, and InitiatePaymentView.post is not even
-- that, so a run of billing is taken to be of calls that do not overlap, and Billing.Tidy.Overlap has
-- the two requests that do. An IntegrityError from another transaction is a
-- parameter `conflict` of the services that handle it. Clock readings, new keys, Python's
-- str.isdigit and int, Django's slugify and the cache of the rate limits are parameters too. Emails and
-- cache invalidations are a list of effects. The tenant-aware managers are taken to run in the
-- context of the store that acts.
--
-- Numbers. Amounts of the two-place columns are signed numbers of cents; a Decimal with more places
-- is a coefficient and a scale. The limits of the columns and the 28 digits of the decimal context
-- are not modelled. Loops are structural recursion on a
-- list, or on the source's own bound: 32 hops and 5 levels in the category tree. Only the slug loop
-- has fuel, two rounds more than there are other slugs, of which one is always free by then.
--
-- Not modelled: most HTTP views and serializers, authentication, mail, couriers, tracking and other
-- third-party services, migrations and settings, which are input and output or generated; orders
-- created in the dashboard, tenancy, trash and deletion, which are separate parts; text that is only shown.
pub mod Base
pub mod Catalog
pub mod Inventory
pub mod Shipping
pub mod Money
pub mod Orders
pub mod Billing
pub mod RateLimit
