-- ===== src/Orders/Checkout/Finish.antt =====
-- What follows the loop of a checkout keeps what it does not write.
use api_paperbase.Base.{
  ℕ, ◌≡◌, Bool, true, false, not, Option, none, some, List, [], ◌∷◌, ◌++◌, map, ◌==◌, inl, inr,
  Option-cases,
}
use mathlib.Core.Path.{subst}
use api_paperbase.Base.Text.{Text, is_empty, strip}
use api_paperbase.Base.Results.{Result, ok, err}
use api_paperbase.Base.Queries.{find?, update_where}
use api_paperbase.Base.Tx.{Tx, pure, gets, modify, ◌>>◌}
use api_paperbase.Base.Triples.{
  Triple, pure-after, weaken, gets-after, bind-after, modify-after, raise_if-after,
}
use api_paperbase.Shipping.{Shipping, ShippingError, ShippingQuote}
use api_paperbase.Orders.{
  Order, OrderItem, Shop, Customer, OrderError, PurchaseLedgerEntry, Effect, SnapshotLine,
  phone_required, shipping_error, notify_order_created, foreign_item,
}
use api_paperbase.Orders.Financials.{
  Rollup, aggregate_order_item_snapshots, quote_shipping_for_order,
}
use api_paperbase.Orders.Lifecycle.{emit, items_of}
use api_paperbase.Orders.Totals.{
  recalculate_order_totals, save_totals, with_totals, on_shipping, line_of, snapshot_line,
}
use api_paperbase.Orders.Customers.{
  get_or_create, fill_customer, attach, resolve_customer, resolve_and_attach_customer, is_identity,
  new_customer, normalize_phone, normalize_optional,
}
use api_paperbase.Orders.Checkout.Ledger.{
  is_entry_of, entry_of, append_ledger_line_for_order_item, append_each,
  append_ledger_lines_for_order,
}
use api_paperbase.Orders.Checkout.Create.{Call, finish_order}

-- A fact about the tables that no write of the last part of a checkout touches.
pub record IsFrame (P : Shop → Type 0) : Type 0 where
  pub totals :
      (pk : ℕ) (r : Rollup) (quote : ShippingQuote) (lines : List SnapshotLine) (s : Shop)
      → P s
      → P (save_totals pk (λ row. with_totals row r quote lines) s)
  pub attached : (order : Order) (c : Customer) (s : Shop) → P s → P (attach order c s)
  pub customers : (cs : List Customer) (s : Shop) → P s → P (record s { customers = cs })
  pub ledger :
      (entries : List PurchaseLedgerEntry) (s : Shop) → P s → P (record s { ledger = entries })
  pub effects : (e : List Effect) (s : Shop) → P s → P (record s { effects = e })

module _ (P : Shop → Type 0) (frame : IsFrame P) where
  abbrev Kept : {A : Type 0} → Tx Shop OrderError A → Type 0
  Kept m = Triple P m (λ _ s. P s)

  gets-Kept : {A : Type 0} (f : Shop → A) → Kept (gets f)
  gets-Kept f = weaken _ (gets-after f) (λ a s h. h.1)

  abbrev given : {A : Type 0} → Shop → Result ShippingError A → Result OrderError (A × Shop)
  given s (err e) = err (shipping_error e)
  given s (ok a) = ok (a, s)

  shipping-Kept : {A : Type 0} (f : Shipping → Result ShippingError A) → Kept (on_shipping f)
  shipping-Kept f = record { after = λ s p a t h. of_result s (f s.shipping) a t h p }
    where
      of_result :
          {A : Type 0} (s : Shop) (r : Result ShippingError A) (a : A) (t : Shop)
          → given s r ≡ ok (a, t)
          → P s
          → P t
      of_result s (err e) a t h p = cc h
      of_result s (ok b) a t h p = (let same : s ≡ t = cc h in subst P same p)

  pub totals-Kept : (order : Order) → Kept (recalculate_order_totals order)
  unfolding recalculate_order_totals
  totals-Kept order = bind-after _ _ (gets-Kept (items_of order.id)) (λ items.
      let r = aggregate_order_item_snapshots (map line_of items) in
      bind-after _ _
        (shipping-Kept (
          quote_shipping_for_order order.store_id r.subtotal_after_discount order.shipping_zone_id
            order.shipping_method_id))
        (λ quote. bind-after _ _ (gets-Kept (λ shop. map (snapshot_line shop) items)) (λ lines.
          bind-after _ _
            (modify-after (save_totals order.id (λ row. with_totals row r quote lines))
              (frame.totals order.id r quote lines))
            (λ _. pure-after _ (with_totals order r quote lines) (λ s h. h)))))

  created-Kept :
      (new_id store_id : ℕ) (name phone : Text) (email address : Option Text)
      → Kept (get_or_create new_id store_id name phone email address)
  unfolding get_or_create
  created-Kept new_id store_id name phone email address = record {
    after = λ s p c t h. elim (Option-cases (find? (is_identity store_id phone) s.customers)) [
      | inr (row, e) ↦ let same : s ≡ t = cc (h, e) in subst P same p
      | inl e ↦
          let row = new_customer new_id store_id name phone email address in
          let same : record s { customers = s.customers ++ row ∷ [] } ≡ t = cc (h, e) in
          subst P same (frame.customers (s.customers ++ row ∷ []) s p)
    ];
  }

  customer-Kept :
      (new_id : ℕ) (order : Order) (store_id : ℕ) (name phone : Text) (email address : Option Text)
      → Kept (resolve_customer new_id order store_id name phone email address)
  unfolding resolve_customer
  customer-Kept new_id order store_id name phone email address =
      bind-after _ _ (weaken _ (raise_if-after (is_empty phone) phone_required) (λ _ s h. h.1))
        (λ _. bind-after _ _ (created-Kept new_id store_id name phone email address) (λ customer.
          bind-after _ _
            (modify-after
              (λ shop. record shop {
                customers =
                    update_where (λ c. c.id == customer.id) (fill_customer name email address)
                      shop.customers;
              })
              (λ s h.
                frame.customers
                  (update_where (λ c. c.id == customer.id) (fill_customer name email address)
                    s.customers)
                  s h))
            (λ _.
              bind-after _ _ (modify-after (attach order customer) (frame.attached order customer))
                (λ _. pure-after _ (fill_customer name email address customer) (λ s h. h)))))

  pub entry-Kept :
      (order : Order) (oi : OrderItem) (customer : Option ℕ)
      → Kept (append_ledger_line_for_order_item order oi customer)
  unfolding append_ledger_line_for_order_item
  entry-Kept order oi customer =
      bind-after _ _
        (weaken _ (raise_if-after (not (oi.order_id == order.id)) foreign_item) (λ _ s h. h.1))
        (λ _. bind-after _ _ (gets-Kept (λ shop. find? (is_entry_of oi.id) shop.ledger)) (λ found.
          bind-after _ _ (gets-Kept (entry_of order oi customer)) (λ entry. appended found entry)))
    where
      appended :
          (found : Option PurchaseLedgerEntry) (entry : PurchaseLedgerEntry)
          → Kept {A = PurchaseLedgerEntry × Bool} (elim found [
            | some e ↦ pure (e, false)
            | none ↦
                modify (λ shop. record shop { ledger = shop.ledger ++ entry ∷ [] })
                >> pure (entry, true)
          ])
      appended (some e) entry = pure-after _ (e, false) (λ s h. h)
      appended none entry =
          bind-after _ _
            (modify-after (λ shop. record shop { ledger = shop.ledger ++ entry ∷ [] })
              (λ s h. frame.ledger (s.ledger ++ entry ∷ []) s h))
            (λ _. pure-after _ (entry, true) (λ s h. h))

  entries-Kept :
      (order : Order) (customer : Option ℕ) (items : List OrderItem)
      → Kept (append_each order customer items)
  unfolding append_each
  entries-Kept order customer [] = pure-after _ tt (λ s h. h)
  entries-Kept order customer (oi ∷ items) =
      bind-after _ _ (entry-Kept order oi customer) (λ _. entries-Kept order customer items)

  pub finish-Kept :
      (is_digit : ℕ → Bool) (call : Call) (created : Order)
      → Kept (finish_order is_digit call created)
  unfolding finish_order resolve_and_attach_customer append_ledger_lines_for_order emit
  finish-Kept is_digit call created = bind-after _ _ (totals-Kept created) (λ order.
      bind-after _ _
        (customer-Kept call.customer_id order call.store_id (strip order.shipping_name)
          (normalize_phone is_digit order.phone) (normalize_optional (some order.email))
          (normalize_optional (some order.shipping_address)))
        (λ customer.
          let attached = record order { customer_id = some customer.id } in
          bind-after _ _
            (bind-after _ _ (gets-Kept (items_of order.id))
              (λ items. entries-Kept attached (some customer.id) items))
            (λ _.
              bind-after _ _
                (modify-after (emit (notify_order_created order.id))
                  (λ s h. frame.effects (s.effects ++ notify_order_created order.id ∷ []) s h))
                (λ _. pure-after _ attached (λ s h. h)))))
