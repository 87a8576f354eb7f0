-- ===== src/Orders/Checkout/Ledger/Once.antt =====
-- Every line of an order has its entry in the ledger, once.
use api_paperbase.Base.{
  ℕ, ◌≡◌, refl, ap, sym, ◌∙◌, Bool, true, false, ◌||◌, Option, none, some, List, [], ◌∷◌, ◌++◌, any,
  All, ◌==◌, inl, inr, Option-cases, ==_refl, any-append, arith,
}
use mathlib.Core.Path.{subst}
use api_paperbase.Base.Results.{Result, ok, Delivers}
use api_paperbase.Base.Greatest.{found_of_any, any_of_found}
use api_paperbase.Base.Queries.{find?, filter}
use api_paperbase.Base.Tx.{Delivers-weaken}
use api_paperbase.Base.Order.{filter-test}
use api_paperbase.Orders.{Order, OrderItem, PurchaseLedgerEntry, Shop, OrderError, is_item_of}
use api_paperbase.Orders.Lifecycle.{items_of}
use api_paperbase.Orders.Checkout.Ledger.{
  is_entry_of, entry_of, append_ledger_line_for_order_item, append_each,
  append_ledger_lines_for_order,
}

abbrev pub HasEntry : Shop → OrderItem → Type 0
HasEntry shop oi = any shop.ledger (is_entry_of oi.id) ≡ true

-- The entry of a line that has one is left alone.
entry-there :
    (order : Order) (oi : OrderItem) (customer : Option ℕ) (e : PurchaseLedgerEntry) (shop : Shop)
    → (oi.order_id == order.id) ≡ true
    → find? (is_entry_of oi.id) shop.ledger ≡ some e
    → append_ledger_line_for_order_item order oi customer shop ≡ ok ((e, false), shop)
unfolding append_ledger_line_for_order_item
entry-there order oi customer e shop own found = cc (own, found)

entry-new :
    (order : Order) (oi : OrderItem) (customer : Option ℕ) (shop : Shop)
    → (oi.order_id == order.id) ≡ true
    → find? (is_entry_of oi.id) shop.ledger ≡ none
    → append_ledger_line_for_order_item order oi customer shop
      ≡ ok (
        (entry_of order oi customer shop, true),
        record shop { ledger = shop.ledger ++ entry_of order oi customer shop ∷ [] },
      )
unfolding append_ledger_line_for_order_item
entry-new order oi customer shop own found = cc (own, found)

-- What the loop over the lines does.
record Appended (items : List OrderItem) (shop shop' : Shop) : Type 0 where
  entries : All (HasEntry shop') items
  same_items : shop'.items ≡ shop.items
  kept : (oi : OrderItem) → HasEntry shop oi → HasEntry shop' oi

abbrev AreOf : Order → List OrderItem → Type 0
AreOf order items = All (λ (oi : OrderItem). (oi.order_id == order.id) ≡ true) items

Appended-cons :
    (oi : OrderItem) (items : List OrderItem) (shop mid : Shop)
    (r : Result OrderError (Unit {0} × Shop))
    → HasEntry mid oi
    → mid.items ≡ shop.items
    → ((other : OrderItem) → HasEntry shop other → HasEntry mid other)
    → Delivers (λ _ shop'. Appended items mid shop') r
    → Delivers (λ _ shop'. Appended (oi ∷ items) shop shop') r
Appended-cons oi items shop mid r here same kept rest =
    Delivers-weaken (λ _ shop'. Appended items mid shop')
      (λ _ shop'. Appended (oi ∷ items) shop shop') r rest
      (λ _ shop' done. record {
        entries = (done.kept oi here, done.entries);
        same_items = done.same_items ∙ same;
        kept = λ other h. done.kept other (kept other h);
      })

append_each-Appended :
    (order : Order) (customer : Option ℕ) (items : List OrderItem) (shop : Shop)
    → AreOf order items
    → Delivers (λ _ shop'. Appended items shop shop') (append_each order customer items shop)
unfolding append_each entry_of
append_each-Appended order customer [] shop own = record {
  entries = tt;
  same_items = refl;
  kept = λ oi h. h;
}
append_each-Appended order customer (oi ∷ items) shop own =
    elim (Option-cases (find? (is_entry_of oi.id) shop.ledger)) [
      | inr (e, found) ↦ rw (entry-there order oi customer e shop own.0 found) (
          Appended-cons oi items shop shop _ (any_of_found (is_entry_of oi.id) shop.ledger e found)
            refl (λ other h. h) (append_each-Appended order customer items shop own.1))
      | inl absent ↦
          let entry = entry_of order oi customer shop in
          let written : Shop = record shop { ledger = shop.ledger ++ entry ∷ [] } in
          rw (entry-new order oi customer shop own.0 absent) (
            Appended-cons oi items shop written _
              (any-append shop.ledger (entry ∷ []) (is_entry_of oi.id)
                ∙ last (any shop.ledger (is_entry_of oi.id)) (oi.id == oi.id) (==_refl oi.id))
              refl
              (λ other h. any-append shop.ledger (entry ∷ []) (is_entry_of other.id) ∙ first _ _ h)
              (append_each-Appended order customer items written own.1))
    ]
  where
    last : (a b : Bool) → b ≡ true → (a || (b || false)) ≡ true
    last a b h = ground (arith, h)

    first : (a b : Bool) → a ≡ true → (a || b) ≡ true
    first a b h = ground (arith, h)

append_each-again :
    (order : Order) (customer : Option ℕ) (items : List OrderItem) (shop : Shop)
    → AreOf order items
    → All (HasEntry shop) items
    → append_each order customer items shop ≡ ok (tt, shop)
unfolding append_each
append_each-again order customer [] shop own there = refl
append_each-again order customer (oi ∷ items) shop own there =
    let (e, found) = found_of_any (is_entry_of oi.id) shop.ledger there.0 in
    let rest = append_each-again order customer items shop own.1 there.1 in
    rw (entry-there order oi customer e shop own.0 found) rest

-- The state after an append: nothing is left to append.
pub record IsRecorded (order : Order) (shop : Shop) : Type 0 where
  pub entries : All (HasEntry shop) (items_of order.id shop)
  pub again : append_ledger_lines_for_order order shop ≡ ok (tt, shop)

lines_of : (order : Order) (shop : Shop) → AreOf order (items_of order.id shop)
unfolding items_of
lines_of order shop = filter-test (is_item_of order.id) shop.items

same_lines :
    (order : Order) (shop shop' : Shop)
    → shop.items ≡ shop'.items
    → items_of order.id shop ≡ items_of order.id shop'
unfolding items_of
same_lines order shop shop' e = ap (filter (is_item_of order.id)) e

-- Appending the lines of an order to the ledger always succeeds, each of its lines has an entry afterwards,
-- and appending them again writes nothing.
pub append-IsRecorded :
    (order : Order) (shop : Shop)
    → Delivers (λ _ shop'. IsRecorded order shop') (append_ledger_lines_for_order order shop)
unfolding append_ledger_lines_for_order
append-IsRecorded order shop =
    Delivers-weaken (λ _ shop'. Appended (items_of order.id shop) shop shop')
      (λ _ shop'. IsRecorded order shop')
      (append_each order order.customer_id (items_of order.id shop) shop)
      (append_each-Appended order order.customer_id (items_of order.id shop) shop
        (lines_of order shop))
      (λ _ shop' done.
        let same : items_of order.id shop ≡ items_of order.id shop' =
          same_lines order shop shop' (sym done.same_items) in
        let entries = subst (All (HasEntry shop')) same done.entries in
        record {
          entries = entries;
          again =
              append_each-again order order.customer_id (items_of order.id shop') shop'
                (lines_of order shop') entries;
        })
