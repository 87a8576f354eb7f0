-- ===== src/Orders/Checkout/Numbered.antt =====
-- The numbers of the orders of a store after a checkout.
pub mod Run
use api_paperbase.Base.{
  ℕ, ◌+◌, ◌≤◌, ◌≡◌, refl, ap, sym, ◌∙◌, Bool, true, false, not, Option, none, some, List, [], ◌∷◌,
  ◌++◌, map, any, All, ◌==◌, inl, inr, Bool-cases, Option-cases, arith, if_both, ==_refl, ==→eq,
  if◌then◌else◌,
}
use mathlib.Core.Path.{subst}
use mathlib.Core.Option
use api_paperbase.Base.Int.{pos}
use api_paperbase.Base.Text.{Text}
use api_paperbase.Base.Results.{Result, ok}
use api_paperbase.Base.Queries.{
  find?, update_where, map-update_where, find?-update_where, find?-test,
}
use api_paperbase.Base.Order.{All-map}
use api_paperbase.Orders.{Order, OrderNumberCounter, Shop, OrderError}
use api_paperbase.Orders.Checkout.Numbers.{
  is_counter_of, next_of, with_counter, counter_value, bump, order_number_of, get_next_order_number,
}
use api_paperbase.Orders.Checkout.Numbers.Read.{read_number, read-order_number}

module _ (store_id : ℕ) where
  abbrev next_counters : List OrderNumberCounter → List OrderNumberCounter
  next_counters counters =
      update_where (is_counter_of store_id) bump (with_counter store_id counters)

  abbrev bumped : OrderNumberCounter → OrderNumberCounter
  bumped c = if is_counter_of store_id c then bump c else c

  bumped-grows : (o : Option OrderNumberCounter) → next_of o ≤ next_of (Option.map bumped o)
  unfolding next_of bump
  bumped-grows none = omega arith
  bumped-grows (some c) = elim (Bool-cases (c.store_id == store_id)) [
    | inl e ↦ rw e (omega arith)
    | inr e ↦ rw e (omega arith)
  ]

  find?-bumped :
      (j : ℕ) (cs : List OrderNumberCounter)
      → find? (is_counter_of j) (update_where (is_counter_of store_id) bump cs)
        ≡ Option.map bumped (find? (is_counter_of j) cs)
  unfolding bump
  find?-bumped j cs =
      find?-update_where (is_counter_of store_id) bump (is_counter_of j) cs (λ c. refl)

  with_of :
      (j : ℕ) (cs : List OrderNumberCounter) (o : Option OrderNumberCounter)
      → find? (is_counter_of store_id) cs ≡ o
      → next_of (
          find?
            (is_counter_of j)
            (elim o [ none ↦ record { store_id = store_id; next_value = 1 } ∷ cs | some c ↦ cs ]))
        ≡ next_of (find? (is_counter_of j) cs)
  unfolding next_of
  with_of j cs (some c) h = refl
  with_of j cs none h = elim (Bool-cases (store_id == j)) [
    | inr e ↦ rw e refl
    | inl e ↦
        let same = ==→eq store_id j e in
        let absent : find? (is_counter_of j) cs ≡ none =
          subst (λ (k : ℕ). find? (is_counter_of k) cs ≡ none) same h in
        rw (e, absent) refl
  ]

  value-grows :
      (j : ℕ) (cs : List OrderNumberCounter)
      → counter_value j cs ≤ counter_value j (next_counters cs)
  unfolding counter_value with_counter
  value-grows j cs =
      let with = with_of j cs (find? (is_counter_of store_id) cs) refl in
      let grown = bumped-grows (find? (is_counter_of j) (with_counter store_id cs)) in
      let now = ap next_of (find?-bumped j (with_counter store_id cs)) in
      subst (λ m. m ≤ counter_value j (next_counters cs)) with
        (subst (λ m. next_of (find? (is_counter_of j) (with_counter store_id cs)) ≤ m) (sym now)
          grown)

  present :
      (cs : List OrderNumberCounter) (o : Option OrderNumberCounter)
      → find? (is_counter_of store_id) cs ≡ o
      → (c : OrderNumberCounter) × (find?
            (is_counter_of store_id)
            (elim o [ none ↦ record { store_id = store_id; next_value = 1 } ∷ cs | some c ↦ cs ])
          ≡ some c)
  present cs (some c) h = (c, h)
  present cs none h = (record { store_id = store_id; next_value = 1 }, rw (==_refl store_id) refl)

  bumped_found :
      (o : Option OrderNumberCounter) (c : OrderNumberCounter)
      → o ≡ some c
      → is_counter_of store_id c ≡ true
      → next_of (Option.map bumped o) ≡ next_of o + 1
  unfolding next_of bump
  bumped_found (some d) c h mine =
      let same : d ≡ c = cc h in
      subst (λ (x : OrderNumberCounter). next_of (some (bumped x)) ≡ next_of (some x) + 1)
        (sym same) (rw mine refl)
  bumped_found none c h mine = cc h

  value-bumped :
      (cs : List OrderNumberCounter)
      → counter_value store_id (next_counters cs) ≡ counter_value store_id cs + 1
  unfolding counter_value with_counter
  value-bumped cs =
      let rows = with_counter store_id cs in
      let (c, found) = present cs (find? (is_counter_of store_id) cs) refl in
      ap next_of (find?-bumped store_id rows)
      ∙ bumped_found (find? (is_counter_of store_id) rows) c found
          (find?-test (is_counter_of store_id) c rows found)
      ∙ ap (λ n. n + 1) (with_of store_id cs (find? (is_counter_of store_id) cs) refl)

-- The store and the number of an order.
abbrev pub number_of : Order → ℕ × Text
number_of o = (o.store_id, o.order_number)

abbrev AreDistinct : List (ℕ × Text) → Type 0
AreDistinct [] = Unit
AreDistinct (n ∷ ns) = All (λ m. m ≡ n → ⊥) ns × AreDistinct ns

-- No two orders of a store share a number, and each number is below the next one of its store.
pub record IsNumbered (shop : Shop) : Type 0 where
  pub below :
      All
        (λ (n : ℕ × Text). read_number 0 n.1 + 1 ≤ counter_value n.0 shop.counters)
        (map number_of shop.orders)
  pub distinct : AreDistinct (map number_of shop.orders)

-- An update of orders that keeps their stores and numbers.
pub IsNumbered-update_where :
    (test : Order → Bool) (f : Order → Order) (shop : Shop)
    → ((o : Order) → number_of (f o) ≡ number_of o)
    → IsNumbered shop
    → IsNumbered (record shop { orders = update_where test f shop.orders })
IsNumbered-update_where test f shop kept h =
    let same = sym (map-update_where test f number_of shop.orders kept) in
    record {
      below =
          subst (All (λ (n : ℕ × Text). read_number 0 n.1 + 1 ≤ counter_value n.0 shop.counters))
            same h.below;
      distinct = subst AreDistinct same h.distinct;
    }

-- The next number of a store is none of its orders', and below the counter afterwards.
pub record IsNext (store_id : ℕ) (number : Text) (shop : Shop) : Type 0 where
  pub numbered : IsNumbered shop
  pub fresh : All (λ m. m ≡ (store_id, number) → ⊥) (map number_of shop.orders)
  pub counted : read_number 0 number + 1 ≤ counter_value store_id shop.counters

pub order_number_of-IsNext :
    (store_id : ℕ) (shop : Shop)
    → IsNumbered shop
    → IsNext store_id
        (order_number_of (counter_value store_id shop.counters))
        (record shop { counters = next_counters store_id shop.counters })
order_number_of-IsNext store_id shop h =
    let value = counter_value store_id shop.counters in
    let grows = value-grows store_id in
    let read = read-order_number value in
    let next = value-bumped store_id shop.counters in
    record {
      numbered = record {
        below =
            All-map _ _ (map number_of shop.orders)
              (λ n le. let more = grows n.0 shop.counters in omega (arith, le, more)) h.below;
        distinct = h.distinct;
      };
      fresh =
          All-map _ _ (map number_of shop.orders)
            (λ n le same.
              let mine : read_number 0 (order_number_of value) + 1
                  ≤ counter_value store_id shop.counters =
                subst (λ (m : ℕ × Text). read_number 0 m.1 + 1 ≤ counter_value m.0 shop.counters)
                  same le in
              let number = read.0 in absurd (omega (arith, mine, number)))
            h.below;
      counted = (let number = read.0 in omega (arith, number, next));
    }
