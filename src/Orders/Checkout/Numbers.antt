-- ===== src/Orders/Checkout/Numbers.antt =====
-- The numbers of a store's orders (`get_next_order_number` of engine/apps/orders/utils.py).
pub mod Read
use api_paperbase.Base.{
  ℕ, zero, suc, ◌+◌, ◌-◌, max, Bool, Option, none, some, List, [], ◌∷◌, ◌++◌, length, ◌==◌,
}
use api_paperbase.Base.Decimal.{digits_of, to_text}
use api_paperbase.Base.Text.{Text}
use api_paperbase.Base.Queries.{find?, update_where}
use api_paperbase.Base.Tx.{Tx, pure, gets, modify, ◌>>=◌, ◌>>◌}
use api_paperbase.Orders.{OrderNumberCounter, Shop, OrderError}

abbrev pub is_counter_of : ℕ → OrderNumberCounter → Bool
is_counter_of store_id c = c.store_id == store_id

-- `get_or_create`, with the insert.
unfoldable pub with_counter : ℕ → List OrderNumberCounter → List OrderNumberCounter
with_counter store_id counters = elim (find? (is_counter_of store_id) counters) [
  | none ↦ record { store_id = store_id; next_value = 1 } ∷ counters
  | some c ↦ counters
]

-- `counter.next_value`, which is 1 for a new row.
unfoldable pub next_of : Option OrderNumberCounter → ℕ
next_of none = 1
next_of (some c) = c.next_value

unfoldable pub counter_value : ℕ → List OrderNumberCounter → ℕ
unfolding next_of
counter_value store_id counters = next_of (find? (is_counter_of store_id) counters)

unfoldable pub bump : OrderNumberCounter → OrderNumberCounter
bump c = record c { next_value = c.next_value + 1 }

unfoldable pub zeros : ℕ → Text
zeros zero = []
zeros (suc n) = 48 ∷ zeros n

-- `str.zfill` of a text without a sign.
unfoldable pub zfill : ℕ → Text → Text
unfolding zeros
zfill width s = zeros (width - length s) ++ s

unfoldable pub order_number_of : ℕ → Text
unfolding zfill digits_of to_text
order_number_of value =
    zfill (max 8 (length (to_text (digits_of value)))) (to_text (digits_of value))

unfoldable pub get_next_order_number : ℕ → Tx Shop OrderError Text
unfolding with_counter counter_value bump order_number_of
get_next_order_number store_id = do
  value ← gets (λ shop. counter_value store_id shop.counters)
  modify (λ shop. record shop {
    counters = update_where (is_counter_of store_id) bump (with_counter store_id shop.counters);
  })
  pure (order_number_of value)
