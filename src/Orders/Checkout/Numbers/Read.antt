-- ===== src/Orders/Checkout/Numbers/Read.antt =====
-- The number that an order number stands for.
use api_paperbase.Base.{
  ℕ, zero, suc, ◌+◌, ◌-◌, ◌*◌, ◌≤◌, ◌≡◌, refl, ap, ◌∙◌, max, List, [], ◌∷◌, ◌++◌, length, arith,
  length-append, All, All-append,
}
use api_paperbase.Base.Text.{Text}
use api_paperbase.Base.Decimal.{digits_of, to_text, value_of, value-digits, digits-bound}
use api_paperbase.Orders.Checkout.Numbers.{zeros, zfill, order_number_of}

unfoldable pub read_number : ℕ → Text → ℕ
read_number n [] = n
read_number n (c ∷ s) = read_number (10 * n + (c - 48)) s

read-last : (n d : ℕ) (s : Text) → read_number n (s ++ (48 + d) ∷ []) ≡ 10 * read_number n s + d
unfolding read_number
read-last n d [] = omega arith
read-last n d (c ∷ s) = read-last (10 * n + (c - 48)) d s

read-to_text : (ds : List ℕ) → read_number 0 (to_text ds) ≡ value_of ds
unfolding to_text read_number value_of
read-to_text [] = refl
read-to_text (d ∷ ds) =
    let rest = read-to_text ds in read-last 0 d (to_text ds) ∙ omega (arith, rest)

read-zeros : (n : ℕ) (s : Text) → read_number 0 (zeros n ++ s) ≡ read_number 0 s
unfolding zeros read_number
read-zeros zero s = refl
read-zeros (suc n) s = read-zeros n s

length-zeros : (n : ℕ) → length (zeros n) ≡ n
unfolding zeros
length-zeros zero = refl
length-zeros (suc n) = ap suc (length-zeros n)

-- The characters 0 to 9.
abbrev pub IsDigit : ℕ → Type 0
IsDigit c = (48 ≤ c) × (c ≤ 57)

IsDigit-zeros : (n : ℕ) → All IsDigit (zeros n)
unfolding zeros
IsDigit-zeros zero = tt
IsDigit-zeros (suc n) = ((omega arith, omega arith), IsDigit-zeros n)

IsDigit-to_text : (ds : List ℕ) → All (λ d. d ≤ 9) ds → All IsDigit (to_text ds)
unfolding to_text
IsDigit-to_text [] h = tt
IsDigit-to_text (d ∷ ds) h =
    All-append IsDigit (to_text ds) ((48 + d) ∷ []) (IsDigit-to_text ds h.1)
      ((omega arith, omega (arith, h.0)), tt)

-- The order number of a value reads back as the value and consists of the digits 0 to 9: the digits
-- of the value, after as many zeros as make eight characters where there are fewer.
pub read-order_number :
    (value : ℕ)
    → (read_number 0 (order_number_of value) ≡ value)
      × All IsDigit (order_number_of value)
      × (length (order_number_of value) ≡ max 8 (length (to_text (digits_of value))))
unfolding order_number_of zfill
read-order_number value =
    let text = to_text (digits_of value) in
    let width = max 8 (length text) in
    let pad = zeros (width - length text) in
    (
      read-zeros (width - length text) text ∙ read-to_text (digits_of value) ∙ value-digits value,
      All-append IsDigit pad text (IsDigit-zeros (width - length text))
          (IsDigit-to_text (digits_of value) (digits-bound value)),
      filled (length text) (length pad) _ (length-zeros (width - length text))
          (length-append pad text),
    )
  where
    filled : (n k m : ℕ) → k ≡ max 8 n - n → m ≡ k + n → m ≡ max 8 n
    filled n k m e total = omega (arith, e, total)
