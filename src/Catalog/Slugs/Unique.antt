-- ===== src/Catalog/Slugs/Unique.antt =====
-- The loop for a slug ends, with a slug that is free.
use api_paperbase.Base.{
  ℕ, zero, suc, ◌+◌, ◌-◌, ◌*◌, ◌≤◌, ◌≡◌, refl, ap, ◌∙◌, Bool, true, false, ◌&&◌, ◌||◌, Option, none,
  some, List, [], ◌∷◌, ◌++◌, length, leb, ◌==◌, if◌then◌else◌, arith, Bool-cases, inl, inr, ==→eq,
}
use mathlib.Core.Path.{subst}
use api_paperbase.Base.Count.{count}
use api_paperbase.Base.Text.{Text, text_eq}
use api_paperbase.Base.Decimal.{digits_of, to_text, value_of, value-digits}
use api_paperbase.Catalog.Slugs.{
  dash, suffix_of, suffixed, is_taken, unique_slug, base_slug, category_slug,
}

-- The number behind the last dash of a text.
read : ℕ → Text → ℕ
read n [] = n
read n (c ∷ s) = if c == dash then read 0 s else read (10 * n + (c - 48)) s

read-dash : (n : ℕ) (s t : Text) → read n (s ++ dash ∷ t) ≡ read 0 t
unfolding read
read-dash n [] t = refl
read-dash n (c ∷ s) t = elim (Bool-cases (c == dash)) [
  | inl e ↦ rw e (read-dash 0 s t)
  | inr e ↦ rw e (read-dash (10 * n + (c - 48)) s t)
]

read-last : (n d : ℕ) (s : Text) → read n (s ++ (48 + d) ∷ []) ≡ 10 * read n s + d
unfolding read
read-last n d [] = elim (Bool-cases ((48 + d) == dash)) [
  | inl e ↦ absurd (ground (arith, e))
  | inr e ↦ rw e (omega arith)
]
read-last n d (c ∷ s) = elim (Bool-cases (c == dash)) [
  | inl e ↦ rw e (read-last 0 d s)
  | inr e ↦ rw e (read-last (10 * n + (c - 48)) d s)
]

read-to_text : (ds : List ℕ) → read 0 (to_text ds) ≡ value_of ds
unfolding to_text read value_of
read-to_text [] = refl
read-to_text (d ∷ ds) =
    let rest = read-to_text ds in read-last 0 d (to_text ds) ∙ omega (arith, rest)

read-suffixed : (original : Text) (counter : ℕ) → read 0 (suffixed original counter) ≡ counter
unfolding suffixed suffix_of
read-suffixed original counter =
    read-dash 0 _ (to_text (digits_of counter))
    ∙ read-to_text (digits_of counter)
    ∙ value-digits counter

text_eq→eq : (s t : Text) → text_eq s t ≡ true → s ≡ t
unfolding text_eq
text_eq→eq [] [] h = refl
text_eq→eq [] (d ∷ t) h = cc h
text_eq→eq (c ∷ s) [] h = cc h
text_eq→eq (c ∷ s) (d ∷ t) h =
    let (first, rest) = both (c == d) (text_eq s t) h in
    let same : c ≡ d = ==→eq c d first in cc (same, text_eq→eq s t rest)
  where
    both : (a b : Bool) → (a && b) ≡ true → (a ≡ true) × (b ≡ true)
    both a b h = ground arith

-- How many of the taken slugs have a number from the counter on.
left : ℕ → List Text → ℕ
left counter taken = count (λ t. leb counter (read 0 t)) taken

left-next : (counter : ℕ) (taken : List Text) → left (counter + 1) taken ≤ left counter taken
unfolding left
left-next counter [] = omega arith
left-next counter (t ∷ ts) = let rest = left-next counter ts in one_more (read 0 t) counter _ _ rest
  where
    one_more :
        (n c a b : ℕ)
        → a ≤ b
        → (if leb (c + 1) n then 1 else 0) + a ≤ (if leb c n then 1 else 0) + b
    one_more n c a b h = ground (arith, h)

or_false : (a b : Bool) → (a || b) ≡ true → a ≡ false → b ≡ true
or_false a b h e = ground (arith, h, e)

-- A slug with the counter that is taken leaves one less.
left-taken :
    (counter : ℕ) (slug : Text) (taken : List Text)
    → read 0 slug ≡ counter
    → is_taken taken slug ≡ true
    → left (counter + 1) taken + 1 ≤ left counter taken
unfolding left is_taken
left-taken counter slug [] number h = cc h
left-taken counter slug (t ∷ ts) number h = elim (Bool-cases (text_eq t slug)) [
  | inl e ↦
      let same : read 0 t ≡ counter = ap (read 0) (text_eq→eq t slug e) ∙ number in
      let rest = left-next counter ts in here (read 0 t) counter _ _ same rest
  | inr e ↦
      let later : is_taken ts slug ≡ true = or_false (text_eq t slug) _ h e in
      let rest = left-taken counter slug ts number later in there (read 0 t) counter _ _ rest
]
  where
    here :
        (n c a b : ℕ)
        → n ≡ c
        → a ≤ b
        → (if leb (c + 1) n then 1 else 0) + a + 1 ≤ (if leb c n then 1 else 0) + b
    here n c a b same h = ground (arith, same, h)

    there :
        (n c a b : ℕ)
        → a + 1 ≤ b
        → (if leb (c + 1) n then 1 else 0) + a + 1 ≤ (if leb c n then 1 else 0) + b
    there n c a b h = ground (arith, h)

left-length : (counter : ℕ) (taken : List Text) → left counter taken ≤ length taken
unfolding left
left-length counter [] = omega arith
left-length counter (t ∷ ts) =
    let rest = left-length counter ts in at_most (leb counter (read 0 t)) _ _ rest
  where
    at_most : (b : Bool) (m n : ℕ) → m ≤ n → (if b then 1 else 0) + m ≤ suc n
    at_most b m n h = ground (arith, h)

-- The loop ends with a slug, and it is free.
abbrev pub EndsFree : List Text → Option Text → Type 0
EndsFree taken none = ⊥
EndsFree taken (some slug) = is_taken taken slug ≡ false

loop-EndsFree :
    (rounds counter : ℕ) (taken : List Text) (original slug : Text)
    → read 0 slug ≡ counter
    → left counter taken + 1 ≤ rounds
    → EndsFree taken (unique_slug rounds taken original slug (counter + 1))
unfolding unique_slug
loop-EndsFree zero counter taken original slug number le = absurd (omega (arith, le))
loop-EndsFree (suc rounds) counter taken original slug number le =
    elim (Bool-cases (is_taken taken slug)) [
      | inl e ↦
          let fewer = left-taken counter slug taken number e in
          let next =
            loop-EndsFree rounds (counter + 1) taken original (suffixed original (counter + 1))
              (read-suffixed original (counter + 1)) (omega (arith, fewer, le)) in
          rw e next
      | inr e ↦ rw e e
    ]

start-EndsFree :
    (rounds : ℕ) (taken : List Text) (original : Text)
    → length taken + 1 ≤ rounds
    → EndsFree taken (unique_slug (suc rounds) taken original original 2)
unfolding unique_slug
start-EndsFree rounds taken original le = elim (Bool-cases (is_taken taken original)) [
  | inl e ↦
      let few = left-length 2 taken in
      let next =
        loop-EndsFree rounds 2 taken original (suffixed original 2) (read-suffixed original 2)
          (omega (arith, few, le)) in
      rw e next
  | inr e ↦ rw e e
]

-- The loop for a category's slug ends within two rounds more than there are other slugs in the store, with
-- a slug that is none of them.
pub category_slug-EndsFree :
    (slugify : Text → Text) (pk : Option ℕ) (name : Text) (taken : List Text)
    → EndsFree taken (category_slug slugify pk name taken)
unfolding category_slug
category_slug-EndsFree slugify pk name taken =
    let rounds : suc (length taken + 1) ≡ length taken + 2 = omega arith in
    subst
      (λ (n : ℕ).
        EndsFree taken
          (unique_slug n taken (base_slug slugify pk name) (base_slug slugify pk name) 2))
      rounds (start-EndsFree (length taken + 1) taken (base_slug slugify pk name) (omega arith))
