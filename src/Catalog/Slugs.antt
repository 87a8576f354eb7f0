-- ===== src/Catalog/Slugs.antt =====
-- The slug of a category (`Category.save` of engine/apps/products/models.py). `slugify` is Django's, a
-- parameter; the slugs of the other categories of the store are a list.
pub mod Unique
mod Tests
use api_paperbase.Base.{
  ℕ, zero, suc, ◌+◌, ◌-◌, max, Bool, true, false, ◌&&◌, Option, none, some, List, [], ◌∷◌, ◌++◌,
  any, length, ◌==◌, if◌then◌else◌,
}
use api_paperbase.Base.Decimal.{digits_of, to_text}
use api_paperbase.Base.Text.{Text, codes, strip, is_empty, take, text_eq}

abbrev pub dash : ℕ
dash = 45

-- `f"-{counter}"`
unfoldable pub suffix_of : ℕ → Text
unfolding digits_of to_text
suffix_of counter = dash ∷ to_text (digits_of counter)

-- `s.rstrip("-")`
unfoldable pub rstrip_dash : Text → Text
rstrip_dash [] = []
rstrip_dash (c ∷ s) =
    let rest = rstrip_dash s in if is_empty rest && c == dash then [] else c ∷ rest

-- `s or t`
abbrev pub or_else : Text → Text → Text
or_else [] t = t
or_else (c ∷ s) t = c ∷ s

unfoldable pub suffixed : Text → ℕ → Text
unfolding suffix_of rstrip_dash take
suffixed original counter =
    or_else (rstrip_dash (take (max 1 (100 - length (suffix_of counter))) original)) (codes "c")
    ++ suffix_of counter

-- `queryset.filter(slug=…).exists()`
unfoldable pub is_taken : List Text → Text → Bool
unfolding text_eq
is_taken taken slug = any taken (λ t. text_eq t slug)

-- The loop, by the rounds that are left; `none` where these run out.
unfoldable pub unique_slug : ℕ → List Text → Text → Text → ℕ → Option Text
unfolding suffixed is_taken
unique_slug zero taken original slug counter = none
unique_slug (suc rounds) taken original slug counter =
    let rest = unique_slug rounds taken original (suffixed original counter) (counter + 1) in
    if is_taken taken slug then rest else some slug

-- The slug before the loop.
unfoldable pub base_slug : (Text → Text) → Option ℕ → Text → Text
unfolding strip take digits_of to_text
base_slug slugify pk name = take 100 (
    or_else (take 100 (slugify (strip name)))
      (elim pk [ none ↦ codes "category" | some k ↦ codes "category-" ++ to_text (digits_of k) ]))

-- The slug that a category is saved with. There are two rounds more than other slugs: one for the slug
-- without a number, and one for a number that none of the others has.
unfoldable pub category_slug : (Text → Text) → Option ℕ → Text → List Text → Option Text
unfolding base_slug unique_slug
category_slug slugify pk name taken =
    unique_slug (length taken + 2) taken (base_slug slugify pk name) (base_slug slugify pk name) 2
