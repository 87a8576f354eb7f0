-- ===== src/Catalog/Categories/Tests.antt =====
-- A tree of four categories: 1 above 2, and 2 above 3 and 4.
use api_paperbase.Base.{ℕ, ◌≡◌, refl, true, Option, none, some, List, [], ◌∷◌, arith, All}
use mathlib.Core.Path.{subst}
use api_paperbase.Base.Results.{ok}
use api_paperbase.Base.Queries.{find?}
use api_paperbase.Catalog.Categories.{
  Category, is_in, is_category, parent_of, depth_from_root, validate_category_parent,
  clean_category, descendant_category_pks_including_self,
}
use api_paperbase.Catalog.Categories.Tree.{IsPlaced, clean-IsPlaced, cycle-accepted}
use api_paperbase.Catalog.Categories.Descendants.{descendants_complete}

abbrev category : ℕ → Option ℕ → Category
category k parent = record { id = k; store_id = 7; parent_id = parent }

abbrev tree : List Category
tree = category 1 none ∷ category 2 (some 1) ∷ category 3 (some 2) ∷ category 4 (some 2) ∷ []

depth_example : depth_from_root tree (category 4 (some 2)) ≡ ok 3
unfolding depth_from_root
depth_example = refl

cycle-accepted_example :
    validate_category_parent tree (some 1) 7 (some (category 2 (some 1))) ≡ ok tt
cycle-accepted_example =
    cycle-accepted tree (category 1 none) (category 2 (some 1)) refl refl refl refl refl refl

descendants_complete_example : is_in 4 (descendant_category_pks_including_self tree 7 1) ≡ true
descendants_complete_example = descendants_complete tree 7 1 2 (category 4 (some 2)) (omega arith) (
  2,
  category 2 (some 1),
  refl,
  refl,
  refl,
  refl,
  (1, category 1 none, refl, refl, refl, refl, refl),
)

abbrev one_root : List Category
one_root = category 1 none ∷ []

one_root-IsPlaced : All (IsPlaced one_root) one_root
unfolding parent_of
one_root-IsPlaced = ((0, refl, omega arith, λ parent h. cc h), tt)

parent_found :
    (k : ℕ)
    → (some 1 ≡ some k)
    → (parent : Category) × (find? (is_category k) one_root ≡ some parent)
parent_found k e =
    let same : 1 ≡ k = cc e in
    (
      category 1 none,
      subst (λ (j : ℕ). find? (is_category j) one_root ≡ some (category 1 none)) same refl,
    )

clean-IsPlaced_example :
    All (IsPlaced (category 2 (some 1) ∷ one_root)) (category 2 (some 1) ∷ one_root)
unfolding clean_category
clean-IsPlaced_example =
    clean-IsPlaced one_root (category 2 (some 1)) one_root-IsPlaced refl parent_found refl
