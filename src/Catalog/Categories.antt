-- ===== src/Catalog/Categories.antt =====
-- The category tree of a store (engine/apps/products/category_tree.py, `Category` of models.py). A table
-- is the list of its rows; a parent is looked up in it by key, as the foreign key does.
pub mod Depth
pub mod Tree
pub mod Descendants
mod Tests
use api_paperbase.Base.{
  ℕ, zero, suc, ◌+◌, Bool, true, false, not, ◌&&◌, Option, none, some, List, [], ◌∷◌, ◌++◌, map,
  any, ltb, ◌==◌, if◌then◌else◌,
}
use api_paperbase.Base.Queries.{filter, find?}
use api_paperbase.Base.Results.{Result, ok, err, raise_if, ◌>>=◌, ◌>>◌}

-- The columns that the tree reads.
pub record Category : Type 0 where
  pub id : ℕ
  pub store_id : ℕ
  pub parent_id : Option ℕ

pub data CategoryError : Type 0 where
  hierarchy_has_cycle other_store own_parent would_create_cycle too_deep : CategoryError

abbrev pub max_category_depth : ℕ
max_category_depth = 5

-- The bound on `hops`.
abbrev pub max_hops : ℕ
max_hops = 32

abbrev pub is_category : ℕ → Category → Bool
is_category k c = c.id == k

-- `k in seen`
abbrev pub is_in : ℕ → List ℕ → Bool
is_in k seen = any seen (λ j. j == k)

-- The loop of `depth_from_root`, by the hops that are left.
unfoldable pub depth_loop : ℕ → List Category → List ℕ → ℕ → Category → Result CategoryError ℕ
depth_loop zero categories seen depth current = ok depth
depth_loop (suc hops) categories seen depth current = elim current.parent_id [
  | none ↦ ok depth
  | some parent_id ↦ elim (is_in current.id seen) [
    | true ↦ err hierarchy_has_cycle
    | false ↦ elim (find? (is_category parent_id) categories) [
      | none ↦ ok depth
      | some parent ↦ depth_loop hops categories (current.id ∷ seen) (depth + 1) parent
    ]
  ]
]

unfoldable pub depth_from_root : List Category → Category → Result CategoryError ℕ
unfolding depth_loop
depth_from_root categories category = depth_loop max_hops categories [] 1 category

-- The loop of `validate_category_parent` that looks for a cycle, by the hops that are left.
unfoldable pub walk_loop :
    ℕ → List Category → ℕ → List ℕ → Category → Result CategoryError (Unit {0})
walk_loop zero categories instance_pk seen walk = ok tt
walk_loop (suc hops) categories instance_pk seen walk = elim walk.parent_id [
  | none ↦ ok tt
  | some parent_id ↦ elim (walk.id == instance_pk) [
    | true ↦ err would_create_cycle
    | false ↦ elim (is_in walk.id seen) [
      | true ↦ err hierarchy_has_cycle
      | false ↦ elim (find? (is_category parent_id) categories) [
        | none ↦ ok tt
        | some parent ↦ walk_loop hops categories instance_pk (walk.id ∷ seen) parent
      ]
    ]
  ]
]

-- The tests on the category that is edited; a new one has no key yet.
unfoldable pub check_instance :
    List Category → Option ℕ → Category → Result CategoryError (Unit {0})
unfolding walk_loop
check_instance categories none parent = ok tt
check_instance categories (some instance_pk) parent =
    raise_if (parent.id == instance_pk) own_parent
    >> walk_loop max_hops categories instance_pk [] parent

unfoldable pub validate_category_parent :
    List Category → Option ℕ → ℕ → Option Category → Result CategoryError (Unit {0})
unfolding check_instance depth_from_root
validate_category_parent categories instance_pk store_id none = ok tt
validate_category_parent categories instance_pk store_id (some parent) =
    raise_if (not (parent.store_id == store_id)) other_store
    >> check_instance categories instance_pk parent
    >> (depth_from_root categories parent >>= λ depth.
        raise_if (ltb max_category_depth (depth + 1)) too_deep)

-- The parent of a category, by its foreign key.
unfoldable pub parent_of : List Category → Category → Option Category
parent_of categories c = elim c.parent_id [
  | none ↦ none
  | some k ↦ find? (is_category k) categories
]

-- `Category.clean` of a category with a store.
unfoldable pub clean_category :
    List Category → Option ℕ → Category → Result CategoryError (Unit {0})
unfolding parent_of validate_category_parent
clean_category categories instance_pk c =
    validate_category_parent categories instance_pk c.store_id (parent_of categories c)

-- `filter(store_id=…, parent_id__in=frontier).values_list("pk")`, in the order of the table.
unfoldable pub is_child : ℕ → List ℕ → Category → Bool
is_child store_id frontier c =
    c.store_id == store_id && elim c.parent_id [ none ↦ false | some k ↦ is_in k frontier ]

unfoldable pub children_of : List Category → ℕ → List ℕ → List ℕ
unfolding is_child
children_of categories store_id frontier =
    map (λ (c : Category). c.id) (filter (is_child store_id frontier) categories)

-- The loop over the levels, by those that are left.
unfoldable pub descend : ℕ → List Category → ℕ → List ℕ → List ℕ → List ℕ
unfolding children_of
descend zero categories store_id ids frontier = ids
descend (suc levels) categories store_id ids frontier =
    elim (children_of categories store_id frontier) [
      | [] ↦ ids
      | k ∷ ks ↦ descend levels categories store_id (ids ++ k ∷ ks) (k ∷ ks)
    ]

-- `descendant_category_pks_including_self`, and `excluded_parent_pks_for_category` of a saved category.
unfoldable pub descendant_category_pks_including_self : List Category → ℕ → ℕ → List ℕ
unfolding descend
descendant_category_pks_including_self categories store_id root_pk =
    descend max_category_depth categories store_id (root_pk ∷ []) (root_pk ∷ [])
