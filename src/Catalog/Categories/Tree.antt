-- ===== src/Catalog/Categories/Tree.antt =====
-- New categories, and a category that is moved.
use api_paperbase.Base.{
  ℕ, zero, suc, ◌+◌, ◌≤◌, ◌<◌, ◌≡◌, refl, sym, ap, ◌∙◌, ◌⊎◌, Bool, true, false, Option, none, some,
  List, [], ◌∷◌, ltb, ◌==◌, arith, Bool-cases, Option-cases, inl, inr, All, ==→eq, ==_refl,
}
use mathlib.Core.Path.{subst}
use api_paperbase.Base.Queries.{find?, All-find?}
use api_paperbase.Base.Results.{Result, ok, err}
use api_paperbase.Base.Order.{All-map}
use api_paperbase.Catalog.Categories.{
  would_create_cycle, Category, CategoryError, max_category_depth, max_hops, is_category,
  depth_from_root, walk_loop, check_instance, validate_category_parent, parent_of, clean_category,
}
use api_paperbase.Catalog.Categories.Depth.{IsBelow, found_here, depth_from_root-below}

-- A category within the limit of five levels, in the store of its parent.
abbrev pub IsPlaced : List Category → Category → Type 0
IsPlaced categories c =
    (n : ℕ) × IsBelow categories n c
    × (n < max_category_depth)
    × ((parent : Category) → parent_of categories c ≡ some parent → parent.store_id ≡ c.store_id)

above_none :
    (categories : List Category) (c : Category) → c.parent_id ≡ none → parent_of categories c ≡ none
unfolding parent_of
above_none categories c e = of_key c.parent_id e
  where
    of_key :
        (o : Option ℕ)
        → o ≡ none
        → elim o as (λ _. Option Category) [
          | none ↦ none
          | some k ↦ find? (is_category k) categories
        ]
          ≡ none
    of_key none e = refl
    of_key (some k) e = cc e

above_some :
    (categories : List Category) (c : Category) (k : ℕ) (parent : Category)
    → c.parent_id ≡ some k
    → find? (is_category k) categories ≡ some parent
    → parent_of categories c ≡ some parent
unfolding parent_of
above_some categories c k parent e found = of_key c.parent_id e
  where
    of_key :
        (o : Option ℕ)
        → o ≡ some k
        → elim o as (λ _. Option Category) [
          | none ↦ none
          | some j ↦ find? (is_category j) categories
        ]
          ≡ some parent
    of_key none e = cc e
    of_key (some j) e =
        subst (λ (i : ℕ). find? (is_category i) categories ≡ some parent) (cc e) found

found-new :
    (categories : List Category) (c : Category) (k : ℕ) (parent : Category)
    → find? (is_category c.id) categories ≡ none
    → find? (is_category k) categories ≡ some parent
    → find? (is_category k) (c ∷ categories) ≡ some parent
found-new categories c k parent fresh found = elim (Bool-cases (c.id == k)) [
  | inl same ↦
      let clash : find? (is_category k) categories ≡ none =
        subst (λ (j : ℕ). find? (is_category j) categories ≡ none) (==→eq c.id k same) fresh in
      cc (clash, found)
  | inr other ↦ rw other found
]

-- A new row does not change the levels of the others.
IsBelow-new :
    (categories : List Category) (c : Category) (n : ℕ) (x : Category)
    → find? (is_category c.id) categories ≡ none
    → IsBelow categories n x
    → IsBelow (c ∷ categories) n x
IsBelow-new categories c zero x fresh below = below
IsBelow-new categories c (suc n) x fresh (k, parent, e, found, rest) = (
  k,
  parent,
  e,
  found-new categories c k parent fresh found,
  IsBelow-new categories c n parent fresh rest,
)

-- What the tests on a new category's parent leave.
validate-parts :
    (categories : List Category) (store_id d : ℕ) (parent : Category)
    → depth_from_root categories parent ≡ ok d
    → validate_category_parent categories none store_id (some parent) ≡ ok tt
    → (parent.store_id ≡ store_id) × (d + 1 ≤ max_category_depth)
unfolding validate_category_parent check_instance
validate-parts categories store_id d parent depth h =
    elim (Bool-cases (parent.store_id == store_id)) [
      | inl e ↦ elim (Bool-cases (ltb max_category_depth (d + 1))) [
        | inl deep ↦ cc (h, e, depth, deep)
        | inr fits ↦ (==→eq parent.store_id store_id e, ground (arith, fits))
      ]
      | inr e ↦ cc (h, e)
    ]

-- A row of the table keeps its place when a row with a new key comes.
kept-IsPlaced :
    (categories : List Category) (c x : Category)
    → find? (is_category c.id) categories ≡ none
    → IsPlaced categories x
    → IsPlaced (c ∷ categories) x
unfolding parent_of
kept-IsPlaced categories c x fresh (n, below, le, same_store) = (
  n,
  IsBelow-new categories c n x fresh below,
  le,
  λ parent h. of_parent n parent below same_store h,
)
  where
    of_parent :
        (n : ℕ) (parent : Category)
        → IsBelow categories n x
        → ((parent : Category)
            → parent_of categories x ≡ some parent
            → parent.store_id ≡ x.store_id)
        → parent_of (c ∷ categories) x ≡ some parent
        → parent.store_id ≡ x.store_id
    of_parent zero parent below same_store h = cc (above_none (c ∷ categories) x below, h)
    of_parent (suc n) parent (k, p, e, found, rest) same_store h =
        let here = above_some categories x k p e found in
        let there = above_some (c ∷ categories) x k p e (found-new categories c k p fresh found) in
        let same : p ≡ parent = cc (there, h) in
        subst (λ (y : Category). y.store_id ≡ x.store_id) same (same_store p here)

-- A new category that passes its tests leaves every category of the table within the limit, in the
-- store of its parent, and comes to such a place itself.
pub clean-IsPlaced :
    (categories : List Category) (c : Category)
    → All (IsPlaced categories) categories
    → find? (is_category c.id) categories ≡ none
    → ((k : ℕ)
        → c.parent_id ≡ some k
        → (parent : Category) × (find? (is_category k) categories ≡ some parent))
    → clean_category categories none c ≡ ok tt
    → All (IsPlaced (c ∷ categories)) (c ∷ categories)
unfolding clean_category
clean-IsPlaced categories c placed fresh refers h = (
  own (Option-cases c.parent_id),
  All-map _ _ categories (λ x p. kept-IsPlaced categories c x fresh p) placed,
)
  where
    own : (c.parent_id ≡ none) ⊎ ((k : ℕ) × (c.parent_id ≡ some k)) → IsPlaced (c ∷ categories) c
    own (inl e) = (0, e, omega arith, λ parent above. cc (above_none (c ∷ categories) c e, above))
    own (inr (k, e)) =
        let (parent, found) = refers k e in
        let (m, below, low, _) =
          All-find? (IsPlaced categories) (is_category k) parent categories placed found in
        let few : m ≤ max_hops = omega (arith, low) in
        let depth =
          depth_from_root-below categories m parent few below
            (found_here categories k parent found) in
        let run : validate_category_parent categories none c.store_id (some parent) ≡ ok tt =
          subst
            (λ (o : Option Category). validate_category_parent categories none c.store_id o ≡ ok tt)
            (above_some categories c k parent e found) h in
        let (same_store, fits) = validate-parts categories c.store_id (1 + m) parent depth run in
        let still = found-new categories c k parent fresh found in
        (
          suc m,
          (k, parent, e, still, IsBelow-new categories c m parent fresh below),
          omega (arith, fits),
          λ other above.
              let same : parent ≡ other =
                cc (above_some (c ∷ categories) c k parent e still, above) in
              subst (λ (y : Category). y.store_id ≡ c.store_id) same same_store,
        )

-- One round of the search for a cycle at a category whose parent is found.
walk_round :
    (categories : List Category) (k : ℕ) (parent : Category)
    (next : Category → Result CategoryError (Unit {0})) (o : Option ℕ) (same : Bool)
    → o ≡ some k
    → same ≡ false
    → find? (is_category k) categories ≡ some parent
    → elim o as (λ _. Result CategoryError (Unit {0})) [
      | none ↦ ok tt
      | some j ↦ elim same [
        | true ↦ err would_create_cycle
        | false ↦ elim (find? (is_category j) categories) [ none ↦ ok tt | some p ↦ next p ]
      ]
    ]
      ≡ next parent
walk_round categories k parent next none same e other found = cc e
walk_round categories k parent next (some j) same e other found =
    let key : j ≡ k = cc e in
    let found_j : find? (is_category j) categories ≡ some parent =
      subst (λ (i : ℕ). find? (is_category i) categories ≡ some parent) (sym key) found in
    rw (other, found_j) refl

walk_end :
    (categories : List Category) (k : ℕ) (top : Category) (hops : ℕ) (seen : List ℕ)
    → top.parent_id ≡ none
    → walk_loop (suc hops) categories k seen top ≡ ok tt
unfolding walk_loop
walk_end categories k top hops seen h = rw h refl

walk_stops :
    (categories : List Category) (top c : Category)
    → top.parent_id ≡ none
    → find? (is_category top.id) categories ≡ some top
    → c.parent_id ≡ some top.id
    → (c.id == top.id) ≡ false
    → walk_loop max_hops categories top.id [] c ≡ ok tt
unfolding walk_loop
walk_stops categories top c at_top found e other =
    walk_round categories top.id top (walk_loop 31 categories top.id (c.id ∷ [])) c.parent_id
      (c.id == top.id) e other found
    ∙ walk_end categories top.id top 30 (c.id ∷ []) at_top

-- A child of a top-level category is accepted as the parent of that category: the test for cycles stops
-- at a category without a parent before it compares its key.
pub cycle-accepted :
    (categories : List Category) (top c : Category)
    → top.parent_id ≡ none
    → find? (is_category top.id) categories ≡ some top
    → find? (is_category c.id) categories ≡ some c
    → c.parent_id ≡ some top.id
    → (c.id == top.id) ≡ false
    → c.store_id ≡ top.store_id
    → validate_category_parent categories (some top.id) top.store_id (some c) ≡ ok tt
unfolding validate_category_parent check_instance
cycle-accepted categories top c at_top found here e other store =
    let depth =
      depth_from_root-below categories 1 c (omega arith) (top.id, top, e, found, at_top) here in
    let same : (c.store_id == top.store_id) ≡ true =
      ap (λ (n : ℕ). n == top.store_id) store ∙ ==_refl top.store_id in
    let walked = walk_stops categories top c at_top found e other in
    rw (same, other, walked, depth) refl
