-- ===== src/Catalog/Categories/Depth.antt =====
-- The depth of a category, and the tests on a parent.
use api_paperbase.Base.{
  ℕ, zero, suc, ◌+◌, ◌≤◌, ◌<◌, ◌≡◌, refl, sym, ap, ◌∙◌, Bool, true, false, Option, none, some, List,
  [], ◌∷◌, ◌==◌, arith, Bool-cases, inl, inr, All, ==→eq,
}
use mathlib.Core.Path.{subst}
use api_paperbase.Base.Queries.{find?, find?-test}
use api_paperbase.Base.Results.{Result, ok, err}
use api_paperbase.Base.Order.{All-map}
use api_paperbase.Catalog.Categories.{
  Category, CategoryError, hierarchy_has_cycle, max_hops, is_category, is_in, depth_loop,
  depth_from_root,
}

abbrev at_depth : ℕ → Result CategoryError ℕ
at_depth d = ok d

same_depth : (d : ℕ) → at_depth d ≡ at_depth (d + 0)
same_depth d = let same : d ≡ d + 0 = omega arith in ap at_depth same

next_depth : (d n : ℕ) → at_depth (d + 1 + n) ≡ at_depth (d + suc n)
next_depth d n = let same : d + 1 + n ≡ d + suc n = omega arith in ap at_depth same

module _ (categories : List Category) where
  -- A category is so many levels below a root, along its parents in the table.
  abbrev pub IsBelow : ℕ → Category → Type 0
  IsBelow zero c = c.parent_id ≡ none
  IsBelow (suc n) c =
      (k : ℕ) × (parent : Category) × (c.parent_id ≡ some k)
      × (find? (is_category k) categories ≡ some parent)
      × IsBelow n parent

  IsBelow-unique : (m n : ℕ) (c : Category) → IsBelow m c → IsBelow n c → m ≡ n
  IsBelow-unique zero zero c h k = refl
  IsBelow-unique zero (suc n) c h (k, parent, e, found, below) = cc (h, e)
  IsBelow-unique (suc m) zero c (k, parent, e, found, below) h = cc (h, e)
  IsBelow-unique (suc m) (suc n) c (j, parent, e, found, below) (j', parent', e', found', below') =
      let key : j ≡ j' = cc (e, e') in
      let same : parent ≡ parent' = cc (found, found', key) in
      ap suc (IsBelow-unique m n parent below (subst (IsBelow n) (sym same) below'))

  -- A key that was passed on the way up, from a level further below.
  abbrev IsPassed : ℕ → ℕ → Type 0
  IsPassed n k =
      (row : Category) × (m : ℕ) × (find? (is_category k) categories ≡ some row)
      × IsBelow m row
      × (n < m)

  not_passed :
      (n : ℕ) (c : Category) (seen : List ℕ)
      → IsBelow n c
      → find? (is_category c.id) categories ≡ some c
      → All (IsPassed n) seen
      → is_in c.id seen ≡ false
  not_passed n c [] below here h = refl
  not_passed n c (k ∷ seen) below here h = elim (Bool-cases (k == c.id)) [
    | inl e ↦
        let (row, m, found, under, more) = h.0 in
        let key : k ≡ c.id = ==→eq k c.id e in
        let same : row ≡ c = cc (found, here, key) in
        let level : m ≡ n = IsBelow-unique m n c (subst (IsBelow m) same under) below in
        absurd (omega (arith, more, level))
    | inr e ↦ rw e (not_passed n c seen below here h.1)
  ]

  pub found_here :
      (k : ℕ) (c : Category)
      → find? (is_category k) categories ≡ some c
      → find? (is_category c.id) categories ≡ some c
  found_here k c h =
      let key : c.id ≡ k = ==→eq c.id k (find?-test (is_category k) c categories h) in
      subst (λ (j : ℕ). find? (is_category j) categories ≡ some c) (sym key) h

  pass :
      (n : ℕ) (c : Category) (seen : List ℕ)
      → IsBelow (suc n) c
      → find? (is_category c.id) categories ≡ some c
      → All (IsPassed (suc n)) seen
      → All (IsPassed n) (c.id ∷ seen)
  pass n c seen below here h = (
    (c, suc n, here, below, omega arith),
    All-map _ _ seen
        (λ k p. let (row, m, found, under, more) = p in (row, m, found, under, omega (arith, more)))
        h,
  )

  -- One round of the loop at a category whose parent is found.
  one_round :
      (depth k : ℕ) (parent : Category) (next : Category → Result CategoryError ℕ) (o : Option ℕ)
      (b : Bool)
      → o ≡ some k
      → b ≡ false
      → find? (is_category k) categories ≡ some parent
      → elim o as (λ _. Result CategoryError ℕ) [
        | none ↦ ok depth
        | some j ↦ elim b [
          | true ↦ err hierarchy_has_cycle
          | false ↦ elim (find? (is_category j) categories) [ none ↦ ok depth | some p ↦ next p ]
        ]
      ]
        ≡ next parent
  one_round depth k parent next none b e free found = cc e
  one_round depth k parent next (some j) b e free found =
      let key : j ≡ k = cc e in
      let found_j : find? (is_category j) categories ≡ some parent =
        subst (λ (i : ℕ). find? (is_category i) categories ≡ some parent) (sym key) found in
      rw (free, found_j) refl

  depth_loop-below :
      (n hops depth : ℕ) (seen : List ℕ) (c : Category)
      → n ≤ hops
      → IsBelow n c
      → find? (is_category c.id) categories ≡ some c
      → All (IsPassed n) seen
      → depth_loop hops categories seen depth c ≡ ok (depth + n)
  unfolding depth_loop
  depth_loop-below zero zero depth seen c le below here h = same_depth depth
  depth_loop-below zero (suc hops) depth seen c le below here h = rw below (same_depth depth)
  depth_loop-below (suc n) zero depth seen c le below here h = absurd (omega (arith, le))
  depth_loop-below (suc n) (suc hops) depth seen c le below here h =
      let (k, parent, e, found, rest) = below in
      let free = not_passed (suc n) c seen below here h in
      let more : n ≤ hops = omega (arith, le) in
      one_round depth k parent (depth_loop hops categories (c.id ∷ seen) (depth + 1)) c.parent_id
        (is_in c.id seen) e free found
      ∙ depth_loop-below n hops (depth + 1) (c.id ∷ seen) parent more rest
          (found_here k parent found) (pass n c seen below here h)
      ∙ next_depth depth n

  -- The depth that the program computes is the number of levels, the category's own included, if there
  -- are at most 33 of them.
  pub depth_from_root-below :
      (n : ℕ) (c : Category)
      → n ≤ max_hops
      → IsBelow n c
      → find? (is_category c.id) categories ≡ some c
      → depth_from_root categories c ≡ ok (1 + n)
  unfolding depth_from_root
  depth_from_root-below n c le below here = depth_loop-below n max_hops 1 [] c le below here tt
