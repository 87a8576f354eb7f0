-- ===== src/Catalog/Categories/Descendants.antt =====
-- The categories below a category.
use api_paperbase.Base.{
  ℕ, zero, suc, ◌≤◌, ◌≡◌, refl, ap, ◌∙◌, Bool, true, false, ◌||◌, Option, none, some, List, [], ◌∷◌,
  ◌++◌, map, ◌==◌, arith, Bool-cases, inl, inr, ==→eq, ==_refl, any-append,
}
use mathlib.Core.Path.{subst}
use api_paperbase.Base.Queries.{filter, find?, find?-test}
use api_paperbase.Catalog.Categories.{
  Category, max_category_depth, is_category, is_in, is_child, children_of, descend,
  descendant_category_pks_including_self,
}

module _ (categories : List Category) (store_id : ℕ) where
  -- A category so many levels below one whose key is in a list, by parents in the table, each of the
  -- levels in the store.
  abbrev pub IsUnder : ℕ → List ℕ → Category → Type 0
  IsUnder zero frontier c = is_in c.id frontier ≡ true
  IsUnder (suc n) frontier c =
      (k : ℕ) × (parent : Category) × (find? (is_category c.id) categories ≡ some c)
      × (c.store_id ≡ store_id)
      × (c.parent_id ≡ some k)
      × (find? (is_category k) categories ≡ some parent)
      × IsUnder n frontier parent

  IsUnder-none : (n : ℕ) (c : Category) → IsUnder n [] c → ⊥
  IsUnder-none zero c h = cc h
  IsUnder-none (suc n) c (k, parent, here, store, e, found, rest) = IsUnder-none n parent rest

  is_in-map :
      (test : Category → Bool) (c : Category) (xs : List Category)
      → find? (is_category c.id) xs ≡ some c
      → test c ≡ true
      → is_in c.id (map (λ (x : Category). x.id) (filter test xs)) ≡ true
  is_in-map test c [] found h = cc found
  is_in-map test c (x ∷ xs) found h = elim (Bool-cases (x.id == c.id)) [
    | inl e ↦
        let same : x ≡ c = cc (found, e) in
        let kept : test x ≡ true = ap test same ∙ h in rw kept (rw e refl)
    | inr e ↦
        let rest = is_in-map test c xs (cc (found, e)) h in
        elim (Bool-cases (test x)) [ inl t ↦ rw t (rw e rest) | inr t ↦ rw t rest ]
  ]

  is_child_of :
      (frontier : List ℕ) (c : Category) (k : ℕ)
      → c.store_id ≡ store_id
      → c.parent_id ≡ some k
      → is_in k frontier ≡ true
      → is_child store_id frontier c ≡ true
  unfolding is_child
  is_child_of frontier c k store e h =
      let mine : (c.store_id == store_id) ≡ true =
        ap (λ (n : ℕ). n == store_id) store ∙ ==_refl store_id in
      let under : elim c.parent_id as (λ _. Bool) [ none ↦ false | some j ↦ is_in j frontier ]
          ≡ true =
        ap (λ (o : Option ℕ). elim o as (λ _. Bool) [ none ↦ false | some j ↦ is_in j frontier ]) e
        ∙ h in
      rw (mine) under

  child_is_in :
      (frontier : List ℕ) (c parent : Category) (k : ℕ)
      → find? (is_category c.id) categories ≡ some c
      → c.store_id ≡ store_id
      → c.parent_id ≡ some k
      → find? (is_category k) categories ≡ some parent
      → is_in parent.id frontier ≡ true
      → is_in c.id (children_of categories store_id frontier) ≡ true
  unfolding children_of
  child_is_in frontier c parent k here store e found h =
      let key : parent.id ≡ k =
        ==→eq parent.id k (find?-test (is_category k) parent categories found) in
      let mine : is_in k frontier ≡ true = subst (λ (j : ℕ). is_in j frontier ≡ true) key h in
      is_in-map (is_child store_id frontier) c categories here
        (is_child_of frontier c k store e mine)

  -- One level down, the distance is one less.
  IsUnder-children :
      (n : ℕ) (frontier : List ℕ) (c : Category)
      → IsUnder (suc n) frontier c
      → IsUnder n (children_of categories store_id frontier) c
  IsUnder-children zero frontier c (k, parent, here, store, e, found, rest) =
      child_is_in frontier c parent k here store e found rest
  IsUnder-children (suc n) frontier c (k, parent, here, store, e, found, rest) =
      (k, parent, here, store, e, found, IsUnder-children n frontier parent rest)

  is_in-append : (k : ℕ) (xs ys : List ℕ) → is_in k xs ≡ true → is_in k (xs ++ ys) ≡ true
  is_in-append k xs ys h = any-append xs ys (λ j. j == k) ∙ rw h refl

  in_append : (k : ℕ) (xs ys : List ℕ) → is_in k ys ≡ true → is_in k (xs ++ ys) ≡ true
  in_append k xs ys h = any-append xs ys (λ j. j == k) ∙ either (is_in k xs) (is_in k ys) h
    where
      either : (a b : Bool) → b ≡ true → (a || b) ≡ true
      either a b h = ground (arith, h)

  -- The loop loses no key.
  descend-keeps :
      (levels k : ℕ) (ids frontier : List ℕ)
      → is_in k ids ≡ true
      → is_in k (descend levels categories store_id ids frontier) ≡ true
  unfolding descend
  descend-keeps zero k ids frontier h = h
  descend-keeps (suc levels) k ids frontier h =
      of_children (children_of categories store_id frontier)
        (λ j js. descend-keeps levels k (ids ++ j ∷ js) (j ∷ js) (is_in-append k ids (j ∷ js) h))
    where
      of_children :
          (ks : List ℕ)
          → ((j : ℕ) (js : List ℕ)
              → is_in k (descend levels categories store_id (ids ++ j ∷ js) (j ∷ js)) ≡ true)
          → is_in k (elim ks as (λ _. List ℕ) [
            | [] ↦ ids
            | j ∷ js ↦ descend levels categories store_id (ids ++ j ∷ js) (j ∷ js)
          ])
            ≡ true
      of_children [] rest = h
      of_children (j ∷ js) rest = rest j js

  descend-IsUnder :
      (levels n : ℕ) (ids frontier : List ℕ) (c : Category)
      → n ≤ levels
      → ((k : ℕ) → is_in k frontier ≡ true → is_in k ids ≡ true)
      → IsUnder n frontier c
      → is_in c.id (descend levels categories store_id ids frontier) ≡ true
  unfolding descend
  descend-IsUnder levels zero ids frontier c le inside under =
      descend-keeps levels c.id ids frontier (inside c.id under)
  descend-IsUnder zero (suc n) ids frontier c le inside under = absurd (omega (arith, le))
  descend-IsUnder (suc levels) (suc n) ids frontier c le inside under =
      let fewer : n ≤ levels = omega (arith, le) in
      of_children (children_of categories store_id frontier) (IsUnder-children n frontier c under)
        (λ j js below.
          descend-IsUnder levels n (ids ++ j ∷ js) (j ∷ js) c fewer
            (λ k h. in_append k ids (j ∷ js) h) below)
    where
      of_children :
          (ks : List ℕ)
          → IsUnder n ks c
          → ((j : ℕ) (js : List ℕ)
              → IsUnder n (j ∷ js) c
              → is_in c.id (descend levels categories store_id (ids ++ j ∷ js) (j ∷ js)) ≡ true)
          → is_in c.id (elim ks as (λ _. List ℕ) [
            | [] ↦ ids
            | j ∷ js ↦ descend levels categories store_id (ids ++ j ∷ js) (j ∷ js)
          ])
            ≡ true
      of_children [] below rest = absurd (IsUnder-none n c below)
      of_children (j ∷ js) below rest = rest j js below

  -- The list of a category has the key of every category of its store that is at most five levels below
  -- it, along parents of the store.
  pub descendants_complete :
      (root_pk n : ℕ) (c : Category)
      → n ≤ max_category_depth
      → IsUnder n (root_pk ∷ []) c
      → is_in c.id (descendant_category_pks_including_self categories store_id root_pk) ≡ true
  unfolding descendant_category_pks_including_self
  descendants_complete root_pk n c le under =
      descend-IsUnder max_category_depth n (root_pk ∷ []) (root_pk ∷ []) c le (λ k h. h) under
