-- ===== src/Catalog/Slugs/Tests.antt =====
-- A name that two other categories have.
use api_paperbase.Base.{◌≡◌, refl, none, some, List, [], ◌∷◌}
use api_paperbase.Base.Text.{Text, codes}
use api_paperbase.Catalog.Slugs.{category_slug}
use api_paperbase.Catalog.Slugs.Unique.{EndsFree, category_slug-EndsFree}

abbrev others : List Text
others = codes "shoes" ∷ codes "shoes-2" ∷ []

third_slug : category_slug (λ t. t) none (codes " shoes ") others ≡ some (codes "shoes-3")
unfolding category_slug
third_slug = refl

category_slug-EndsFree_example :
    EndsFree others (category_slug (λ t. t) none (codes " shoes ") others)
category_slug-EndsFree_example = category_slug-EndsFree (λ t. t) none (codes " shoes ") others
