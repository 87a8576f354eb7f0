-- ===== src/RateLimit/Tests.antt =====
-- A cache in memory, as a function from keys to counters.
use api_paperbase.Base.{
  ℕ, suc, ◌≡◌, refl, Bool, false, ◌&&◌, Option, none, some, [], ◌∷◌, ◌==◌, if◌then◌else◌,
}
use api_paperbase.Base.Int.{pos}
use api_paperbase.Base.Text.{codes}
use api_paperbase.Base.Results.{Result, ok, err}
use api_paperbase.RateLimit.{
  Key, ip_key, agg_key, invalid_key, CacheError, value_error, next_count, Cache, text, absent,
  resolve_storefront_aggregate_limit, storefront_rate_check,
}
use api_paperbase.RateLimit.Aggregate.{count_allowed}

abbrev same_key : Key → Key → Bool
same_key (ip_key s i) (ip_key t j) = s == t && i == j
same_key (agg_key a) (agg_key b) = a == b
same_key (invalid_key a) (invalid_key b) = a == b
same_key (ip_key s i) (agg_key b) = false
same_key (ip_key s i) (invalid_key b) = false
same_key (agg_key a) (ip_key t j) = false
same_key (agg_key a) (invalid_key b) = false
same_key (invalid_key a) (ip_key t j) = false
same_key (invalid_key a) (agg_key b) = false

abbrev Memory : Type 0
Memory = Key → Option ℕ

abbrev stored : Key → ℕ → Memory → Memory
stored key n s k = if same_key k key then some n else s k

abbrev incremented : Key → Option ℕ → Memory → Result CacheError ℕ × Memory
incremented key none s = (err value_error, s)
incremented key (some n) s = (ok (suc n), stored key (suc n) s)

abbrev memory : Cache Memory
memory = record {
  is_redis = false;
  incr = λ key s. incremented key (s key) s;
  set = λ key value seconds s. (ok tt, stored key value s);
  redis_incr = λ key s. (ok (next_count (s key)), stored key (next_count (s key)) s);
  redis_expire = λ key seconds s. (ok tt, s);
}

two_allowed : count_allowed memory 7 9 400 2 (1 ∷ 2 ∷ 1 ∷ []) (λ k. none) ≡ 2
unfolding count_allowed storefront_rate_check
two_allowed = refl

limit_example :
    resolve_storefront_aggregate_limit (λ t. some (pos 300)) 5000 absent (text (codes " 300")) ≡ 300
unfolding resolve_storefront_aggregate_limit
limit_example = refl
