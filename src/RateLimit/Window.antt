-- ===== src/RateLimit/Window.antt =====
-- How many requests pass within a window.
use api_paperbase.Base.{
  ℕ, ◌+◌, ◌≤◌, ◌≡◌, ◌≢◌, refl, ap, ◌∙◌, true, false, Option, none, some, ◌==◌, arith, if_both,
}
use api_paperbase.Base.Results.{Result, ok, err}
use api_paperbase.RateLimit.{
  Key, agg_key, CacheError, value_error, unavailable, next_count, Cache, is_under, counted,
  expire_first, lua_incr_expire, set_first, incr_or_set, fixed_window_increment,
}

module _ {S : Type 0} (counter : S → Key → Option ℕ) where
  -- A call leaves the counters of the other keys as they were.
  abbrev pub KeepsOthers : Key → S → S → Type 0
  KeepsOthers key s s' = (k : Key) → k ≢ key → counter s' k ≡ counter s k

  -- The counter of the key goes up by one, from nothing to 1, or the call fails and changes none.
  abbrev pub Counts : Key → S → Result CacheError ℕ × S → Type 0
  Counts key s (ok n, s') =
      (n ≡ next_count (counter s key)) × (counter s' key ≡ some n) × KeepsOthers key s s'
  Counts key s (err e, s') = (k : Key) → counter s' k ≡ counter s k

  -- The value is stored, or the call fails and changes none.
  abbrev pub Stores : Key → ℕ → S → Result CacheError (Unit {0}) × S → Type 0
  Stores key value s (ok _, s') = (counter s' key ≡ some value) × KeepsOthers key s s'
  Stores key value s (err e, s') = (k : Key) → counter s' k ≡ counter s k

-- The documented behaviour of a cache while no window ends, by the value that each key has. `incr`
-- raises ValueError only where there is none, and an expiry changes no value.
pub record Laws {S : Type 0} (cache : Cache S) : Type 0 where
  pub counter : S → Key → Option ℕ
  pub incr-Counts : (key : Key) (s : S) → Counts counter key s (cache.incr key s)
  pub incr_missing :
      (key : Key) (s : S) → (cache.incr key s).0 ≡ err value_error → counter s key ≡ none
  pub redis_incr-Counts : (key : Key) (s : S) → Counts counter key s (cache.redis_incr key s)
  pub set-Stores :
      (key : Key) (value seconds : ℕ) (s : S)
      → Stores counter key value s (cache.set key value seconds s)
  pub redis_expire_value :
      (key : Key) (seconds : ℕ) (s : S) (k : Key)
      → counter (cache.redis_expire key seconds s).1 k ≡ counter s k

abbrev pub value_of : Option ℕ → ℕ
value_of none = 0
value_of (some n) = n

next_value : (o : Option ℕ) → next_count o ≡ value_of o + 1
next_value none = omega arith
next_value (some n) = omega arith

module _ {S : Type 0} (counter : S → Key → Option ℕ) where
  -- The number of a key, which is 0 where there is no counter.
  abbrev pub number_of : S → Key → ℕ
  number_of s k = value_of (counter s k)

  -- A call that succeeds returns the next number and leaves it there; one that fails lowers none.
  abbrev pub Advances : Key → S → Result CacheError ℕ × S → Type 0
  Advances key s (ok n, s') =
      (n ≡ number_of s key + 1)
      × (number_of s' key ≡ n)
      × ((k : Key) → k ≢ key → number_of s' k ≡ number_of s k)
  Advances key s (err e, s') =
      (number_of s key ≤ number_of s' key) × ((k : Key) → k ≢ key → number_of s' k ≡ number_of s k)

  Counts-Advances :
      (key : Key) (s : S) (r : Result CacheError ℕ × S) → Counts counter key s r → Advances key s r
  Counts-Advances key s (ok n, s') (next, stored, others) = (
    next ∙ next_value (counter s key),
    ap value_of stored,
    λ k other. ap value_of (others k other),
  )
  Counts-Advances key s (err e, s') same =
      let kept = ap value_of (same key) in (omega (arith, kept), λ k other. ap value_of (same k))

  -- A second call that changes no number.
  counted-Advances :
      (key : Key) (s s' : S) (n : ℕ) (r : Result CacheError (Unit {0}) × S)
      → ((k : Key) → counter r.1 k ≡ counter s' k)
      → Advances key s (ok n, s')
      → Advances key s (counted n r)
  counted-Advances key s s' n (ok _, s'') same (next, stored, others) =
      (next, ap value_of (same key) ∙ stored, λ k other. ap value_of (same k) ∙ others k other)
  counted-Advances key s s' n (err e, s'') same (next, stored, others) =
      let kept = ap value_of (same key) in
      (omega (arith, kept, stored, next), λ k other. ap value_of (same k) ∙ others k other)

module _ {S : Type 0} (cache : Cache S) (laws : Laws cache) where
  lua-Advances :
      (key : Key) (seconds : ℕ) (s : S)
      → Advances laws.counter key s (lua_incr_expire cache key seconds s)
  unfolding lua_incr_expire expire_first
  lua-Advances key seconds s =
      of_incr (cache.redis_incr key s)
        (Counts-Advances laws.counter key s _ (laws.redis_incr-Counts key s))
    where
      of_incr :
          (r : Result CacheError ℕ × S)
          → Advances laws.counter key s r
          → Advances laws.counter key s (expire_first cache key seconds r)
      of_incr (err e, s') h = h
      of_incr (ok n, s') h =
          if_both (Advances laws.counter key s) (n == 1)
            (counted n (cache.redis_expire key seconds s')) (ok n, s')
            (counted-Advances laws.counter key s s' n (cache.redis_expire key seconds s')
              (laws.redis_expire_value key seconds s') h)
            h

  incr_or_set-Advances :
      (key : Key) (seconds : ℕ) (s : S)
      → Advances laws.counter key s (incr_or_set cache key seconds s)
  unfolding incr_or_set set_first
  incr_or_set-Advances key seconds s =
      of_incr (cache.incr key s) (laws.incr-Counts key s) (laws.incr_missing key s)
    where
      of_set :
          (s' : S) (r : Result CacheError (Unit {0}) × S)
          → laws.counter s key ≡ none
          → ((k : Key) → laws.counter s' k ≡ laws.counter s k)
          → Stores laws.counter key 1 s' r
          → Advances laws.counter key s (counted 1 r)
      of_set s' (ok _, s'') missing same (stored, others) =
          let before = ap value_of missing in
          let after = ap value_of stored in
          (omega (arith, before), after, λ k other. ap value_of (others k other ∙ same k))
      of_set s' (err e, s'') missing same kept =
          let before = ap value_of (kept key ∙ same key) in
          (omega (arith, before), λ k other. ap value_of (kept k ∙ same k))

      of_incr :
          (r : Result CacheError ℕ × S)
          → Counts laws.counter key s r
          → (r.0 ≡ err value_error → laws.counter s key ≡ none)
          → Advances laws.counter key s (set_first cache key seconds r)
      of_incr (ok n, s') h missing = Counts-Advances laws.counter key s (ok n, s') h
      of_incr (err unavailable, s') h missing =
          Counts-Advances laws.counter key s (err unavailable, s') h
      of_incr (err value_error, s') h missing =
          of_set s' (cache.set key 1 seconds s') (missing refl) h (laws.set-Stores key 1 seconds s')

  pub fixed_window-Advances :
      (key : Key) (s : S) → Advances laws.counter key s (fixed_window_increment cache key 60 s)
  unfolding fixed_window_increment
  fixed_window-Advances key s =
      if_both (Advances laws.counter key s) cache.is_redis (lua_incr_expire cache key 60 s)
        (incr_or_set cache key 60 s) (lua-Advances key 60 s) (incr_or_set-Advances key 60 s)

  -- The number of an API key, and what a check does to it.
  abbrev pub number : ℕ → S → ℕ
  number api_key s = number_of laws.counter s (agg_key api_key)

  pub aggregate-bound :
      (api_key limit : ℕ) (s : S) (r : Result CacheError ℕ × S)
      → Advances laws.counter (agg_key api_key) s r
      → (number api_key s ≤ number api_key r.1)
        × (is_under limit false r.0 ≡ true
            → (number api_key r.1 ≡ number api_key s + 1) × (number api_key r.1 ≤ limit))
  aggregate-bound api_key limit s (ok n, s') (next, stored, others) =
      (omega (arith, next, stored), λ under. (stored ∙ next, ground (arith, stored, under)))
  aggregate-bound api_key limit s (err e, s') (up, others) = (up, λ under. cc under)
