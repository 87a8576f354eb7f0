-- ===== src/RateLimit.antt =====
-- Request limits of the storefront: fixed windows (engine/core/redis_fixed_window.py) per address and per
-- API key (engine/core/rate_limit.py). The cache is a parameter: a record of its operations and of what
-- its documentation says of them while no window ends. Its state carries over a call that raises. A limit or a window
-- below 0 acts as 0.
pub mod Window
pub mod Aggregate
pub mod Cooldown
mod Tests
use api_paperbase.Base.{
  ℕ, suc, ◌≡◌, ◌≢◌, ◌⊎◌, Bool, true, false, ◌&&◌, Option, none, some, List, leb, ltb, ◌==◌,
  if◌then◌else◌,
}
use api_paperbase.Base.Int.{ℤ, pos, negsuc}
use api_paperbase.Base.Text.{Text, strip}
use api_paperbase.Base.Results.{Result, ok, err}

-- The keys of `storefront_rate_check` and of `_throttle_invalid_api_key`.
pub data Key : Type 0 where
  ip_key : (store client_ip : ℕ) → Key
  agg_key : (api_key : ℕ) → Key
  invalid_key : (fingerprint : ℕ) → Key

-- `ValueError` of `incr` on a key that is not there, and every other error.
pub data CacheError : Type 0 where
  value_error unavailable : CacheError

abbrev pub next_count : Option ℕ → ℕ
next_count none = 1
next_count (some n) = suc n

-- A cache with counters, by its state. `redis_incr` and `redis_expire` are the commands of the script.
pub record Cache (S : Type 0) : Type 0 where
  pub is_redis : Bool
  pub incr : Key → S → Result CacheError ℕ × S
  pub set : Key → (value seconds : ℕ) → S → Result CacheError (Unit {0}) × S
  pub redis_incr : Key → S → Result CacheError ℕ × S
  pub redis_expire : Key → (seconds : ℕ) → S → Result CacheError (Unit {0}) × S

pub data Reason : Type 0 where
  per_ip aggregate : Reason

-- The answer to a count or to an error.
abbrev pub is_under : ℕ → Bool → Result CacheError ℕ → Bool
is_under limit fail_open (ok n) = leb n limit
is_under limit fail_open (err e) = fail_open

-- The answer of `_throttle_invalid_api_key`.
abbrev pub is_over : ℕ → Result CacheError ℕ → Bool
is_over limit (ok current) = ltb limit current
is_over limit (err e) = true

-- A count, if the second call succeeds.
abbrev pub counted : {S : Type 0} → ℕ → Result CacheError (Unit {0}) × S → Result CacheError ℕ × S
counted c (ok _, s) = (ok c, s)
counted c (err e, s) = (err e, s)

module _ {S : Type 0} (cache : Cache S) where
  -- The script's `EXPIRE` on the first hit.
  unfoldable pub expire_first : Key → ℕ → Result CacheError ℕ × S → Result CacheError ℕ × S
  expire_first key seconds (err e, s) = (err e, s)
  expire_first key seconds (ok c, s) =
      if c == 1 then counted c (cache.redis_expire key seconds s) else (ok c, s)

  -- `_LUA_INCR_EXPIRE`
  unfoldable pub lua_incr_expire : Key → ℕ → S → Result CacheError ℕ × S
  unfolding expire_first
  lua_incr_expire key seconds s = expire_first key seconds (cache.redis_incr key s)

  unfoldable pub set_first : Key → ℕ → Result CacheError ℕ × S → Result CacheError ℕ × S
  set_first key seconds (ok c, s) = (ok c, s)
  set_first key seconds (err unavailable, s) = (err unavailable, s)
  set_first key seconds (err value_error, s) = counted 1 (cache.set key 1 seconds s)

  -- The other caches: `incr`, or `set` where the key is not there.
  unfoldable pub incr_or_set : Key → ℕ → S → Result CacheError ℕ × S
  unfolding set_first
  incr_or_set key seconds s = set_first key seconds (cache.incr key s)

  unfoldable pub fixed_window_increment : Key → ℕ → S → Result CacheError ℕ × S
  unfolding lua_incr_expire incr_or_set
  fixed_window_increment key seconds s =
      if seconds == 0
      then (ok 0, s)
      else if cache.is_redis
      then lua_incr_expire key seconds s
      else incr_or_set key seconds s

  unfoldable pub incr_under_limit : Key → ℕ → ℕ → Bool → S → Bool × S
  unfolding fixed_window_increment
  incr_under_limit key seconds limit fail_open s =
      if limit == 0
      then (true, s)
      else let (r, s') = fixed_window_increment key seconds s in (is_under limit fail_open r, s')

  -- The second test of `storefront_rate_check`, after the first.
  unfoldable pub check_aggregate : (api_key aggregate_limit : ℕ) → Bool × S → Option Reason × S
  unfolding incr_under_limit
  check_aggregate api_key aggregate_limit (false, s) = (some per_ip, s)
  check_aggregate api_key aggregate_limit (true, s) =
      let (allowed, s') = incr_under_limit (agg_key api_key) 60 aggregate_limit false s in
      (if allowed then none else some aggregate, s')

  -- The reason is `none` where the request is allowed.
  unfoldable pub storefront_rate_check :
      (store api_key client_ip per_ip_limit aggregate_limit : ℕ) → S → Option Reason × S
  unfolding incr_under_limit check_aggregate
  storefront_rate_check store api_key client_ip per_ip_limit aggregate_limit s =
      check_aggregate api_key aggregate_limit
        (incr_under_limit (ip_key store client_ip) 60 per_ip_limit false s)

  -- `_throttle_invalid_api_key` of a key that is given.
  unfoldable pub throttle_invalid_api_key : (fingerprint limit : ℕ) → S → Bool × S
  unfolding fixed_window_increment
  throttle_invalid_api_key fingerprint limit s =
      if limit == 0
      then (false, s)
      else let (r, s') = fixed_window_increment (invalid_key fingerprint) 60 s in
        (is_over limit r, s')

-- A value of the plan's limits, as JSON has it; its `true` is the number 1, as in Python.
pub data Raw : Type 0 where
  absent other : Raw
  number : ℤ → Raw
  text : Text → Raw

abbrev pub positive : ℤ → Option ℕ
positive (pos n) = if n == 0 then none else some n
positive (negsuc n) = none

-- A raw value that is a positive number, or its text; `int` is Python's.
unfoldable pub limit_of : (Text → Option ℤ) → Raw → Option ℕ
unfolding strip
limit_of int absent = none
limit_of int other = none
limit_of int (number n) = positive n
limit_of int (text t) = elim (int (strip t)) [ none ↦ none | some n ↦ positive n ]

-- The limit of `resolve_storefront_aggregate_limit` for an owner whose plan has these two entries.
abbrev pub or_legacy : Raw → Raw → Raw
or_legacy absent legacy = legacy
or_legacy other legacy = other
or_legacy (number n) legacy = number n
or_legacy (text t) legacy = text t

unfoldable pub resolve_storefront_aggregate_limit :
    (Text → Option ℤ) → (fallback : ℕ) → (per_minute legacy : Raw) → ℕ
unfolding limit_of
resolve_storefront_aggregate_limit int fallback per_minute legacy =
    elim (limit_of int (or_legacy per_minute legacy)) [ none ↦ fallback | some n ↦ n ]
