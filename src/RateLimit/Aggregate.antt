-- ===== src/RateLimit/Aggregate.antt =====
-- Requests with one API key within a window, from any addresses.
use api_paperbase.Base.{
  ℕ, ◌+◌, ◌≤◌, ◌≡◌, Bool, true, false, Option, none, some, List, [], ◌∷◌, if◌then◌else◌,
}
use api_paperbase.RateLimit.{Cache, Reason, storefront_rate_check}
use api_paperbase.RateLimit.Window.{Laws, number}

abbrev is_allowed : Option Reason → Bool
is_allowed none = true
is_allowed (some reason) = false

module _ {S : Type 0} (cache : Cache S) where
  -- How many of the requests from these addresses are allowed.
  unfoldable pub count_allowed : (store api_key per_ip_limit aggregate_limit : ℕ) → List ℕ → S → ℕ
  count_allowed store api_key per_ip_limit aggregate_limit [] s = 0
  count_allowed store api_key per_ip_limit aggregate_limit (ip ∷ ips) s =
      let (reason, s') =
        storefront_rate_check cache store api_key ip per_ip_limit aggregate_limit s in
      (if is_allowed reason then 1 else 0)
      + count_allowed store api_key per_ip_limit aggregate_limit ips s'

module _ {S : Type 0} (cache : Cache S) (laws : Laws cache) where
  -- What one request does to the number of its API key.
  abbrev Bounded : (api_key limit n : ℕ) → Option Reason × S → Type 0
  Bounded api_key limit n (reason, s) =
      (n ≤ number cache laws api_key s)
      × (is_allowed reason ≡ true
          → (number cache laws api_key s ≡ n + 1) × (number cache laws api_key s ≤ limit))
