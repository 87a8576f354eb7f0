-- ===== src/RateLimit/Cooldown.antt =====
-- The cooldowns of sensitive actions (engine/core/rate_limit_service.py). Times are microseconds; the
-- cache is a parameter, read at a time, and `lower` is Python's `str.lower`. An error of the cache is
-- not caught by this code, and not modelled.
mod Tests
use api_paperbase.Base.{
  ℕ, ◌+◌, ◌-◌, ◌*◌, ◌/◌, ◌≤◌, ◌<◌, ◌≡◌, refl, ap, sym, ◌∙◌, Bool, true, false, Option, none, some,
  ◌++◌, ltb, leb, if◌then◌else◌, arith, Bool-cases, inl, inr,
}
use mathlib.Core.Path.{subst}
use api_paperbase.Base.Text.{Text, codes, strip, is_empty, text_eq}
use api_paperbase.Base.Results.{Result, ok, err, is_ok}

pub record Cache (S : Type 0) : Type 0 where
  pub get : (now : ℕ) → Text → S → Option ℕ
  pub set : (now : ℕ) → Text → (value seconds : ℕ) → S → S

abbrev pub second : ℕ
second = 1000000

-- A value can be read until its timeout has passed, and is gone then.
pub record IsTimed {S : Type 0} (cache : Cache S) : Type 0 where
  pub set_held :
      (now later : ℕ) (key : Text) (value seconds : ℕ) (s : S)
      → later < now + seconds * second
      → cache.get later key (cache.set now key value seconds s) ≡ some value
  pub set_expired :
      (now later : ℕ) (key : Text) (value seconds : ℕ) (s : S)
      → now + seconds * second ≤ later
      → cache.get later key (cache.set now key value seconds s) ≡ none

-- `RATE_LIMITS`, the cooldown of an action in seconds.
unfoldable pub cooldown_of : Text → Option ℕ
unfolding text_eq
cooldown_of action =
    if text_eq action (codes "password_reset")
    then some 120
    else if text_eq action (codes "email_verification_resend")
    then some 120
    else if text_eq action (codes "2fa_recovery_request")
    then some 120
    else none

pub record RateLimitExceeded : Type 0 where
  pub action : Text
  pub retry_after : ℕ

-- `store_id or "platform"`
abbrev pub scope_of : Option Text → Text
scope_of none = codes "platform"
scope_of (some t) = if is_empty t then codes "platform" else t

unfoldable pub build_key : (Text → Text) → Option Text → Text → Text → Text
unfolding strip
build_key lower store_id action identifier =
    codes "rate:"
    ++ scope_of store_id
    ++ codes ":"
    ++ action
    ++ codes ":"
    ++ lower (strip identifier)

-- The test on the time that the cache holds.
unfoldable pub answer : ℕ → Option ℕ → Bool × ℕ
answer now none = (true, 0)
answer now (some expires_at) =
    let remaining = (expires_at - now) / second in
    if ltb 0 remaining then (false, remaining) else (true, 0)

module _ {S : Type 0} (cache : Cache S) (lower : Text → Text) where
  unfoldable pub check_rate_limit : ℕ → Option Text → Text → Text → S → Bool × ℕ
  unfolding cooldown_of build_key answer
  check_rate_limit now store_id action identifier s = elim (cooldown_of action) [
    | none ↦ (true, 0)
    | some _ ↦ answer now (cache.get now (build_key lower store_id action identifier) s)
  ]

  unfoldable pub enforce_rate_limit :
      ℕ → Option Text → Text → Text → S → Result RateLimitExceeded (Unit {0})
  unfolding check_rate_limit
  enforce_rate_limit now store_id action identifier s =
      let (allowed, retry_after) = check_rate_limit now store_id action identifier s in
      if allowed then ok tt else err (record { action = action; retry_after = retry_after })

  unfoldable pub record_action : ℕ → Option Text → Text → Text → S → S
  unfolding cooldown_of build_key
  record_action now store_id action identifier s = elim (cooldown_of action) [
    | none ↦ s
    | some cooldown ↦
        cache.set now (build_key lower store_id action identifier) (now + cooldown * second)
          cooldown s
  ]

  unfoldable pub get_retry_after : ℕ → Option Text → Text → Text → S → ℕ
  unfolding check_rate_limit
  get_retry_after now store_id action identifier s =
      (check_rate_limit now store_id action identifier s).1

-- Whether an action is allowed, and the rest of a cooldown that started at `now`.
abbrev IsCooling : ℕ → ℕ → ℕ → Bool × ℕ → Type 0
IsCooling now later cooldown r =
    (r.0 ≡ ltb (now + cooldown * second) (later + second)) × (r.1 ≤ cooldown)

answer-IsCooling :
    (now later cooldown : ℕ)
    → now ≤ later
    → IsCooling now later cooldown (answer later (some (now + cooldown * second)))
unfolding answer
answer-IsCooling now later cooldown h =
    elim (Bool-cases (ltb 0 ((now + cooldown * second - later) / second))) [
      | inl e ↦ rw e (ground (arith, e), omega (arith, h))
      | inr e ↦ rw e (ground (arith, e), omega arith)
    ]

answer-expired :
    (now later cooldown : ℕ)
    → now + cooldown * second ≤ later
    → IsCooling now later cooldown (answer later none)
unfolding answer
answer-expired now later cooldown h = (ground (arith, h), omega arith)

same_key :
    (lower : Text → Text) (store_id : Option Text) (action identifier again : Text)
    → lower (strip identifier) ≡ lower (strip again)
    → build_key lower store_id action identifier ≡ build_key lower store_id action again
unfolding build_key
same_key lower store_id action identifier again e =
    ap (λ (t : Text). codes "rate:" ++ scope_of store_id ++ codes ":" ++ action ++ codes ":" ++ t) e

module _ {S : Type 0} (cache : Cache S) (lower : Text → Text) (timed : IsTimed cache) where
  held :
      (now later : ℕ) (key : Text) (cooldown : ℕ) (s : S)
      → now ≤ later
      → IsCooling now later cooldown (
          answer later
            (cache.get later key (cache.set now key (now + cooldown * second) cooldown s)))
  held now later key cooldown s h = elim (Bool-cases (ltb later (now + cooldown * second))) [
    | inl e ↦
        let before : later < now + cooldown * second = ground (arith, e) in
        rw (timed.set_held now later key (now + cooldown * second) cooldown s before)
          (answer-IsCooling now later cooldown h)
    | inr e ↦
        let after : now + cooldown * second ≤ later = ground (arith, e) in
        rw (timed.set_expired now later key (now + cooldown * second) cooldown s after)
          (answer-expired now later cooldown after)
  ]

  check_eq :
      (now cooldown : ℕ) (store_id : Option Text) (action identifier : Text) (s : S)
      → cooldown_of action ≡ some cooldown
      → check_rate_limit cache lower now store_id action identifier s
        ≡ answer now (cache.get now (build_key lower store_id action identifier) s)
  unfolding check_rate_limit
  check_eq now cooldown store_id action identifier s limited = cc limited

  record_eq :
      (now cooldown : ℕ) (store_id : Option Text) (action identifier : Text) (s : S)
      → cooldown_of action ≡ some cooldown
      → record_action cache lower now store_id action identifier s
        ≡ cache.set now
            (build_key lower store_id action identifier)
            (now + cooldown * second)
            cooldown
            s
  unfolding record_action
  record_eq now cooldown store_id action identifier s limited = cc limited

  -- The check of an action after its record, also under another spelling of the identifier.
  check-IsCooling :
      (now later cooldown : ℕ) (store_id : Option Text) (action identifier again : Text) (s : S)
      → cooldown_of action ≡ some cooldown
      → now ≤ later
      → lower (strip again) ≡ lower (strip identifier)
      → IsCooling now later cooldown (
          check_rate_limit cache lower later store_id action again
            (record_action cache lower now store_id action identifier s))
  check-IsCooling now later cooldown store_id action identifier again s limited h same =
      rw
        (
          check_eq later cooldown store_id action again _ limited,
          record_eq now cooldown store_id action identifier s limited,
        )
        (subst
          (λ (k : Text). IsCooling now later cooldown (
            answer later (
              cache.get later k (
                cache.set now (build_key lower store_id action identifier) (now + cooldown * second)
                  cooldown s))))
          (same_key lower store_id action identifier again (sym same))
          (held now later (build_key lower store_id action identifier) cooldown s h))

  -- With a cache that keeps a value for its timeout and no longer, an action with a cooldown that was
  -- recorded at `now` is allowed at a later time exactly if less than a second of the cooldown is left, and
  -- the time to wait that is reported is never more than the cooldown. An identifier with the same lower
  -- case, without its outer spaces, counts as the same.
  pub cooldown-IsCooling :
      (now later cooldown : ℕ) (store_id : Option Text) (action identifier again : Text) (s : S)
      → cooldown_of action ≡ some cooldown
      → now ≤ later
      → lower (strip again) ≡ lower (strip identifier)
      → (is_ok (
            enforce_rate_limit cache lower later store_id action again
              (record_action cache lower now store_id action identifier s))
          ≡ ltb (now + cooldown * second) (later + second))
        × (get_retry_after cache lower later store_id action again
              (record_action cache lower now store_id action identifier s)
            ≤ cooldown)
  unfolding enforce_rate_limit get_retry_after
  cooldown-IsCooling now later cooldown store_id action identifier again s limited h same =
      let (allowed, wait) =
        check-IsCooling now later cooldown store_id action identifier again s limited h same in
      (allowed_ok _ _ ∙ allowed, wait)
    where
      allowed_ok :
          (r : Bool × ℕ) (name : Text)
          → is_ok {E = RateLimitExceeded} {A = Unit {0}}
              (if r.0 then ok tt else err (record { action = name; retry_after = r.1 }))
            ≡ r.0
      allowed_ok r name = elim (Bool-cases r.0) [ inl e ↦ rw e refl | inr e ↦ rw e refl ]
