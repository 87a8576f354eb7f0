-- ===== src/RateLimit/Cooldown/Tests.antt =====
-- A cooldown in a cache that holds one entry with its time of expiry.
use api_paperbase.Base.{
  ℕ, ◌+◌, ◌*◌, ◌<◌, ◌≤◌, ◌≡◌, refl, Option, none, some, ltb, if◌then◌else◌, arith,
}
use api_paperbase.Base.Text.{Text, codes, text_eq, text_eq_refl, strip}
use api_paperbase.Base.Results.{is_ok}
use api_paperbase.RateLimit.Cooldown.{
  Cache, IsTimed, second, cooldown_of, enforce_rate_limit, record_action, get_retry_after,
  cooldown-IsCooling,
}

record Entry : Type 0 where
  key : Text
  value : ℕ
  expires : ℕ

abbrev read_entry : ℕ → Text → Option Entry → Option ℕ
read_entry now key none = none
read_entry now key (some e) =
    if text_eq e.key key then (if ltb now e.expires then some e.value else none) else none

abbrev memory : Cache (Option Entry)
memory = record {
  get = read_entry;
  set = λ now key value seconds s.
      some (record { key = key; value = value; expires = now + seconds * second });
}

memory-IsTimed : IsTimed memory
memory-IsTimed = record {
  set_held = λ now later key value seconds s h.
      rw (text_eq_refl key) (held later (now + seconds * second) value h);
  set_expired = λ now later key value seconds s h.
      rw (text_eq_refl key) (gone later (now + seconds * second) value h);
}
  where
    held : (n m value : ℕ) → n < m → (if ltb n m then some value else none) ≡ some value
    held n m value h = ground (arith, h)

    gone : (n m value : ℕ) → m ≤ n → (if ltb n m then some value else none) ≡ none
    gone n m value h = ground (arith, h)

-- A minute after a request for a password, the request is refused.
cooldown-IsCooling_example :
    let s =
      record_action memory (λ t. t) 5000000 none (codes "password_reset") (codes "a@b") none in
    (is_ok
        (enforce_rate_limit memory (λ t. t) 65000000 none (codes "password_reset") (codes " a@b") s)
      ≡ ltb (5000000 + 120 * second) (65000000 + second))
    × (get_retry_after memory (λ t. t) 65000000 none (codes "password_reset") (codes " a@b") s
        ≤ 120)
unfolding strip cooldown_of
cooldown-IsCooling_example =
    cooldown-IsCooling memory (λ t. t) memory-IsTimed 5000000 65000000 120 none
      (codes "password_reset") (codes "a@b") (codes " a@b") none refl (omega arith) refl
