-- ===== src/RateLimit/Examples.antt =====
-- Concrete runs of the limiter: three requests a second, one earlier request, a reset inside the span that is looked at.
use cyntr.Common.{ℕ, ◌*◌, ◌≤◌, String, List, [], ◌∷◌, string_eq, arith, str_iff, length}
use cyntr.RateLimit.{Bucket, RateLimiter, Headers, new_rate_limiter, rate_limit_key, before_colon}
use cyntr.RateLimit.Window.{granted}
use cyntr.RateLimit.Reach.{serve-granted}
use cyntr.RateLimit.Capacity.{serve, serve-IsBounded}
use cyntr.RateLimit.Key.{Authenticated, rate_limit_key-Authenticated}

abbrev bucket : Bucket
bucket = record { tokens = 3; last_reset = 100; last_seen = 150 }

abbrev limiter : RateLimiter
limiter = record {
  buckets = ("acme", bucket) ∷ [];
  rate = 3;
  interval = 1000;
  identity_secret = "k";
  last_sweep = 0;
}

abbrev requests : List (String × ℕ)
requests = ("acme", 600) ∷ ("globex", 700) ∷ ("acme", 1100) ∷ ("acme", 1200) ∷ []

serve-granted_example :
    granted "acme" requests (serve (("acme", 10) ∷ []) (new_rate_limiter 3 1000 0)) ≤ 2 * 3
serve-granted_example =
    serve-granted 3 1000 0 500 "acme" (("acme", 10) ∷ []) requests (omega arith, tt)
      (
        (omega arith, omega arith),
        (
          (omega arith, omega arith),
          ((omega arith, omega arith), ((omega arith, omega arith), tt)),
        ),
      )

serve-IsBounded_example : length (serve requests (new_rate_limiter 3 1000 0)).buckets ≤ 100_000
unfolding new_rate_limiter
serve-IsBounded_example = serve-IsBounded 3 1000 0 requests

-- A stand-in for the MAC: the secret does not enter it, which no property relies on.
abbrev mac : String → String → String
mac secret text = text

abbrev headers : Headers
headers = record { identity = "acme:jane"; identity_sig = "acme:jane"; tenant = "globex" }

rate_limit_key-Authenticated_example : Authenticated mac limiter headers
unfolding rate_limit_key before_colon
rate_limit_key-Authenticated_example =
    rate_limit_key-Authenticated mac limiter headers
      (λ e. absurd (ground (arith, (str_iff "k" "").1 e)))
      (λ e. absurd (ground (arith, (str_iff "acme" "_unauthenticated").1 e)))
