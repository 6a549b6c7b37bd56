-- ===== src/RateLimit/Capacity.antt =====
-- The map of buckets never outgrows its cap.
use cyntr.Common.{
  ℕ, ◌*◌, ◌≤◌, String, ◌≡◌, refl, inl, inr, List, [], ◌∷◌, Option, none, some, ◌==◌, string_eq,
  nat_eq, arith, length, Bool-cases,
}
use cyntr.Common.Dict.{get, put, length-range, length-put, length-put-some}
use cyntr.RateLimit.{
  Bucket, RateLimiter, keep_fresh, evict_stale, found_or_new, refresh, admit, allow,
  max_rate_limit_buckets, new_rate_limiter,
}

abbrev pub IsBounded : RateLimiter → Type 0
IsBounded rl = length rl.buckets ≤ max_rate_limit_buckets

evict-IsBounded : (now : ℕ) (rl : RateLimiter) → IsBounded rl → IsBounded (evict_stale now rl)
unfolding evict_stale
evict-IsBounded now rl h =
    ground (arith, length-range (keep_fresh (2 * rl.interval) now) rl.buckets)

-- There is room for the write: the key is there already, or the map is below its cap.
room :
    (now : ℕ) (rl : RateLimiter) (tenant : String) (b b' : Bucket) (o : Option Bucket)
    → get tenant rl.buckets ≡ o
    → found_or_new now rl o ≡ some b
    → IsBounded rl
    → length (put tenant b' rl.buckets) ≤ max_rate_limit_buckets
room now rl tenant b b' (some x) g e h = omega (arith, length-put-some tenant b' x rl.buckets g)
room now rl tenant b b' none g e h = ground (arith, length-put tenant b' rl.buckets)

admit-IsBounded :
    (tenant : String) (now : ℕ) (rl : RateLimiter) (o : Option Bucket)
    → found_or_new now rl (get tenant rl.buckets) ≡ o
    → IsBounded rl
    → IsBounded (admit tenant now rl o).0
admit-IsBounded tenant now rl none e h = h
admit-IsBounded tenant now rl (some b) e h = elim (Bool-cases ((refresh now rl b).tokens == 0)) [
  | inl z ↦ rw z (room now rl tenant b (refresh now rl b) (get tenant rl.buckets) refl e h)
  | inr z ↦ rw z (room now rl tenant b _ (get tenant rl.buckets) refl e h)
]

allow-IsBounded :
    (tenant : String) (now : ℕ) (rl : RateLimiter)
    → IsBounded rl
    → IsBounded (allow tenant now rl).0
unfolding allow
allow-IsBounded tenant now rl h =
    admit-IsBounded tenant now (evict_stale now rl) _ refl (evict-IsBounded now rl h)

-- The limiter after a list of requests, each a tenant and the time of its Allow.
unfoldable pub serve : List (String × ℕ) → RateLimiter → RateLimiter
serve [] rl = rl
serve ((tenant, now) ∷ rest) rl = serve rest (allow tenant now rl).0

serve-le : (reqs : List (String × ℕ)) (rl : RateLimiter) → IsBounded rl → IsBounded (serve reqs rl)
unfolding serve
serve-le [] rl h = h
serve-le ((tenant, now) ∷ rest) rl h =
    serve-le rest (allow tenant now rl).0 (allow-IsBounded tenant now rl h)

-- From a new limiter, after any requests under any keys at any times, there are at most 100,000
-- buckets.
pub serve-IsBounded :
    (rate interval now : ℕ) (reqs : List (String × ℕ))
    → length (serve reqs (new_rate_limiter rate interval now)).buckets ≤ 100_000
unfolding new_rate_limiter
serve-IsBounded rate interval now reqs =
    serve-le reqs (new_rate_limiter rate interval now) (omega arith)
