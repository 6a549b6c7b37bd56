-- ===== src/RateLimit.antt =====
-- modules/proxy/ratelimit.go: the per-tenant limiter of the proxy. Times and intervals are nanoseconds
-- of a clock that does not run backwards; each Allow reads it once.
mod Examples
pub mod Window
pub mod Reach
pub mod Capacity
pub mod Key
use cyntr.Common.{
  ℕ, ◌+◌, ◌-◌, ◌*◌, String, Bool, true, false, List, [], ◌∷◌, Option, none, some, ltb, leb, ◌==◌,
  if◌then◌else◌, string_eq, nat_eq, length,
}
use cyntr.Common.Dict.{Dict, get, put, range}
use Prim.Native.Char.{code}

abbrev pub max_rate_limit_buckets : ℕ
max_rate_limit_buckets = 100_000

pub record Bucket : Type 0 where
  pub tokens : ℕ
  pub last_reset : ℕ
  pub last_seen : ℕ

pub record RateLimiter : Type 0 where
  pub buckets : Dict String Bucket
  pub rate : ℕ
  pub interval : ℕ
  pub identity_secret : String
  pub last_sweep : ℕ

unfoldable pub new_rate_limiter : ℕ → ℕ → ℕ → RateLimiter
new_rate_limiter rate interval now = record {
  buckets = [];
  rate = rate;
  interval = interval;
  identity_secret = "";
  last_sweep = now;
}

unfoldable pub set_identity_secret : String → RateLimiter → RateLimiter
set_identity_secret secret rl = record rl { identity_secret = secret }

-- One round of the loop of evictStaleLocked.
unfoldable pub keep_fresh : ℕ → ℕ → Bucket → Option Bucket
keep_fresh ttl now b = if ltb (b.last_seen + ttl) now then none else some b

unfoldable pub evict_stale : ℕ → RateLimiter → RateLimiter
evict_stale now rl = if ltb now (rl.last_sweep + rl.interval) then rl else record rl {
  buckets = range (keep_fresh (2 * rl.interval) now) rl.buckets;
  last_sweep = now;
}

-- The bucket that Allow finds or makes; `none` where the map is at capacity.
abbrev pub found_or_new : ℕ → RateLimiter → Option Bucket → Option Bucket
found_or_new now rl (some b) = some b
found_or_new now rl none =
    if leb max_rate_limit_buckets (length rl.buckets)
    then none
    else some (record { tokens = rl.rate; last_reset = now; last_seen = 0 })

-- `lastSeen = now`, and the reset of a window that is over.
unfoldable pub refresh : ℕ → RateLimiter → Bucket → Bucket
refresh now rl b =
    if leb (b.last_reset + rl.interval) now
    then record { tokens = rl.rate; last_reset = now; last_seen = now }
    else record b { last_seen = now }

abbrev pub spend : String → Bucket → RateLimiter → RateLimiter × Bool
spend tenant b rl =
    if b.tokens == 0
    then (record rl { buckets = put tenant b rl.buckets }, false)
    else (record rl { buckets = put tenant (record b { tokens = b.tokens - 1 }) rl.buckets }, true)

abbrev pub admit : String → ℕ → RateLimiter → Option Bucket → RateLimiter × Bool
admit tenant now rl none = (rl, false)
admit tenant now rl (some b) = spend tenant (refresh now rl b) rl

unfoldable pub allow : String → ℕ → RateLimiter → RateLimiter × Bool
allow tenant now rl =
    let swept = evict_stale now rl in
    admit tenant now swept (found_or_new now swept (get tenant swept.buckets))

-- The headers that rateLimitKey reads.
pub record Headers : Type 0 where
  pub identity : String
  pub identity_sig : String
  pub tenant : String

-- The part of strings.Cut(identity, ":") before the separator.
unfoldable pub before_colon : String → String
before_colon String.[] = String.[]
before_colon (String.◌∷◌ c s) = if code c == b':' then String.[] else String.◌∷◌ c (before_colon s)

-- rateLimitKey; `mac` is the hexadecimal HMAC-SHA256 of a text under a key, which is Go's.
unfoldable pub rate_limit_key : (String → String → String) → RateLimiter → Headers → String
unfolding before_colon
rate_limit_key mac rl h =
    if rl.identity_secret == ""
    then (if h.tenant == "" then "_anonymous" else h.tenant)
    else if h.identity == ""
    then "_unauthenticated"
    else if h.identity_sig == ""
    then "_unauthenticated"
    else if h.identity_sig == mac rl.identity_secret h.identity
    then (if before_colon h.identity == "" then "_unauthenticated" else before_colon h.identity)
    else "_unauthenticated"

-- Middleware: whether the next handler is called, or 429 is answered.
unfoldable pub middleware :
    (String → String → String) → ℕ → Headers → RateLimiter → RateLimiter × Bool
middleware mac now h rl = allow (rate_limit_key mac rl h) now rl
