-- ===== src/RateLimit/Key.antt =====
-- Under which key a request is counted.
use cyntr.Common.{String, ◌≡◌, ◌≢◌, string_eq, str_iff, arith}
use cyntr.RateLimit.{RateLimiter, Headers, before_colon, rate_limit_key}

-- The caller proved its identity, and the key is the tenant of that identity.
pub record Authenticated (mac : String → String → String) (rl : RateLimiter) (h : Headers)
    : Type 0 where
  pub signed : h.identity_sig ≡ mac rl.identity_secret h.identity
  pub key : rate_limit_key mac rl h ≡ before_colon h.identity

-- With a secret set, a request is counted under a key other than the shared "_unauthenticated" only if
-- its signature is the MAC of its identity under the secret, and then under that identity's tenant.
pub rate_limit_key-Authenticated :
    (mac : String → String → String) (rl : RateLimiter) (h : Headers)
    → rl.identity_secret ≢ ""
    → rate_limit_key mac rl h ≢ "_unauthenticated"
    → Authenticated mac rl h
unfolding rate_limit_key
rate_limit_key-Authenticated mac rl h s k = record {
  signed = ground (
    arith,
    str_iff rl.identity_secret "",
    str_iff h.identity_sig (mac rl.identity_secret h.identity),
  );
  key = ground (
    arith,
    str_iff rl.identity_secret "",
    str_iff h.identity_sig (mac rl.identity_secret h.identity),
  );
}
