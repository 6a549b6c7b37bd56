-- ===== src/RateLimit/Reach.antt =====
-- From a new limiter on: how many requests of a tenant are allowed in a span of one interval.
use cyntr.Common.{
  ℕ, ◌+◌, ◌-◌, ◌*◌, ◌≤◌, String, ◌≡◌, refl, sym, ap, ◌∙◌, subst, inl, inr, List, [], ◌∷◌, Option,
  none, some, ltb, ◌==◌, string_eq, nat_eq, str_iff, arith, All, Bool-cases, Option-cases,
}
use cyntr.Common.Dict.{
  get, put, get-put, get-range, through, IsDistinct, put-IsDistinct, range-IsDistinct,
}
use cyntr.RateLimit.{
  Bucket, RateLimiter, keep_fresh, evict_stale, found_or_new, refresh, admit, allow,
  new_rate_limiter,
}
use cyntr.RateLimit.Window.{granted, Within, Fine, granted-le}
use cyntr.RateLimit.Capacity.{serve}

-- No bucket holds more than the rate, or was reset after its last use, or used in the future.
abbrev SteadyBucket : ℕ → ℕ → Option Bucket → Type 0
SteadyBucket clock rate none = Unit
SteadyBucket clock rate (some b) =
    (b.tokens ≤ rate) × (b.last_reset ≤ b.last_seen) × (b.last_seen ≤ clock)

record Steady (clock : ℕ) (t : String) (rl : RateLimiter) : Type 0 where
  distinct : IsDistinct rl.buckets
  ok : SteadyBucket clock rl.rate (get t rl.buckets)

fresh-Steady :
    (ttl now clock rate : ℕ) (o : Option Bucket)
    → SteadyBucket clock rate o
    → SteadyBucket clock rate (through (keep_fresh ttl now) o)
unfolding keep_fresh
fresh-Steady ttl now clock rate none s = tt
fresh-Steady ttl now clock rate (some b) s = elim (Bool-cases (ltb (b.last_seen + ttl) now)) [
  | inl y ↦ rw y tt
  | inr n ↦ rw n s
]

evict-Steady :
    (now clock : ℕ) (t : String) (rl : RateLimiter)
    → Steady clock t rl
    → Steady clock t (evict_stale now rl)
unfolding evict_stale
evict-Steady now clock t rl s = elim (Bool-cases (ltb now (rl.last_sweep + rl.interval))) [
  | inl y ↦ rw y s
  | inr n ↦ rw n (record {
    distinct = range-IsDistinct (keep_fresh (2 * rl.interval) now) rl.buckets s.distinct;
    ok =
        rw (get-range (keep_fresh (2 * rl.interval) now) t rl.buckets s.distinct)
          (fresh-Steady (2 * rl.interval) now clock rl.rate (get t rl.buckets) s.ok);
  })
]

later :
    (clock now rate : ℕ) (o : Option Bucket)
    → clock ≤ now
    → SteadyBucket clock rate o
    → SteadyBucket now rate o
later clock now rate none h s = tt
later clock now rate (some b) h s = (s.0, s.1, omega (arith, s.2, h))

refreshed :
    (clock now : ℕ) (rl : RateLimiter) (o : Option Bucket) (b : Bucket)
    → clock ≤ now
    → SteadyBucket clock rl.rate o
    → found_or_new now rl o ≡ some b
    → SteadyBucket now rl.rate (some (refresh now rl b))
unfolding refresh
refreshed clock now rl none b h s e = (ground arith, ground arith, ground arith)
refreshed clock now rl (some x) b h s e =
    (ground (arith, s.0), ground (arith, s.1, s.2), ground arith)

write-Steady :
    (now : ℕ) (t tenant : String) (rl : RateLimiter) (b : Bucket)
    → Steady now t rl
    → (tenant ≡ t → SteadyBucket now rl.rate (some b))
    → Steady now t (record rl { buckets = put tenant b rl.buckets })
write-Steady now t tenant rl b s k = record {
  distinct = put-IsDistinct tenant b rl.buckets s.distinct;
  ok = elim (Bool-cases (tenant == t)) [
    | inl y ↦ rw (get-put tenant t b rl.buckets) (rw y (k ((str_iff tenant t).0 y)))
    | inr n ↦ rw (get-put tenant t b rl.buckets) (rw n s.ok)
  ];
}

admit-Steady :
    (now : ℕ) (t tenant : String) (rl : RateLimiter) (o : Option Bucket)
    → Steady now t rl
    → (tenant ≡ t → (b : Bucket) → o ≡ some b → SteadyBucket now rl.rate (some (refresh now rl b)))
    → Steady now t (admit tenant now rl o).0
admit-Steady now t tenant rl none s k = s
admit-Steady now t tenant rl (some b) s k = elim (Bool-cases ((refresh now rl b).tokens == 0)) [
  | inl z ↦ rw z (write-Steady now t tenant rl (refresh now rl b) s (λ e. k e b refl))
  | inr z ↦ rw z (
      write-Steady now t tenant rl
        (record (refresh now rl b) { tokens = (refresh now rl b).tokens - 1 }) s
        (λ e. let r = k e b refl in (omega (arith, r.0), r.1, r.2)))
]

allow-Steady :
    (clock now : ℕ) (t tenant : String) (rl : RateLimiter)
    → clock ≤ now
    → Steady clock t rl
    → Steady now t (allow tenant now rl).0
unfolding allow
allow-Steady clock now t tenant rl h s =
    let sw = evict_stale now rl in
    let v = evict-Steady now clock t rl s in
    admit-Steady now t tenant sw (found_or_new now sw (get tenant sw.buckets))
      (record { distinct = v.distinct; ok = later clock now sw.rate (get t sw.buckets) h v.ok })
      (λ own b e.
        refreshed clock now sw (get t sw.buckets) b h v.ok
          (ap (λ x. found_or_new now sw (get x sw.buckets)) (sym own) ∙ e))

allow-settings :
    (tenant : String) (now : ℕ) (rl : RateLimiter)
    → ((allow tenant now rl).0.rate ≡ rl.rate) × ((allow tenant now rl).0.interval ≡ rl.interval)
unfolding allow evict_stale
allow-settings tenant now rl = (ground arith, ground arith)

-- The times of the requests do not go back.
abbrev pub Rising : ℕ → List (String × ℕ) → Type 0
Rising clock [] = Unit
Rising clock ((tenant, now) ∷ rest) = (clock ≤ now) × Rising now rest

record Served (t : String) (rate interval : ℕ) (rl : RateLimiter) : Type 0 where
  clock : ℕ
  steady : Steady clock t rl
  rate_kept : rl.rate ≡ rate
  interval_kept : rl.interval ≡ interval

serve-Served :
    (t : String) (clock : ℕ) (reqs : List (String × ℕ)) (rl : RateLimiter)
    → Rising clock reqs
    → Steady clock t rl
    → Served t rl.rate rl.interval (serve reqs rl)
unfolding serve
serve-Served t clock [] rl r s = record {
  clock = clock;
  steady = s;
  rate_kept = refl;
  interval_kept = refl;
}
serve-Served t clock ((tenant, now) ∷ rest) rl r s =
    let v =
      serve-Served t now rest (allow tenant now rl).0 r.1
        (allow-Steady clock now t tenant rl r.0 s) in
    let k = allow-settings tenant now rl in
    record {
      clock = v.clock;
      steady = v.steady;
      rate_kept = v.rate_kept ∙ k.0;
      interval_kept = v.interval_kept ∙ k.1;
    }

Steady-Fine :
    (start clock : ℕ) (t : String) (rl : RateLimiter) → Steady clock t rl → Fine start t rl
Steady-Fine start clock t rl s = record {
  distinct = s.distinct;
  ok = elim (Option-cases (get t rl.buckets)) [
    | inl n ↦ rw n tt
    | inr (b, g) ↦ rw g (let r = rw g at s.ok in (r.0, λ h. omega (arith, h, r.1)))
  ];
}

-- From a new limiter, after any requests at times that do not go back, a tenant is allowed at most
-- twice the configured rate in any span of one interval, whatever requests arrive in it.
pub serve-granted :
    (rate interval now start : ℕ) (t : String) (earlier reqs : List (String × ℕ))
    → Rising now earlier
    → All (Within start interval) reqs
    → granted t reqs (serve earlier (new_rate_limiter rate interval now)) ≤ 2 * rate
unfolding new_rate_limiter get
serve-granted rate interval now start t earlier reqs r w =
    let v =
      serve-Served t now earlier (new_rate_limiter rate interval now) r
        (record { distinct = tt; ok = tt }) in
    let rl = serve earlier (new_rate_limiter rate interval now) in
    subst (λ n. granted t reqs rl ≤ 2 * n) v.rate_kept
      (granted-le start t reqs rl (subst (λ n. All (Within start n) reqs) (sym v.interval_kept) w)
        (Steady-Fine start v.clock t rl v.steady))
