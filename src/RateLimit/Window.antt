-- ===== src/RateLimit/Window.antt =====
-- How many requests of a tenant are allowed in a span of one interval.
use cyntr.Common.{
  ℕ, ◌+◌, ◌-◌, ◌*◌, ◌≤◌, ◌<◌, String, ◌≡◌, refl, inl, inr, Bool, List, [], ◌∷◌, Option, none, some,
  ltb, ◌==◌, if◌then◌else◌, string_eq, nat_eq, str_iff, arith, All, Bool-cases,
}
use cyntr.Common.Dict.{
  get, put, range, get-put, get-range, through, IsDistinct, put-IsDistinct, range-IsDistinct,
}
use cyntr.RateLimit.{
  Bucket, RateLimiter, keep_fresh, evict_stale, found_or_new, refresh, spend, admit, allow,
}
use cyntr.Common.{◌∙◌}
use cyntr.Common.{subst}

-- How many of a list of requests, each a tenant and the time of its Allow, are allowed for `t`.
unfoldable pub granted : String → List (String × ℕ) → RateLimiter → ℕ
granted t [] rl = 0
granted t ((tenant, now) ∷ rest) rl =
    let (rl', ok) = allow tenant now rl in
    let more = granted t rest rl' in if tenant == t then (if ok then more + 1 else more) else more

abbrev pub Within : ℕ → ℕ → String × ℕ → Type 0
Within start interval (tenant, now) = (start ≤ now) × (now < start + interval)

-- A bucket holds no more than the rate, and if it was last seen before `start` then so was its reset.
abbrev pub BucketOk : ℕ → ℕ → Option Bucket → Type 0
BucketOk start rate none = Unit
BucketOk start rate (some b) = (b.tokens ≤ rate) × (b.last_seen < start → b.last_reset < start)

-- What a tenant may still be granted in the span that begins at `start`.
abbrev potential : ℕ → ℕ → Option Bucket → ℕ
potential start rate none = rate
potential start rate (some b) = if ltb b.last_reset start then b.tokens + rate else b.tokens

module _ (start : ℕ) (t : String) where
  -- The state of the tenant's bucket.
  pub record Fine (rl : RateLimiter) : Type 0 where
    pub distinct : IsDistinct rl.buckets
    pub ok : BucketOk start rl.rate (get t rl.buckets)

  fresh-potential :
      (rate ttl now : ℕ) (o : Option Bucket)
      → now ≤ start + ttl
      → BucketOk start rate o
      → BucketOk start rate (through (keep_fresh ttl now) o)
        × (potential start rate (through (keep_fresh ttl now) o) ≤ potential start rate o)
  unfolding keep_fresh
  fresh-potential rate ttl now none b k = (tt, omega arith)
  fresh-potential rate ttl now (some x) b k = (ground arith, ground arith)

  -- One step that leaves the settings alone and spends `spent` of the tenant's potential.
  record Spends (spent : ℕ) (rl rl' : RateLimiter) : Type 0 where
    fine : Fine rl'
    rate : rl'.rate ≡ rl.rate
    interval : rl'.interval ≡ rl.interval
    pays :
        potential start rl.rate (get t rl'.buckets) + spent
        ≤ potential start rl.rate (get t rl.buckets)

  evict-Spends :
      (now : ℕ) (rl : RateLimiter)
      → now < start + rl.interval
      → Fine rl
      → Spends 0 rl (evict_stale now rl)
  unfolding evict_stale
  evict-Spends now rl w f = elim (Bool-cases (ltb now (rl.last_sweep + rl.interval))) [
    | inl early ↦ rw early (record { fine = f; rate = refl; interval = refl; pays = omega arith })
    | inr due ↦ rw due (
        sweeps
          (fresh-potential rl.rate (2 * rl.interval) now (get t rl.buckets) (omega arith) f.ok))
  ]
    where
      sweeps :
          BucketOk start rl.rate (through (keep_fresh (2 * rl.interval) now) (get t rl.buckets))
            × (potential start rl.rate
                  (through (keep_fresh (2 * rl.interval) now) (get t rl.buckets))
                ≤ potential start rl.rate (get t rl.buckets))
          → Spends 0 rl (record rl {
            buckets = range (keep_fresh (2 * rl.interval) now) rl.buckets;
            last_sweep = now;
          })
      sweeps (ok, le) = record {
        fine = record {
          distinct = range-IsDistinct (keep_fresh (2 * rl.interval) now) rl.buckets f.distinct;
          ok = rw (get-range (keep_fresh (2 * rl.interval) now) t rl.buckets f.distinct) ok;
        };
        rate = refl;
        interval = refl;
        pays =
            rw (get-range (keep_fresh (2 * rl.interval) now) t rl.buckets f.distinct)
              (omega (arith, le));
      }

  abbrev paid : String → Bool → ℕ
  paid tenant ok = if tenant == t then (if ok then 1 else 0) else 0

  refresh-potential :
      (now : ℕ) (rl : RateLimiter) (b : Bucket)
      → start ≤ now
      → now < start + rl.interval
      → b.tokens ≤ rl.rate
      → BucketOk start rl.rate (some (refresh now rl b))
        × (potential start rl.rate (some (refresh now rl b)) ≤ potential start rl.rate (some b))
  unfolding refresh
  refresh-potential now rl b lo hi k = ((ground arith, ground arith), ground arith)

  -- A found bucket is the tenant's, and a new one is what an absent one may still be granted.
  found-potential :
      (now : ℕ) (rl : RateLimiter) (o : Option Bucket) (b : Bucket)
      → start ≤ now
      → found_or_new now rl o ≡ some b
      → BucketOk start rl.rate o
      → (b.tokens ≤ rl.rate) × (potential start rl.rate (some b) ≤ potential start rl.rate o)
  found-potential now rl none b lo e k = (ground arith, ground arith)
  found-potential now rl (some x) b lo e k = (ground arith, ground arith)

  -- A bucket is written that spends `n` if it is the tenant's own.
  write-Spends :
      (tenant : String) (rl : RateLimiter) (b : Bucket) (n : ℕ)
      → Fine rl
      → (tenant ≡ t
          → BucketOk start rl.rate (some b)
            × (potential start rl.rate (some b) + n ≤ potential start rl.rate (get t rl.buckets)))
      → Spends (if tenant == t then n else 0) rl (record rl { buckets = put tenant b rl.buckets })
  write-Spends tenant rl b n f k = elim (Bool-cases (tenant == t)) [
    | inl own ↦
        let (ok, le) = k ((str_iff tenant t).0 own) in
        record {
          fine = record {
            distinct = put-IsDistinct tenant b rl.buckets f.distinct;
            ok = rw get-put (rw own ok);
          };
          rate = refl;
          interval = refl;
          pays = rw get-put (rw own le);
        }
    | inr other ↦ record {
      fine = record {
        distinct = put-IsDistinct tenant b rl.buckets f.distinct;
        ok = rw get-put (rw other f.ok);
      };
      rate = refl;
      interval = refl;
      pays = rw get-put (rw other (omega arith));
    }
  ]

  spend-Spends :
      (tenant : String) (rl : RateLimiter) (b : Bucket)
      → Fine rl
      → (tenant ≡ t
          → BucketOk start rl.rate (some b)
            × (potential start rl.rate (some b) ≤ potential start rl.rate (get t rl.buckets)))
      → Spends (paid tenant (spend tenant b rl).1) rl (spend tenant b rl).0
  spend-Spends tenant rl b f k = elim (Bool-cases (b.tokens == 0)) [
    | inl z ↦ rw z (write-Spends tenant rl b 0 f (λ e. ((k e).0, omega (arith, (k e).1))))
    | inr z ↦ rw z (
        write-Spends tenant rl (record b { tokens = b.tokens - 1 }) 1 f
          (λ e. ((ground (arith, (k e).0), (k e).0.1), ground (arith, (k e).1, z))))
  ]

  admit-Spends :
      (tenant : String) (now : ℕ) (rl : RateLimiter) (o : Option Bucket)
      → start ≤ now
      → now < start + rl.interval
      → Fine rl
      → (tenant ≡ t
          → (b : Bucket) → o ≡ some b
          → (b.tokens ≤ rl.rate)
            × (potential start rl.rate (some b) ≤ potential start rl.rate (get t rl.buckets)))
      → Spends (paid tenant (admit tenant now rl o).1) rl (admit tenant now rl o).0
  admit-Spends tenant now rl none lo hi f k = record {
    fine = f;
    rate = refl;
    interval = refl;
    pays = ground arith;
  }
  admit-Spends tenant now rl (some b) lo hi f k = spend-Spends tenant rl (refresh now rl b) f (λ e.
      let (c, le) = k e b refl in
      let (ok, le') = refresh-potential now rl b lo hi c in (ok, omega (arith, le, le')))

  allow-Spends :
      (tenant : String) (now : ℕ) (rl : RateLimiter)
      → start ≤ now
      → now < start + rl.interval
      → Fine rl
      → Spends (paid tenant (allow tenant now rl).1) rl (allow tenant now rl).0
  unfolding allow
  allow-Spends tenant now rl lo hi f =
      let sw = evict_stale now rl in
      let e = evict-Spends now rl hi f in
      let a =
        admit-Spends tenant now sw (found_or_new now sw (get tenant sw.buckets)) lo
          (rw e.interval hi) e.fine
          (λ own b g. found-potential now sw (get t sw.buckets) b lo (rw own at g) e.fine.ok) in
      let out = allow tenant now rl in
      let pays' =
        subst
          (λ (r : ℕ).
            potential start r (get t out.0.buckets) + paid tenant out.1
            ≤ potential start r (get t sw.buckets))
          e.rate a.pays in
      record {
        fine = a.fine;
        rate = a.rate ∙ e.rate;
        interval = a.interval ∙ e.interval;
        pays = omega (arith, pays', e.pays);
      }

  granted-potential :
      (reqs : List (String × ℕ)) (rl : RateLimiter)
      → All (Within start rl.interval) reqs
      → Fine rl
      → granted t reqs rl ≤ potential start rl.rate (get t rl.buckets)
  unfolding granted
  granted-potential [] rl w f = omega arith
  granted-potential ((tenant, now) ∷ rest) rl (w, ws) f =
      let s = allow-Spends tenant now rl w.0 w.1 f in
      let more =
        rw s.rate at (granted-potential rest (allow tenant now rl).0 (rw s.interval ws) s.fine) in
      ground (arith, more, s.pays)

  potential-le :
      (rate : ℕ) (o : Option Bucket) → BucketOk start rate o → potential start rate o ≤ 2 * rate
  potential-le rate none k = omega arith
  potential-le rate (some b) k = ground arith

  -- In any span of one interval, requests of any tenants arriving at any times in it, a tenant is
  -- allowed at most twice the configured rate, where its bucket held no more than the rate before and
  -- was not reset later than it was last used.
  pub granted-le :
      (reqs : List (String × ℕ)) (rl : RateLimiter)
      → All (Within start rl.interval) reqs
      → Fine rl
      → granted t reqs rl ≤ 2 * rl.rate
  granted-le reqs rl w f =
      omega (arith, granted-potential reqs rl w f, potential-le rl.rate (get t rl.buckets) f.ok)
