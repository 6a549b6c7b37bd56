-- ===== src/Quota/Bucket.antt =====
-- modules/quota/enforcer.go: the token bucket of requests per minute. Times are nanoseconds; the
-- product of the elapsed time and the capacity is an int64 and wraps around.
use native.Mathlib.Nat.{zero-mul, sub-eq-zero_of_le, add-mul, sub-add_cancel, mul-le-mul_right}
use cyntr.Common.{
  ap, sym, ◌∙◌, subst, ℕ, ◌+◌, ◌-◌, ◌*◌, ◌/◌, ◌%◌, ◌^◌, ◌≤◌, ◌<◌, ◌≡◌, refl, Bool, true, false,
  List, [], ◌∷◌, ltb, if◌then◌else◌, arith, min, Bool-cases, inl, inr, All,
}

abbrev pub minute : ℕ
minute = 60_000_000_000

-- A capacity that is not positive is 0 here.
pub record RateBucket : Type 0 where
  pub tokens : ℕ
  pub capacity : ℕ
  pub last_refill : ℕ

-- int(elapsed * capacity / minute); a product that is negative as an int64 gives no refill.
unfoldable pub refill : ℕ → ℕ → ℕ
refill elapsed capacity =
    let p = elapsed * capacity % 2 ^ 64 in if ltb p (2 ^ 63) then p / minute else 0

abbrev pub refilled : ℕ → RateBucket → RateBucket
refilled now b =
    let n = refill (now - b.last_refill) b.capacity in
    if ltb 0 n then record b { tokens = min (b.tokens + n) b.capacity; last_refill = now } else b

-- The zero time is 0. The second result is when the next token comes, where none is there.
abbrev pub spent : RateBucket → RateBucket × Bool × ℕ
spent b =
    if ltb 0 b.tokens
    then (record b { tokens = b.tokens - 1 }, true, 0)
    else (b, false, b.last_refill + minute / b.capacity)

unfoldable pub allow : ℕ → RateBucket → RateBucket × Bool × ℕ
unfolding refill
allow now b = if ltb 0 b.capacity then spent (refilled now b) else (b, true, 0)

-- How many of a list of calls are allowed.
unfoldable pub passes : List ℕ → RateBucket → ℕ
unfolding allow
passes [] b = 0
passes (now ∷ later) b =
    let r = allow now b in let rest = passes later r.0 in if r.1 then rest + 1 else rest

floor-le : (p : ℕ) → (if ltb (p % 2 ^ 64) (2 ^ 63) then p % 2 ^ 64 / minute else 0) * minute ≤ p
floor-le p = ground arith

refill-le : (elapsed capacity : ℕ) → refill elapsed capacity * minute ≤ elapsed * capacity
unfolding refill
refill-le elapsed capacity = floor-le (elapsed * capacity)

span-mul : (now last c : ℕ) → last ≤ now → (now - last) * c + last * c ≡ now * c
span-mul now last c h = sym (add-mul (now - last) last c) ∙ ap (λ x. x * c) (sub-add_cancel h)

-- A step of the bucket that grants `got`, at a time up to `now`: in the unit of a token per minute of
-- nanoseconds, no span of time is credited twice, and never more is held than the capacity.
record Pays (now got : ℕ) (b b' : RateBucket) : Type 0 where
  capacity : b'.capacity ≡ b.capacity
  pays :
      (got + b'.tokens) * minute + b.last_refill * b.capacity
      ≤ b.tokens * minute + b'.last_refill * b.capacity
  ahead : (until : ℕ) → b.last_refill ≤ until → now ≤ until → b'.last_refill ≤ until

refill-none : (now last c : ℕ) → now ≤ last → refill (now - last) c ≡ 0
unfolding refill
refill-none now last c h =
    subst (λ e. refill e c ≡ 0) (sym (sub-eq-zero_of_le h)) (rw (zero-mul c) refl)

refilled-late :
    (now : ℕ) (b : RateBucket)
    → ltb 0 (refill (now - b.last_refill) b.capacity) ≡ true
    → b.last_refill ≤ now
refilled-late now b t = ground (arith, refill-none now b.last_refill b.capacity)

refilled-Pays : (now : ℕ) (b : RateBucket) → Pays now 0 b (refilled now b)
refilled-Pays now b = record {
  capacity = ground arith;
  pays = elim (Bool-cases (ltb 0 (refill (now - b.last_refill) b.capacity))) [
    | inl t ↦ rw t (
        omega (
          arith,
          refill-le (now - b.last_refill) b.capacity,
          span-mul now b.last_refill b.capacity (refilled-late now b t),
        ))
    | inr f ↦ rw f (omega arith)
  ];
  ahead = λ until h k. ground arith;
}

spent-Pays : (now : ℕ) (b : RateBucket) → Pays now (if (spent b).1 then 1 else 0) b (spent b).0
spent-Pays now b = record {
  capacity = ground arith;
  pays = ground arith;
  ahead = λ until h k. ground arith;
}

Pays-trans :
    (now got : ℕ) (b b' b'' : RateBucket)
    → Pays now 0 b b'
    → Pays now got b' b''
    → Pays now got b b''
Pays-trans now got b b' b'' r s = record {
  capacity = s.capacity ∙ r.capacity;
  pays = omega (
    arith,
    r.pays,
    subst
        (λ k.
          (got + b''.tokens) * minute + b'.last_refill * k
          ≤ b'.tokens * minute + b''.last_refill * k)
        r.capacity s.pays,
  );
  ahead = λ until h k. s.ahead until (r.ahead until h k) k;
}

allow-Pays :
    (now : ℕ) (b : RateBucket)
    → 0 < b.capacity
    → Pays now (if (allow now b).1 then 1 else 0) b (allow now b).0
unfolding allow
allow-Pays now b c = elim (Bool-cases (ltb 0 b.capacity)) [
  | inl t ↦ rw t (
      Pays-trans now _ b (refilled now b) _ (refilled-Pays now b) (spent-Pays now (refilled now b)))
  | inr f ↦ absurd (ground arith)
]

passes-pays :
    (until : ℕ) (times : List ℕ) (b : RateBucket)
    → 0 < b.capacity
    → b.last_refill ≤ until
    → All (λ t. t ≤ until) times
    → passes times b * minute + b.last_refill * b.capacity ≤ b.tokens * minute + until * b.capacity
unfolding passes
passes-pays until [] b c h a = omega (arith, mul-le-mul_right b.capacity h)
passes-pays until (now ∷ times) b c h a =
    let p = allow-Pays now b c in
    let b' = (allow now b).0 in
    let later =
      passes-pays until times b' (subst (λ k. 0 < k) (sym p.capacity) c) (p.ahead until h a.0)
        a.1 in
    ground (
      arith,
      p.pays,
      subst (λ k. passes times b' * minute + b'.last_refill * k ≤ b'.tokens * minute + until * k)
          p.capacity later,
    )

-- Under a positive capacity, calls at any times up to `until`, which is no earlier than the last
-- refill, are allowed at most as often as the bucket held tokens at the start, and once more for each
-- minute / capacity that has passed since its last refill; also where the product overflows, which
-- only costs refills.
pub passes-le :
    (until : ℕ) (times : List ℕ) (b : RateBucket)
    → 0 < b.capacity
    → b.last_refill ≤ until
    → All (λ t. t ≤ until) times
    → passes times b * minute ≤ b.tokens * minute + (until - b.last_refill) * b.capacity
passes-le until times b c h a =
    omega (arith, passes-pays until times b c h a, span-mul until b.last_refill b.capacity h)
