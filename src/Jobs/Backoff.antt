-- ===== src/Jobs/Backoff.antt =====
-- defaultBackoff of kernel/jobs/queue.go, on Go's int64 durations.
use cyntr.Common.{
  ℕ, zero, suc, ◌*◌, ◌%◌, ◌^◌, ◌<◌, ◌≡◌, refl, Bool, true, ◌||◌, leb, ltb, if◌then◌else◌, nat_eq,
  arith, min, inl, inr, nat_beq, nat_beq_iff, Bool-cases,
}
use cyntr.Common.Int.{ℤ, pos, negsuc, ltb_ℤ}
use Prim.Native.Nat.{◌-◌}
use native.Mathlib.Nat.{pow-suc}
use cyntr.Common.{leb→le}
use cyntr.Common.{not}
use cyntr.Common.{false}

abbrev pub second : ℕ
second = 1_000_000_000

abbrev pub minute : ℕ
minute = 60_000_000_000

-- The int64 of a bit pattern.
unfoldable pub to_int64 : ℕ → ℤ
to_int64 w = if ltb w (2 ^ 63) then pos w else negsuc (2 ^ 64 - 1 - w)

-- x << n on a 64-bit pattern: bits that leave the word are lost, and from 64 on all are.
unfoldable pub shl64 : ℕ → ℕ → ℕ
shl64 x n = if leb 64 n then 0 else x * 2 ^ n % 2 ^ 64

-- `d > time.Minute || d <= 0`
abbrev pub out_of_range : ℤ → Bool
out_of_range d = ltb_ℤ (pos minute) d || not (ltb_ℤ (pos 0) d)

abbrev pub to_duration : ℤ → ℕ
to_duration (pos n) = n
to_duration (negsuc n) = 0

unfoldable pub default_backoff : ℕ → ℕ
unfolding shl64 to_int64
default_backoff attempt =
    let d = to_int64 (shl64 second attempt) in if out_of_range d then minute else to_duration d

module _ (f g : ℕ → ℕ) where
  -- The functions agree on the numbers below a bound, by evaluation.
  agree : ℕ → Bool
  agree zero = true
  agree (suc bound) = if nat_beq (f bound) (g bound) then agree bound else false

  agree-eq : (bound i : ℕ) → i < bound → agree bound ≡ true → f i ≡ g i
  unfolding agree
  agree-eq zero i less e = absurd (omega arith)
  agree-eq (suc bound) i less e = ground (arith, agree-eq bound i, nat_beq_iff (f bound) (g bound))

abbrev capped : ℕ → ℕ
capped a = min minute (second * 2 ^ a)

backoff_table : agree default_backoff capped 64 ≡ true
unfolding agree default_backoff
backoff_table = refl

lt-pow : (a : ℕ) → a < 2 ^ a
lt-pow zero = omega arith
lt-pow (suc a) = omega (arith, lt-pow a, pow-suc 2 a)

-- For every attempt number, also where the 64-bit shift overflows, the delay is the smaller of a
-- minute and 2 ^ attempt seconds.
pub default_backoff_lem :
    (attempt : ℕ) → default_backoff attempt ≡ min minute (second * 2 ^ attempt)
unfolding default_backoff
default_backoff_lem attempt = elim (Bool-cases (leb 64 attempt)) [
  | inl big ↦ rw big (omega (arith, lt-pow attempt, leb→le 64 attempt big))
  | inr small ↦ agree-eq default_backoff capped 64 attempt (ground arith) backoff_table
]
