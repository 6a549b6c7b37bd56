-- ===== src/Jobs/Inflight.antt =====
-- The map of running jobs per tenant: how many jobs each tenant, and all of them, run.
use cyntr.Common.{
  ℕ, ◌+◌, ◌-◌, ◌<◌, String, ◌≡◌, refl, Option, none, some, [], ◌∷◌, ◌==◌, if◌then◌else◌, string_eq,
  str_iff, arith, ltb, nat_eq, Bool-cases, inl, inr,
}
use cyntr.Common.Dict.{
  Dict, get, put, remove, get-put, get-remove, IsDistinct, put-IsDistinct, remove-IsDistinct,
}

abbrev pub count_or_zero : Option ℕ → ℕ
count_or_zero none = 0
count_or_zero (some n) = n

-- q.inflight[tenant]
unfoldable pub running_of : String → Dict String ℕ → ℕ
running_of t m = count_or_zero (get t m)

-- The loop of lease that sums the map.
unfoldable pub used : Dict String ℕ → ℕ
used [] = 0
used ((t, n) ∷ m) = n + used m

-- q.inflight[tenant]++
unfoldable pub reserve : String → Dict String ℕ → Dict String ℕ
unfolding running_of
reserve t m = put t (running_of t m + 1) m

-- The decrement of lease and run, which deletes a count that reaches 0.
unfoldable pub release : String → Dict String ℕ → Dict String ℕ
unfolding running_of
release t m =
    let n = running_of t m in
    if ltb 0 n then (if n - 1 == 0 then remove t m else put t (n - 1) m) else m

pub running_of-reserve :
    (t j : String) (m : Dict String ℕ)
    → running_of j (reserve t m) ≡ (if t == j then running_of t m + 1 else running_of j m)
unfolding reserve
running_of-reserve t j m = ground (arith, get-put t j (count_or_zero (get t m) + 1) m)

pub running_of-same : (t j : String) (m : Dict String ℕ) → t ≡ j → running_of t m ≡ running_of j m
running_of-same t j m e = rw e

pub running_of-release :
    (t j : String) (m : Dict String ℕ)
    → running_of j (release t m) ≡ (if t == j then running_of t m - 1 else running_of j m)
unfolding release
running_of-release t j m = ground (
  arith,
  get-put t j (count_or_zero (get t m) - 1) m,
  get-remove t j m,
  str_iff t j,
  running_of-same t j m,
)

used-put : (t : String) (n : ℕ) (m : Dict String ℕ) → used (put t n m) + running_of t m ≡ used m + n
unfolding put running_of used get
used-put t n [] = omega arith
used-put t n ((j, k) ∷ m) = ground (arith, used-put t n m)

used-remove-none : (t : String) (m : Dict String ℕ) → get t m ≡ none → used (remove t m) ≡ used m
unfolding remove used get
used-remove-none t [] h = refl
used-remove-none t ((j, k) ∷ m) h = ground (arith, used-remove-none t m)

used-remove :
    (t : String) (m : Dict String ℕ) → IsDistinct m → used (remove t m) + running_of t m ≡ used m
unfolding remove used running_of get
used-remove t [] d = refl
used-remove t ((j, k) ∷ m) d =
    ground (arith, used-remove t m d.1, used-remove-none t m, str_iff j t)

pub used-reserve : (t : String) (m : Dict String ℕ) → used (reserve t m) ≡ used m + 1
unfolding reserve
used-reserve t m = omega (arith, used-put t (running_of t m + 1) m)

pub used-release :
    (t : String) (m : Dict String ℕ)
    → IsDistinct m
    → 0 < running_of t m
    → used (release t m) + 1 ≡ used m
unfolding release
used-release t m d h = ground (arith, used-put t (count_or_zero (get t m) - 1) m, used-remove t m d)

pub reserve-IsDistinct : (t : String) (m : Dict String ℕ) → IsDistinct m → IsDistinct (reserve t m)
unfolding reserve
reserve-IsDistinct t m d = put-IsDistinct t (count_or_zero (get t m) + 1) m d

pub release-IsDistinct : (t : String) (m : Dict String ℕ) → IsDistinct m → IsDistinct (release t m)
unfolding release
release-IsDistinct t m d = elim (Bool-cases (ltb 0 (count_or_zero (get t m)))) [
  | inl p ↦ rw p (elim (Bool-cases (count_or_zero (get t m) - 1 == 0)) [
    | inl z ↦ rw z (remove-IsDistinct t m d)
    | inr z ↦ rw z (put-IsDistinct t _ m d)
  ])
  | inr p ↦ rw p d
]
