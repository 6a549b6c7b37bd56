-- ===== src/Common/Dict.antt =====
-- Go's maps as association lists.
use mathlib.Core.Path.{◌≡◌, refl}
use mathlib.Core.Option.{Option, none, some}
use mathlib.Core.List.{List, [], ◌∷◌}
use Prim.Native.Nat.{◌+◌, ◌≤◌}
use mathlib.Core.Logic.{inl, inr}
use cyntr.Common.Lists.{length}
use native.Mathlib.Omega.{arith}
use cyntr.Common.Tests.{if◌then◌else◌, Bool-cases, Option-cases}
use cyntr.Common.Equality.{HasEq, ◌==◌}

abbrev pub Dict {ℓ κ} : Type ℓ → Type κ → Type (ℓ ⊔ κ)
Dict K V = List (K × V)

-- What a round of `range` leaves of a looked-up value.
abbrev pub through {κ} : {V : Type κ} → (V → Option V) → Option V → Option V
through f none = none
through f (some v) = f v

module _ {ℓ κ} {K : Type ℓ} {V : Type κ} ⦃e : HasEq K⦄ where
  -- v, ok := m[k]
  unfoldable pub get : K → Dict K V → Option V
  get k [] = none
  get k ((j, v) ∷ m) = if j == k then some v else get k m

  -- m[k] = v
  unfoldable pub put : K → V → Dict K V → Dict K V
  put k v [] = (k, v) ∷ []
  put k v ((j, w) ∷ m) = if j == k then (j, v) ∷ m else (j, w) ∷ put k v m

  -- delete(m, k)
  unfoldable pub remove : K → Dict K V → Dict K V
  remove k [] = []
  remove k ((j, w) ∷ m) = let rest = remove k m in if j == k then rest else (j, w) ∷ rest

  pub get-put :
      (k j : K) (v : V) (m : Dict K V) → get j (put k v m) ≡ (if k == j then some v else get j m)
  unfolding get put
  get-put k j v [] = refl
  get-put k j v ((i, w) ∷ m) =
      ground (arith, e.equals_iff k j, e.equals_iff i k, e.equals_iff i j, get-put k j v m)

  pub get-remove :
      (k j : K) (m : Dict K V) → get j (remove k m) ≡ (if k == j then none else get j m)
  unfolding get remove
  get-remove k j [] = ground arith
  get-remove k j ((i, w) ∷ m) =
      ground (arith, e.equals_iff k j, e.equals_iff i k, e.equals_iff i j, get-remove k j m)

  -- for k, v := range m { … }, where a round changes the value of its key or deletes the key
  unfoldable pub range : (V → Option V) → Dict K V → Dict K V
  range f [] = []
  range f ((k, v) ∷ m) = let rest = range f m in elim (f v) [ none ↦ rest | some w ↦ (k, w) ∷ rest ]

  -- No key stands twice.
  abbrev pub IsDistinct : Dict K V → Type κ
  IsDistinct [] = Unit
  IsDistinct ((k, v) ∷ m) = (get k m ≡ none) × IsDistinct m

  pub get-range :
      (f : V → Option V) (k : K) (m : Dict K V)
      → IsDistinct m
      → get k (range f m) ≡ through f (get k m)
  unfolding get range
  get-range f k [] d = refl
  get-range f k ((j, v) ∷ m) d = ground (arith, e.equals_iff j k, get-range f k m d.1)

  pub put-IsDistinct : (k : K) (v : V) (m : Dict K V) → IsDistinct m → IsDistinct (put k v m)
  unfolding put get
  put-IsDistinct k v [] d = (refl, tt)
  put-IsDistinct k v ((j, w) ∷ m) d = elim (Bool-cases (e.equals j k)) [
    | inl t ↦ rw t d
    | inr f ↦ rw f (
      ground (arith, get-put k j v m, e.equals_iff k j, e.equals_iff j k),
      put-IsDistinct k v m d.1,
    )
  ]

  pub remove-IsDistinct : (k : K) (m : Dict K V) → IsDistinct m → IsDistinct (remove k m)
  unfolding remove
  remove-IsDistinct k [] d = tt
  remove-IsDistinct k ((j, w) ∷ m) d = elim (Bool-cases (e.equals j k)) [
    | inl t ↦ rw t (remove-IsDistinct k m d.1)
    | inr f ↦ rw f (ground (arith, get-remove k j m), remove-IsDistinct k m d.1)
  ]

  range-none : (f : V → Option V) (k : K) (m : Dict K V) → get k m ≡ none → get k (range f m) ≡ none
  unfolding get range
  range-none f k [] h = refl
  range-none f k ((j, v) ∷ m) h = ground (arith, range-none f k m)

  pub range-IsDistinct : (f : V → Option V) (m : Dict K V) → IsDistinct m → IsDistinct (range f m)
  unfolding range
  range-IsDistinct f [] d = tt
  range-IsDistinct f ((j, v) ∷ m) d = elim (Option-cases (f v)) [
    | inl n ↦ rw (n, range) (range-IsDistinct f m d.1)
    | inr s ↦ rw (s.1, range) (range-none f j m d.0, range-IsDistinct f m d.1)
  ]

  pub length-range : (f : V → Option V) (m : Dict K V) → length (range f m) ≤ length m
  unfolding range
  length-range f [] = omega arith
  length-range f ((j, v) ∷ m) = ground (arith, length-range f m)

  pub length-put : (k : K) (v : V) (m : Dict K V) → length (put k v m) ≤ length m + 1
  unfolding put
  length-put k v [] = omega arith
  length-put k v ((j, w) ∷ m) = ground (arith, length-put k v m)

  -- A key that is there is written in place.
  pub length-put-some :
      (k : K) (v w : V) (m : Dict K V) → get k m ≡ some w → length (put k v m) ≡ length m
  unfolding put get
  length-put-some k v w [] h = cc
  length-put-some k v w ((j, u) ∷ m) h = ground (arith, length-put-some k v w m)
