-- ===== src/Common/Order.antt =====
-- Insertion sort by a Boolean comparison, which stands for Go's `sort.Slice` and SQL's `ORDER BY`:
-- equal elements keep their order, one of the outcomes that those allow.
use mathlib.Core.Path.{◌≡◌}
use mathlib.Core.Logic.{◌⊎◌, inl, inr}
use mathlib.Core.Bool.{Bool, true, false}
use mathlib.Core.List.{List, [], ◌∷◌, Perm}
use mathlib.Core.List.Perm
use cyntr.Common.Tests.{if◌then◌else◌, Bool-cases}
use cyntr.Common.Lists.{In, All}

module _ {A : Type 0} (less : A → A → Bool) where
  -- The new element goes in front of the first one that is not before it.
  unfoldable pub insert_by : A → List A → List A
  insert_by x [] = x ∷ []
  insert_by x (y ∷ ys) = let rest = insert_by x ys in if less y x then y ∷ rest else x ∷ y ∷ ys

  unfoldable pub sort_by : List A → List A
  sort_by [] = []
  sort_by (x ∷ xs) = insert_by x (sort_by xs)

  -- No later element is before an earlier one.
  abbrev pub IsSorted : List A → Type 0
  IsSorted [] = Unit
  IsSorted (x ∷ xs) = All (λ y. less y x ≡ false) xs × IsSorted xs

  pub insert_by-perm : (x : A) (xs : List A) → Perm (insert_by x xs) (x ∷ xs)
  unfolding insert_by
  insert_by-perm x [] = Perm.refl (x ∷ [])
  insert_by-perm x (y ∷ ys) = elim (Bool-cases (less y x)) [
    | inl t ↦ rw t (Perm.trans (Perm.cons y (insert_by-perm x ys)) (Perm.swap x y ys))
    | inr f ↦ rw f (Perm.refl (x ∷ y ∷ ys))
  ]

  pub sort_by-perm : (xs : List A) → Perm (sort_by xs) xs
  unfolding sort_by
  sort_by-perm [] = Perm.refl []
  sort_by-perm (x ∷ xs) = Perm.trans (insert_by-perm x (sort_by xs)) (Perm.cons x (sort_by-perm xs))

  insert_by-In : (x z : A) (xs : List A) → In z (insert_by x xs) → (z ≡ x) ⊎ In z xs
  unfolding insert_by
  insert_by-In x z [] (inl h) = inl h
  insert_by-In x z [] (inr h) = absurd h
  insert_by-In x z (y ∷ ys) h = elim (Bool-cases (less y x)) [
    | inl t ↦ elim (rw (t, insert_by) at h) [
      | inl e ↦ inr (inl e)
      | inr i ↦ elim (insert_by-In x z ys i) [ inl e ↦ inl e | inr k ↦ inr (inr k) ]
    ]
    | inr f ↦ rw (f, insert_by) at h
  ]

  In-insert_by : (x z : A) (xs : List A) → (z ≡ x) ⊎ In z xs → In z (insert_by x xs)
  unfolding insert_by
  In-insert_by x z [] h = h
  In-insert_by x z (y ∷ ys) h = elim (Bool-cases (less y x)) [
    | inl t ↦ rw t (elim h [
      | inl e ↦ inr (In-insert_by x z ys (inl e))
      | inr (inl e) ↦ inl e
      | inr (inr i) ↦ inr (In-insert_by x z ys (inr i))
    ])
    | inr f ↦ rw f h
  ]

  pub sort_by-In : (z : A) (xs : List A) → In z (sort_by xs) → In z xs
  unfolding sort_by
  sort_by-In z [] h = h
  sort_by-In z (x ∷ xs) h = elim (insert_by-In x z (sort_by xs) h) [
    | inl e ↦ inl e
    | inr i ↦ inr (sort_by-In z xs i)
  ]

  pub In-sort_by : (z : A) (xs : List A) → In z xs → In z (sort_by xs)
  unfolding sort_by
  In-sort_by z [] h = h
  In-sort_by z (x ∷ xs) (inl e) = In-insert_by x z (sort_by xs) (inl e)
  In-sort_by z (x ∷ xs) (inr i) = In-insert_by x z (sort_by xs) (inr (In-sort_by z xs i))

  insert_by-All : (P : A → Type 0) (x : A) (xs : List A) → P x → All P xs → All P (insert_by x xs)
  unfolding insert_by
  insert_by-All P x [] h a = (h, tt)
  insert_by-All P x (y ∷ ys) h a = elim (Bool-cases (less y x)) [
    | inl t ↦ rw t (a.0, insert_by-All P x ys h a.1)
    | inr f ↦ rw f (h, a)
  ]

  pub sort_by-All : (P : A → Type 0) (xs : List A) → All P xs → All P (sort_by xs)
  unfolding sort_by
  sort_by-All P [] a = tt
  sort_by-All P (x ∷ xs) a = insert_by-All P x (sort_by xs) a.0 (sort_by-All P xs a.1)

  -- The comparison is irreflexive and its complement transitive, as Go asks of `less`.
  module _ (asym : (x y : A) → less x y ≡ true → less y x ≡ false)
      (trans : (x y z : A) → less y x ≡ false → less z y ≡ false → less z x ≡ false) where
    All-trans :
        (x y : A) (ys : List A)
        → less y x ≡ false
        → All (λ z. less z y ≡ false) ys
        → All (λ z. less z x ≡ false) ys
    All-trans x y [] h a = tt
    All-trans x y (z ∷ ys) h a = (trans x y z h a.0, All-trans x y ys h a.1)

    All-insert_by :
        (b x : A) (ys : List A)
        → less x b ≡ false
        → All (λ z. less z b ≡ false) ys
        → All (λ z. less z b ≡ false) (insert_by x ys)
    unfolding insert_by
    All-insert_by b x [] h a = (h, tt)
    All-insert_by b x (y ∷ ys) h a = elim (Bool-cases (less y x)) [
      | inl t ↦ rw t (a.0, All-insert_by b x ys h a.1)
      | inr f ↦ rw f (h, a)
    ]

    insert_by-IsSorted : (x : A) (ys : List A) → IsSorted ys → IsSorted (insert_by x ys)
    unfolding insert_by
    insert_by-IsSorted x [] s = (tt, tt)
    insert_by-IsSorted x (y ∷ ys) s = elim (Bool-cases (less y x)) [
      | inl t ↦ rw t (All-insert_by y x ys (asym y x t) s.0, insert_by-IsSorted x ys s.1)
      | inr f ↦ rw f ((f, All-trans x y ys f s.0), s)
    ]

    pub sort_by-IsSorted : (xs : List A) → IsSorted (sort_by xs)
    unfolding sort_by
    sort_by-IsSorted [] = tt
    sort_by-IsSorted (x ∷ xs) = insert_by-IsSorted x (sort_by xs) (sort_by-IsSorted xs)
