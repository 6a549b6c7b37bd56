-- ===== src/Common/Lists.antt =====
-- Lists measured by native numbers, predicates over lists, and an insertion sort by a key's order.
use Prim.Native.Nat.{ℕ, zero, suc, ◌+◌}
use mathlib.Core.Path.{refl, ◌≡◌, ap, ◌∙◌}
use mathlib.Core.Logic.{◌⊎◌, inl, inr}
use mathlib.Core.Bool.{Bool, true, false}
use mathlib.Core.Path.{subst}
use mathlib.Core.Option.{some-injective}
use mathlib.Core.Option.{Option, none, some}
use mathlib.Core.List.{List, [], ◌∷◌, ◌++◌}
use native.Mathlib.Omega.{arith}
use cyntr.Common.Tests.{if◌then◌else◌, Bool-cases}

module _ {ℓ} {A : Type ℓ} where
  abbrev pub length : List A → ℕ
  length [] = 0
  length (x ∷ xs) = suc (length xs)

  abbrev pub get_elem? : List A → ℕ → Option A
  get_elem? [] i = none
  get_elem? (x ∷ xs) zero = some x
  get_elem? (x ∷ xs) (suc i) = get_elem? xs i

  abbrev pub set : List A → ℕ → A → List A
  set [] i v = []
  set (x ∷ xs) zero v = v ∷ xs
  set (x ∷ xs) (suc i) v = x ∷ set xs i v

  abbrev pub take : ℕ → List A → List A
  take zero xs = []
  take (suc n) [] = []
  take (suc n) (x ∷ xs) = x ∷ take n xs

  abbrev pub drop : ℕ → List A → List A
  drop zero xs = xs
  drop (suc n) [] = []
  drop (suc n) (x ∷ xs) = drop n xs

  -- The entries that a Boolean test keeps, in order.
  unfoldable pub select : (A → Bool) → List A → List A
  select p [] = []
  select p (x ∷ xs) = let rest = select p xs in if p x then x ∷ rest else rest

  unfoldable pub any : (A → Bool) → List A → Bool
  any p [] = false
  any p (x ∷ xs) = if p x then true else any p xs

  abbrev pub All {κ} : (A → Type κ) → List A → Type κ
  All P [] = Unit
  All P (x ∷ xs) = P x × All P xs

module _ {ℓ} {A : Type ℓ} where
  pub length-append : (xs ys : List A) → length (xs ++ ys) ≡ length xs + length ys
  length-append [] ys = omega arith
  length-append (x ∷ xs) ys = omega (arith, length-append xs ys)

module _ {A : Type 0} where
  -- The element stands in the list.
  abbrev pub In : A → List A → Type 0
  In x [] = ⊥
  In x (y ∷ ys) = (x ≡ y) ⊎ In x ys

module _ {A : Type 0} where
  pub In-All : (P : A → Type 0) (x : A) (xs : List A) → All P xs → In x xs → P x
  In-All P x (y ∷ ys) a (inl e) = rw e a.0
  In-All P x (y ∷ ys) a (inr i) = In-All P x ys a.1 i
  In-All P x [] a i = absurd i

  pub In-append_left : (x : A) (xs ys : List A) → In x xs → In x (xs ++ ys)
  In-append_left x (y ∷ xs) ys (inl e) = inl e
  In-append_left x (y ∷ xs) ys (inr h) = inr (In-append_left x xs ys h)
  In-append_left x [] ys h = absurd h

  pub In-append_right : (x : A) (xs ys : List A) → In x ys → In x (xs ++ ys)
  In-append_right x [] ys h = h
  In-append_right x (y ∷ xs) ys h = inr (In-append_right x xs ys h)

  pub In-append-cases : (x : A) (xs ys : List A) → In x (xs ++ ys) → In x xs ⊎ In x ys
  In-append-cases x [] ys h = inr h
  In-append-cases x (y ∷ xs) ys (inl e) = inl (inl e)
  In-append-cases x (y ∷ xs) ys (inr h) = elim (In-append-cases x xs ys h) [
    | inl l ↦ inl (inr l)
    | inr r ↦ inr r
  ]

  pub In-select_keep :
      (p : A → Bool) (x y : A) (ys zs : List A)
      → (In x zs → In x ys × (p x ≡ true))
      → p y ≡ true
      → (x ≡ y) ⊎ In x zs
      → ((x ≡ y) ⊎ In x ys) × (p x ≡ true)
  In-select_keep p x y ys zs ih t (inl e) = (inl e, ap p e ∙ t)
  In-select_keep p x y ys zs ih t (inr i) = (inr (ih i).0, (ih i).1)

  pub In-select : (p : A → Bool) (x : A) (xs : List A) → In x (select p xs) → In x xs × (p x ≡ true)
  unfolding select
  In-select p x [] h = absurd h
  In-select p x (y ∷ ys) h = elim (Bool-cases (p y)) [
    | inl t ↦ In-select_keep p x y ys (select p ys) (In-select p x ys) t (rw t at h)
    | inr f ↦ let r = In-select p x ys (rw f at h) in (inr r.0, r.1)
  ]

  pub select-In : (p : A → Bool) (x : A) (xs : List A) → In x xs → p x ≡ true → In x (select p xs)
  unfolding select
  select-In p x [] h t = absurd h
  select-In p x (y ∷ ys) h t = elim (Bool-cases (p y)) [
    | inl k ↦ rw k (elim h [ inl e ↦ inl e | inr i ↦ inr (select-In p x ys i t) ])
    | inr k ↦ rw k (elim h [ inl e ↦ cc (ap p e) | inr i ↦ select-In p x ys i t ])
  ]

module _ {A : Type 0} (P Q : A → Type 0) where
  pub All-imp : ((x : A) → P x → Q x) → (xs : List A) → All P xs → All Q xs
  All-imp h [] a = tt
  All-imp h (x ∷ xs) a = (h x a.0, All-imp h xs a.1)

  pub All-and : (xs : List A) → All P xs → All Q xs → All (λ x. P x × Q x) xs
  All-and [] a b = tt
  All-and (x ∷ xs) a b = ((a.0, b.0), All-and xs a.1 b.1)

module _ {A : Type 0} (P : A → Type 0) where
  pub All-select : (p : A → Bool) (xs : List A) → All P xs → All P (select p xs)
  unfolding select
  All-select p [] a = tt
  All-select p (x ∷ xs) a = elim (Bool-cases (p x)) [
    | inl t ↦ rw t (a.0, All-select p xs a.1)
    | inr f ↦ rw f (All-select p xs a.1)
  ]

  pub All-take : (n : ℕ) (xs : List A) → All P xs → All P (take n xs)
  All-take zero xs a = tt
  All-take (suc n) [] a = tt
  All-take (suc n) (x ∷ xs) a = (a.0, All-take n xs a.1)

  pub All-append : (xs ys : List A) → All P xs → All P ys → All P (xs ++ ys)
  All-append [] ys a b = b
  All-append (x ∷ xs) ys a b = (a.0, All-append xs ys a.1 b)

  pub All-get : (xs : List A) (i : ℕ) (x : A) → All P xs → get_elem? xs i ≡ some x → P x
  All-get [] i x a h = absurd (cc)
  All-get (y ∷ ys) zero x a h = subst P (some-injective _ _ h) a.0
  All-get (y ∷ ys) (suc i) x a h = All-get ys i x a.1 h

module _ {A : Type 0} where
  pub get_elem?-last : (xs : List A) (x : A) → get_elem? (xs ++ (x ∷ [])) (length xs) ≡ some x
  get_elem?-last [] x = refl
  get_elem?-last (y ∷ xs) x = get_elem?-last xs x
