-- ===== src/Kernel/Order.antt =====
-- kernel/kernel.go: topoSort. Its graph gives each module, by position, the modules that depend on it.
pub mod Relax
pub mod Drain
pub mod Build
pub mod Sorted
pub mod Fuel
use mathlib.Core.Option.{some-injective}
use cyntr.Common.{
  ℕ, zero, suc, ◌+◌, ◌-◌, ◌≤◌, ◌<◌, ◌≡◌, ◌≢◌, refl, sym, ap, ◌∙◌, subst, Bool, true, false, List,
  [], ◌∷◌, ◌++◌, Option, none, some, ◌==◌, if◌then◌else◌, nat_eq, get_elem?, length, arith, In, any,
  Bool-cases, inl, inr, nat_beq_iff, In-append_left, In-append_right, In-append-cases, ◌⊎◌,
}
use cyntr.Kernel.{edges_of}

unfoldable pub count_of : ℕ → List ℕ → ℕ
count_of x [] = 0
count_of x (y ∷ ys) = let rest = count_of x ys in if y == x then suc rest else rest

unfoldable pub mem : ℕ → List ℕ → Bool
mem x [] = false
mem x (y ∷ ys) = if y == x then true else mem x ys

-- The edges into x from modules, counted from position d on, that are not in the order.
unfoldable pub missing : ℕ → List ℕ → ℕ → List (List ℕ) → ℕ
unfolding count_of mem
missing x order d [] = 0
missing x order d (l ∷ ls) =
    let rest = missing x order (suc d) ls in if mem d order then rest else count_of x l + rest

-- No number stands twice.
abbrev pub Nodup : List ℕ → Type 0
Nodup [] = Unit
Nodup (x ∷ xs) = (mem x xs ≡ false) × Nodup xs

pub mem-append_one :
    (x y : ℕ) (xs : List ℕ) → mem x (xs ++ (y ∷ [])) ≡ (if mem x xs then true else y == x)
unfolding mem
mem-append_one x y [] = ground arith
mem-append_one x y (z ∷ xs) = ground (arith, mem-append_one x y xs)

pub Nodup-append_one : (y : ℕ) (xs : List ℕ) → Nodup xs → mem y xs ≡ false → Nodup (xs ++ (y ∷ []))
unfolding mem
Nodup-append_one y [] n m = (refl, tt)
Nodup-append_one y (x ∷ xs) n m = (
  ground (arith, mem-append_one x y xs, n.0, nat_beq_iff x y, nat_beq_iff y x),
  Nodup-append_one y xs n.1 (ground arith),
)

pub count_of-zero : (x : ℕ) (l : List ℕ) → count_of x l ≡ 0 → mem x l ≡ false
unfolding count_of mem
count_of-zero x [] e = refl
count_of-zero x (y ∷ l) e = ground (arith, count_of-zero x l)

-- Where nothing is missing, each module with an edge is in the order.
pub missing-zero :
    (x : ℕ) (order : List ℕ) (d i at : ℕ) (ls : List (List ℕ)) (l : List ℕ)
    → d + i ≡ at
    → missing x order d ls ≡ 0
    → get_elem? ls i ≡ some l
    → mem x l ≡ true
    → mem at order ≡ true
unfolding missing
missing-zero x order d i at [] l p z g m = absurd cc
missing-zero x order d zero at (k ∷ ls) l p z g m =
    subst (λ j. mem j order ≡ true) p
      (ground
        (arith, count_of-zero x k, subst (λ t. mem x t ≡ true) (sym (some-injective _ _ g)) m))
missing-zero x order d (suc i) at (k ∷ ls) l p z g m =
    missing-zero x order (suc d) i at ls l (omega (arith, p)) (ground arith) g m

-- A module that joins the order takes its edges with it.
missing-above :
    (x c : ℕ) (order : List ℕ) (d : ℕ) (ls : List (List ℕ))
    → c < d
    → missing x (order ++ (c ∷ [])) d ls ≡ missing x order d ls
unfolding missing
missing-above x c order d [] h = refl
missing-above x c order d (l ∷ ls) h =
    ground (arith, mem-append_one d c order, nat_beq_iff c d, missing-above x c order (suc d) ls)

pub missing-join :
    (x i c : ℕ) (order : List ℕ) (d : ℕ) (ls : List (List ℕ))
    → d + i ≡ c
    → mem c order ≡ false
    → missing x order d ls
      ≡ missing x (order ++ (c ∷ [])) d ls + count_of x (edges_of (get_elem? ls i))
unfolding missing count_of
missing-join x i c order d [] p f = omega arith
missing-join x zero c order d (l ∷ ls) p f = ground (
  arith,
  subst (λ j. mem j order ≡ false) {y = d} (omega (arith, p)) f,
  mem-append_one d c order,
  nat_beq_iff c d,
  missing-above x c order (suc d) ls (omega (arith, p)),
)
missing-join x (suc i) c order d (l ∷ ls) p f = ground (
  arith,
  missing-join x i c order (suc d) ls (omega (arith, p)) f,
  mem-append_one d c order,
  nat_beq_iff c d,
)
