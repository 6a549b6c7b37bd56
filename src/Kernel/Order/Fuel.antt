-- ===== src/Kernel/Order/Fuel.antt =====
-- kernel/kernel.go: the loop of topoSort ends within as many rounds as there are modules.
use mathlib.Core.Bool.{false≢true}
use mathlib.Core.Option.{none-ne-some}
use cyntr.Common.{
  ℕ, zero, suc, ◌+◌, ◌≤◌, ◌<◌, ◌≡◌, refl, sym, ap, ◌∙◌, true, false, List, [], ◌∷◌, ◌++◌, some,
  ◌==◌, if◌then◌else◌, nat_eq, get_elem?, length, arith, nat_beq_iff, Bool-cases, inl, inr,
  length-append,
}
use cyntr.Common.Int.{ℤ, pos}
use cyntr.Kernel.{
  Kernel, add_modules, empty_graph, Graph, relax, drain, edges_of, change, pred_ℤ, sources,
}
use cyntr.Kernel.Order.{mem, Nodup}
use cyntr.Kernel.Order.Relax.{relax-Ready}
use cyntr.Kernel.Order.Drain.{Kahn, pop-Ready}
use cyntr.Kernel.Order.Build.{add_modules-Built}
use cyntr.Kernel.Order.Sorted.{start-Kahn, empty-Built, IsIndexed}

unfoldable without : ℕ → List ℕ → List ℕ
without n [] = []
without n (x ∷ xs) = let rest = without n xs in if x == n then rest else x ∷ rest

mem-without :
    (n x : ℕ) (xs : List ℕ) → mem x (without n xs) ≡ true → (mem x xs ≡ true) × (x ≡ n → ⊥)
unfolding mem without
mem-without n x [] m = absurd (false≢true m)
mem-without n x (y ∷ xs) m = elim (Bool-cases (y == n)) [
  | inl t ↦ let r = mem-without n x xs (rw t at m) in (ground (arith, r.0), r.1)
  | inr f ↦ elim (Bool-cases (y == x)) [
    | inl e ↦ (rw e refl, λ h. absurd (ground (arith, nat_beq_iff y x, nat_beq_iff y n, h)))
    | inr g ↦ let r = mem-without n x xs (rw g at (rw f at m)) in (rw g r.0, r.1)
  ]
]

without-absent : (n : ℕ) (xs : List ℕ) → mem n xs ≡ false → without n xs ≡ xs
unfolding mem without
without-absent n [] m = refl
without-absent n (x ∷ xs) m = ground (arith, without-absent n xs)

length-without : (n : ℕ) (xs : List ℕ) → Nodup xs → length xs ≤ length (without n xs) + 1
unfolding without
length-without n [] u = omega arith
length-without n (x ∷ xs) u =
    ground (arith, length-without n xs u.1, without-absent n xs, u.0, nat_beq_iff x n)

absent-without : (n y : ℕ) (xs : List ℕ) → mem y xs ≡ false → mem y (without n xs) ≡ false
absent-without n y xs f = elim (Bool-cases (mem y (without n xs))) [
  | inl t ↦ absurd (false≢true (sym f ∙ (mem-without n y xs t).0))
  | inr g ↦ g
]

Nodup-without : (n : ℕ) (xs : List ℕ) → Nodup xs → Nodup (without n xs)
unfolding without
Nodup-without n [] u = tt
Nodup-without n (x ∷ xs) u = elim (Bool-cases (x == n)) [
  | inl t ↦ rw t (Nodup-without n xs u.1)
  | inr f ↦ rw f (absent-without n x xs u.0, Nodup-without n xs u.1)
]

-- Numbers below n, none of them twice, are at most n.
length-le : (n : ℕ) (xs : List ℕ) → Nodup xs → ((x : ℕ) → mem x xs ≡ true → x < n) → length xs ≤ n
unfolding mem
length-le zero [] u b = omega arith
length-le zero (x ∷ xs) u b = absurd (omega (arith, b x (rw ((nat_beq_iff x x).1 refl) refl)))
length-le (suc n) xs u b = omega (
  arith,
  length-without n xs u,
  length-le n (without n xs) (Nodup-without n xs u)
      (λ x m. let r = mem-without n x xs m in ground (arith, b x r.0, r.1)),
)

in_range : (deg : List ℤ) (i : ℕ) (v : ℤ) → get_elem? deg i ≡ some v → i < length deg
in_range [] i v e = absurd (none-ne-some v e)
in_range (d ∷ ds) zero v e = omega arith
in_range (d ∷ ds) (suc i) v e = omega (arith, in_range ds i v e)

length-change : (deg : List ℤ) (i : ℕ) → length (change pred_ℤ deg i) ≡ length deg
length-change [] i = refl
length-change (d ∷ ds) zero = refl
length-change (d ∷ ds) (suc i) = ap suc (length-change ds i)

length-relax : (l queue : List ℕ) (deg : List ℤ) → length (relax l deg queue).0 ≡ length deg
unfolding relax
length-relax [] queue deg = refl
length-relax (x ∷ l) queue deg = length-relax l _ (change pred_ℤ deg x) ∙ length-change deg x

module _ (adj : List (List ℕ)) where
  Kahn-le :
      (order queue : List ℕ) (deg : List ℤ)
      → Kahn adj order queue deg
      → length order + length queue ≤ length deg
  Kahn-le order queue deg r = omega (
    arith,
    length-append order queue,
    length-le (length deg) (order ++ queue) r.once (λ x m. in_range deg x (pos 0) (r.placed x m)),
  )

  drain-empty : (fuel : ℕ) (deg : List ℤ) (order : List ℕ) → drain adj fuel [] deg order ≡ order
  unfolding drain
  drain-empty zero deg order = refl
  drain-empty (suc fuel) deg order = refl

  drain-more :
      (fuel extra : ℕ) (order queue : List ℕ) (deg : List ℤ)
      → Kahn adj order queue deg
      → length deg ≤ length order + fuel
      → drain adj (fuel + extra) queue deg order ≡ drain adj fuel queue deg order
  unfolding drain
  drain-more zero extra order [] deg r b = drain-empty (0 + extra) deg order
  drain-more zero extra order (c ∷ queue) deg r b =
      absurd (omega (arith, Kahn-le order (c ∷ queue) deg r, b))
  drain-more (suc fuel) extra order [] deg r b = drain-empty (suc fuel + extra) deg order
  drain-more (suc fuel) extra order (c ∷ queue) deg r b =
      let l = edges_of (get_elem? adj c) in
      ap (λ f. drain adj f (c ∷ queue) deg order) {y = suc (fuel + extra)} (omega arith)
      ∙ drain-more fuel extra (order ++ (c ∷ [])) (relax l deg queue).1 (relax l deg queue).0
          (relax-Ready _ (order ++ (c ∷ [])) l queue deg (pop-Ready adj order queue c deg r))
          (omega (arith, b, length-relax l queue deg, length-append order (c ∷ [])))

-- The rounds that topoSort is given are enough: where each position of the index is that of a module
-- and every dependency is registered, the loop over the queue comes to the same order with more of
-- them.
pub drain-enough :
    (k : Kernel) (g : Graph) (extra : ℕ)
    → IsIndexed k
    → add_modules k.module_index 0 k.modules (empty_graph k.modules) ≡ some g
    → drain g.adj (length k.modules + extra) (sources 0 g.in_degree) g.in_degree []
      ≡ drain g.adj (length k.modules) (sources 0 g.in_degree) g.in_degree []
drain-enough k g extra names h =
    let b =
      add_modules-Built k.module_index (length k.modules) names 0 k.modules (empty_graph k.modules)
        g (empty-Built k.modules) h in
    drain-more g.adj (length k.modules) extra [] (sources 0 g.in_degree) g.in_degree
      (start-Kahn (length k.modules) g b) (omega (arith, b.degrees))
