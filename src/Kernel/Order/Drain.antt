-- ===== src/Kernel/Order/Drain.antt =====
-- kernel/kernel.go: the order that the loop of topoSort builds.
use mathlib.Core.List.{append_assoc, append-nil}
use mathlib.Core.Bool.{true≢false}
use cyntr.Common.{
  Bool-cases, inl, inr, ℕ, zero, suc, ◌≡◌, refl, sym, ap, ◌∙◌, subst, true, false, List, [], ◌∷◌,
  ◌++◌, some, ◌==◌, nat_eq, get_elem?, arith, nat_beq_iff,
}
use cyntr.Common.Int.{ℤ, pos}
use cyntr.Kernel.{relax, drain, edges_of}
use cyntr.Kernel.Order.{count_of, mem, missing, Nodup, missing-zero, missing-join}
use cyntr.Kernel.Order.Relax.{Ready, relax-Ready, pos-injective}

-- Each of the modules comes after those that have an edge to it.
abbrev pub Ordered : List (List ℕ) → List ℕ → List ℕ → Type 0
Ordered adj done [] = Unit
Ordered adj done (x ∷ xs) =
    ((d : ℕ) (l : List ℕ) → get_elem? adj d ≡ some l → mem x l ≡ true → mem d done ≡ true)
    × Ordered adj (done ++ (x ∷ [])) xs

mem-middle : (c : ℕ) (xs q : List ℕ) → mem c (xs ++ (c ∷ q)) ≡ true
unfolding mem
mem-middle c [] q = ground (arith, nat_beq_iff c c)
mem-middle c (x ∷ xs) q = ground (arith, mem-middle c xs q)

Nodup-middle : (c : ℕ) (xs q : List ℕ) → Nodup (xs ++ (c ∷ q)) → mem c xs ≡ false
unfolding mem
Nodup-middle c [] q n = refl
Nodup-middle c (x ∷ xs) q n = elim (Bool-cases (x == c)) [
  | inl t ↦ absurd (
      true≢false (
        sym (
          subst (λ z. mem z (xs ++ (c ∷ q)) ≡ true) (sym ((nat_beq_iff x c).0 t))
            (mem-middle c xs q))
        ∙ n.0))
  | inr f ↦ rw f (Nodup-middle c xs q n.1)
]

mem-left : (x : ℕ) (xs ys : List ℕ) → mem x (xs ++ ys) ≡ false → mem x xs ≡ false
unfolding mem
mem-left x [] ys f = refl
mem-left x (z ∷ xs) ys f = ground (arith, mem-left x xs ys)

Nodup-left : (xs ys : List ℕ) → Nodup (xs ++ ys) → Nodup xs
Nodup-left [] ys n = tt
Nodup-left (x ∷ xs) ys n = (mem-left x xs ys n.0, Nodup-left xs ys n.1)

module _ (adj : List (List ℕ)) where
  -- The loop's state: each in-degree counts the edges from modules that are not in the order.
  abbrev pub Kahn : List ℕ → List ℕ → List ℤ → Type 0
  Kahn order queue deg = Ready (λ x. missing x order 0 adj) order queue [] deg

  pub pop-Ready :
      (order queue : List ℕ) (c : ℕ) (deg : List ℤ)
      → Kahn order (c ∷ queue) deg
      → Ready
          (λ x. missing x (order ++ (c ∷ [])) 0 adj)
          (order ++ (c ∷ []))
          queue
          (edges_of (get_elem? adj c))
          deg
  unfolding count_of
  pop-Ready order queue c deg r = record {
    counts = λ x v g.
        r.counts x v g
        ∙ ap pos (
            omega (
              arith,
              missing-join x c c order 0 adj (omega arith) (Nodup-middle c order queue r.once),
            ));
    placed = λ x m. r.placed x (sym (ap (mem x) (append_assoc order (c ∷ []) queue)) ∙ m);
    once = subst Nodup (sym (append_assoc order (c ∷ []) queue)) r.once;
  }

  pop-after :
      (order queue : List ℕ) (c : ℕ) (deg : List ℤ)
      → Kahn order (c ∷ queue) deg
      → (d : ℕ) (l : List ℕ) → get_elem? adj d ≡ some l
      → mem c l ≡ true
      → mem d order ≡ true
  unfolding count_of
  pop-after order queue c deg r d l g m =
      missing-zero c order 0 d d adj l (omega arith)
        (omega
          (arith, pos-injective 0 _ (r.counts c (pos 0) (r.placed c (mem-middle c order queue)))))
        g m

  pub drain-Ordered :
      (fuel : ℕ) (order queue : List ℕ) (deg : List ℤ)
      → Kahn order queue deg
      → (new : List ℕ) × ((drain adj fuel queue deg order ≡ order ++ new)
          × Ordered adj order new
          × Nodup (order ++ new))
  unfolding drain
  drain-Ordered zero order queue deg r = (
    [],
    (
      sym (append-nil order),
      tt,
      subst Nodup (sym (append-nil order)) (Nodup-left order queue r.once),
    ),
  )
  drain-Ordered (suc fuel) order [] deg r = ([], (sym (append-nil order), tt, r.once))
  drain-Ordered (suc fuel) order (c ∷ queue) deg r =
      let next = relax (edges_of (get_elem? adj c)) deg queue in
      let (new, (e, o, n)) = drain-Ordered fuel (order ++ (c ∷ [])) next.1 next.0 (
        relax-Ready _ (order ++ (c ∷ [])) (edges_of (get_elem? adj c)) queue deg
          (pop-Ready order queue c deg r)) in
      (
        c ∷ new,
        (
          e ∙ append_assoc order (c ∷ []) new,
          (pop-after order queue c deg r, o),
          subst Nodup (append_assoc order (c ∷ []) new) n,
        ),
      )
