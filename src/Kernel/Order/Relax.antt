-- ===== src/Kernel/Order/Relax.antt =====
-- kernel/kernel.go: the loop over the queue of topoSort.
use mathlib.Core.Option.{some-injective, none-ne-some}
use mathlib.Core.Bool.{true≢false, false≢true}
use cyntr.Common.{◌⊎◌}
use mathlib.Core.List.{append_assoc}
use cyntr.Common.{
  ℕ, zero, suc, ◌+◌, ◌≡◌, refl, sym, ap, ◌∙◌, subst, true, false, List, [], ◌∷◌, ◌++◌, Option, none,
  some, ◌==◌, if◌then◌else◌, nat_eq, get_elem?, arith, Bool-cases, Option-cases, inl, inr,
  nat_beq_iff,
}
use cyntr.Common.Int.{ℤ, pos, negsuc}
use cyntr.Kernel.{change, pred_ℤ, is_zero, relax}
use cyntr.Kernel.Order.{count_of, mem, Nodup, mem-append_one, Nodup-append_one}

abbrev map_degree : Option ℤ → Option ℤ
map_degree none = none
map_degree (some d) = some (pred_ℤ d)

get_elem?-change :
    (deg : List ℤ) (i j : ℕ)
    → get_elem? (change pred_ℤ deg i) j
      ≡ (if i == j then map_degree (get_elem? deg j) else get_elem? deg j)
get_elem?-change [] i j = ground arith
get_elem?-change (d ∷ ds) zero zero = ground arith
get_elem?-change (d ∷ ds) zero (suc j) = ground arith
get_elem?-change (d ∷ ds) (suc i) zero = ground arith
get_elem?-change (d ∷ ds) (suc i) (suc j) = get_elem?-change ds i j ∙ ground arith

-- Before the edges `l` are gone over: each in-degree counts the edges that stay and those in `l`, and
-- each module that is placed has none left.
pub record Ready (stay : ℕ → ℕ) (base queue l : List ℕ) (deg : List ℤ) : Type 0 where
  pub counts : (x : ℕ) (v : ℤ) → get_elem? deg x ≡ some v → v ≡ pos (stay x + count_of x l)
  pub placed : (x : ℕ) → mem x (base ++ queue) ≡ true → get_elem? deg x ≡ some (pos 0)
  pub once : Nodup (base ++ queue)

pub pos-injective : (m n : ℕ) → pos m ≡ pos n → m ≡ n
pos-injective m n e = ap (λ z. elim z [ pos k ↦ k | negsuc k ↦ 0 ]) e

count_of_self : (y : ℕ) (l : List ℕ) → count_of y (y ∷ l) ≡ suc (count_of y l)
unfolding count_of
count_of_self y l = ground (arith, nat_beq_iff y y)

count_of_other : (y x : ℕ) (l : List ℕ) → (y == x) ≡ false → count_of x (y ∷ l) ≡ count_of x l
unfolding count_of
count_of_other y x l n = rw n refl

is_zero-eq : (v : ℤ) → is_zero (some v) ≡ true → v ≡ pos 0
is_zero-eq (pos n) e = ap pos ((nat_beq_iff n 0).0 e)
is_zero-eq (negsuc n) e = absurd cc

pred_next : (n : ℕ) (v : ℤ) → v ≡ pos (suc n) → pred_ℤ v ≡ pos n
pred_next n v e = ap pred_ℤ e

zero_pos : {n : ℕ} → pos 0 ≡ pos (suc n) → ⊥
zero_pos {n} e = absurd (omega (arith, pos-injective 0 (suc n) e))

module _ (stay : ℕ → ℕ) (base queue l : List ℕ) (y : ℕ) (deg : List ℤ)
    (r : Ready stay base queue (y ∷ l) deg) where
  own : (v : ℤ) → get_elem? deg y ≡ some v → v ≡ pos (suc (stay y + count_of y l))
  own v g = r.counts y v g ∙ ap pos (omega (arith, count_of_self y l))

  not_placed : (v : ℤ) → get_elem? deg y ≡ some v → mem y (base ++ queue) ≡ false
  not_placed v g = elim (Bool-cases (mem y (base ++ queue))) [
    | inl t ↦ absurd (zero_pos (own (pos 0) (r.placed y t)))
    | inr f ↦ f
  ]

  changed :
      (x : ℕ)
      → (y == x) ≡ true
      → (v : ℤ) → get_elem? deg x ≡ some v
      → get_elem? (change pred_ℤ deg y) x ≡ some (pos (stay x + count_of x l))
  changed x t v g =
      let e = (nat_beq_iff y x).0 t in
      get_elem?-change deg y x
      ∙ rw (t, g)
          (ap some (
            pred_next (stay x + count_of x l) v (
              subst
                (λ z. (w : ℤ) → get_elem? deg z ≡ some w → w ≡ pos (suc (stay z + count_of z l))) e
                own v g)))

  same : (x : ℕ) → (y == x) ≡ false → get_elem? (change pred_ℤ deg y) x ≡ get_elem? deg x
  same x f = get_elem?-change deg y x ∙ rw f refl

  missing_there :
      (x : ℕ) → (y == x) ≡ true → get_elem? deg x ≡ none → get_elem? (change pred_ℤ deg y) x ≡ none
  missing_there x t g = get_elem?-change deg y x ∙ rw (t, g) refl

  step-counts :
      (x : ℕ) (v : ℤ) → get_elem? (change pred_ℤ deg y) x ≡ some v → v ≡ pos (stay x + count_of x l)
  step-counts x v g = elim (Bool-cases (y == x)) [
    | inr f ↦
        r.counts x v (sym (same x f) ∙ g) ∙ ap (λ n. pos (stay x + n)) (count_of_other y x l f)
    | inl t ↦ elim (Option-cases (get_elem? deg x)) [
      | inl n ↦ absurd (none-ne-some v (sym (missing_there x t n) ∙ g))
      | inr (w, h) ↦ sym (some-injective _ _ (sym (changed x t w h) ∙ g))
    ]
  ]

  step-placed :
      (x : ℕ) → mem x (base ++ queue) ≡ true → get_elem? (change pred_ℤ deg y) x ≡ some (pos 0)
  step-placed x m = elim (Bool-cases (y == x)) [
    | inr f ↦ same x f ∙ r.placed x m
    | inl t ↦
        let e = (nat_beq_iff y x).0 t in
        absurd (
          true≢false (
            sym m
            ∙ ap (λ z. mem z (base ++ queue)) (sym e)
            ∙ not_placed (pos 0) (ap (get_elem? deg) e ∙ r.placed x m)))
  ]

  -- The queue that the round leaves.
  abbrev next_queue : List ℕ
  next_queue = if is_zero (get_elem? (change pred_ℤ deg y) y) then queue ++ (y ∷ []) else queue

  step-Ready : Ready stay base next_queue l (change pred_ℤ deg y)
  step-Ready = elim (Bool-cases (is_zero (get_elem? (change pred_ℤ deg y) y))) [
    | inr f ↦ rw f (record { counts = step-counts; placed = step-placed; once = r.once })
    | inl z ↦ rw z (joins (Option-cases (get_elem? deg y)) z)
  ]
    where
      joins :
          (get_elem? deg y ≡ none) ⊎ ((v : ℤ) × (get_elem? deg y ≡ some v))
          → is_zero (get_elem? (change pred_ℤ deg y) y) ≡ true
          → Ready stay base (queue ++ (y ∷ [])) l (change pred_ℤ deg y)
      joins (inl n) z =
          absurd (false≢true (sym (ap is_zero (missing_there y ((nat_beq_iff y y).1 refl) n)) ∙ z))
      joins (inr (v, g)) z =
          let c = changed y ((nat_beq_iff y y).1 refl) v g in
          let zero_now = c ∙ ap some (is_zero-eq _ (sym (ap is_zero c) ∙ z)) in
          record {
            counts = step-counts;
            placed = λ x m. elim (Bool-cases (mem x (base ++ queue))) [
              | inl t ↦ step-placed x t
              | inr f ↦
                  subst (λ w. get_elem? (change pred_ℤ deg y) w ≡ some (pos 0))
                    ((nat_beq_iff y x).0 (
                      ground (
                        arith,
                        mem-append_one x y (base ++ queue),
                        ap (mem x) (append_assoc base queue (y ∷ [])),
                        m,
                      )))
                    zero_now
            ];
            once =
                subst Nodup (append_assoc base queue (y ∷ []))
                  (Nodup-append_one y (base ++ queue) r.once (not_placed v g));
          }

-- After the loop over the edges, no edge is left to go over.
pub relax-Ready :
    (stay : ℕ → ℕ) (base l queue : List ℕ) (deg : List ℤ)
    → Ready stay base queue l deg
    → Ready stay base (relax l deg queue).1 [] (relax l deg queue).0
unfolding relax
relax-Ready stay base [] queue deg r = r
relax-Ready stay base (y ∷ l) queue deg r =
    relax-Ready stay base l _ (change pred_ℤ deg y) (step-Ready stay base queue l y deg r)
