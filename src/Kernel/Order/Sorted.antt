-- ===== src/Kernel/Order/Sorted.antt =====
-- kernel/kernel.go: what topoSort answers.
use mathlib.Core.Option.{some-injective, none-ne-some}
use mathlib.Core.Bool.{false≢true}
use mathlib.Core.List.{map, append_assoc, append-nil}
use cyntr.Common.{
  ℕ, zero, suc, ◌+◌, ◌<◌, ◌≡◌, refl, sym, ap, ◌∙◌, subst, String, true, false, List, [], ◌∷◌, ◌++◌,
  none, some, ◌==◌, if◌then◌else◌, nat_eq, string_eq, get_elem?, length, arith, nat_beq_iff, In,
  Bool-cases, Option-cases, inl, inr, length-append,
}
use cyntr.Common.Int.{ℤ, pos, negsuc, beq_ℤ}
use cyntr.Common.Dict.{get, get-put}
use cyntr.Kernel.{
  Kernel, Graph, Module, ModuleEntry, add_modules, sources, drain, empty_graph, order_of, topo_sort,
  registered, register,
}
use cyntr.Kernel.Order.{count_of, mem, missing, Nodup}
use cyntr.Kernel.Order.Drain.{Ordered, Kahn, drain-Ordered}
use cyntr.Kernel.Order.Build.{Built, IsIndex, edge_at, add_modules-Built, add_modules-edge}

empty-counts :
    (es : List ModuleEntry) (x : ℕ) (v : ℤ) → get_elem? (map (λ e. pos 0) es) x ≡ some v → v ≡ pos 0
empty-counts [] x v e = absurd (none-ne-some v e)
empty-counts (m ∷ es) zero v e = sym (some-injective _ _ e)
empty-counts (m ∷ es) (suc x) v e = empty-counts es x v e

empty-missing : (es : List ModuleEntry) (x d : ℕ) → missing x [] d (map (λ e. []) es) ≡ 0
unfolding missing count_of mem
empty-missing [] x d = refl
empty-missing (m ∷ es) x d = omega (arith, empty-missing es x (suc d))

empty-length : (es : List ModuleEntry) → length {A = List ℕ} (map (λ e. []) es) ≡ length es
empty-length [] = refl
empty-length (m ∷ es) = ap suc (empty-length es)

empty-degrees : (es : List ModuleEntry) → length {A = ℤ} (map (λ e. pos 0) es) ≡ length es
empty-degrees [] = refl
empty-degrees (m ∷ es) = ap suc (empty-degrees es)

pub empty-Built : (es : List ModuleEntry) → Built (length es) (empty_graph es)
empty-Built es = record {
  counts = λ x v e. empty-counts es x v e ∙ ap pos (sym (empty-missing es x 0));
  size = empty-length es;
  degrees = empty-degrees es;
}

sources-zero :
    (i x : ℕ) (ds : List ℤ)
    → mem x (sources i ds) ≡ true
    → (k : ℕ) × ((i + k ≡ x) × (get_elem? ds k ≡ some (pos 0)))
unfolding sources mem
sources-zero i x [] m = absurd (false≢true m)
sources-zero i x (d ∷ ds) m = elim (Bool-cases (beq_ℤ d (pos 0))) [
  | inr f ↦
      let (k, (e, g)) = sources-zero (suc i) x ds (rw f at m) in (suc k, (omega (arith, e), g))
  | inl t ↦ elim (Bool-cases (i == x)) [
    | inl y ↦ (0, (ground (arith, nat_beq_iff i x), ap some (beq-zero d t)))
    | inr n ↦
        let (k, (e, g)) = sources-zero (suc i) x ds (rw n at (rw t at m)) in
        (suc k, (omega (arith, e), g))
  ]
]
  where
    beq-zero : (d : ℤ) → beq_ℤ d (pos 0) ≡ true → d ≡ pos 0
    beq-zero (pos n) e = ap pos ((nat_beq_iff n 0).0 e)
    beq-zero (negsuc n) e = absurd (false≢true e)

sources-above : (i x : ℕ) (ds : List ℤ) → x < i → mem x (sources i ds) ≡ false
unfolding sources mem
sources-above i x [] h = refl
sources-above i x (d ∷ ds) h = ground (arith, sources-above (suc i) x ds, nat_beq_iff i x)

sources-Nodup : (i : ℕ) (ds : List ℤ) → Nodup (sources i ds)
unfolding sources
sources-Nodup i [] = tt
sources-Nodup i (d ∷ ds) = elim (Bool-cases (beq_ℤ d (pos 0))) [
  | inl t ↦ rw t (sources-above (suc i) i ds (omega arith), sources-Nodup (suc i) ds)
  | inr f ↦ rw f (sources-Nodup (suc i) ds)
]

pub start-Kahn : (n : ℕ) (g : Graph) → Built n g → Kahn g.adj [] (sources 0 g.in_degree) g.in_degree
unfolding count_of
start-Kahn n g b = record {
  counts = λ x v e. b.counts x v e ∙ ap pos (omega arith);
  placed = λ x m.
      let (k, (e, z)) = sources-zero 0 x g.in_degree m in
      subst (λ j. get_elem? g.in_degree j ≡ some (pos 0)) (omega (arith, e)) z;
  once = sources-Nodup 0 g.in_degree;
}

Ordered-split :
    (adj : List (List ℕ)) (base done rest : List ℕ) (i j : ℕ)
    → Ordered adj base (done ++ (i ∷ rest))
    → edge_at adj j i ≡ true
    → mem j (base ++ done) ≡ true
unfolding edge_at mem
Ordered-split adj base [] rest i j o e = elim (Option-cases (get_elem? adj j)) [
  | inl n ↦ absurd (false≢true (rw n at e))
  | inr (l, g) ↦ subst (λ b. mem j b ≡ true) (sym (append-nil base)) (o.0 j l g (rw g at e))
]
Ordered-split adj base (x ∷ done) rest i j o e =
    subst (λ l. mem j l ≡ true) (append_assoc base (x ∷ []) done)
      (Ordered-split adj (base ++ (x ∷ [])) done rest i j o.1 e)

-- Every position of the index is that of a module.
abbrev pub IsIndexed : Kernel → Type 0
IsIndexed k = IsIndex k.module_index (length k.modules)

-- An order of the modules: each stands in it once, and after those that it depends on.
pub record IsBootOrder (k : Kernel) (order : List ℕ) : Type 0 where
  pub size : length order ≡ length k.modules
  pub once : Nodup order
  pub after :
      (i : ℕ) (e : ModuleEntry) (dep : String) (j : ℕ) (done rest : List ℕ)
      → order ≡ done ++ (i ∷ rest)
      → get_elem? k.modules i ≡ some e
      → In dep e.loaded_module.dependencies
      → get dep k.module_index ≡ some j
      → mem j done ≡ true

order_of-some :
    (n : ℕ) (o : List ℕ) (order : List ℕ)
    → (if length o == n then some o else none) ≡ some order
    → (length o ≡ n) × (o ≡ order)
order_of-some n o order e = elim (Bool-cases (length o == n)) [
  | inl t ↦ ((nat_beq_iff (length o) n).0 t, some-injective _ _ (rw t at e))
  | inr f ↦ absurd (none-ne-some order (rw f at e))
]

sorted :
    (k : Kernel) (order : List ℕ) (g : Graph)
    → IsIndexed k
    → add_modules k.module_index 0 k.modules (empty_graph k.modules) ≡ some g
    → order_of (length k.modules) (some g) ≡ some order
    → IsBootOrder k order
sorted k order g names h e =
    let n = length k.modules in
    let b =
      add_modules-Built k.module_index n names 0 k.modules (empty_graph k.modules) g
        (empty-Built k.modules) h in
    let (new, (d, o, u)) =
      drain-Ordered g.adj n [] (sources 0 g.in_degree) g.in_degree (start-Kahn n g b) in
    let (l, q) = order_of-some n (drain g.adj n (sources 0 g.in_degree) g.in_degree []) order e in
    let p = sym d ∙ q in
    record {
      size = ap length (sym q) ∙ l;
      once = subst Nodup p u;
      after = λ i m dep j done rest s at w x.
          Ordered-split g.adj [] done rest i j (subst (Ordered g.adj []) (p ∙ s) o) (
            subst (λ z. edge_at g.adj j z ≡ true) {x = 0 + i} {y = i} (omega arith)
              (add_modules-edge k.module_index n names 0 i k.modules (empty_graph k.modules) g m dep
                j (empty-Built k.modules) h at w x));
    }

-- Where topoSort answers, each position of the index being that of a module, its order has as many
-- entries as there are modules, none twice, and each module stands after those that it depends on.
pub topo_sort-IsBootOrder :
    (k : Kernel) (order : List ℕ) → IsIndexed k → topo_sort k ≡ some order → IsBootOrder k order
unfolding topo_sort
topo_sort-IsBootOrder k order names e =
    elim (Option-cases (add_modules k.module_index 0 k.modules (empty_graph k.modules))) [
      | inl n ↦ absurd (none-ne-some order (rw n at e))
      | inr (g, h) ↦ sorted k order g names h (rw h at e)
    ]

-- Registering modules, from a new kernel on, keeps every position of the index that of a module.
pub register-IsIndexed : (m : Module) (k : Kernel) → IsIndexed k → IsIndexed (register m k).0
unfolding register
register-IsIndexed m k h = elim (Option-cases (get m.name k.module_index)) [
  | inr (i, g) ↦ rw (g, register) h
  | inl g ↦
      rw (g, register)
        (λ name j e. ground (
          arith,
          length-append k.modules (record { loaded_module = m; state = registered } ∷ []),
          get-put m.name name (length k.modules) k.module_index,
          h name j,
        ))
]
