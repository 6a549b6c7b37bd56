-- ===== src/Kernel/Order/Build.antt =====
-- kernel/kernel.go: the graph that topoSort builds from the dependencies, and the modules it starts from.
use mathlib.Core.Option.{some-injective, none-ne-some}
use cyntr.Common.{
  ℕ, zero, suc, ◌+◌, ◌<◌, ◌≡◌, refl, sym, ap, ◌∙◌, subst, String, Bool, true, List, [], ◌∷◌, ◌++◌,
  Option, none, some, ◌==◌, if◌then◌else◌, nat_eq, string_eq, get_elem?, length, arith, nat_beq_iff,
  In, Bool-cases, Option-cases, inl, inr,
}
use cyntr.Common.Int.{ℤ, pos}
use cyntr.Common.Dict.{Dict, get}
use cyntr.Kernel.{
  Graph, ModuleEntry, add_to, add_edge, change, succ_ℤ, add_dependencies, add_modules, edges_of,
}
use cyntr.Kernel.Order.{count_of, mem, missing, mem-append_one}

abbrev map_succ : Option ℤ → Option ℤ
map_succ none = none
map_succ (some d) = some (succ_ℤ d)

get_elem?-change :
    (deg : List ℤ) (i j : ℕ)
    → get_elem? (change succ_ℤ deg i) j
      ≡ (if i == j then map_succ (get_elem? deg j) else get_elem? deg j)
get_elem?-change [] i j = ground arith
get_elem?-change (d ∷ ds) zero zero = ground arith
get_elem?-change (d ∷ ds) zero (suc j) = ground arith
get_elem?-change (d ∷ ds) (suc i) zero = ground arith
get_elem?-change (d ∷ ds) (suc i) (suc j) = get_elem?-change ds i j ∙ ground arith

count_of-append_one :
    (x i : ℕ) (l : List ℕ) → count_of x (l ++ (i ∷ [])) ≡ count_of x l + (if i == x then 1 else 0)
unfolding count_of
count_of-append_one x i [] = ground arith
count_of-append_one x i (y ∷ l) = ground (arith, count_of-append_one x i l)

missing-add_to :
    (x i j d : ℕ) (ls : List (List ℕ))
    → j < length ls
    → missing x [] d (add_to ls j i) ≡ missing x [] d ls + (if i == x then 1 else 0)
unfolding missing mem
missing-add_to x i j d [] h = absurd (omega arith)
missing-add_to x i zero d (l ∷ ls) h = ground (arith, count_of-append_one x i l)
missing-add_to x i (suc j) d (l ∷ ls) h =
    ground (arith, missing-add_to x i j (suc d) ls (omega (arith, h)))

length-add_to : (ls : List (List ℕ)) (j i : ℕ) → length (add_to ls j i) ≡ length ls
length-add_to [] j i = refl
length-add_to (l ∷ ls) zero i = refl
length-add_to (l ∷ ls) (suc j) i = ap suc (length-add_to ls j i)

length-change : (deg : List ℤ) (i : ℕ) → length (change succ_ℤ deg i) ≡ length deg
length-change [] i = refl
length-change (d ∷ ds) zero = refl
length-change (d ∷ ds) (suc i) = ap suc (length-change ds i)

-- Each in-degree counts the edges of the graph, and the graph has n positions.
pub record Built (n : ℕ) (g : Graph) : Type 0 where
  pub counts : (x : ℕ) (v : ℤ) → get_elem? g.in_degree x ≡ some v → v ≡ pos (missing x [] 0 g.adj)
  pub size : length g.adj ≡ n
  pub degrees : length g.in_degree ≡ n

add_edge-counts :
    (n j i : ℕ) (g : Graph)
    → j < n
    → Built n g
    → (x : ℕ) (v : ℤ) → get_elem? (change succ_ℤ g.in_degree i) x ≡ some v
    → v ≡ pos (missing x [] 0 (add_to g.adj j i))
add_edge-counts n j i g h b x v e =
    let m = missing-add_to x i j 0 g.adj (omega (arith, h, b.size)) in
    elim (Bool-cases (i == x)) [
      | inr f ↦
          b.counts x v (sym (get_elem?-change g.in_degree i x ∙ rw f refl) ∙ e)
          ∙ ap pos (ground (arith, m))
      | inl t ↦ elim (Option-cases (get_elem? g.in_degree x)) [
        | inl o ↦
            absurd (none-ne-some v (sym (get_elem?-change g.in_degree i x ∙ rw (t, o) refl) ∙ e))
        | inr (w, o) ↦
            sym (some-injective _ _ (sym (get_elem?-change g.in_degree i x ∙ rw (t, o) refl) ∙ e))
            ∙ ap succ_ℤ (b.counts x w o)
            ∙ ap pos (ground (arith, m))
      ]
    ]

add_edge-Built : (n j i : ℕ) (g : Graph) → j < n → Built n g → Built n (add_edge j i g)
add_edge-Built n j i g h b = record {
  counts = add_edge-counts n j i g h b;
  size = length-add_to g.adj j i ∙ b.size;
  degrees = length-change g.in_degree i ∙ b.degrees;
}

-- The index names positions below n.
abbrev pub IsIndex : Dict String ℕ → ℕ → Type 0
IsIndex index n = (name : String) (j : ℕ) → get name index ≡ some j → j < n

unfoldable pub edge_at : List (List ℕ) → ℕ → ℕ → Bool
unfolding mem
edge_at adj j i = mem i (edges_of (get_elem? adj j))

module _ (index : Dict String ℕ) (n : ℕ) (names : IsIndex index n) where
  add_dependencies-Built :
      (i : ℕ) (deps : List String) (g g' : Graph)
      → Built n g
      → add_dependencies index i deps g ≡ some g'
      → Built n g'
  unfolding add_dependencies
  add_dependencies-Built i [] g g' b e = subst (Built n) (some-injective _ _ e) b
  add_dependencies-Built i (dep ∷ deps) g g' b e = elim (Option-cases (get dep index)) [
    | inl m ↦ absurd (none-ne-some g' (rw (m, add_dependencies) at e))
    | inr (j, m) ↦
        add_dependencies-Built i deps (add_edge j i g) g' (add_edge-Built n j i g (names dep j m) b)
          (rw (m, add_dependencies) at e)
  ]

  pub add_modules-Built :
      (i : ℕ) (es : List ModuleEntry) (g g' : Graph)
      → Built n g
      → add_modules index i es g ≡ some g'
      → Built n g'
  unfolding add_modules
  add_modules-Built i [] g g' b e = subst (Built n) (some-injective _ _ e) b
  add_modules-Built i (m ∷ es) g g' b e =
      elim (Option-cases (add_dependencies index i m.loaded_module.dependencies g)) [
        | inl f ↦ absurd (none-ne-some g' (rw (f, add_modules) at e))
        | inr (h, f) ↦
            add_modules-Built (suc i) es h g'
              (add_dependencies-Built i m.loaded_module.dependencies g h b f)
              (rw (f, add_modules) at e)
      ]

edge_at-add_to :
    (adj : List (List ℕ)) (j i d x : ℕ)
    → edge_at adj d x ≡ true
    → edge_at (add_to adj j i) d x ≡ true
unfolding edge_at
edge_at-add_to [] j i d x h = h
edge_at-add_to (l ∷ ls) zero i zero x h = ground (arith, mem-append_one x i l)
edge_at-add_to (l ∷ ls) zero i (suc d) x h = h
edge_at-add_to (l ∷ ls) (suc j) i zero x h = h
edge_at-add_to (l ∷ ls) (suc j) i (suc d) x h = edge_at-add_to ls j i d x h

edge_at-added :
    (adj : List (List ℕ)) (j i : ℕ) → j < length adj → edge_at (add_to adj j i) j i ≡ true
unfolding edge_at
edge_at-added [] j i h = absurd (omega arith)
edge_at-added (l ∷ ls) zero i h = ground (arith, mem-append_one i i l, nat_beq_iff i i)
edge_at-added (l ∷ ls) (suc j) i h = edge_at-added ls j i (omega (arith, h))

module _ (index : Dict String ℕ) where
  add_dependencies-keeps :
      (i : ℕ) (deps : List String) (g g' : Graph) (d x : ℕ)
      → edge_at g.adj d x ≡ true
      → add_dependencies index i deps g ≡ some g'
      → edge_at g'.adj d x ≡ true
  unfolding add_dependencies
  add_dependencies-keeps i [] g g' d x h e =
      subst (λ k. edge_at k.adj d x ≡ true) (some-injective _ _ e) h
  add_dependencies-keeps i (dep ∷ deps) g g' d x h e = elim (Option-cases (get dep index)) [
    | inl m ↦ absurd (none-ne-some g' (rw (m, add_dependencies) at e))
    | inr (j, m) ↦
        add_dependencies-keeps i deps (add_edge j i g) g' d x (edge_at-add_to g.adj j i d x h)
          (rw (m, add_dependencies) at e)
  ]

  add_modules-keeps :
      (i : ℕ) (es : List ModuleEntry) (g g' : Graph) (d x : ℕ)
      → edge_at g.adj d x ≡ true
      → add_modules index i es g ≡ some g'
      → edge_at g'.adj d x ≡ true
  unfolding add_modules
  add_modules-keeps i [] g g' d x h e =
      subst (λ k. edge_at k.adj d x ≡ true) (some-injective _ _ e) h
  add_modules-keeps i (m ∷ es) g g' d x h e =
      elim (Option-cases (add_dependencies index i m.loaded_module.dependencies g)) [
        | inl f ↦ absurd (none-ne-some g' (rw (f, add_modules) at e))
        | inr (k, f) ↦
            add_modules-keeps (suc i) es k g' d x
              (add_dependencies-keeps i m.loaded_module.dependencies g k d x h f)
              (rw (f, add_modules) at e)
      ]

module _ (index : Dict String ℕ) (n : ℕ) (names : IsIndex index n) where
  add_dependencies-edge :
      (i : ℕ) (deps : List String) (g g' : Graph) (dep : String) (j : ℕ)
      → Built n g
      → add_dependencies index i deps g ≡ some g'
      → In dep deps
      → get dep index ≡ some j
      → edge_at g'.adj j i ≡ true
  unfolding add_dependencies
  add_dependencies-edge i [] g g' dep j b e m q = absurd m
  add_dependencies-edge i (first ∷ deps) g g' dep j b e m q =
      elim (Option-cases (get first index)) [
        | inl o ↦ absurd (none-ne-some g' (rw (o, add_dependencies) at e))
        | inr (k, o) ↦ elim m [
          | inl same ↦
              let kj = some-injective _ _ (sym o ∙ ap (λ s. get s index) (sym same) ∙ q) in
              add_dependencies-keeps index i deps (add_edge k i g) g' j i
                (subst (λ z. edge_at (add_to g.adj k i) z i ≡ true) kj
                  (edge_at-added g.adj k i (omega (arith, names first k o, b.size))))
                (rw (o, add_dependencies) at e)
          | inr later ↦
              add_dependencies-edge i deps (add_edge k i g) g' dep j
                (add_edge-Built n k i g (names first k o) b) (rw (o, add_dependencies) at e) later q
        ]
      ]

  -- Each dependency of each module is an edge.
  pub add_modules-edge :
      (i p : ℕ) (es : List ModuleEntry) (g g' : Graph) (e : ModuleEntry) (dep : String) (j : ℕ)
      → Built n g
      → add_modules index i es g ≡ some g'
      → get_elem? es p ≡ some e
      → In dep e.loaded_module.dependencies
      → get dep index ≡ some j
      → edge_at g'.adj j (i + p) ≡ true
  unfolding add_modules
  add_modules-edge i p [] g g' e dep j b h at m q = absurd (none-ne-some e at)
  add_modules-edge i zero (x ∷ es) g g' e dep j b h at m q =
      elim (Option-cases (add_dependencies index i x.loaded_module.dependencies g)) [
        | inl f ↦ absurd (none-ne-some g' (rw (f, add_modules) at h))
        | inr (k, f) ↦
            subst (λ z. edge_at g'.adj j z ≡ true) (omega arith)
              (add_modules-keeps index (suc i) es k g' j i
                (add_dependencies-edge i x.loaded_module.dependencies g k dep j b f
                  (subst (λ w. In dep w.loaded_module.dependencies) (sym (some-injective _ _ at)) m)
                  q)
                (rw (f, add_modules) at h))
      ]
  add_modules-edge i (suc p) (x ∷ es) g g' e dep j b h at m q =
      elim (Option-cases (add_dependencies index i x.loaded_module.dependencies g)) [
        | inl f ↦ absurd (none-ne-some g' (rw (f, add_modules) at h))
        | inr (k, f) ↦
            subst (λ z. edge_at g'.adj j z ≡ true) (omega arith)
              (add_modules-edge (suc i) p es k g' e dep j
                (add_dependencies-Built index n names i x.loaded_module.dependencies g k b f)
                (rw (f, add_modules) at h) at m q)
      ]
