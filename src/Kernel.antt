-- ===== src/Kernel.antt =====
-- kernel/kernel.go: the registration of modules, their boot order and their lifecycle. What a
-- module's Init, Start and Stop answer is an argument, by the module's position in the list.
mod Examples
pub mod Lifecycle
pub mod Order
use cyntr.Common.{
  ℕ, zero, suc, ◌+◌, ◌-◌, String, Bool, true, false, List, [], ◌∷◌, ◌++◌, Option, none, some, ◌==◌,
  if◌then◌else◌, string_eq, nat_eq, length, get_elem?, set, map,
}
use cyntr.Common.Dict.{Dict, get, put}
use cyntr.Common.Int.{ℤ, pos, negsuc, beq_ℤ}

pub data ModuleState : Type 0 where
  registered initialized running stopped failed : ModuleState

pub record Module : Type 0 where
  pub name : String
  pub dependencies : List String

pub record ModuleEntry : Type 0 where
  pub loaded_module : Module
  pub state : ModuleState

pub record Kernel : Type 0 where
  pub modules : List ModuleEntry
  pub module_index : Dict String ℕ
  pub running : Bool
  pub config_loaded : Bool
  pub boot_order : List ℕ

unfoldable pub new_kernel : Kernel
new_kernel = record {
  modules = [];
  module_index = [];
  running = false;
  config_loaded = false;
  boot_order = [];
}

unfoldable pub load_config : Bool → Kernel → Kernel × Bool
load_config loads k = if loads then (record k { config_loaded = true }, true) else (k, false)

-- Register; `false` where the name is taken.
unfoldable pub register : Module → Kernel → Kernel × Bool
register m k = elim (get m.name k.module_index) [
  | some i ↦ (k, false)
  | none ↦ (
    record k {
      modules = k.modules ++ (record { loaded_module = m; state = registered } ∷ []);
      module_index = put m.name (length k.modules) k.module_index;
    },
    true,
  )
]

unfoldable pub module_state : String → Kernel → ModuleState
module_state name k = elim (get name k.module_index) [
  | none ↦ failed
  | some i ↦ elim (get_elem? k.modules i) [ none ↦ failed | some e ↦ e.state ]
]

-- Positions whose module has an edge to them, and how many edges come in.
pub record Graph : Type 0 where
  pub adj : List (List ℕ)
  pub in_degree : List ℤ

abbrev pub add_to : List (List ℕ) → ℕ → ℕ → List (List ℕ)
add_to [] j i = []
add_to (l ∷ ls) zero i = (l ++ (i ∷ [])) ∷ ls
add_to (l ∷ ls) (suc j) i = l ∷ add_to ls j i

abbrev pub succ_ℤ : ℤ → ℤ
succ_ℤ (pos n) = pos (suc n)
succ_ℤ (negsuc zero) = pos 0
succ_ℤ (negsuc (suc n)) = negsuc n

abbrev pub pred_ℤ : ℤ → ℤ
pred_ℤ (pos zero) = negsuc 0
pred_ℤ (pos (suc n)) = pos n
pred_ℤ (negsuc n) = negsuc (suc n)

abbrev pub change : (ℤ → ℤ) → List ℤ → ℕ → List ℤ
change f [] i = []
change f (d ∷ ds) zero = f d ∷ ds
change f (d ∷ ds) (suc i) = d ∷ change f ds i

abbrev pub add_edge : ℕ → ℕ → Graph → Graph
add_edge j i g = record { adj = add_to g.adj j i; in_degree = change succ_ℤ g.in_degree i }

-- The edges of module i; none where a dependency is not registered.
unfoldable pub add_dependencies : Dict String ℕ → ℕ → List String → Graph → Option Graph
add_dependencies index i [] g = some g
add_dependencies index i (dep ∷ deps) g = elim (get dep index) [
  | none ↦ none
  | some j ↦ add_dependencies index i deps (add_edge j i g)
]

unfoldable pub add_modules : Dict String ℕ → ℕ → List ModuleEntry → Graph → Option Graph
unfolding add_dependencies
add_modules index i [] g = some g
add_modules index i (e ∷ es) g = elim (add_dependencies index i e.loaded_module.dependencies g) [
  | none ↦ none
  | some g' ↦ add_modules index (suc i) es g'
]

abbrev pub is_zero : Option ℤ → Bool
is_zero none = false
is_zero (some d) = beq_ℤ d (pos 0)

-- The loop over the edges of a module that leaves the queue.
unfoldable pub relax : List ℕ → List ℤ → List ℕ → List ℤ × List ℕ
relax [] deg queue = (deg, queue)
relax (x ∷ xs) deg queue =
    let deg' = change pred_ℤ deg x in
    relax xs deg' (if is_zero (get_elem? deg' x) then queue ++ (x ∷ []) else queue)

abbrev pub edges_of : Option (List ℕ) → List ℕ
edges_of none = []
edges_of (some l) = l

-- The loop over the queue. On fuel: the number of modules is enough, as Order shows.
unfoldable pub drain : List (List ℕ) → ℕ → List ℕ → List ℤ → List ℕ → List ℕ
unfolding relax
drain adj zero queue deg order = order
drain adj (suc fuel) [] deg order = order
drain adj (suc fuel) (curr ∷ queue) deg order =
    let (deg', queue') = relax (edges_of (get_elem? adj curr)) deg queue in
    drain adj fuel queue' deg' (order ++ (curr ∷ []))

-- The positions from `i` on whose in-degree is 0.
unfoldable pub sources : ℕ → List ℤ → List ℕ
sources i [] = []
sources i (d ∷ ds) = let rest = sources (suc i) ds in if beq_ℤ d (pos 0) then i ∷ rest else rest

abbrev pub empty_graph : List ModuleEntry → Graph
empty_graph es = record { adj = map (λ e. []) es; in_degree = map (λ e. pos 0) es }

abbrev pub order_of : ℕ → Option Graph → Option (List ℕ)
order_of n none = none
order_of n (some g) =
    let order = drain g.adj n (sources 0 g.in_degree) g.in_degree [] in
    if length order == n then some order else none

-- none where a dependency is missing or the dependencies have a cycle
unfoldable pub topo_sort : Kernel → Option (List ℕ)
unfolding add_modules drain sources
topo_sort k =
    order_of (length k.modules) (add_modules k.module_index 0 k.modules (empty_graph k.modules))

abbrev pub set_state : List ModuleEntry → ℕ → ModuleState → List ModuleEntry
set_state [] i s = []
set_state (e ∷ es) zero s = record e { state = s } ∷ es
set_state (e ∷ es) (suc i) s = e ∷ set_state es i s

-- A phase of Start: the modules afterwards, and whether all went well.
unfoldable pub phase :
    (ℕ → Bool) → ModuleState → List ℕ → List ModuleEntry → List ModuleEntry × Bool
phase works reached [] es = (es, true)
phase works reached (i ∷ order) es =
    let rest = phase works reached order (set_state es i reached) in
    if works i then rest else (set_state es i failed, false)

abbrev pub boot : (ℕ → Bool) → (ℕ → Bool) → List ℕ → Kernel → Kernel × Bool
boot inits starts order k =
    let (es, ok) = phase inits initialized order k.modules in
    let (es', ok') = phase starts running order es in
    if ok
    then (
      record k { modules = es'; boot_order = order; running = if ok' then true else k.running },
      ok',
    )
    else (record k { modules = es; boot_order = order }, false)

abbrev pub boot_if : (ℕ → Bool) → (ℕ → Bool) → Option (List ℕ) → Kernel → Kernel × Bool
boot_if inits starts none k = (k, false)
boot_if inits starts (some order) k = boot inits starts order k

unfoldable pub start : (ℕ → Bool) → (ℕ → Bool) → Kernel → Kernel × Bool
unfolding phase topo_sort
start inits starts k = if k.config_loaded then boot_if inits starts (topo_sort k) k else (k, false)

abbrev pub is_running : ModuleState → Bool
is_running running = true
is_running _ = false

abbrev pub stop_one : Bool → ℕ → Option ModuleEntry → List ModuleEntry → List ModuleEntry × Bool
stop_one works i none es = (es, true)
stop_one works i (some e) es =
    if is_running e.state
    then (set_state es i (if works then stopped else failed), works)
    else (es, true)

-- The loop of Stop, over the boot order from its end: whether no module failed to stop.
unfoldable pub stop_all : (ℕ → Bool) → List ℕ → List ModuleEntry → List ModuleEntry × Bool
stop_all works [] es = (es, true)
stop_all works (i ∷ order) es =
    let (es', ok) = stop_all works order es in
    let (es'', ok') = stop_one (works i) i (get_elem? es' i) es' in
    (es'', if ok then ok' else false)

unfoldable pub stop : (ℕ → Bool) → Kernel → Kernel × Bool
unfolding stop_all
stop works k =
    let (es, ok) = stop_all works k.boot_order k.modules in
    (record k { modules = es; running = false }, ok)
