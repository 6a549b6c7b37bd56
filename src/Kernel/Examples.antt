-- ===== src/Kernel/Examples.antt =====
-- A kernel with three modules: the proxy needs the policy and the audit, the policy needs the audit.
use cyntr.Common.{ℕ, ◌+◌, ◌≡◌, ◌≢◌, refl, true, false, [], ◌∷◌, some, string_eq, nat_eq, length, In}
use cyntr.Common.Dict.{get, put}
use cyntr.Kernel.{
  Kernel, Module, running, Graph, new_kernel, register, stop, topo_sort, drain, sources,
  add_modules,
}
use cyntr.Kernel.Lifecycle.{state_at, stop-halts}
use cyntr.Kernel.Order.Sorted.{IsIndexed, IsBootOrder, topo_sort-IsBootOrder, register-IsIndexed}
use cyntr.Kernel.Order.Fuel.{drain-enough}
use cyntr.Kernel.{pos}

abbrev proxy : Module
proxy = record { name = "proxy"; dependencies = "policy" ∷ "audit" ∷ [] }

abbrev policy : Module
policy = record { name = "policy"; dependencies = "audit" ∷ [] }

abbrev audit : Module
audit = record { name = "audit"; dependencies = [] }

abbrev kernel : Kernel
kernel = (register audit (register policy (register proxy new_kernel).0).0).0

new_kernel-IsIndexed : IsIndexed new_kernel
unfolding new_kernel get
new_kernel-IsIndexed name j e = absurd cc

kernel-IsIndexed : IsIndexed kernel
kernel-IsIndexed =
    register-IsIndexed audit _
      (register-IsIndexed policy _ (register-IsIndexed proxy new_kernel new_kernel-IsIndexed))

topo_sort-IsBootOrder_example : IsBootOrder kernel (2 ∷ 1 ∷ 0 ∷ [])
unfolding topo_sort register new_kernel put get
topo_sort-IsBootOrder_example = topo_sort-IsBootOrder kernel (2 ∷ 1 ∷ 0 ∷ []) kernel-IsIndexed refl

abbrev graph : Graph
graph = record { adj = [] ∷ (0 ∷ []) ∷ (0 ∷ 1 ∷ []) ∷ []; in_degree = pos 2 ∷ pos 1 ∷ pos 0 ∷ [] }

drain-enough_example :
    drain graph.adj (length kernel.modules + 7) (sources 0 graph.in_degree) graph.in_degree []
    ≡ drain graph.adj (length kernel.modules) (sources 0 graph.in_degree) graph.in_degree []
unfolding add_modules register new_kernel put get
drain-enough_example = drain-enough kernel graph 7 kernel-IsIndexed refl

stop-halts_example :
    ((stop (λ i. true) kernel).0.running ≡ false)
    × ((j : ℕ)
        → In j kernel.boot_order
        → state_at j (stop (λ i. true) kernel).0.modules ≢ some running)
stop-halts_example = stop-halts (λ i. true) kernel
