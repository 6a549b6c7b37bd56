-- ===== src/Resource/Examples.antt =====
-- Concrete runs of the resource manager.
use cyntr.Common.{◌≡◌, List, [], ◌∷◌, string_eq}
use cyntr.Common.Int.{pos}
use cyntr.Resource.{Manager, goroutines, get_limit, usage_of, resource_eq}
use cyntr.Resource.Caps.{Op, do_acquire, do_release, run, tally, run-tally}

abbrev manager : Manager
manager = record {
  usage = ("acme", (goroutines, 1) ∷ []) ∷ [];
  limits = ("acme", (goroutines, pos 2) ∷ []) ∷ [];
}

abbrev ops : List Op
ops =
    do_acquire "acme" goroutines
    ∷ do_acquire "acme" goroutines
    ∷ do_acquire "globex" goroutines
    ∷ do_release "acme" goroutines
    ∷ []

run-tally_example :
    usage_of "acme" goroutines (run manager ops)
    ≡ tally "acme" goroutines
        (get_limit "acme" goroutines manager)
        ops
        (usage_of "acme" goroutines manager)
run-tally_example = run-tally "acme" goroutines ops manager
