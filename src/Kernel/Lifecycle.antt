-- ===== src/Kernel/Lifecycle.antt =====
-- kernel/kernel.go: Start and Stop, over the modules of a boot order.
use cyntr.Common.{
  ℕ, zero, suc, ◌≡◌, ◌≢◌, refl, ◌∙◌, Bool, true, false, List, [], ◌∷◌, Option, none, some, ◌==◌,
  if◌then◌else◌, nat_eq, get_elem?, arith, In, Bool-cases, Option-cases, inl, inr, nat_beq_iff,
}
use cyntr.Kernel.{
  Kernel, ModuleEntry, ModuleState, initialized, running, stopped, failed, set_state, phase, boot,
  stop_one, stop_all, stop, is_running,
}

abbrev pub state_of : Option ModuleEntry → Option ModuleState
state_of none = none
state_of (some e) = some e.state

unfoldable pub state_at : ℕ → List ModuleEntry → Option ModuleState
state_at i es = state_of (get_elem? es i)

abbrev replace : ModuleState → Option ModuleState → Option ModuleState
replace s none = none
replace s (some t) = some s

state_at-set_state :
    (es : List ModuleEntry) (i j : ℕ) (s : ModuleState)
    → state_at j (set_state es i s) ≡ (if i == j then replace s (state_at j es) else state_at j es)
unfolding state_at
state_at-set_state [] i j s = ground arith
state_at-set_state (e ∷ es) zero zero s = ground arith
state_at-set_state (e ∷ es) zero (suc j) s = ground arith
state_at-set_state (e ∷ es) (suc i) zero s = ground arith
state_at-set_state (e ∷ es) (suc i) (suc j) s = state_at-set_state es i j s ∙ ground arith

module _ (works : ℕ → Bool) (reached : ModuleState) where
  phase-keeps :
      (order : List ℕ) (es : List ModuleEntry) (j : ℕ)
      → state_at j es ≡ some reached
      → (phase works reached order es).1 ≡ true
      → state_at j (phase works reached order es).0 ≡ some reached
  unfolding phase
  phase-keeps [] es j h ok = h
  phase-keeps (i ∷ order) es j h ok = elim (Bool-cases (works i)) [
    | inl y ↦ rw y (
        phase-keeps order (set_state es i reached) j
          (ground (arith, state_at-set_state es i j reached)) (rw y at ok))
    | inr n ↦ absurd (ground arith)
  ]

  phase-reaches :
      (order : List ℕ) (es : List ModuleEntry) (j : ℕ)
      → state_at j es ≢ none
      → In j order
      → (phase works reached order es).1 ≡ true
      → state_at j (phase works reached order es).0 ≡ some reached
  unfolding phase
  phase-reaches [] es j h m ok = absurd m
  phase-reaches (i ∷ order) es j h m ok = elim (Bool-cases (works i)) [
    | inl y ↦ rw y (elim m [
      | inl e ↦
          phase-keeps order (set_state es i reached) j
            (ground (arith, state_at-set_state es i j reached, nat_beq_iff i j)) (rw y at ok)
      | inr k ↦
          phase-reaches order (set_state es i reached) j
            (ground (arith, state_at-set_state es i j reached)) k (rw y at ok)
    ])
    | inr n ↦ absurd (ground arith)
  ]

  phase-present :
      (order : List ℕ) (es : List ModuleEntry) (j : ℕ)
      → state_at j es ≢ none
      → state_at j (phase works reached order es).0 ≢ none
  unfolding phase
  phase-present [] es j h = h
  phase-present (i ∷ order) es j h = elim (Bool-cases (works i)) [
    | inl y ↦ rw y (
        phase-present order (set_state es i reached) j
          (ground (arith, state_at-set_state es i j reached)))
    | inr n ↦ rw n (ground (arith, state_at-set_state es i j failed))
  ]

-- Where booting succeeds, the kernel runs and so does every module of the boot order.
pub boot-running :
    (inits starts : ℕ → Bool) (order : List ℕ) (k : Kernel) (j : ℕ)
    → In j order
    → state_at j k.modules ≢ none
    → (boot inits starts order k).1 ≡ true
    → ((boot inits starts order k).0.running ≡ true)
      × (state_at j (boot inits starts order k).0.modules ≡ some running)
boot-running inits starts order k j m h ok =
    elim (Bool-cases (phase inits initialized order k.modules).1) [
      | inl y ↦ rw y (
        ground (arith, ok),
        phase-reaches starts running order (phase inits initialized order k.modules).0 j
            (phase-present inits initialized order k.modules j h) m (rw y at ok),
      )
      | inr n ↦ absurd (ground arith)
    ]

stop_state :
    (works : Bool) (i j : ℕ) (es : List ModuleEntry) (e : ModuleEntry)
    → get_elem? es i ≡ some e
    → state_at j (stop_one works i (some e) es).0 ≡ (
        if is_running e.state
        then (if i == j then some (if works then stopped else failed) else state_at j es)
        else state_at j es)
unfolding state_at
stop_state works i j es e g =
    ground (arith, state_at-set_state es i j (if works then stopped else failed), nat_beq_iff i j)

stop_one-leaves :
    (works : Bool) (i j : ℕ) (es : List ModuleEntry)
    → state_at j es ≢ some running
    → state_at j (stop_one works i (get_elem? es i) es).0 ≢ some running
stop_one-leaves works i j es h = elim (Option-cases (get_elem? es i)) [
  | inl n ↦ rw n h
  | inr (e, g) ↦ rw g (ground (arith, stop_state works i j es e g))
]

stop_one-stops :
    (works : Bool) (i : ℕ) (es : List ModuleEntry)
    → state_at i (stop_one works i (get_elem? es i) es).0 ≢ some running
unfolding state_at
stop_one-stops works i es = elim (Option-cases (get_elem? es i)) [
  | inl n ↦ rw n (λ h. absurd cc)
  | inr (e, g) ↦ rw g (ground (arith, stop_state works i i es e g, nat_beq_iff i i))
]

stop_all-stops :
    (works : ℕ → Bool) (order : List ℕ) (es : List ModuleEntry) (j : ℕ)
    → In j order
    → state_at j (stop_all works order es).0 ≢ some running
unfolding stop_all
stop_all-stops works [] es j m = absurd m
stop_all-stops works (i ∷ order) es j (inl e) =
    rw e (stop_one-stops (works i) i (stop_all works order es).0)
stop_all-stops works (i ∷ order) es j (inr m) =
    stop_one-leaves (works i) i j (stop_all works order es).0 (stop_all-stops works order es j m)

-- After Stop, whatever the modules answer, the kernel does not run and no module of its boot order does.
pub stop-halts :
    (works : ℕ → Bool) (k : Kernel)
    → ((stop works k).0.running ≡ false)
      × ((j : ℕ) → In j k.boot_order → state_at j (stop works k).0.modules ≢ some running)
unfolding stop
stop-halts works k = (refl, λ j m. stop_all-stops works k.boot_order k.modules j m)
