-- ===== src/Quota/Service/Release.antt =====
-- modules/quota/module.go: a slot that is taken over the bus and given back.
use cyntr.Common.{
  ap, sym, ℕ, ◌+◌, String, ◌≡◌, refl, Bool, true, false, not, List, [], ◌∷◌, Option, none, some,
  string_eq, nat_eq, select, arith, Option-cases, inl, inr, str_iff, nat_beq_iff,
}
use cyntr.Quota.Service.{
  Held, Service, is_slot, denied, find_slot, handle_slot_release, handle_slot_acquire, slot,
  slot_acquired,
}
use cyntr.Quota.Enforcer.{acquire_agent_slot, Acquired, holds, release_agent_slot}

find_slot-select :
    (tenant : String) (number : ℕ) (hs : List Held)
    → find_slot tenant number (select (λ x. not (is_slot tenant number x)) hs) ≡ none
unfolding find_slot select
find_slot-select tenant number [] = refl
find_slot-select tenant number (h ∷ hs) = ground (arith, find_slot-select tenant number hs)

-- A slot is given back at most once: whatever the service holds, a second release of the same slot
-- finds nothing and changes nothing.
pub handle_slot_release-release :
    (tenant : String) (number : ℕ) (m : Service)
    → handle_slot_release tenant number (handle_slot_release tenant number m).0
      ≡ ((handle_slot_release tenant number m).0, false)
unfolding handle_slot_release
handle_slot_release-release tenant number m =
    elim (Option-cases (find_slot tenant number m.slots)) [
      | inl n ↦ rw n (rw n refl)
      | inr (h, g) ↦ rw g (rw (find_slot-select tenant number m.slots) refl)
    ]

slot-injective : (i j : ℕ) → slot i ≡ slot j → i ≡ j
slot-injective i j e = ap (λ r. elim r [ slot n ↦ n | denied q ↦ 0 ]) e

is_slot_self :
    (tenant : String) (number : ℕ) (c : Option ℕ)
    → is_slot tenant number (record { tenant = tenant; number = number; callback = c }) ≡ true
is_slot_self tenant number c = ground (arith, str_iff tenant tenant, nat_beq_iff number number)

acquired-release :
    (tenant : String) (number k : ℕ) (got : Acquired) (m : Service)
    → got ≡ holds k
    → (slot_acquired tenant got m).1 ≡ slot number
    → (handle_slot_release tenant number (slot_acquired tenant got m).0).0.enforcer
      ≡ release_agent_slot k m.enforcer
unfolding handle_slot_release find_slot
acquired-release tenant number k got m g h = rw g (
    rw (sym (slot-injective (m.slot_counter + 1) number (rw g at h)))
      (rw (is_slot_self tenant (m.slot_counter + 1) (some k)) refl))

-- What the enforcer has after a slot is taken over the bus and the named slot is given back is what it
-- has after AcquireAgentSlot and the callback that it returned.
pub handle_slot_acquire-release :
    (ok : Bool) (tenant : String) (now number k : ℕ) (m : Service)
    → (acquire_agent_slot ok tenant now m.enforcer).1 ≡ holds k
    → (handle_slot_acquire ok tenant now m).1 ≡ slot number
    → (handle_slot_release tenant number (handle_slot_acquire ok tenant now m).0).0.enforcer
      ≡ release_agent_slot k (acquire_agent_slot ok tenant now m.enforcer).0
unfolding handle_slot_acquire
handle_slot_acquire-release ok tenant now number k m g h =
    acquired-release tenant number k (acquire_agent_slot ok tenant now m.enforcer).1
      (record m { enforcer = (acquire_agent_slot ok tenant now m.enforcer).0 }) g h
