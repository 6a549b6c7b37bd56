-- ===== src/Quota/Enforcer/Slots.antt =====
-- modules/quota/enforcer.go: the counting semaphores of agents against the callbacks that are out.
use mathlib.Core.Option.{some-injective}
use cyntr.Common.{
  get_elem?-last, ℕ, zero, suc, ◌+◌, ◌≤◌, ◌<◌, String, ◌≡◌, refl, sym, ap, ◌∙◌, subst, Bool, true,
  false, List, [], ◌∷◌, ◌++◌, Option, none, some, ltb, ◌==◌, if◌then◌else◌, string_eq, nat_eq,
  length, get_elem?, set, arith, All, All-imp, All-append, Bool-cases, Option-cases, inl, inr, ◌⊎◌,
  length-append,
}
use cyntr.Common.Int.{pos_part}
use cyntr.Common.Dict.{get, put}
use cyntr.Quota.Enforcer.{
  Enforcer, AgentSlots, Release, get_config, acquire_agent_slot, acquire_slot, acquire_at,
}
use cyntr.Common.{nat_beq_iff}

-- The callbacks of a semaphore that have not run.
unfoldable pub open_at : ℕ → List Release → ℕ
open_at a [] = 0
open_at a (r ∷ rs) =
    let rest = open_at a rs in if r.released then rest else if r.slots == a then rest + 1 else rest

get_elem?-set :
    (xs : List AgentSlots) (i j : ℕ) (u v : AgentSlots)
    → get_elem? xs i ≡ some u
    → get_elem? (set xs i v) j ≡ (if i == j then some v else get_elem? xs j)
get_elem?-set [] i j u v e = absurd cc
get_elem?-set (x ∷ xs) zero zero u v e = ground arith
get_elem?-set (x ∷ xs) zero (suc j) u v e = ground arith
get_elem?-set (x ∷ xs) (suc i) zero u v e = ground arith
get_elem?-set (x ∷ xs) (suc i) (suc j) u v e = get_elem?-set xs i j u v e ∙ ground arith

pub length-set : (xs : List AgentSlots) (i : ℕ) (v : AgentSlots) → length (set xs i v) ≡ length xs
length-set [] i v = refl
length-set (x ∷ xs) zero v = refl
length-set (x ∷ xs) (suc i) v = ap suc (length-set xs i v)

get_elem?-append :
    (xs : List AgentSlots) (x s : AgentSlots) (j : ℕ)
    → get_elem? (xs ++ (x ∷ [])) j ≡ some s
    → (get_elem? xs j ≡ some s) ⊎ ((j ≡ length xs) × (x ≡ s))
get_elem?-append [] x s zero e = inr (refl, some-injective _ _ e)
get_elem?-append [] x s (suc j) e = absurd cc
get_elem?-append (y ∷ xs) x s zero e = inl e
get_elem?-append (y ∷ xs) x s (suc j) e = elim (get_elem?-append xs x s j e) [
  | inl h ↦ inl h
  | inr h ↦ inr (ap suc h.0, h.1)
]

in_range : (xs : List AgentSlots) (i : ℕ) (u : AgentSlots) → get_elem? xs i ≡ some u → i < length xs
in_range [] i u e = absurd cc
in_range (x ∷ xs) zero u e = omega arith
in_range (x ∷ xs) (suc i) u e = omega (arith, in_range xs i u e)

pub open_at-append :
    (a i : ℕ) (rs : List Release)
    → open_at a (rs ++ (record { slots = i; released = false } ∷ []))
      ≡ open_at a rs + (if i == a then 1 else 0)
unfolding open_at
open_at-append a i [] = ground arith
open_at-append a i (r ∷ rs) = ground (arith, open_at-append a i rs)

pub open_at-set :
    (a k : ℕ) (r : Release) (rs : List Release)
    → get_elem? rs k ≡ some r
    → r.released ≡ false
    → open_at a (set rs k (record r { released = true })) + (if r.slots == a then 1 else 0)
      ≡ open_at a rs
unfolding open_at
open_at-set a k r [] e f = absurd cc
open_at-set a zero r (x ∷ rs) e f = rw (some-injective _ _ e) (rw f (ground arith))
open_at-set a (suc k) r (x ∷ rs) e f = ground (arith, open_at-set a k r rs e f)

open_at-none : (a n : ℕ) (rs : List Release) → All (λ r. r.slots < n) rs → n ≤ a → open_at a rs ≡ 0
unfolding open_at
open_at-none a n [] h k = refl
open_at-none a n (r ∷ rs) h k = ground (arith, open_at-none a n rs h.1 k, h.0)

-- Each semaphore counts the callbacks that are out on it, and each callback has one.
pub record Counted (e : Enforcer) : Type 0 where
  pub counts :
      (a : ℕ) (s : AgentSlots) → get_elem? e.semaphores a ≡ some s → s.in_use ≡ open_at a e.releases
  pub named : All (λ r. r.slots < length e.semaphores) e.releases

module _ (e : Enforcer) (i : ℕ) (s v : AgentSlots) (found : get_elem? e.semaphores i ≡ some s) where
  -- Where a semaphore is rewritten, it is enough to look at the new value and at the others.
  pub set-counts :
      (rs : List Release)
      → v.in_use ≡ open_at i rs
      → ((a : ℕ) → (i == a) ≡ false → open_at a rs ≡ open_at a e.releases)
      → Counted e
      → (a : ℕ) (u : AgentSlots) → get_elem? (set e.semaphores i v) a ≡ some u
      → u.in_use ≡ open_at a rs
  set-counts rs own others c a u g = elim (Bool-cases (i == a)) [
    | inl y ↦
        ap (λ w. w.in_use)
          (sym (some-injective _ _ (rw (get_elem?-set e.semaphores i a s v found, y) at g)))
        ∙ own
        ∙ ap (λ b. open_at b rs) ((nat_beq_iff i a).0 y)
    | inr n ↦
        c.counts a u (rw (get_elem?-set e.semaphores i a s v found, n) at g) ∙ sym (others a n)
  ]

  set-named : Counted e → All (λ r. r.slots < length (set e.semaphores i v)) e.releases
  set-named c =
      subst (λ n. All (λ r. r.slots < n) e.releases) (sym (length-set e.semaphores i v)) c.named

pub acquire_at-Counted :
    (tenant : String) (limit now i : ℕ) (s : AgentSlots) (e : Enforcer)
    → get_elem? e.semaphores i ≡ some s
    → Counted e
    → Counted (acquire_at tenant limit now i s e).0
acquire_at-Counted tenant limit now i s e g c = elim (Bool-cases (ltb s.in_use limit)) [
  | inl y ↦ rw y (record {
    counts =
        set-counts e i s (record { cap = limit; in_use = s.in_use + 1 }) g
          (e.releases ++ (record { slots = i; released = false } ∷ []))
          (ground (arith, open_at-append i i e.releases, c.counts i s g))
          (λ a n. rw (open_at-append a i e.releases) (rw n (omega arith))) c;
    named =
        All-append (λ r. r.slots < _) e.releases (record { slots = i; released = false } ∷ [])
          (set-named e i s (record { cap = limit; in_use = s.in_use + 1 }) g c)
          (
            rw (length-set e.semaphores i (record { cap = limit; in_use = s.in_use + 1 }))
                (in_range e.semaphores i s g),
            tt,
          );
  })
  | inr n ↦ rw n (record {
    counts =
        set-counts e i s (record { cap = limit; in_use = s.in_use }) g e.releases (c.counts i s g)
          (λ a n. refl) c;
    named = set-named e i s (record { cap = limit; in_use = s.in_use }) g c;
  })
]

abbrev pub with_fresh : String → ℕ → Enforcer → Enforcer
with_fresh tenant limit e = record e {
  semaphores = e.semaphores ++ (record { cap = limit; in_use = 0 } ∷ []);
  slots = put tenant (length e.semaphores) e.slots;
}

pub fresh-Counted :
    (tenant : String) (limit : ℕ) (e : Enforcer) → Counted e → Counted (with_fresh tenant limit e)
fresh-Counted tenant limit e c = record {
  counts = λ a s g.
      elim (get_elem?-append e.semaphores (record { cap = limit; in_use = 0 }) s a g) [
        | inl h ↦ c.counts a s h
        | inr h ↦
            ap (λ w. w.in_use) (sym h.1)
            ∙ sym (open_at-none a (length e.semaphores) e.releases c.named (omega (arith, h.0)))
      ];
  named =
      All-imp (λ r. r.slots < length e.semaphores) _
        (λ r h.
          omega (arith, h, length-append e.semaphores (record { cap = limit; in_use = 0 } ∷ [])))
        e.releases c.named;
}

acquire_slot-Counted :
    (tenant : String) (limit now : ℕ) (o : Option ℕ) (e : Enforcer)
    → Counted e
    → Counted (acquire_slot tenant limit now o e).0
acquire_slot-Counted tenant limit now none e c =
    acquire_at-Counted tenant limit now (length e.semaphores) (record { cap = limit; in_use = 0 })
      (with_fresh tenant limit e) (get_elem?-last e.semaphores (record { cap = limit; in_use = 0 }))
      (fresh-Counted tenant limit e c)
acquire_slot-Counted tenant limit now (some i) e c =
    elim (Option-cases (get_elem? e.semaphores i)) [
      | inl n ↦ rw n c
      | inr (s, g) ↦ rw g (acquire_at-Counted tenant limit now i s e g c)
    ]

-- Operations that leave semaphores and callbacks alone.
pub record Spares (e e' : Enforcer) : Type 0 where
  pub semaphores : e'.semaphores ≡ e.semaphores
  pub releases : e'.releases ≡ e.releases

pub Spares-Counted : (e e' : Enforcer) → Spares e e' → Counted e → Counted e'
Spares-Counted e e' s c = record {
  counts = λ a u g.
      c.counts a u (ap (λ m. get_elem? m a) (sym s.semaphores) ∙ g)
      ∙ sym (ap (open_at a) s.releases);
  named = rw (s.semaphores, s.releases) c.named;
}

pub get_config-Spares :
    (ok : Bool) (tenant : String) (e : Enforcer) → Spares e (get_config ok tenant e).0
unfolding get_config
get_config-Spares ok tenant e = record { semaphores = ground arith; releases = ground arith }

pub acquire-Counted :
    (ok : Bool) (tenant : String) (now : ℕ) (e : Enforcer)
    → Counted e
    → Counted (acquire_agent_slot ok tenant now e).0
unfolding acquire_agent_slot
acquire-Counted ok tenant now e c =
    let e' = (get_config ok tenant e).0 in
    let limit = pos_part (get_config ok tenant e).1.max_concurrent_agents in
    let c' = Spares-Counted e e' (get_config-Spares ok tenant e) c in
    elim (Bool-cases (limit == 0)) [
      | inl y ↦ rw y c'
      | inr n ↦ rw n (acquire_slot-Counted tenant limit now (get tenant e'.slots) e' c')
    ]
