-- ===== src/Quota/Enforcer/Capped.antt =====
-- modules/quota/enforcer.go: what a check that passes leaves room for.
use cyntr.Common.{
  ℕ, ◌+◌, ◌^◌, ◌≤◌, ◌<◌, String, ◌≡◌, ◌≢◌, refl, ap, subst, Bool, true, false, List, [], ◌∷◌, ◌++◌,
  Option, none, some, ltb, ◌==◌, if◌then◌else◌, string_eq, nat_eq, length, get_elem?, arith,
  Bool-cases, Option-cases, inl, inr, nat_beq_iff, str_iff, get_elem?-last,
}
use cyntr.Common.Int.{pos_part}
use cyntr.Common.Dict.{get, get-put}
use cyntr.Quota.Counters.{
  Store, Counter, find_counter, add_counts, add_tokens, current_tokens, day_key, tokens_or_zero,
}
use cyntr.Quota.Enforcer.{
  Enforcer, AgentSlots, holds, refused, without_limit, get_config, acquire_agent_slot, acquire_slot,
  acquire_at, check_tokens, QuotaExceeded, check_day, over_tokens,
}
use cyntr.Quota.Enforcer.Slots.{
  Counted, Spares-Counted, get_config-Spares, open_at, open_at-append, fresh-Counted, with_fresh,
}

-- A callback that was handed out under a limit, on the tenant's semaphore, with no more of them out on
-- it than the limit.
pub record Within (tenant : String) (limit k : ℕ) (e : Enforcer) : Type 0 where
  pub semaphore : ℕ
  pub current : get tenant e.slots ≡ some semaphore
  pub handed : get_elem? e.releases k ≡ some (record { slots = semaphore; released = false })
  pub capped : open_at semaphore e.releases ≤ limit

holds-injective : (j k : ℕ) → holds j ≡ holds k → j ≡ k
holds-injective j k e = ap (λ a. elim a [ without_limit ↦ 0 | holds i ↦ i | refused x ↦ 0 ]) e

acquire_at-Within :
    (tenant : String) (limit now i k : ℕ) (s : AgentSlots) (e : Enforcer)
    → get_elem? e.semaphores i ≡ some s
    → get tenant e.slots ≡ some i
    → Counted e
    → (acquire_at tenant limit now i s e).1 ≡ holds k
    → Within tenant limit k (acquire_at tenant limit now i s e).0
acquire_at-Within tenant limit now i k s e g t c h = elim (Bool-cases (ltb s.in_use limit)) [
  | inl y ↦ rw y (record {
    semaphore = i;
    current = t;
    handed =
        subst
          (λ j.
            get_elem? (e.releases ++ (record { slots = i; released = false } ∷ [])) j
            ≡ some (record { slots = i; released = false }))
          (holds-injective _ _ (rw y at h))
          (get_elem?-last e.releases (record { slots = i; released = false }));
    capped = ground (arith, open_at-append i i e.releases, c.counts i s g, nat_beq_iff i i);
  })
  | inr n ↦ absurd (ground arith)
]

acquire_slot-Within :
    (tenant : String) (limit now k : ℕ) (o : Option ℕ) (e : Enforcer)
    → get tenant e.slots ≡ o
    → Counted e
    → (acquire_slot tenant limit now o e).1 ≡ holds k
    → Within tenant limit k (acquire_slot tenant limit now o e).0
acquire_slot-Within tenant limit now k none e t c h =
    acquire_at-Within tenant limit now (length e.semaphores) k (record { cap = limit; in_use = 0 })
      (with_fresh tenant limit e) (get_elem?-last e.semaphores (record { cap = limit; in_use = 0 }))
      (ground (arith, get-put tenant tenant (length e.semaphores) e.slots, str_iff tenant tenant))
      (fresh-Counted tenant limit e c) h
acquire_slot-Within tenant limit now k (some i) e t c h =
    elim (Option-cases (get_elem? e.semaphores i)) [
      | inl n ↦ absurd (ground arith)
      | inr (s, g) ↦ rw g (acquire_at-Within tenant limit now i k s e g t c (rw g at h))
    ]

-- Where each semaphore counts what is out on it, an agent that is given a slot under a limit has it on
-- its tenant's semaphore, and with it no more slots of that semaphore are out than the tenant's
-- configuration allows.
pub acquire-Within :
    (ok : Bool) (tenant : String) (now k : ℕ) (e : Enforcer)
    → Counted e
    → (acquire_agent_slot ok tenant now e).1 ≡ holds k
    → Within tenant
        (pos_part (get_config ok tenant e).1.max_concurrent_agents)
        k
        (acquire_agent_slot ok tenant now e).0
unfolding acquire_agent_slot
acquire-Within ok tenant now k e c h =
    let e' = (get_config ok tenant e).0 in
    let limit = pos_part (get_config ok tenant e).1.max_concurrent_agents in
    elim (Bool-cases (limit == 0)) [
      | inl y ↦ absurd (ground arith)
      | inr n ↦ rw n (
          acquire_slot-Within tenant limit now k (get tenant e'.slots) e' refl
            (Spares-Counted e e' (get_config-Spares ok tenant e) c) (rw n at h))
    ]

find_counter-add_counts :
    (tenant : String) (day n m : ℕ) (cs : List Counter)
    → tokens_or_zero (find_counter tenant day (add_counts tenant day n m cs))
      ≡ tokens_or_zero (find_counter tenant day cs) + n
unfolding find_counter add_counts
find_counter-add_counts tenant day n m [] = ground (arith, str_iff tenant tenant)
find_counter-add_counts tenant day n m (c ∷ cs) =
    ground (arith, find_counter-add_counts tenant day n m cs)

pub current_tokens-add_tokens :
    (tenant : String) (n now : ℕ) (s : Store)
    → current_tokens tenant now (add_tokens tenant n now s) ≡ current_tokens tenant now s + n
unfolding current_tokens add_tokens
current_tokens-add_tokens tenant n now s =
    find_counter-add_counts tenant (day_key now) n 0 s.counters

some-none : {x : QuotaExceeded} → some x ≡ none → ⊥
some-none e = absurd cc

under_limit :
    (limit : ℕ) (o : Option QuotaExceeded)
    → limit ≢ 0
    → (if limit == 0 then none else o) ≡ none
    → o ≡ none
under_limit limit o n h = ground (arith, nat_beq_iff limit 0)

over_tokens-none :
    (tenant : String) (limit current n now : ℕ)
    → current + n < 2 ^ 63
    → over_tokens tenant limit current n now ≡ none
    → current + n ≤ limit
over_tokens-none tenant limit current n now b h = ground arith

-- A check of tokens that passes under a limit, the database working and the sum an int64, leaves room:
-- recorded at that time, the tokens of the day stay within the tenant's limit. Where the database
-- cannot be read, the check fails.
pub check_tokens-record :
    (config_ok : Bool) (tenant : String) (n now : ℕ) (e : Enforcer) (s : Store)
    → (get_config config_ok tenant e).0.store ≡ some s
    → pos_part (get_config config_ok tenant e).1.tokens_per_day ≢ 0
    → current_tokens tenant now s + n < 2 ^ 63
    → ((check_tokens config_ok true tenant n now e).1 ≡ none
        → current_tokens tenant now (add_tokens tenant n now s)
          ≤ pos_part (get_config config_ok tenant e).1.tokens_per_day)
      × ((check_tokens config_ok false tenant n now e).1 ≢ none)
unfolding check_tokens
check_tokens-record config_ok tenant n now e s g l b =
    let limit = pos_part (get_config config_ok tenant e).1.tokens_per_day in
    (
      λ h. rw (current_tokens-add_tokens tenant n now s) (
          over_tokens-none tenant limit (current_tokens tenant now s) n now b (
            rw g at (
              under_limit limit
                (check_day true tenant limit n now (get_config config_ok tenant e).0.store) l h))),
      λ h. absurd (
          some-none (
            rw g at (
              under_limit limit
                (check_day false tenant limit n now (get_config config_ok tenant e).0.store) l h))),
    )
