-- ===== src/Quota/Enforcer/History.antt =====
-- modules/quota/enforcer.go: any sequence of calls of the enforcer.
use cyntr.Common.{
  ℕ, zero, suc, ◌-◌, ◌<◌, String, ◌≡◌, refl, sym, ◌∙◌, subst, Bool, true, false, List, [], ◌∷◌,
  Option, some, string_eq, nat_eq, length, get_elem?, set, arith, All, All-get, Bool-cases,
  Option-cases, inl, inr, nat_beq_iff,
}
use cyntr.Quota.Counters.{QuotaConfig, Store}
use cyntr.Quota.Enforcer.{
  Enforcer, Release, new_enforcer, set_config, get_config, acquire_agent_slot, release_agent_slot,
  release_once, check_tokens, record_tokens, check_rate, record_session,
}
use cyntr.Quota.Enforcer.Slots.{
  Counted, Spares, Spares-Counted, get_config-Spares, acquire-Counted, set-counts, open_at-set,
  length-set,
}

module _ (P : Release → Type 0) where
  All-set : (rs : List Release) (k : ℕ) (r : Release) → All P rs → P r → All P (set rs k r)
  All-set [] k r a p = tt
  All-set (x ∷ rs) zero r a p = (p, a.1)
  All-set (x ∷ rs) (suc k) r a p = (a.0, All-set rs k r a.1 p)

release-kept :
    (k : ℕ) (r : Release) (e : Enforcer)
    → get_elem? e.releases k ≡ some r
    → r.released ≡ false
    → Counted e
    → Counted (release_once k (some r) e)
release-kept k r e g f c = elim (Option-cases (get_elem? e.semaphores r.slots)) [
  | inl n ↦
      rw (f, n)
        (record {
          counts = λ a s h.
              c.counts a s h
              ∙ ground (arith, open_at-set a k r e.releases g f, nat_beq_iff r.slots a);
          named =
              All-set (λ r. r.slots < length e.semaphores) e.releases k _ c.named
                (All-get (λ r. r.slots < length e.semaphores) e.releases k r c.named g);
        })
  | inr (s, h) ↦
      rw (f, h)
        (record {
          counts =
              set-counts e r.slots s (record s { in_use = s.in_use - 1 }) h
                (set e.releases k (record r { released = true }))
                (ground (arith, c.counts r.slots s h, open_at-set r.slots k r e.releases g f))
                (λ a n. ground (arith, open_at-set a k r e.releases g f)) c;
          named =
              All-set (λ r. r.slots < length (set e.semaphores _ _)) e.releases k _
                (subst (λ n. All (λ r. r.slots < n) e.releases)
                  (sym (length-set e.semaphores r.slots (record s { in_use = s.in_use - 1 })))
                  c.named)
                (rw (length-set e.semaphores r.slots (record s { in_use = s.in_use - 1 }))
                  (All-get (λ r. r.slots < length e.semaphores) e.releases k r c.named g));
        })
]

release-Counted : (k : ℕ) (e : Enforcer) → Counted e → Counted (release_agent_slot k e)
unfolding release_agent_slot
release-Counted k e c = elim (Option-cases (get_elem? e.releases k)) [
  | inl n ↦ rw n c
  | inr (r, g) ↦
      rw g (elim (Bool-cases r.released) [ inl y ↦ rw y c | inr f ↦ release-kept k r e g f c ])
]

-- Every call that changes an enforcer, with the answers of the database and the readings of the clock.
pub data Call : Type 0 where
  configures : Bool → QuotaConfig → Call
  acquires : Bool → String → ℕ → Call
  -- runs a callback, for the first time or again
  releases : ℕ → Call
  checks_tokens : Bool → Bool → String → ℕ → ℕ → Call
  records_tokens : Bool → String → ℕ → ℕ → Call
  checks_rate : Bool → String → ℕ → ℕ → Call
  records_session : Bool → Bool → Bool → String → ℕ → Call

unfoldable pub step : Enforcer → Call → Enforcer
unfolding set_config acquire_agent_slot release_agent_slot check_tokens record_tokens check_rate
    record_session
step e (configures ok cfg) = (set_config ok cfg e).0
step e (acquires ok tenant now) = (acquire_agent_slot ok tenant now e).0
step e (releases k) = release_agent_slot k e
step e (checks_tokens config_ok ok tenant n now) = (check_tokens config_ok ok tenant n now e).0
step e (records_tokens ok tenant n now) = record_tokens ok tenant n now e
step e (checks_rate ok tenant created now) = (check_rate ok tenant created now e).0
step e (records_session config_ok ok read_ok tenant now) =
    (record_session config_ok ok read_ok tenant now e).0

unfoldable pub run : Enforcer → List Call → Enforcer
unfolding step
run e [] = e
run e (c ∷ cs) = run (step e c) cs

set_config-Spares :
    (ok : Bool) (cfg : QuotaConfig) (e : Enforcer) → Spares e (set_config ok cfg e).0
unfolding set_config
set_config-Spares ok cfg e = elim (Option-cases e.store) [
  | inl n ↦ rw n (record { semaphores = refl; releases = refl })
  | inr (s, g) ↦ rw g (record { semaphores = refl; releases = refl })
]

check_rate-Spares :
    (ok : Bool) (tenant : String) (created now : ℕ) (e : Enforcer)
    → Spares e (check_rate ok tenant created now e).0
unfolding check_rate get_config
check_rate-Spares ok tenant created now e = record {
  semaphores = ground arith;
  releases = ground arith;
}

record_tokens-Spares :
    (ok : Bool) (tenant : String) (n now : ℕ) (e : Enforcer)
    → Spares e (record_tokens ok tenant n now e)
unfolding record_tokens
record_tokens-Spares ok tenant n now e = record {
  semaphores = ground arith;
  releases = ground arith;
}

record_session-Spares :
    (config_ok ok read_ok : Bool) (tenant : String) (now : ℕ) (e : Enforcer)
    → Spares e (record_session config_ok ok read_ok tenant now e).0
unfolding record_session get_config
record_session-Spares config_ok ok read_ok tenant now e = record {
  semaphores = ground arith;
  releases = ground arith;
}

step-Counted : (e : Enforcer) (c : Call) → Counted e → Counted (step e c)
unfolding step check_tokens
step-Counted e (configures ok cfg) h = Spares-Counted e _ (set_config-Spares ok cfg e) h
step-Counted e (acquires ok tenant now) h = acquire-Counted ok tenant now e h
step-Counted e (releases k) h = release-Counted k e h
step-Counted e (checks_tokens config_ok ok tenant n now) h =
    Spares-Counted e _ (get_config-Spares config_ok tenant e) h
step-Counted e (records_tokens ok tenant n now) h =
    Spares-Counted e _ (record_tokens-Spares ok tenant n now e) h
step-Counted e (checks_rate ok tenant created now) h =
    Spares-Counted e _ (check_rate-Spares ok tenant created now e) h
step-Counted e (records_session config_ok ok read_ok tenant now) h =
    Spares-Counted e _ (record_session-Spares config_ok ok read_ok tenant now e) h

run-kept : (e : Enforcer) (cs : List Call) → Counted e → Counted (run e cs)
unfolding run
run-kept e [] h = h
run-kept e (c ∷ cs) h = run-kept (step e c) cs (step-Counted e c h)

-- From a new enforcer, after any calls with any answers of the database, each semaphore counts exactly
-- the callbacks that were handed out on it and have not run, a callback that runs again counts once,
-- and a change of a configuration loses none.
pub run-Counted : (store : Option Store) (cs : List Call) → Counted (run (new_enforcer store) cs)
unfolding new_enforcer
run-Counted store cs =
    run-kept (new_enforcer store) cs (record { counts = λ a s g. absurd cc; named = tt })
