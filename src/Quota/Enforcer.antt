-- ===== src/Quota/Enforcer.antt =====
-- modules/quota/enforcer.go: the checks and the records of use. Objects that Go shares through
-- pointers stand in lists and are named by their position: the counting semaphores, which the table
-- `slots` and the release callbacks share, and the callbacks themselves. The database's answers, the
-- readings of the clock and their order are arguments. Amounts are int64 values from 0 on.
pub mod Slots
pub mod History
pub mod Capped
use cyntr.Common.{
  ℕ, ◌+◌, ◌-◌, ◌^◌, String, Bool, true, false, List, [], ◌∷◌, ◌++◌, Option, none, some, ltb, leb,
  ◌==◌, if◌then◌else◌, string_eq, nat_eq, length, get_elem?, set,
}
use cyntr.Common.Int.{ℤ, pos, pos_part}
use cyntr.Common.Dict.{Dict, get, put, remove}
use cyntr.Quota.Bucket.{RateBucket}
use cyntr.Quota.Bucket
use cyntr.Quota.Counters.{
  QuotaConfig, Store, save_config, current_tokens, add_tokens, increment_sessions, end_of_utc_day,
}
use cyntr.Common.{not}

pub record AgentSlots : Type 0 where
  pub cap : ℕ
  pub in_use : ℕ

-- A release callback: the semaphore that it gives back to, and whether it has run.
pub record Release : Type 0 where
  pub slots : ℕ
  pub released : Bool

pub record Enforcer : Type 0 where
  pub store : Option Store
  pub configs : Dict String QuotaConfig
  pub buckets : Dict String RateBucket
  pub slots : Dict String ℕ
  pub semaphores : List AgentSlots
  pub releases : List Release

pub data Kind : Type 0 where
  tokens rate concurrency sessions : Kind

pub record QuotaExceeded : Type 0 where
  pub tenant : String
  pub kind : Kind
  pub limit : ℕ
  pub current : ℕ
  pub reset_at : ℕ

unfoldable pub new_enforcer : Option Store → Enforcer
new_enforcer store = record {
  store = store;
  configs = [];
  buckets = [];
  slots = [];
  semaphores = [];
  releases = [];
}

abbrev pub persist_config : Bool → QuotaConfig → Enforcer → Option Store → Enforcer × Bool
persist_config ok cfg e none = (e, true)
persist_config ok cfg e (some s) =
    let (s', saved) = save_config ok cfg s in (record e { store = some s' }, saved)

unfoldable pub set_config : Bool → QuotaConfig → Enforcer → Enforcer × Bool
set_config ok cfg e =
    persist_config ok cfg
      (record e {
        configs = put cfg.tenant cfg e.configs;
        buckets = remove cfg.tenant e.buckets;
        slots = remove cfg.tenant e.slots;
      })
      e.store

abbrev pub unlimited_config : String → QuotaConfig
unlimited_config tenant = record {
  tenant = tenant;
  tokens_per_day = pos 0;
  requests_per_minute = pos 0;
  max_concurrent_agents = pos 0;
  max_sessions_per_day = pos 0;
}

abbrev pub cache_config : String → Option QuotaConfig → Enforcer → Enforcer × QuotaConfig
cache_config tenant none e = (e, unlimited_config tenant)
cache_config tenant (some cfg) e = (record e { configs = put tenant cfg e.configs }, cfg)

abbrev pub load_config : Bool → String → Option Store → Enforcer → Enforcer × QuotaConfig
load_config ok tenant none e = (e, unlimited_config tenant)
load_config ok tenant (some s) e = cache_config tenant (if ok then get tenant s.configs else none) e

unfoldable pub get_config : Bool → String → Enforcer → Enforcer × QuotaConfig
get_config ok tenant e = elim (get tenant e.configs) [
  | some cfg ↦ (e, cfg)
  | none ↦ load_config ok tenant e.store e
]

-- The sum of two int64 values from 0 on is negative where it overflows.
abbrev pub exceeds : ℕ → ℕ → Bool
exceeds sum limit = if ltb sum (2 ^ 63) then ltb limit sum else false

abbrev pub over_tokens : String → ℕ → ℕ → ℕ → ℕ → Option QuotaExceeded
over_tokens tenant limit current requested now =
    if exceeds (current + requested) limit
    then some (record {
      tenant = tenant;
      kind = tokens;
      limit = limit;
      current = current;
      reset_at = end_of_utc_day now;
    })
    else none

abbrev pub check_day : Bool → String → ℕ → ℕ → ℕ → Option Store → Option QuotaExceeded
check_day ok tenant limit requested now none = over_tokens tenant limit 0 requested now
check_day ok tenant limit requested now (some s) =
    if ok
    then over_tokens tenant limit (current_tokens tenant now s) requested now
    else some (record {
      tenant = tenant;
      kind = tokens;
      limit = limit;
      current = limit;
      reset_at = end_of_utc_day now;
    })

-- none is a nil error
unfoldable pub check_tokens :
    Bool → Bool → String → ℕ → ℕ → Enforcer → Enforcer × Option QuotaExceeded
unfolding get_config current_tokens end_of_utc_day
check_tokens config_ok ok tenant requested now e =
    let (e', cfg) = get_config config_ok tenant e in
    let limit = pos_part cfg.tokens_per_day in
    (e', if limit == 0 then none else check_day ok tenant limit requested now e'.store)

abbrev pub record_in : Bool → String → ℕ → ℕ → Enforcer → Option Store → Enforcer
record_in ok tenant used now e none = e
record_in ok tenant used now e (some s) =
    if ok then record e { store = some (add_tokens tenant used now s) } else e

unfoldable pub record_tokens : Bool → String → ℕ → ℕ → Enforcer → Enforcer
record_tokens ok tenant used now e = if used == 0 then e else record_in ok tenant used now e e.store

abbrev pub found_or_full : ℕ → ℕ → Option RateBucket → RateBucket
found_or_full limit now none = record { tokens = limit; capacity = limit; last_refill = now }
found_or_full limit now (some b) = b

-- CheckRate: `created` is the clock where a bucket is made, `now` where a token is taken.
unfoldable pub check_rate : Bool → String → ℕ → ℕ → Enforcer → Enforcer × Option QuotaExceeded
unfolding get_config Bucket.allow
check_rate config_ok tenant created now e =
    let (e', cfg) = get_config config_ok tenant e in
    let limit = pos_part cfg.requests_per_minute in
    let (b, allowed, next) =
      Bucket.allow now (found_or_full limit created (get tenant e'.buckets)) in
    if limit == 0 then (e', none) else (
      record e' { buckets = put tenant b e'.buckets },
      if allowed
          then none
          else some (record {
            tenant = tenant;
            kind = rate;
            limit = limit;
            current = limit;
            reset_at = next;
          }),
    )

pub data Acquired : Type 0 where
  -- a callback that does nothing
  without_limit : Acquired
  -- the position of the callback
  holds : ℕ → Acquired
  refused : QuotaExceeded → Acquired

abbrev pub acquire_at : String → ℕ → ℕ → ℕ → AgentSlots → Enforcer → Enforcer × Acquired
acquire_at tenant limit now i s e =
    if ltb s.in_use limit
    then (
      record e {
        semaphores = set e.semaphores i (record { cap = limit; in_use = s.in_use + 1 });
        releases = e.releases ++ (record { slots = i; released = false } ∷ []);
      },
      holds (length e.releases),
    )
    else (
      record e { semaphores = set e.semaphores i (record { cap = limit; in_use = s.in_use }) },
      refused (record {
        tenant = tenant;
        kind = concurrency;
        limit = limit;
        current = s.in_use;
        reset_at = now;
      }),
    )

-- A name in the table stands for a semaphore that exists.
abbrev pub acquire_named : String → ℕ → ℕ → ℕ → Option AgentSlots → Enforcer → Enforcer × Acquired
acquire_named tenant limit now i none e = (e, without_limit)
acquire_named tenant limit now i (some s) e = acquire_at tenant limit now i s e

abbrev pub acquire_slot : String → ℕ → ℕ → Option ℕ → Enforcer → Enforcer × Acquired
acquire_slot tenant limit now (some i) e =
    acquire_named tenant limit now i (get_elem? e.semaphores i) e
acquire_slot tenant limit now none e =
    let i = length e.semaphores in
    let fresh : AgentSlots = record { cap = limit; in_use = 0 } in
    acquire_at tenant limit now i fresh
      (record e { semaphores = e.semaphores ++ (fresh ∷ []); slots = put tenant i e.slots })

unfoldable pub acquire_agent_slot : Bool → String → ℕ → Enforcer → Enforcer × Acquired
unfolding get_config
acquire_agent_slot config_ok tenant now e =
    let (e', cfg) = get_config config_ok tenant e in
    let limit = pos_part cfg.max_concurrent_agents in
    if limit == 0
    then (e', without_limit)
    else acquire_slot tenant limit now (get tenant e'.slots) e'

abbrev pub give_back : ℕ → Option AgentSlots → List AgentSlots → List AgentSlots
give_back i none ss = ss
give_back i (some s) ss = set ss i (record s { in_use = s.in_use - 1 })

abbrev pub release_once : ℕ → Option Release → Enforcer → Enforcer
release_once k none e = e
release_once k (some r) e = if r.released then e else record e {
  semaphores = give_back r.slots (get_elem? e.semaphores r.slots) e.semaphores;
  releases = set e.releases k (record r { released = true });
}

-- A call of the k-th callback.
unfoldable pub release_agent_slot : ℕ → Enforcer → Enforcer
release_agent_slot k e = release_once k (get_elem? e.releases k) e

-- `ok` says whether the INSERT of IncrementSessions works, `read_ok` its SELECT, which may fail when the
-- session is counted.
abbrev pub count_session :
    Bool → Bool → String → ℕ → ℕ → Enforcer → Option Store → Enforcer × Option QuotaExceeded
count_session ok read_ok tenant limit now e none = (e, none)
count_session ok read_ok tenant limit now e (some s) =
    let (s', count) = increment_sessions tenant now s in
    if ok
    then (
      record e { store = some s' },
      if not read_ok
          then none
          else if limit == 0
          then none
          else if ltb limit count
          then some (record {
            tenant = tenant;
            kind = sessions;
            limit = limit;
            current = count;
            reset_at = end_of_utc_day now;
          })
          else none,
    )
    else (e, none)

unfoldable pub record_session :
    Bool → Bool → Bool → String → ℕ → Enforcer → Enforcer × Option QuotaExceeded
unfolding get_config increment_sessions end_of_utc_day
record_session config_ok ok read_ok tenant now e =
    let (e', cfg) = get_config config_ok tenant e in
    count_session ok read_ok tenant (pos_part cfg.max_sessions_per_day) now e' e'.store
