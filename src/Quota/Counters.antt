-- ===== src/Quota/Counters.antt =====
-- modules/quota/store.go: the configurations and the daily counters in SQLite, as lists of rows. The
-- JSON in which a configuration is stored is not modelled. `ok` says whether the statements work.
use cyntr.Common.{
  ℕ, ◌+◌, ◌/◌, ◌*◌, String, Bool, true, false, List, [], ◌∷◌, Option, none, some, ◌==◌,
  if◌then◌else◌, string_eq, nat_eq,
}
use cyntr.Common.Int.{ℤ}
use cyntr.Common.Dict.{Dict, put}

-- A limit that is not positive is none.
pub record QuotaConfig : Type 0 where
  pub tenant : String
  pub tokens_per_day : ℤ
  pub requests_per_minute : ℤ
  pub max_concurrent_agents : ℤ
  pub max_sessions_per_day : ℤ

pub record Counter : Type 0 where
  pub tenant : String
  pub day : ℕ
  pub tokens : ℕ
  pub sessions : ℕ

pub record Store : Type 0 where
  pub configs : Dict String QuotaConfig
  pub counters : List Counter

-- The days since 1970 of a time in nanoseconds, in UTC.
abbrev pub day_length : ℕ
day_length = 86_400_000_000_000

unfoldable pub day_key : ℕ → ℕ
day_key now = now / day_length

unfoldable pub end_of_utc_day : ℕ → ℕ
unfolding day_key
end_of_utc_day now = (day_key now + 1) * day_length

unfoldable pub save_config : Bool → QuotaConfig → Store → Store × Bool
save_config ok cfg s =
    if cfg.tenant == ""
    then (s, false)
    else if ok
    then (record s { configs = put cfg.tenant cfg s.configs }, true)
    else (s, false)

unfoldable pub find_counter : String → ℕ → List Counter → Option Counter
find_counter tenant day [] = none
find_counter tenant day (c ∷ cs) =
    let rest = find_counter tenant day cs in
    if c.tenant == tenant then (if c.day == day then some c else rest) else rest

-- INSERT … ON CONFLICT(tenant, day) DO UPDATE SET tokens = tokens + …, sessions = sessions + …
unfoldable pub add_counts : String → ℕ → ℕ → ℕ → List Counter → List Counter
add_counts tenant day tokens sessions [] =
    record { tenant = tenant; day = day; tokens = tokens; sessions = sessions } ∷ []
add_counts tenant day tokens sessions (c ∷ cs) =
    let rest = add_counts tenant day tokens sessions cs in
    if c.tenant == tenant
    then (if c.day == day
        then record c { tokens = c.tokens + tokens; sessions = c.sessions + sessions } ∷ cs
        else c ∷ rest)
    else c ∷ rest

abbrev pub tokens_or_zero : Option Counter → ℕ
tokens_or_zero none = 0
tokens_or_zero (some c) = c.tokens

abbrev pub sessions_or_zero : Option Counter → ℕ
sessions_or_zero none = 0
sessions_or_zero (some c) = c.sessions

unfoldable pub current_tokens : String → ℕ → Store → ℕ
unfolding find_counter day_key
current_tokens tenant now s = tokens_or_zero (find_counter tenant (day_key now) s.counters)

unfoldable pub current_sessions : String → ℕ → Store → ℕ
unfolding find_counter day_key
current_sessions tenant now s = sessions_or_zero (find_counter tenant (day_key now) s.counters)

unfoldable pub add_tokens : String → ℕ → ℕ → Store → Store
unfolding add_counts day_key
add_tokens tenant amount now s = record s {
  counters = add_counts tenant (day_key now) amount 0 s.counters;
}

-- The result is the new number of sessions.
unfoldable pub increment_sessions : String → ℕ → Store → Store × ℕ
unfolding add_counts day_key current_sessions
increment_sessions tenant now s =
    let s' = record s { counters = add_counts tenant (day_key now) 0 1 s.counters } in
    (s', current_sessions tenant now s')
