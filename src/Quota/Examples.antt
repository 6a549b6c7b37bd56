-- ===== src/Quota/Examples.antt =====
-- Concrete runs of the quotas: two agents at most, a hundred tokens a day.
use cyntr.Common.{
  ◌+◌, ◌-◌, ◌*◌, ◌^◌, ◌≤◌, ◌≢◌, ◌≡◌, refl, true, false, List, [], ◌∷◌, none, some, string_eq,
  nat_eq, arith,
}
use cyntr.Common.Int.{pos}
use cyntr.Common.Dict.{get}
use cyntr.Quota.Bucket.{RateBucket, minute, passes, passes-le}
use cyntr.Quota.Counters.{QuotaConfig, Store, current_tokens, add_tokens, day_key, find_counter}
use cyntr.Quota.Enforcer.{Enforcer, new_enforcer, get_config, acquire_agent_slot, check_tokens}
use cyntr.Quota.Enforcer.Slots.{Counted}
use cyntr.Quota.Enforcer.History.{
  Call, configures, acquires, releases, records_session, run, run-Counted,
}
use cyntr.Quota.Enforcer.Capped.{Within, acquire-Within, check_tokens-record}
use cyntr.Quota.Service.{Service}
use cyntr.Common.{◌<◌}

abbrev bucket : RateBucket
bucket = record { tokens = 1; capacity = 60; last_refill = 1000 }

passes-le_example :
    passes (2000 ∷ 1_000_002_000 ∷ 5 ∷ []) bucket * minute
    ≤ 1 * minute + (1_000_002_000 - 1000) * 60
passes-le_example =
    passes-le 1_000_002_000 (2000 ∷ 1_000_002_000 ∷ 5 ∷ []) bucket (omega arith) (omega arith)
      (omega arith, (omega arith, (omega arith, tt)))

abbrev config : QuotaConfig
config = record {
  tenant = "acme";
  tokens_per_day = pos 100;
  requests_per_minute = pos 60;
  max_concurrent_agents = pos 2;
  max_sessions_per_day = pos 0;
}

abbrev store : Store
store = record {
  configs = [];
  counters = record { tenant = "acme"; day = 0; tokens = 70; sessions = 1 } ∷ [];
}

abbrev calls : List Call
calls =
    configures true config
    ∷ acquires true "acme" 5
    ∷ acquires true "acme" 6
    ∷ releases 0
    ∷ releases 0
    ∷ records_session true true true "acme" 7
    ∷ []

run-Counted_example : Counted (run (new_enforcer (some store)) calls)
run-Counted_example = run-Counted (some store) calls

abbrev enforcer : Enforcer
enforcer = record {
  store = some store;
  configs = ("acme", config) ∷ [];
  buckets = [];
  slots = [];
  semaphores = [];
  releases = [];
}

enforcer-Counted : Counted enforcer
enforcer-Counted = record { counts = λ a s g. absurd cc; named = tt }

acquire-Within_example : Within "acme" 2 0 (acquire_agent_slot true "acme" 5 enforcer).0
unfolding acquire_agent_slot get_config get
acquire-Within_example = acquire-Within true "acme" 5 0 enforcer enforcer-Counted refl

day_left : current_tokens "acme" 9 store + 30 < 2 ^ 63
unfolding current_tokens day_key find_counter
day_left = omega arith

check_tokens-record_example :
    ((check_tokens true true "acme" 30 9 enforcer).1 ≡ none
      → current_tokens "acme" 9 (add_tokens "acme" 30 9 store) ≤ 100)
    × ((check_tokens true false "acme" 30 9 enforcer).1 ≢ none)
unfolding get_config get
check_tokens-record_example =
    check_tokens-record true "acme" 30 9 enforcer store refl (λ e. absurd (omega (arith, e)))
      day_left

abbrev service : Service
service = record { enforcer = enforcer; slots = []; slot_counter = 4 }
