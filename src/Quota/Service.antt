-- ===== src/Quota/Service.antt =====
-- modules/quota/module.go: the handlers of the bus topics. A payload of another type than the handler
-- asserts is an error of the bus and is not modelled. A slot's name, "tenant-number", is the pair.
pub mod Release
use cyntr.Common.{
  ℕ, ◌+◌, String, Bool, true, false, not, List, [], ◌∷◌, Option, none, some, leb, ltb, ◌==◌,
  if◌then◌else◌, string_eq, nat_eq, select, ◌&&◌, get_elem?,
}
use cyntr.Common.Int.{ℤ, pos, pos_part}
use cyntr.Common.Dict.{get}
use cyntr.Quota.Bucket.{RateBucket}
use cyntr.Quota.Counters.{QuotaConfig, Store, current_tokens, current_sessions, end_of_utc_day}
use cyntr.Quota.Enforcer.{
  Enforcer, AgentSlots, Acquired, without_limit, holds, refused, Kind, tokens, rate, concurrency,
  sessions, QuotaExceeded, get_config, set_config, check_tokens, check_rate, record_tokens,
  record_session, acquire_agent_slot, release_agent_slot,
}

-- An entry of `slots`: its name, and the callback that it keeps, none where that does nothing.
pub record Held : Type 0 where
  pub tenant : String
  pub number : ℕ
  pub callback : Option ℕ

pub record Service : Type 0 where
  pub enforcer : Enforcer
  pub slots : List Held
  pub slot_counter : ℕ

pub record Usage : Type 0 where
  pub tokens_today : ℕ
  pub sessions_today : ℕ
  pub active_agents : ℕ
  pub bucket_tokens : ℕ
  pub window_reset_at : ℕ

pub record CheckResponse : Type 0 where
  pub allowed : Bool
  pub current : ℕ
  pub limit : ℤ
  pub reset_at : ℕ
  pub reason : Option QuotaExceeded

abbrev pub read_counter : (Store → ℕ) → Bool → Option Store → ℕ
read_counter f ok none = 0
read_counter f ok (some s) = if ok then f s else 0

abbrev pub in_use_of : Option ℕ → List AgentSlots → ℕ
in_use_of none ss = 0
in_use_of (some i) ss = elim (get_elem? ss i) [ none ↦ 0 | some s ↦ s.in_use ]

abbrev pub bucket_level : Option RateBucket → ℕ
bucket_level none = 0
bucket_level (some b) = b.tokens

-- CurrentUsage
unfoldable pub current_usage : Bool → String → ℕ → Enforcer → Usage
unfolding current_tokens current_sessions end_of_utc_day
current_usage ok tenant now e = record {
  tokens_today = read_counter (current_tokens tenant now) ok e.store;
  sessions_today = read_counter (current_sessions tenant now) ok e.store;
  active_agents = in_use_of (get tenant e.slots) e.semaphores;
  bucket_tokens = bucket_level (get tenant e.buckets);
  window_reset_at = end_of_utc_day now;
}

abbrev pub respond : ℤ → ℕ → Option QuotaExceeded → CheckResponse
respond limit current none = record {
  allowed = true;
  current = current;
  limit = limit;
  reset_at = 0;
  reason = none;
}
respond limit current (some q) = record {
  allowed = false;
  current = q.current;
  limit = pos q.limit;
  reset_at = q.reset_at;
  reason = some q;
}

abbrev pub reaches : String → Kind → ℕ → ℕ → ℕ → Option QuotaExceeded
reaches tenant kind limit current reset =
    if limit == 0
    then none
    else if leb limit current
    then some (record {
      tenant = tenant;
      kind = kind;
      limit = limit;
      current = current;
      reset_at = reset;
    })
    else none

-- handleCheck: `config_ok` and `ok` are the database's answers, `now` the clock, read at one instant.
unfoldable pub handle_check :
    Bool → Bool → String → Kind → ℕ → ℕ → Service → Service × CheckResponse
unfolding get_config check_tokens check_rate current_usage end_of_utc_day
handle_check config_ok ok tenant tokens amount now m =
    let (e, cfg) = get_config config_ok tenant m.enforcer in
    let (e', err) = check_tokens config_ok ok tenant amount now e in
    (record m { enforcer = e' }, respond cfg.tokens_per_day 0 err)
handle_check config_ok ok tenant rate amount now m =
    let (e, cfg) = get_config config_ok tenant m.enforcer in
    let (e', err) = check_rate config_ok tenant now now e in
    (record m { enforcer = e' }, respond cfg.requests_per_minute 0 err)
handle_check config_ok ok tenant concurrency amount now m =
    let (e, cfg) = get_config config_ok tenant m.enforcer in
    let limit = pos_part cfg.max_concurrent_agents in
    let current = (current_usage ok tenant now e).active_agents in
    (
      record m { enforcer = e },
      respond cfg.max_concurrent_agents current (reaches tenant concurrency limit current 0),
    )
handle_check config_ok ok tenant sessions amount now m =
    let (e, cfg) = get_config config_ok tenant m.enforcer in
    let limit = pos_part cfg.max_sessions_per_day in
    let current = (current_usage ok tenant now e).sessions_today in
    (
      record m { enforcer = e },
      respond cfg.max_sessions_per_day current
          (reaches tenant sessions limit current (end_of_utc_day now)),
    )

-- handleRecord; `read_ok` says whether the new count of sessions can be read back.
unfoldable pub handle_record : Bool → Bool → Bool → String → Kind → ℕ → ℕ → Service → Service
unfolding record_tokens record_session
handle_record config_ok ok read_ok tenant tokens amount now m = record m {
  enforcer = record_tokens ok tenant amount now m.enforcer;
}
handle_record config_ok ok read_ok tenant sessions amount now m = record m {
  enforcer = (record_session config_ok ok read_ok tenant now m.enforcer).0;
}
handle_record config_ok ok read_ok tenant _ amount now m = m

-- handleConfigSet and handleConfigGet
unfoldable pub handle_config_set : Bool → QuotaConfig → Service → Service × Bool
unfolding set_config
handle_config_set ok cfg m =
    let (e, saved) = set_config ok cfg m.enforcer in (record m { enforcer = e }, saved)

unfoldable pub handle_config_get : Bool → String → Service → Service × QuotaConfig
unfolding get_config
handle_config_get ok tenant m =
    let (e, cfg) = get_config ok tenant m.enforcer in (record m { enforcer = e }, cfg)

-- handleSlotAcquire: the number of the new slot, or why there is none.
pub data SlotResponse : Type 0 where
  slot : ℕ → SlotResponse
  denied : QuotaExceeded → SlotResponse

abbrev pub keep_slot : String → Option ℕ → Service → Service × SlotResponse
keep_slot tenant callback m =
    let n = m.slot_counter + 1 in
    (
      record m {
        slots = record { tenant = tenant; number = n; callback = callback } ∷ m.slots;
        slot_counter = n;
      },
      slot n,
    )

abbrev pub slot_acquired : String → Acquired → Service → Service × SlotResponse
slot_acquired tenant without_limit m = keep_slot tenant none m
slot_acquired tenant (holds k) m = keep_slot tenant (some k) m
slot_acquired tenant (refused q) m = (m, denied q)

unfoldable pub handle_slot_acquire : Bool → String → ℕ → Service → Service × SlotResponse
unfolding acquire_agent_slot
handle_slot_acquire ok tenant now m =
    let (e, got) = acquire_agent_slot ok tenant now m.enforcer in
    slot_acquired tenant got (record m { enforcer = e })

abbrev pub is_slot : String → ℕ → Held → Bool
is_slot tenant number h = h.tenant == tenant && h.number == number

unfoldable pub find_slot : String → ℕ → List Held → Option Held
find_slot tenant number [] = none
find_slot tenant number (h ∷ hs) =
    let rest = find_slot tenant number hs in if is_slot tenant number h then some h else rest

abbrev pub call_back : Option ℕ → Enforcer → Enforcer
call_back none e = e
call_back (some k) e = release_agent_slot k e

abbrev pub release_found : String → ℕ → Option Held → Service → Service × Bool
release_found tenant number none m = (m, false)
release_found tenant number (some h) m = (
  record m {
    slots = select (λ x. not (is_slot tenant number x)) m.slots;
    enforcer = call_back h.callback m.enforcer;
  },
  true,
)

-- handleSlotRelease
unfoldable pub handle_slot_release : String → ℕ → Service → Service × Bool
unfolding find_slot release_agent_slot
handle_slot_release tenant number m =
    release_found tenant number (find_slot tenant number m.slots) m

-- handleSessionStart
unfoldable pub handle_session_start :
    Bool → Bool → Bool → String → ℕ → Service → Service × CheckResponse
unfolding get_config record_session
handle_session_start config_ok ok read_ok tenant now m =
    let (e, cfg) = get_config config_ok tenant m.enforcer in
    let (e', err) = record_session config_ok ok read_ok tenant now e in
    (record m { enforcer = e' }, respond cfg.max_sessions_per_day 0 err)
