-- ===== src/Jobs.antt =====
-- kernel/jobs/queue.go: the durable background job queue. The `jobs` table is a list of rows, the
-- handler map holds each handler as a function from a job to its outcome, and times are
-- nanoseconds, 0 the zero time. Each `q.now()` and the drawn identifier are arguments.
mod Examples
pub mod Inflight
pub mod Backoff
pub mod Lease
pub mod Rows
pub mod System
use cyntr.Common.{
  ℕ, ◌+◌, ◌-◌, String, Bool, true, false, not, ◌&&◌, ◌||◌, List, [], ◌∷◌, ◌++◌, Option, none, some,
  ltb, leb, ◌==◌, if◌then◌else◌, map, string_eq, nat_eq, length, select,
}
use cyntr.Common.Dict.{Dict, get, put, remove}

pub data State : Type 0 where
  pending running done failed : State

abbrev pub is_pending : State → Bool
is_pending pending = true
is_pending _ = false

abbrev pub same_state : State → State → Bool
same_state pending pending = true
same_state running running = true
same_state done done = true
same_state failed failed = true
same_state _ _ = false

-- The text in `last_error`: empty, or the message that the worker formats.
pub data ErrorText : Type 0 where
  no_error : ErrorText
  handler_error handler_panicked no_handler : String → ErrorText

pub record Job : Type 0 where
  pub id : String
  pub tenant : String
  pub kind : String
  pub payload : String
  pub run_after : ℕ
  pub attempts : ℕ
  pub state : State
  pub last_error : ErrorText
  pub created_at : ℕ
  pub updated_at : ℕ

-- What a call of a handler comes to.
pub data Outcome : Type 0 where
  returns_nil : Outcome
  returns_error panics : String → Outcome

abbrev pub Handler : Type 0
Handler = Job → Outcome

pub record Queue : Type 0 where
  pub rows : List Job
  pub handlers : Dict String Handler
  pub inflight : Dict String ℕ
  pub max_attempts : ℕ
  pub per_tenant_cap : ℕ
  pub global_cap : ℕ
  pub lease_batch : ℕ
  pub backoff : ℕ → ℕ

-- UPDATE jobs SET … WHERE …
unfoldable pub update_where : (Job → Bool) → (Job → Job) → List Job → List Job
update_where p f [] = []
update_where p f (r ∷ rs) = (if p r then f r else r) ∷ update_where p f rs

unfoldable pub count_where : (Job → Bool) → List Job → ℕ
count_where p [] = 0
count_where p (r ∷ rs) = let rest = count_where p rs in if p r then rest + 1 else rest

-- The recovery of NewQueue, on the rows that the previous process left.
unfoldable pub recover : List Job → List Job
unfolding update_where
recover = update_where (λ r. same_state r.state running) (λ r. record r { state = pending })

unfoldable pub register : String → Handler → Queue → Queue
register kind h q = record q { handlers = put kind h q.handlers }

abbrev pub is_none : Option Job → Bool
is_none none = true
is_none (some _) = false

-- Get: the row of an identifier.
unfoldable pub find_job : String → List Job → Option Job
find_job id [] = none
find_job id (r ∷ rs) = if r.id == id then some r else find_job id rs

-- Enqueue. `inserted` is whether the INSERT reaches the table, where a taken primary key refuses it;
-- the result is `none` where an error is returned.
unfoldable pub enqueue :
    String → ℕ → Bool → String → String → String → ℕ → Queue → Queue × Option String
enqueue fresh now inserted tenant kind payload run_after q =
    let job : Job = record {
      id = fresh;
      tenant = tenant;
      kind = kind;
      payload = payload;
      run_after = if run_after == 0 then now else run_after;
      attempts = 0;
      state = pending;
      last_error = no_error;
      created_at = now;
      updated_at = now;
    } in
    if tenant == "" || kind == ""
    then (q, none)
    else if inserted && is_none (find_job fresh q.rows)
    then (record q { rows = q.rows ++ (job ∷ []) }, some fresh)
    else (q, none)

-- safeInvoke, with the handler that the map gave, if any: `none` is a nil error.
abbrev pub outcome_error : Outcome → Option ErrorText
outcome_error returns_nil = none
outcome_error (returns_error e) = some (handler_error e)
outcome_error (panics v) = some (handler_panicked v)

unfoldable pub safe_invoke : Option Handler → Job → Option ErrorText
safe_invoke none job = some (no_handler job.kind)
safe_invoke (some h) job = outcome_error (h job)

-- CountByState; an empty tenant counts all.
unfoldable pub count_by_state : String → State → Queue → ℕ
unfolding count_where
count_by_state tenant s q =
    if tenant == ""
    then count_where (λ r. same_state r.state s) q.rows
    else count_where (λ r. same_state r.state s && r.tenant == tenant) q.rows
