-- ===== src/Policy/Approval.antt =====
-- modules/policy/approval.go: the queue of approval requests. Times are nanoseconds, 0 the zero time.
-- Each `time.Now()` of the source is an argument, in the order in which the source reads them, and
-- so is the identifier that newApprovalID draws.
pub mod Effects
pub mod Decided
pub mod Retained
pub mod Listing
pub mod Handlers
use cyntr.Common.{
  ℕ, String, ◌+◌, Bool, true, false, List, [], ◌∷◌, Option, none, some, ltb, ◌==◌, if◌then◌else◌,
  map, string_eq, nat_eq, length, select,
}
use cyntr.Common.Dict.{Dict, get, put, range}
use cyntr.Common.Order.{sort_by}

pub data ApprovalStatus : Type 0 where
  pending approved denied expired : ApprovalStatus

pub record ApprovalRequest : Type 0 where
  pub id : String
  pub tenant : String
  pub user : String
  pub agent : String
  pub action : String
  pub tool : String
  pub rule : String
  pub status : ApprovalStatus
  pub created_at : ℕ
  pub expires_at : ℕ
  pub decided_by : String
  pub decided_at : ℕ

pub record ApprovalQueue : Type 0 where
  pub requests : Dict String ApprovalRequest
  pub ttl : ℕ
  pub retain : ℕ

-- 10 and 15 minutes, in nanoseconds.
abbrev pub retain_after_terminal : ℕ
retain_after_terminal = 600_000_000_000

abbrev pub default_ttl : ℕ
default_ttl = 900_000_000_000

unfoldable pub new_approval_queue : ℕ → ApprovalQueue
new_approval_queue ttl = record {
  requests = [];
  ttl = if ttl == 0 then default_ttl else ttl;
  retain = retain_after_terminal;
}

abbrev pub is_pending : ApprovalStatus → Bool
is_pending pending = true
is_pending _ = false

-- One round of the loop of sweepLocked.
abbrev pub sweep_terminal : ℕ → ℕ → ApprovalRequest → Option ApprovalRequest
sweep_terminal retain now r =
    let terminal_at = if r.decided_at == 0 then r.expires_at else r.decided_at in
    if ltb (terminal_at + retain) now then none else some r

unfoldable pub sweep_request : ℕ → ℕ → ApprovalRequest → Option ApprovalRequest
sweep_request retain now r =
    if is_pending r.status
    then (if ltb r.expires_at now
        then some (record r { status = expired; decided_at = now })
        else some r)
    else sweep_terminal retain now r

unfoldable pub sweep : ℕ → ApprovalQueue → ApprovalQueue
unfolding sweep_request
sweep now q = record q { requests = range (sweep_request q.retain now) q.requests }

-- Submit: `created` and `now` are its two readings of the clock, `fresh` the drawn identifier.
abbrev pub id_or : String → ApprovalRequest → String
id_or fresh req = if req.id == "" then fresh else req.id

abbrev pub insert_new : String → ℕ → ApprovalRequest → ApprovalQueue → ApprovalQueue
insert_new fresh created req q =
    let id = id_or fresh req in
    let stored : ApprovalRequest = record req {
      id = id;
      status = pending;
      created_at = created;
      expires_at = created + q.ttl;
    } in
    record q { requests = put id stored q.requests }

unfoldable pub submit : String → ℕ → ℕ → ApprovalRequest → ApprovalQueue → ApprovalQueue × String
unfolding sweep
submit fresh created now req q = (sweep now (insert_new fresh created req q), id_or fresh req)

pub data ApprovalError : Type 0 where
  not_found : ApprovalError
  already : ApprovalStatus → ApprovalError
  past_deadline : ApprovalError

-- The error is `none` where the source returns nil.
abbrev pub store_back : String → ApprovalRequest → ApprovalQueue → ApprovalQueue
store_back id r q = record q { requests = put id r q.requests }

-- Approve: `now` is compared with the deadline, `decided` is recorded.
abbrev pub approve_found :
    String → String → ℕ → ℕ → ApprovalRequest → ApprovalQueue → ApprovalQueue × Option ApprovalError
approve_found id by now decided r q =
    if is_pending r.status
    then (if ltb r.expires_at now
        then (
          store_back id (record r { status = expired; decided_at = decided }) q,
          some past_deadline,
        )
        else (
          store_back id (record r { status = approved; decided_by = by; decided_at = decided }) q,
          none,
        ))
    else (q, some (already r.status))

unfoldable pub approve :
    String → String → ℕ → ℕ → ApprovalQueue → ApprovalQueue × Option ApprovalError
approve id by now decided q = elim (get id q.requests) [
  | none ↦ (q, some not_found)
  | some r ↦ approve_found id by now decided r q
]

abbrev pub deny_found :
    String → String → ℕ → ApprovalRequest → ApprovalQueue → ApprovalQueue × Option ApprovalError
deny_found id by decided r q =
    if is_pending r.status
    then (
      store_back id (record r { status = denied; decided_by = by; decided_at = decided }) q,
      none,
    )
    else (q, some (already r.status))

unfoldable pub deny_request :
    String → String → ℕ → ApprovalQueue → ApprovalQueue × Option ApprovalError
deny_request id by decided q = elim (get id q.requests) [
  | none ↦ (q, some not_found)
  | some r ↦ deny_found id by decided r q
]

unfoldable pub lookup_request : String → ApprovalQueue → Option ApprovalRequest
lookup_request id q = get id q.requests

abbrev pub created_before : ApprovalRequest → ApprovalRequest → Bool
created_before a b = ltb a.created_at b.created_at

abbrev pub values : Dict String ApprovalRequest → List ApprovalRequest
values [] = []
values ((k, v) ∷ m) = v ∷ values m

unfoldable pub list_pending : ℕ → ApprovalQueue → ApprovalQueue × List ApprovalRequest
unfolding sweep
list_pending now q =
    let swept = sweep now q in
    (swept, sort_by created_before (select (λ r. is_pending r.status) (values swept.requests)))

unfoldable pub count_pending : ℕ → ApprovalQueue → ApprovalQueue × ℕ
unfolding list_pending
count_pending now q = let (q', l) = list_pending now q in (q', length l)
