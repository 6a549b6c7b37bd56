-- ===== src/Jobs/Lease.antt =====
-- lease, run and RunOnce of kernel/jobs/queue.go. SQLite compares the `run_after` texts: `text_le`
-- is that comparison, an argument. `exec_ok` is whether the UPDATE of a claim succeeds.
use cyntr.Common.{
  ℕ, zero, suc, ◌+◌, ◌-◌, String, Bool, true, false, not, ◌&&◌, List, [], ◌∷◌, Option, none, some,
  leb, ◌==◌, if◌then◌else◌, string_eq, nat_eq, select, take,
}
use cyntr.Common.Dict.{Dict, get}
use cyntr.Common.Order.{sort_by}
use cyntr.Jobs.{
  Job, pending, running, done, failed, Queue, Handler, ErrorText, is_pending, update_where,
  count_where, safe_invoke,
}
use cyntr.Jobs.Inflight.{running_of, used, reserve, release}

abbrev pub Kinds : Type 0
Kinds = Dict String Handler

abbrev pub has_kind : String → Kinds → Bool
has_kind k m = elim (get k m) [ none ↦ false | some _ ↦ true ]

-- WHERE id=? AND state=?
abbrev pub claimable : String → Job → Bool
claimable id r = r.id == id && is_pending r.state

unfoldable pub mark_running : String → ℕ → List Job → List Job
unfolding update_where
mark_running id now =
    update_where (claimable id) (λ r. record r { state = running; updated_at = now })

-- The UPDATE of a claim: the rows after it, and whether exactly one was affected.
unfoldable pub claim_row : Bool → String → ℕ → List Job → List Job × Bool
unfolding mark_running count_where
claim_row exec_ok id now rows =
    if exec_ok
    then (mark_running id now rows, count_where (claimable id) rows == 1)
    else (rows, false)

-- The reservation of a candidate's slot, which is made under the lock, and its end.
abbrev pub may_reserve : Kinds → Job → Queue → Bool
may_reserve kinds c q =
    has_kind c.kind kinds && not (leb q.per_tenant_cap (running_of c.tenant q.inflight))

abbrev pub reserve_slot : Job → Queue → Queue
reserve_slot c q = record q { inflight = reserve c.tenant q.inflight }

abbrev pub roll_back : Job → Queue → Queue
roll_back c q = record q { inflight = release c.tenant q.inflight }

abbrev pub finish_claim : Job → Queue → List Job × Bool → Queue × Option Job
finish_claim c q (rows, true) = (record q { rows = rows }, some (record c { state = running }))
finish_claim c q (rows, false) = (roll_back c (record q { rows = rows }), none)

-- One round of the loop over the candidates where nothing else happens meanwhile; Jobs.System takes its
-- steps apart.
unfoldable pub claim : ℕ → Bool → Kinds → Job → Queue → Queue × Option Job
unfolding claim_row
claim now exec_ok kinds c q =
    if may_reserve kinds c q
    then finish_claim c (reserve_slot c q) (claim_row exec_ok c.id now q.rows)
    else (q, none)

-- The loop, which stops where no slot is left.
abbrev pub slots_after : ℕ → Option Job → ℕ
slots_after slots none = slots
slots_after slots (some _) = slots - 1

abbrev pub prepend : Option Job → Queue × List Job → Queue × List Job
prepend none out = out
prepend (some j) (q, js) = (q, j ∷ js)

unfoldable pub claim_all : ℕ → (String → Bool) → Kinds → ℕ → List Job → Queue → Queue × List Job
unfolding claim
claim_all now exec_ok kinds slots [] q = (q, [])
claim_all now exec_ok kinds zero (c ∷ cs) q = (q, [])
claim_all now exec_ok kinds (suc slots) (c ∷ cs) q =
    let (q', got) = claim now (exec_ok c.id) kinds c q in
    prepend got (claim_all now exec_ok kinds (slots_after (suc slots) got) cs q')

-- SELECT … WHERE state=? AND run_after<=? ORDER BY run_after ASC LIMIT ?
unfoldable pub candidates : (ℕ → ℕ → Bool) → ℕ → Queue → List Job
candidates text_le now q = take q.lease_batch (
    sort_by (λ a b. not (text_le b.run_after a.run_after))
      (select (λ r. is_pending r.state && text_le r.run_after now) q.rows))

-- The free slots of the snapshot; `slots <= 0` is 0 here.
unfoldable pub free_slots : Queue → ℕ
free_slots q = q.global_cap - used q.inflight

abbrev pub is_empty : Kinds → Bool
is_empty [] = true
is_empty (_ ∷ _) = false

-- The whole of lease where nothing else happens meanwhile and its query works.
unfoldable pub lease : (ℕ → ℕ → Bool) → ℕ → (String → Bool) → Queue → Queue × List Job
unfolding claim_all candidates free_slots
lease text_le now exec_ok q =
    if is_empty q.handlers
    then (q, [])
    else if free_slots q == 0
    then (q, [])
    else claim_all now exec_ok q.handlers (free_slots q) (candidates text_le now q) q

-- The UPDATE that records an outcome.
abbrev pub settle_row : Queue → ℕ → Job → Option ErrorText → Job → Job
settle_row q now job none r = record r { state = done; updated_at = now }
settle_row q now job (some e) r =
    let attempts = job.attempts + 1 in
    if leb q.max_attempts attempts
    then record r { state = failed; attempts = attempts; last_error = e; updated_at = now }
    else record r {
      state = pending;
      attempts = attempts;
      last_error = e;
      run_after = now + q.backoff attempts;
      updated_at = now;
    }

-- run, from the return of the handler on. `saved` says whether the UPDATE works: its error is ignored,
-- and the row stays running.
unfoldable pub settle : Bool → ℕ → Job → Option ErrorText → Queue → Queue
unfolding update_where
settle saved now job err q = record q {
  inflight = release job.tenant q.inflight;
  rows =
      if saved
      then update_where (λ r. r.id == job.id) (settle_row q now job err) q.rows
      else q.rows;
}

unfoldable pub run : Bool → ℕ → Job → Queue → Queue
unfolding settle safe_invoke
run saved now job q = settle saved now job (safe_invoke (get job.kind q.handlers) job) q

-- RunOnce, its handlers finishing in the order in which they were claimed.
unfoldable pub run_each : (String → Bool) → ℕ → List Job → Queue → Queue
unfolding run
run_each saved now [] q = q
run_each saved now (j ∷ js) q = run_each saved now js (run (saved j.id) now j q)

unfoldable pub run_once : (ℕ → ℕ → Bool) → ℕ → (String → Bool) → (String → Bool) → Queue → Queue
unfolding lease run_each
run_once text_le now exec_ok saved q =
    let (q', claimed) = lease text_le now exec_ok q in run_each saved now claimed q'
