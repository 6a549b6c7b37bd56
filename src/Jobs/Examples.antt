-- ===== src/Jobs/Examples.antt =====
-- Concrete runs of the queue: two tenants, one failing handler, a crash in the middle.
use cyntr.Common.{refl, true, List, [], ◌∷◌, some, string_eq, arith, All, leb}
use cyntr.Jobs.{Job, Queue, running, done, no_error, handler_error, returns_nil, find_job, recover}
use cyntr.Jobs.Backoff.{default_backoff}
use cyntr.Jobs.Rows.{IsKeyed}
use cyntr.Jobs.System.{
  Event, add_handler, submit, begin, query, next, finish, restart, run_events, opened,
}
use cyntr.Jobs.System.Accounts.{Accounted}
use cyntr.Jobs.System.Slots.{events-Accounted}
use cyntr.Jobs.System.Exclusive.{Exclusive, RowOk}
use cyntr.Jobs.System.Lifecycle.{events-Exclusive}
use cyntr.Jobs.System.Terminal.{Kept, run_events-Kept}
use cyntr.Common.{false}

abbrev finished : Job
finished = record {
  id = "job_1";
  tenant = "acme";
  kind = "mail";
  payload = "{}";
  run_after = 5;
  attempts = 1;
  state = done;
  last_error = no_error;
  created_at = 5;
  updated_at = 9;
}

abbrev crashed : Job
crashed = record finished { id = "job_2"; state = running; attempts = 2 }

abbrev queue : Queue
queue = record {
  rows = finished ∷ crashed ∷ [];
  handlers = [];
  inflight = [];
  max_attempts = 5;
  per_tenant_cap = 2;
  global_cap = 8;
  lease_batch = 16;
  backoff = default_backoff;
}

abbrev history : List Event
history =
    add_handler "mail" (λ j. returns_nil)
    ∷ submit "job_3" 10 true "globex" "mail" "{}" 0
    ∷ begin
    ∷ query true leb 20
    ∷ next true
    ∷ next true
    ∷ next true
    ∷ finish true 0 21 (some (handler_error "smtp"))
    ∷ next false
    ∷ restart
    ∷ []

events-Accounted_example : Accounted 2 8 (run_events (opened queue) history)
events-Accounted_example = events-Accounted queue history

queue-IsKeyed : IsKeyed queue.rows
unfolding find_job
queue-IsKeyed = (refl, (refl, tt))

queue-RowOk : All (RowOk 5) queue.rows
queue-RowOk = (omega arith, (omega arith, tt))

events-Exclusive_example : Exclusive 5 (run_events (opened queue) history)
events-Exclusive_example = events-Exclusive queue history (omega arith) queue-IsKeyed queue-RowOk

opened-Exclusive : Exclusive 5 (opened queue)
unfolding run_events
opened-Exclusive = events-Exclusive queue [] (omega arith) queue-IsKeyed queue-RowOk

run_events-Kept_example : Kept "job_1" finished refl (run_events (opened queue) history).queue.rows
unfolding find_job recover
run_events-Kept_example =
    run_events-Kept "job_1" finished refl 5 (omega arith) (opened queue) history opened-Exclusive
      refl
