-- ===== src/Jobs/System.antt =====
-- The queue at work: one poll loop that leases, and the goroutines of the claimed jobs, interleaved at each
-- point where the source lets go of its lock. A lease that runs beside another, as RunOnce beside the poll
-- loop would, is outside this: each would have its own snapshot of the slots.
pub mod Accounts
pub mod Slots
pub mod Exclusive
pub mod Lifecycle
pub mod Terminal
use cyntr.Common.{
  ℕ, zero, suc, String, Bool, true, false, List, [], ◌∷◌, ◌++◌, Option, none, some, ◌==◌,
  if◌then◌else◌, string_eq, nat_eq, length, get_elem?, ◌-◌,
}
use cyntr.Common.Dict.{Dict, get, put}
use cyntr.Jobs.{Job, Queue, Handler, ErrorText, recover, register, enqueue}
use cyntr.Jobs.{running}
use cyntr.Jobs.Lease.{
  Kinds, may_reserve, reserve_slot, roll_back, claim_row, candidates, free_slots, is_empty, settle,
}

-- Where a lease stands: it has read its slots and kinds; it has candidates left; it has reserved a slot
-- and is to write the row; it did not get the row and is to give the slot back.
pub data Phase : Type 0 where
  snapshot : Phase
  listed : List Job → Phase
  reserved lost : Job → List Job → Phase

-- A lease that is under way. `now` is read for the query.
pub record Pass : Type 0 where
  pub slots : ℕ
  pub kinds : Kinds
  pub now : ℕ
  pub phase : Phase

-- `active` holds the jobs that are claimed and not yet settled.
pub record System : Type 0 where
  pub queue : Queue
  pub active : List Job
  pub pass : Option Pass

pub data Event : Type 0 where
  -- a call of Register, and of Enqueue
  add_handler : String → Handler → Event
  submit : String → ℕ → Bool → String → String → String → ℕ → Event
  -- the poll loop reads its snapshot, then the candidates, and then goes on by one step: the reservation
  -- of the next candidate's slot, the UPDATE of its row, or the slot's return
  begin : Event
  query : Bool → (ℕ → ℕ → Bool) → ℕ → Event
  next : Bool → Event
  -- the i-th active job's handler ends, with an error or none; whether its row is written
  finish : Bool → ℕ → ℕ → Option ErrorText → Event
  -- the process dies and NewQueue opens the database again
  restart : Event

unfoldable pub remove_at : ℕ → List Job → List Job
remove_at i [] = []
remove_at zero (j ∷ js) = js
remove_at (suc i) (j ∷ js) = j ∷ remove_at i js

-- The loop stops where no slot or candidate is left.
abbrev pub take_candidate : Pass → System → ℕ → List Job → System
take_candidate p s zero cs = record s { pass = none }
take_candidate p s (suc slots) [] = record s { pass = none }
take_candidate p s (suc slots) (c ∷ cs) =
    if may_reserve p.kinds c s.queue
    then record s {
      queue = reserve_slot c s.queue;
      pass = some (record p { phase = reserved c cs });
    }
    else record s { pass = some (record p { phase = listed cs }) }

-- What the UPDATE of a claim gave.
abbrev pub after_update : Pass → System → Job → List Job → List Job × Bool → System
after_update p s c cs (rows, true) = record {
  queue = record s.queue { rows = rows };
  active = record c { state = running } ∷ s.active;
  pass = some (record p { slots = p.slots - 1; phase = listed cs });
}
after_update p s c cs (rows, false) = record s {
  queue = record s.queue { rows = rows };
  pass = some (record p { phase = lost c cs });
}

abbrev pub go_on : Bool → Pass → System → Phase → System
go_on ok p s snapshot = s
go_on ok p s (listed cs) = take_candidate p s p.slots cs
go_on ok p s (reserved c cs) = after_update p s c cs (claim_row ok c.id p.now s.queue.rows)
go_on ok p s (lost c cs) = record s {
  queue = roll_back c s.queue;
  pass = some (record p { phase = listed cs });
}

unfoldable pub take_next : Bool → Option Pass → System → System
unfolding claim_row
take_next ok none s = s
take_next ok (some p) s = go_on ok p s p.phase

abbrev pub open_pass : Option Pass → System → System
open_pass (some p) s = s
open_pass none s =
    if is_empty s.queue.handlers then s else if free_slots s.queue == 0 then s else record s {
      pass = some (record {
        slots = free_slots s.queue;
        kinds = s.queue.handlers;
        now = 0;
        phase = snapshot;
      });
    }

-- A query that fails ends the lease.
abbrev pub list_from : Bool → (ℕ → ℕ → Bool) → ℕ → Pass → System → Phase → System
list_from ok text_le now p s snapshot = record s {
  pass =
      if ok
      then some (record p { now = now; phase = listed (candidates text_le now s.queue) })
      else none;
}
list_from ok text_le now p s _ = s

unfoldable pub list_candidates : Bool → (ℕ → ℕ → Bool) → ℕ → Option Pass → System → System
list_candidates ok text_le now none s = s
list_candidates ok text_le now (some p) s = list_from ok text_le now p s p.phase

abbrev pub settle_active : Bool → ℕ → ℕ → Option ErrorText → Option Job → System → System
settle_active saved i now err none s = s
settle_active saved i now err (some job) s = record s {
  queue = settle saved now job err s.queue;
  active = remove_at i s.active;
}

unfoldable pub step : System → Event → System
unfolding list_candidates take_next
step s (add_handler kind h) = record s { queue = register kind h s.queue }
step s (submit fresh now inserted tenant kind payload run_after) = record s {
  queue = (enqueue fresh now inserted tenant kind payload run_after s.queue).0;
}
step s begin = open_pass s.pass s
step s (query ok text_le now) = list_candidates ok text_le now s.pass s
step s (next ok) = take_next ok s.pass s
step s (finish saved i now err) = settle_active saved i now err (get_elem? s.active i) s
step s restart = record s {
  queue = record s.queue { rows = recover s.queue.rows; handlers = []; inflight = [] };
  active = [];
  pass = none;
}

unfoldable pub run_events : System → List Event → System
run_events s [] = s
run_events s (e ∷ es) = run_events (step s e) es

-- A queue that NewQueue has just opened over `rows`.
abbrev pub opened : Queue → System
opened q = record {
  queue = record q { rows = recover q.rows; handlers = []; inflight = [] };
  active = [];
  pass = none;
}
