-- ===== src/Jobs/System/Exclusive.antt =====
-- The life of a row: it runs at most once at a time, and its attempts stay within the budget.
pub mod Claiming
pub mod Settling
use cyntr.Common.{
  ℕ, zero, suc, ◌+◌, ◌-◌, ◌≤◌, ◌<◌, String, ◌≡◌, ◌≢◌, refl, sym, ap, ◌∙◌, ◌⊎◌, inl, inr, Bool, true,
  false, not, List, [], ◌∷◌, ◌++◌, Option, none, some, ◌==◌, if◌then◌else◌, string_eq, nat_eq,
  str_iff, arith, Bool-cases, Option-cases, leb, length, get_elem?, All, All-imp, All-select,
  All-take, All-append, All-get, All-and, ◌&&◌,
}
use cyntr.Common.Order.{sort_by, sort_by-All}
use cyntr.Jobs.{
  Job, State, pending, running, done, failed, Queue, ErrorText, enqueue, register, recover,
  update_where, count_where, find_job, is_pending, same_state,
}
use cyntr.Jobs.Rows.{
  IsKeyed, touch, find_job-update_where, update_where-IsKeyed, find-claimable, All-update_where,
  find_job-append, append-IsKeyed, id-find_job, found-All, All-update_by,
}
use cyntr.Jobs.System.{System, Pass, Phase, snapshot, listed, reserved, lost}

-- The attempts that a row in each state may have used of a budget.
abbrev pub Within : ℕ → State → ℕ → Type 0
Within budget pending a = a < budget
Within budget running a = a < budget
Within budget done a = a < budget
Within budget failed a = a ≡ budget

abbrev pub RowOk : ℕ → Job → Type 0
RowOk budget r = Within budget r.state r.attempts

-- The row of an active job is running.
abbrev pub Held : List Job → Job → Type 0
Held rows j = (r : Job) × (find_job j.id rows ≡ some r) × (r.state ≡ running)

-- No two jobs have one identifier.
abbrev pub IsApart : List Job → Type 0
IsApart [] = Unit
IsApart (j ∷ js) = All (λ k. k.id ≢ j.id) js × IsApart js

-- The candidates that may still be claimed.
abbrev pub cands_in : Phase → List Job
cands_in snapshot = []
cands_in (listed cs) = cs
cands_in (reserved c cs) = c ∷ cs
cands_in (lost c cs) = cs

abbrev pub cands_of : Option Pass → List Job
cands_of none = []
cands_of (some p) = cands_in p.phase

abbrev pub Budgeted : ℕ → Job → Type 0
Budgeted budget j = j.attempts < budget

pub record Exclusive (budget : ℕ) (s : System) : Type 0 where
  pub keyed : IsKeyed s.queue.rows
  pub rows_ok : All (RowOk budget) s.queue.rows
  pub held : All (Held s.queue.rows) s.active
  pub apart : IsApart s.active
  pub active_ok : All (Budgeted budget) s.active
  pub cands_ok : All (Budgeted budget) (cands_of s.pass)
  pub setting : s.queue.max_attempts ≡ budget
