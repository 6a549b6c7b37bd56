-- ===== src/Scheduler/Ticks.antt =====
-- modules/scheduler/scheduler.go: checkAndRun, which starts the jobs that are due at a tick.
pub mod Kept
pub mod Spaced
use cyntr.Common.{
  ℕ, ◌+◌, String, List, [], ◌∷◌, Option, none, some, Bool, true, false, not, ◌&&◌, ◌==◌, string_eq,
  nat_eq, ltb, leb, if◌then◌else◌,
}
use cyntr.Common.Dict.{Dict, get, put}
use cyntr.Scheduler.{Job}
use cyntr.Scheduler.Cron.{Calendar, CronSchedule, parse_cron, matches, next, minute_ns}
use cyntr.Common.{◌++◌}
use cyntr.Common.{map}

abbrev pub cron_due : (ℕ → Calendar) → ℕ → Job → Option CronSchedule → Bool
cron_due calendar now job none = false
cron_due calendar now job (some cs) =
    matches cs (calendar now) && ltb (job.last_run + minute_ns) now

-- shouldRun
unfoldable pub should_run : (ℕ → Calendar) → ℕ → Job → Bool
should_run calendar now job =
    if not (job.cron_expr == "")
    then cron_due calendar now job (parse_cron job.cron_expr)
    else leb job.next_run now

abbrev pub dependency_ok : Job → Option Job → Bool
dependency_ok job none = false
dependency_ok job (some dep) =
    dep.enabled && not (dep.last_run == 0) && not (ltb dep.last_run job.last_run)

-- The loop of checkDependencies over the IDs.
unfoldable pub dependencies_ok : Dict String Job → Job → List String → Bool
dependencies_ok jobs job [] = true
dependencies_ok jobs job (id ∷ ids) =
    dependency_ok job (get id jobs) && dependencies_ok jobs job ids

unfoldable pub check_dependencies : Dict String Job → Job → Bool
check_dependencies jobs job = dependencies_ok jobs job job.depends_on

abbrev pub next_run_of : (ℕ → Calendar) → ℕ → Job → Option CronSchedule → ℕ
next_run_of calendar now job none = job.next_run
next_run_of calendar now job (some cs) = next calendar cs now

-- The job behind a start.
unfoldable pub started : (ℕ → Calendar) → ℕ → Job → Job
started calendar now job = record job {
  last_run = now;
  next_run =
      if not (job.cron_expr == "")
      then next_run_of calendar now job (parse_cron job.cron_expr)
      else now + job.interval;
}

abbrev pub is_due : (ℕ → Calendar) → ℕ → Dict String Job → Job → Bool
is_due calendar now jobs job =
    job.enabled && should_run calendar now job && check_dependencies jobs job

abbrev pub visit :
    (ℕ → Calendar) → ℕ → String → Option Job → Dict String Job → Dict String Job × List Job
visit calendar now key none jobs = (jobs, [])
visit calendar now key (some job) jobs =
    if is_due calendar now jobs job
    then (put key (started calendar now job) jobs, job ∷ [])
    else (jobs, [])

-- The loop over the jobs by their keys, in any order; the jobs are written as it goes, and the jobs that
-- are started come as they were before.
unfoldable pub visit_all :
    (ℕ → Calendar) → ℕ → List String → Dict String Job → Dict String Job × List Job
visit_all calendar now [] jobs = (jobs, [])
visit_all calendar now (key ∷ keys) jobs =
    let (first, ran) = visit calendar now key (get key jobs) jobs in
    let (rest, more) = visit_all calendar now keys first in (rest, ran ++ more)

abbrev pub key_of : String × Job → String
key_of e = e.0

unfoldable pub check_and_run : (ℕ → Calendar) → ℕ → Dict String Job → Dict String Job × List Job
unfolding visit_all
check_and_run calendar now jobs = visit_all calendar now (map key_of jobs) jobs
