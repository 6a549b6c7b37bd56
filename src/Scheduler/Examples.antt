-- ===== src/Scheduler/Examples.antt =====
-- Concrete runs of the scheduler: an expression that is parsed, the search from one schedule, and a job
-- that is started twice.
use cyntr.Common.{
  ℕ, ◌/◌, ◌%◌, String, ◌≡◌, refl, [], ◌∷◌, none, some, true, false, inl, arith, string_eq, str_iff,
}
use cyntr.Common.Text.{split_list, cut_at}
use cyntr.Common.Dict.{Dict, get, put}
use cyntr.Scheduler.{Job}
use cyntr.Scheduler.Cron.{Calendar, CronSchedule, next, parse_cron}
use cyntr.Scheduler.Cron.First.{IsNext, next-IsNext}
use cyntr.Scheduler.Ticks.{check_and_run, should_run, check_dependencies, dependencies_ok, started}
use cyntr.Scheduler.Ticks.Kept.{Keyed}
use cyntr.Scheduler.Ticks.Spaced.{ticks, Again, check_and_run-Again}
use cyntr.Common.{map}
use cyntr.Scheduler.Ticks.{key_of}

-- A calendar in which every month has the days that are asked for.
abbrev calendar : ℕ → Calendar
calendar t = record {
  minute = t / 60_000_000_000 % 60;
  hour = t / 3_600_000_000_000 % 24;
  day = 1;
  month = 1;
  weekday = 0;
}

abbrev half_past : CronSchedule
half_past = record {
  minutes = 30 ∷ [];
  hours = 0 ∷ 1 ∷ [];
  days = 1 ∷ [];
  months = 1 ∷ [];
  weekdays = 0 ∷ [];
}

next-IsNext_example :
    IsNext calendar half_past 61_000_000_000 (next calendar half_past 61_000_000_000)
next-IsNext_example = next-IsNext calendar half_past 61_000_000_000

parsed_parts :
    parse_cron "*/20 0,12 1-3 * 1-5/2"
    ≡ some (record {
      minutes = 0 ∷ 20 ∷ 40 ∷ [];
      hours = 0 ∷ 12 ∷ [];
      days = 1 ∷ 2 ∷ 3 ∷ [];
      months = 1 ∷ 2 ∷ 3 ∷ 4 ∷ 5 ∷ 6 ∷ 7 ∷ 8 ∷ 9 ∷ 10 ∷ 11 ∷ 12 ∷ [];
      weekdays = 1 ∷ 3 ∷ 5 ∷ [];
    })
unfolding parse_cron split_list cut_at
parsed_parts = refl

abbrev report : Job
report = record {
  id = "r";
  name = "report";
  tenant = "acme";
  agent = "a";
  message = "go";
  interval = 5000;
  cron_expr = "";
  last_run = 0;
  next_run = 1000;
  enabled = true;
  dest_channel = "";
  dest_channel_id = "";
  condition = none;
  depends_on = [];
  report_mode = false;
  report_title = "";
}

abbrev second_report : Job
second_report = record report { last_run = 2000; next_run = 7000 }

abbrev jobs : Dict String Job
jobs = ("r", report) ∷ []

jobs-Keyed : Keyed jobs
unfolding get
jobs-Keyed key job e = ground (arith, str_iff "r" key)

abbrev between_ticks : Dict String Job
between_ticks = ticks calendar (3000 ∷ []) (check_and_run calendar 2000 jobs).0

check_and_run-Again_example :
    Again calendar 2000 9000 "" 5000 (map key_of between_ticks) between_ticks second_report
unfolding check_and_run should_run check_dependencies started ticks get put dependencies_ok
check_and_run-Again_example =
    check_and_run-Again calendar jobs 2000 (3000 ∷ []) 9000 report second_report jobs-Keyed
      (inl refl) (inl refl) refl
