-- ===== src/Scheduler/Ticks/Kept.antt =====
-- modules/scheduler/scheduler.go: what a start leaves with its job, through the visits of a tick.
use cyntr.Common.{
  ℕ, ◌+◌, ◌≤◌, ◌<◌, String, ◌≡◌, ◌≢◌, sym, ap, ◌∙◌, inl, inr, subst, Option, none, some, true, ◌==◌,
  string_eq, nat_eq, str_iff, leb, Bool-cases, In, arith,
}
use mathlib.Core.Option.{some-injective}
use cyntr.Common.Dict.{Dict, get, put, get-put}
use cyntr.Scheduler.{Job}
use cyntr.Scheduler.Cron.{Calendar, CronSchedule, parse_cron, minute_ns}
use cyntr.Scheduler.Ticks.{cron_due, should_run, check_dependencies, started, is_due, visit}

-- Every job stands under its own ID.
abbrev pub Keyed : Dict String Job → Type 0
Keyed jobs = (key : String) (job : Job) → get key jobs ≡ some job → job.id ≡ key

-- What a job that was started at a time keeps from then on.
pub record SinceRun (first : ℕ) (expr : String) (interval : ℕ) (job : Job) : Type 0 where
  pub same_expr : job.cron_expr ≡ expr
  pub same_interval : job.interval ≡ interval
  pub last : first ≤ job.last_run
  pub next_start : expr ≡ "" → first + interval ≤ job.next_run

abbrev pub Kept : ℕ → String → ℕ → String → Dict String Job → Type 0
Kept first expr interval key jobs =
    (job : Job) → get key jobs ≡ some job → SinceRun first expr interval job

-- The gap that a start has to a time before it.
pub record Gap (first : ℕ) (now : ℕ) (expr : String) (interval : ℕ) : Type 0 where
  pub cron : expr ≢ "" → first + minute_ns < now
  pub plain : expr ≡ "" → first + interval ≤ now

module _ (calendar : ℕ → Calendar) where
  cron_due-lt :
      (now : ℕ) (job : Job) (o : Option CronSchedule)
      → cron_due calendar now job o ≡ true
      → job.last_run + minute_ns < now
  cron_due-lt now job none h = absurd (cc h)
  cron_due-lt now job (some cs) h = ground (arith, h)

  pub should_run-Gap :
      (first now : ℕ) (expr : String) (interval : ℕ) (job : Job)
      → SinceRun first expr interval job
      → should_run calendar now job ≡ true
      → Gap first now expr interval
  unfolding should_run
  should_run-Gap first now expr interval job s h = elim (Bool-cases (job.cron_expr == "")) [
    | inl y ↦
        let e = sym s.same_expr ∙ (str_iff job.cron_expr "").0 y in
        let n : leb job.next_run now ≡ true = rw y at h in
        record { cron = λ n. absurd (n e); plain = λ _. ground (arith, n, s.next_start e) }
    | inr f ↦
        let l = cron_due-lt now job (parse_cron job.cron_expr) (rw f at h) in
        record {
          cron = λ _. omega (arith, l, s.last);
          plain = λ e. absurd (cc (f, (str_iff job.cron_expr "").1 (s.same_expr ∙ e)));
        }
  ]

  Gap-le :
      (first now : ℕ) (expr : String) (interval : ℕ) → Gap first now expr interval → first ≤ now
  Gap-le first now expr interval g = elim (Bool-cases (expr == "")) [
    | inl y ↦ let l = g.plain ((str_iff expr "").0 y) in omega (arith, l)
    | inr f ↦ let l = g.cron (λ e. cc (f, (str_iff expr "").1 e)) in omega (arith, l)
  ]

  -- A start renews what is kept, from the first start or from this one.
  pub started-SinceRun :
      (first now : ℕ) (expr : String) (interval : ℕ) (job : Job)
      → job.cron_expr ≡ expr
      → job.interval ≡ interval
      → first ≤ now
      → SinceRun first expr interval (started calendar now job)
  unfolding started
  started-SinceRun first now expr interval job e i l = record {
    same_expr = e;
    same_interval = i;
    last = l;
    next_start = λ n. rw ((str_iff job.cron_expr "").1 (e ∙ n)) (omega (arith, i, l));
  }

  pub record Due (now : ℕ) (jobs : Dict String Job) (job : Job) : Type 0 where
    pub enabled : job.enabled ≡ true
    pub running : should_run calendar now job ≡ true
    pub dependencies : check_dependencies jobs job ≡ true

  is_due-Due :
      (now : ℕ) (jobs : Dict String Job) (job : Job)
      → is_due calendar now jobs job ≡ true
      → Due now jobs job
  is_due-Due now jobs job h = record {
    enabled = ground (arith, h);
    running = ground (arith, h);
    dependencies = ground (arith, h);
  }

  put-Kept :
      (first : ℕ) (expr : String) (interval : ℕ) (key written : String) (job : Job)
      (jobs : Dict String Job)
      → (written ≡ key → SinceRun first expr interval job)
      → Kept first expr interval key jobs
      → Kept first expr interval key (put written job jobs)
  put-Kept first expr interval key written job jobs s k found g =
      elim (Bool-cases (written == key)) [
        | inl y ↦
            subst (SinceRun first expr interval)
              (some-injective _ _ (rw y at (sym (get-put written key job jobs) ∙ g)))
              (s ((str_iff written key).0 y))
        | inr n ↦ k found (rw n at (sym (get-put written key job jobs) ∙ g))
      ]

  put-Keyed :
      (written : String) (job : Job) (jobs : Dict String Job)
      → job.id ≡ written
      → Keyed jobs
      → Keyed (put written job jobs)
  put-Keyed written job jobs e k key found g = elim (Bool-cases (written == key)) [
    | inl y ↦
        ap (λ (j : Job). j.id)
          (sym (some-injective _ _ (rw y at (sym (get-put written key job jobs) ∙ g))))
        ∙ e
        ∙ (str_iff written key).0 y
    | inr n ↦ k key found (rw n at (sym (get-put written key job jobs) ∙ g))
  ]

  pub visit-Keyed :
      (now : ℕ) (key : String) (o : Option Job) (jobs : Dict String Job)
      → get key jobs ≡ o
      → Keyed jobs
      → Keyed (visit calendar now key o jobs).0
  unfolding started
  visit-Keyed now key none jobs e k name found g = k name found g
  visit-Keyed now key (some job) jobs e k name found g =
      elim (Bool-cases (is_due calendar now jobs job)) [
        | inl y ↦
            put-Keyed key (started calendar now job) jobs (k key job e) k name found (rw y at g)
        | inr n ↦ k name found (rw n at g)
      ]

  pub visit-Kept :
      (first now : ℕ) (expr : String) (interval : ℕ) (key place : String) (o : Option Job)
      (jobs : Dict String Job)
      → get place jobs ≡ o
      → Kept first expr interval key jobs
      → Kept first expr interval key (visit calendar now place o jobs).0
  visit-Kept first now expr interval key place none jobs e k found g = k found g
  visit-Kept first now expr interval key place (some job) jobs e k found g =
      elim (Bool-cases (is_due calendar now jobs job)) [
        | inr n ↦ k found (rw n at g)
        | inl y ↦
            put-Kept first expr interval key place (started calendar now job) jobs
              (λ same.
                let s = k job (ap (λ (x : String). get x jobs) (sym same) ∙ e) in
                started-SinceRun first now expr interval job s.same_expr s.same_interval (
                  Gap-le first now expr interval (
                    should_run-Gap first now expr interval job s
                      (is_due-Due now jobs job y).running)))
              k found (rw y at g)
      ]

  pub record Ran (now : ℕ) (key : String) (o : Option Job) (jobs : Dict String Job) (job : Job)
      : Type 0 where
    pub found : o ≡ some job
    pub due : Due now jobs job
    pub written : (visit calendar now key o jobs).0 ≡ put key (started calendar now job) jobs

  pub visit-Ran :
      (now : ℕ) (key : String) (o : Option Job) (jobs : Dict String Job) (job : Job)
      → In job (visit calendar now key o jobs).1
      → Ran now key o jobs job
  visit-Ran now key none jobs job i = absurd i
  visit-Ran now key (some found) jobs job i = elim (Bool-cases (is_due calendar now jobs found)) [
    | inr n ↦ absurd (rw n at i)
    | inl y ↦ elim (rw y at i) [
      | inr none_else ↦ absurd none_else
      | inl same ↦ record {
        found = ap some (sym same);
        due = subst (Due now jobs) (sym same) (is_due-Due now jobs found y);
        written = rw y (ap (λ (x : Job). put key (started calendar now x) jobs) (sym same));
      }
    ]
  ]
