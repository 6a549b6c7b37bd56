-- ===== src/Scheduler/Ticks/Spaced.antt =====
-- How far apart two starts of a job are.
use cyntr.Common.{
  ℕ, ◌+◌, ◌≤◌, ◌<◌, String, ◌≡◌, ◌≢◌, refl, sym, ap, ◌∙◌, inl, inr, subst, List, [], ◌∷◌, map, some,
  true, string_eq, nat_eq, str_iff, In, In-append-cases, arith,
}
use mathlib.Core.Option.{some-injective}
use cyntr.Common.Dict.{Dict, get, put, get-put}
use cyntr.Scheduler.{Job}
use cyntr.Scheduler.Cron.{Calendar}
use cyntr.Scheduler.Ticks.{check_dependencies, started, visit, visit_all, key_of, check_and_run}
use cyntr.Scheduler.Ticks.Kept.{
  Keyed, SinceRun, Kept, Due, Ran, should_run-Gap, started-SinceRun, visit-Keyed, visit-Kept,
  visit-Ran,
}
use cyntr.Common.{◌++◌}

module _ (calendar : ℕ → Calendar) where
  -- The jobs after ticks at the given times.
  unfoldable pub ticks : List ℕ → Dict String Job → Dict String Job
  ticks [] jobs = jobs
  ticks (now ∷ times) jobs = ticks times (check_and_run calendar now jobs).0

  visit_all-Kept :
      (first now : ℕ) (expr : String) (interval : ℕ) (key : String) (keys : List String)
      (jobs : Dict String Job)
      → Kept first expr interval key jobs
      → Kept first expr interval key (visit_all calendar now keys jobs).0
  unfolding visit_all
  visit_all-Kept first now expr interval key [] jobs k found g = k found g
  visit_all-Kept first now expr interval key (place ∷ keys) jobs k found g =
      visit_all-Kept first now expr interval key keys
        (visit calendar now place (get place jobs) jobs).0
        (visit-Kept calendar first now expr interval key place (get place jobs) jobs refl k) found g

  visit_all-Keyed :
      (now : ℕ) (keys : List String) (jobs : Dict String Job)
      → Keyed jobs
      → Keyed (visit_all calendar now keys jobs).0
  unfolding visit_all
  visit_all-Keyed now [] jobs k name found g = k name found g
  visit_all-Keyed now (place ∷ keys) jobs k name found g =
      visit_all-Keyed now keys (visit calendar now place (get place jobs) jobs).0
        (visit-Keyed calendar now place (get place jobs) jobs refl k) name found g

  -- The jobs that a tick starts are kept track of from it on.
  started-Kept :
      (now : ℕ) (place : String) (jobs : Dict String Job) (job : Job)
      → Keyed jobs
      → Ran calendar now place (get place jobs) jobs job
      → Kept now job.cron_expr job.interval job.id
          (visit calendar now place (get place jobs) jobs).0
  started-Kept now place jobs job k r found g =
      let e : get job.id (put place (started calendar now job) jobs) ≡ some found =
        ap (get job.id) (sym r.written) ∙ g in
      let same = (str_iff place job.id).1 (sym (k place job r.found)) in
      subst (SinceRun now job.cron_expr job.interval)
        (some-injective _ _
          (rw same at (sym (get-put place job.id (started calendar now job) jobs) ∙ e)))
        (started-SinceRun calendar now now job.cron_expr job.interval job refl refl (omega arith))

  visit_all-started :
      (now : ℕ) (keys : List String) (jobs : Dict String Job) (job : Job)
      → Keyed jobs
      → In job (visit_all calendar now keys jobs).1
      → Kept now job.cron_expr job.interval job.id (visit_all calendar now keys jobs).0
  unfolding visit_all
  visit_all-started now [] jobs job k i found g = absurd i
  visit_all-started now (place ∷ keys) jobs job k i found g =
      let after = (visit calendar now place (get place jobs) jobs).0 in
      elim (In-append-cases job (visit calendar now place (get place jobs) jobs).1
        (visit_all calendar now keys after).1 i) [
          | inl here ↦
              visit_all-Kept now now job.cron_expr job.interval job.id keys after
                (started-Kept now place jobs job k
                  (visit-Ran calendar now place (get place jobs) jobs job here))
                found g
          | inr there ↦
              visit_all-started now keys after job
                (visit-Keyed calendar now place (get place jobs) jobs refl k) there found g
        ]

  -- What a start demands of the job, as it stood when its turn came: the jobs are then those that the
  -- visits of the keys before its own have left.
  pub record Again (first now : ℕ) (expr : String) (interval : ℕ) (keys : List String)
      (jobs : Dict String Job) (job : Job) : Type 0 where
    pub same_expr : job.cron_expr ≡ expr
    pub same_interval : job.interval ≡ interval
    pub cron_gap : job.cron_expr ≢ "" → first + 60_000_000_000 < now
    pub plain_gap : job.cron_expr ≡ "" → first + job.interval ≤ now
    pub enabled : job.enabled ≡ true
    pub before : List String
    pub behind : List String
    pub turn : keys ≡ before ++ (job.id ∷ behind)
    pub stood : get job.id (visit_all calendar now before jobs).0 ≡ some job
    pub dependencies : check_dependencies (visit_all calendar now before jobs).0 job ≡ true

  again :
      (first now : ℕ) (expr : String) (interval : ℕ) (keys : List String) (jobs : Dict String Job)
      (job : Job)
      → SinceRun first expr interval job
      → Due calendar now jobs job
      → get job.id jobs ≡ some job
      → Again first now expr interval (job.id ∷ keys) jobs job
  unfolding visit_all
  again first now expr interval keys jobs job s d e =
      let g = should_run-Gap calendar first now expr interval job s d.running in
      record {
        same_expr = s.same_expr;
        same_interval = s.same_interval;
        cron_gap = λ n. g.cron (λ e. n (s.same_expr ∙ e));
        plain_gap = λ e. let l = g.plain (sym s.same_expr ∙ e) in omega (arith, l, s.same_interval);
        enabled = d.enabled;
        before = [];
        behind = keys;
        turn = refl;
        stood = e;
        dependencies = d.dependencies;
      }

  -- One more visit before them.
  Again-visit :
      (first now : ℕ) (expr : String) (interval : ℕ) (place : String) (keys : List String)
      (jobs : Dict String Job) (job : Job)
      → Again first now expr interval keys (visit calendar now place (get place jobs) jobs).0 job
      → Again first now expr interval (place ∷ keys) jobs job
  unfolding visit_all
  Again-visit first now expr interval place keys jobs job a = record {
    same_expr = a.same_expr;
    same_interval = a.same_interval;
    cron_gap = a.cron_gap;
    plain_gap = a.plain_gap;
    enabled = a.enabled;
    before = place ∷ a.before;
    behind = a.behind;
    turn = ap (λ (ks : List String). place ∷ ks) a.turn;
    stood = a.stood;
    dependencies = a.dependencies;
  }

  visit_all-Again :
      (first now : ℕ) (expr : String) (interval : ℕ) (key : String) (keys : List String)
      (jobs : Dict String Job) (job : Job)
      → job.id ≡ key
      → Keyed jobs
      → Kept first expr interval key jobs
      → In job (visit_all calendar now keys jobs).1
      → Again first now expr interval keys jobs job
  unfolding visit_all
  visit_all-Again first now expr interval key [] jobs job e k s i = absurd i
  visit_all-Again first now expr interval key (place ∷ keys) jobs job e k s i =
      let after = (visit calendar now place (get place jobs) jobs).0 in
      elim (In-append-cases job (visit calendar now place (get place jobs) jobs).1
        (visit_all calendar now keys after).1 i) [
          | inl here ↦
              let r = visit-Ran calendar now place (get place jobs) jobs job here in
              let own = k place job r.found in
              let found : get job.id jobs ≡ some job =
                ap (λ (x : String). get x jobs) own ∙ r.found in
              subst (λ p. Again first now expr interval (p ∷ keys) jobs job) own
                (again first now expr interval keys jobs job
                  (s job (ap (λ (x : String). get x jobs) (sym e) ∙ found)) r.due found)
          | inr there ↦ Again-visit first now expr interval place keys jobs job (
              visit_all-Again first now expr interval key keys after job e
                (visit-Keyed calendar now place (get place jobs) jobs refl k)
                (visit-Kept calendar first now expr interval key place (get place jobs) jobs refl s)
                there)
        ]

  ticks-Kept :
      (first : ℕ) (expr : String) (interval : ℕ) (key : String) (times : List ℕ)
      (jobs : Dict String Job)
      → Kept first expr interval key jobs
      → Kept first expr interval key (ticks times jobs)
  unfolding ticks check_and_run
  ticks-Kept first expr interval key [] jobs s found g = s found g
  ticks-Kept first expr interval key (now ∷ times) jobs s found g =
      ticks-Kept first expr interval key times _
        (visit_all-Kept first now expr interval key (map key_of jobs) jobs s) found g

  ticks-Keyed : (times : List ℕ) (jobs : Dict String Job) → Keyed jobs → Keyed (ticks times jobs)
  unfolding ticks check_and_run
  ticks-Keyed [] jobs k name found g = k name found g
  ticks-Keyed (now ∷ times) jobs k name found g =
      ticks-Keyed times _ (visit_all-Keyed now (map key_of jobs) jobs k) name found g

-- If a tick starts a job and, after any ticks at any times, another tick starts the job of the same
-- ID, then its cron expression and interval are those of the first start; the second tick is more
-- than a minute after the first where there is a cron expression, and at least the interval after it
-- where there is none; and the job is enabled and its dependencies are satisfied when its turn comes,
-- among the jobs as the second tick's visits of the keys before its own have left them.
-- The hypothesis: every job stands under its own ID, as handleAdd and loadJobs put it.
pub check_and_run-Again :
    (calendar : ℕ → Calendar) (jobs : Dict String Job) (first : ℕ) (times : List ℕ) (now : ℕ)
    (job later : Job)
    → Keyed jobs
    → In job (check_and_run calendar first jobs).1
    → In later
        (check_and_run calendar now (ticks calendar times (check_and_run calendar first jobs).0)).1
    → later.id ≡ job.id
    → Again calendar first now job.cron_expr job.interval
        (map key_of (ticks calendar times (check_and_run calendar first jobs).0))
        (ticks calendar times (check_and_run calendar first jobs).0)
        later
unfolding check_and_run
check_and_run-Again calendar jobs first times now job later k i j e =
    let after = (check_and_run calendar first jobs).0 in
    visit_all-Again calendar first now job.cron_expr job.interval job.id
      (map key_of (ticks calendar times after)) (ticks calendar times after) later e
      (ticks-Keyed calendar times after (visit_all-Keyed calendar first (map key_of jobs) jobs k))
      (ticks-Kept calendar first job.cron_expr job.interval job.id times after
        (visit_all-started calendar first (map key_of jobs) jobs job k i))
      j
