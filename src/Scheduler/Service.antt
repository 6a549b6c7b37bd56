-- ===== src/Scheduler/Service.antt =====
-- modules/scheduler/scheduler.go: running a job, its history, the handlers and the stored jobs. The
-- JSON file is the list of jobs that it decodes to, if it does; the request to the agent is left out.
use Prim.Native.String.{compare}
use text.Mathlib.Text.{is_lt}
use cyntr.Common.{
  ℕ, ◌+◌, ◌-◌, String, ◌<>◌, List, [], ◌∷◌, ◌++◌, map, Option, none, some, Bool, true, false, not,
  ◌&&◌, ◌==◌, string_eq, ltb, if◌then◌else◌, length, drop,
}
use cyntr.Common.Dict.{Dict, get, put, remove}
use cyntr.Common.Order.{sort_by}
use cyntr.Scheduler.{
  Job, JobCondition, output_changed, output_matches, other, JobRun, success, failure,
}
use cyntr.Scheduler.Cron.{Calendar, CronSchedule, parse_cron, next}

pub record Scheduler : Type 0 where
  pub jobs : Dict String Job
  pub history : Dict String (List JobRun)
  pub stored : Option (List Job)

unfoldable pub new_scheduler : Option (List Job) → Scheduler
new_scheduler stored = record { jobs = []; history = []; stored = stored }

-- s.history[id], which is nil where the key is missing
unfoldable pub runs_of : String → Dict String (List JobRun) → List JobRun
runs_of id h = elim (get id h) [ none ↦ [] | some runs ↦ runs ]

abbrev pub newest : List JobRun → List JobRun
newest runs = if ltb 20 (length runs) then drop (length runs - 20) runs else runs

unfoldable pub record_job_run : String → JobRun → Scheduler → Scheduler
unfolding runs_of
record_job_run id run s = record s {
  history = put id (newest (runs_of id s.history ++ (run ∷ []))) s.history;
}

-- The reply of agent.chat: an answer, a payload of another type, or an error.
pub data ChatReply : Type 0 where
  content chat_error : String → ChatReply
  unexpected : ChatReply

pub record Outbound : Type 0 where
  pub channel : String
  pub channel_id : String
  pub text : String

abbrev pub failed_run : Job → ℕ → String → JobRun
failed_run job start error = record {
  job_id = job.id;
  status = failure;
  output = "";
  error = error;
  started_at = start;
}

abbrev pub last_output_is : String → List JobRun → Bool
last_output_is text [] = false
last_output_is text (run ∷ []) = run.output == text
last_output_is text (run ∷ next_run ∷ runs) = last_output_is text (next_run ∷ runs)

-- Whether the condition lets the output through; `matched` is regexp.MatchString.
unfoldable pub condition_met :
    (String → String → Bool) → List JobRun → String → Option JobCondition → Bool
condition_met matched runs text none = true
condition_met matched runs text (some output_changed) = not (last_output_is text runs)
condition_met matched runs text (some (output_matches pattern)) =
    if pattern == "" then true else matched pattern text
condition_met matched runs text (some (other kind)) = true

abbrev pub report_title_of : Job → String
report_title_of job =
    if job.report_title == "" then "Scheduled Report: " <> job.name else job.report_title

-- `date` is the text of the moment of delivery.
unfoldable pub delivery_text : String → Job → String → String
delivery_text date job text =
    if job.report_mode
    then "*" <> (report_title_of job <> ("*\n_" <> (date <> ("_\n\n" <> text))))
    else text

unfoldable pub delivery : String → Job → String → Option Outbound
unfolding delivery_text
delivery date job text =
    if not (job.dest_channel == "") && not (job.dest_channel_id == "")
    then some (record {
      channel = job.dest_channel;
      channel_id = job.dest_channel_id;
      text = delivery_text date job text;
    })
    else none

abbrev pub execute_answered :
    (String → String → Bool) → String → ℕ → Job → String → Scheduler → Scheduler × Option Outbound
execute_answered matched date start job text s =
    if condition_met matched (runs_of job.id s.history) text job.condition
    then (
      record_job_run job.id
          (record {
            job_id = job.id;
            status = success;
            output = text;
            error = "";
            started_at = start;
          })
          s,
      delivery date job text,
    )
    else (s, none)

-- The copy of a job that checkAndRun starts, with the agent's reply; the result is what is sent to the
-- channel module.
unfoldable pub execute_job :
    (String → String → Bool)
    → String
    → ℕ
    → Job
    → ChatReply
    → Scheduler
    → Scheduler × Option Outbound
unfolding condition_met record_job_run delivery runs_of
execute_job matched date start job (chat_error e) s =
    (record_job_run job.id (failed_run job start e) s, none)
execute_job matched date start job unexpected s =
    (record_job_run job.id (failed_run job start "unexpected response type") s, none)
execute_job matched date start job (content text) s = execute_answered matched date start job text s

abbrev pub value_of : String × Job → Job
value_of e = e.1

-- `written` says whether the file could be written.
unfoldable pub save_jobs : Bool → Scheduler → Scheduler
save_jobs written s = if written then record s { stored = some (map value_of s.jobs) } else s

abbrev pub put_all : List Job → Dict String Job → Dict String Job
put_all [] jobs = jobs
put_all (job ∷ more) jobs = put_all more (put job.id job jobs)

unfoldable pub load_jobs : Scheduler → Scheduler
load_jobs s = elim s.stored [ none ↦ s | some jobs ↦ record s { jobs = put_all jobs s.jobs } ]

pub data Payload : Type 0 where
  job : Job → Payload
  name_text : String → Payload
  unknown : Payload

pub data Reply : Type 0 where
  done bad_payload bad_cron : Reply
  jobs_are : List Job → Reply
  runs_are : List JobRun → Reply

abbrev pub add_job : Bool → Job → ℕ → Scheduler → Scheduler
add_job written j time s =
    save_jobs written
      (record s { jobs = put j.id (record j { next_run = time; enabled = true }) s.jobs })

abbrev pub add_cron :
    (ℕ → Calendar) → Bool → ℕ → Job → Option CronSchedule → Scheduler → Scheduler × Reply
add_cron calendar written now j none s = (s, bad_cron)
add_cron calendar written now j (some cs) s = (add_job written j (next calendar cs now) s, done)

abbrev pub add_payload : (ℕ → Calendar) → Bool → ℕ → Payload → Scheduler → Scheduler × Reply
add_payload calendar written now (job j) s =
    if not (j.cron_expr == "")
    then add_cron calendar written now j (parse_cron j.cron_expr) s
    else (add_job written j (now + j.interval) s, done)
add_payload calendar written now _ s = (s, bad_payload)

unfoldable pub handle_add : (ℕ → Calendar) → Bool → ℕ → Payload → Scheduler → Scheduler × Reply
unfolding save_jobs
handle_add calendar written now p s = add_payload calendar written now p s

abbrev pub remove_payload : Bool → Payload → Scheduler → Scheduler × Reply
remove_payload written (name_text id) s =
    (save_jobs written (record s { jobs = remove id s.jobs }), done)
remove_payload written _ s = (s, bad_payload)

unfoldable pub handle_remove : Bool → Payload → Scheduler → Scheduler × Reply
unfolding save_jobs
handle_remove written p s = remove_payload written p s

abbrev pub name_less : Job → Job → Bool
name_less a b = is_lt (compare a.name b.name)

unfoldable pub handle_list : Scheduler → Reply
handle_list s = jobs_are (sort_by name_less (map value_of s.jobs))

abbrev pub history_payload : Payload → Scheduler → Reply
history_payload (name_text id) s = runs_are (runs_of id s.history)
history_payload _ s = bad_payload

unfoldable pub handle_history : Payload → Scheduler → Reply
unfolding runs_of
handle_history p s = history_payload p s
