-- ===== src/Workflow/Runs.antt =====
-- modules/workflow/engine.go: executeWorkflow, one round of its loop at a time.
pub mod Gate
use cyntr.Common.{
  ℕ, zero, suc, String, List, [], ◌∷◌, Option, none, some, Bool, true, false, ◌==◌, string_eq,
  if◌then◌else◌,
}
use cyntr.Common.Int.{pos_part}
use cyntr.Workflow.{
  Step, Workflow, Run, completed, failed, RunError, step_not_found, step_failed, StepResult,
}
use cyntr.Workflow.Calls.{World, Exec, store, is_success}
use cyntr.Workflow.Nested.{last_step}
use cyntr.Workflow.Steps.{execute_step}

-- Where the loop of executeWorkflow stands: before the step with an ID, or behind a failure.
pub data Progress : Type 0 where
  at : String → Exec → Progress
  ended : Exec → Progress

unfoldable pub fail_run : RunError → Exec → Exec
fail_run e x = record x { run = record x.run { status = failed; error = some e } }

unfoldable pub complete_run : Exec → Exec
complete_run x = record x { run = record x.run { status = completed } }

abbrev pub enter : String → Exec → Exec
enter id x = record x { run = record x.run { current_step = id } }

-- Where a step that failed for good leads; the text is the error of its first attempt.
abbrev pub on_failure : Step → String → Exec → Progress
on_failure s error x =
    if s.on_failure == "" then ended (fail_run (step_failed s.id error) x) else at s.on_failure x

-- The loop of the retries, by the rounds left.
unfoldable pub retry : ℕ → World → Option Workflow → Step → String → ℕ → Exec → Option Progress
unfolding fail_run
retry fuel w wf s error zero x = some (on_failure s error x)
retry fuel w wf s error (suc rounds) x = elim (execute_step fuel w wf s x) [
  | none ↦ none
  | some (r, y) ↦ elim (is_success r) [
    | true ↦ some (at s.on_success (store s.id r y))
    | false ↦ retry fuel w wf s error rounds (store s.id r y)
  ]
]

-- A step, its first attempt and its retries.
unfoldable pub attempt : ℕ → World → Option Workflow → Step → Exec → Option Progress
attempt fuel w wf s x = elim (execute_step fuel w wf s x) [
  | none ↦ none
  | some (r, y) ↦ elim (is_success r) [
    | true ↦ some (at s.on_success (store s.id r y))
    | false ↦ retry fuel w wf s r.error (pos_part s.retry_count) (store s.id r y)
  ]
]

-- One round of the loop, before the step `id`.
unfoldable pub round : ℕ → World → Option Workflow → Workflow → String → Exec → Option Progress
unfolding fail_run attempt
round fuel w wf running id x = elim (last_step id running.steps) [
  | none ↦ some (ended (fail_run (step_not_found id) x))
  | some s ↦ attempt fuel w wf s (enter id x)
]

-- The loop, on fuel for its rounds: it ends at the empty ID.
unfoldable pub rounds : ℕ → ℕ → World → Option Workflow → Workflow → Progress → Option Exec
unfolding complete_run
rounds left fuel w wf running (ended x) = some x
rounds zero fuel w wf running (at id x) = none
rounds (suc left) fuel w wf running (at id x) = elim (id == "") [
  | true ↦ some (complete_run x)
  | false ↦ elim (round fuel w wf running id x) [
    | none ↦ none
    | some p ↦ rounds left fuel w wf running p
  ]
]

unfoldable pub execute_workflow : ℕ → ℕ → World → Option Workflow → Workflow → Exec → Option Exec
execute_workflow left fuel w wf running x = rounds left fuel w wf running (at running.start_step x)
