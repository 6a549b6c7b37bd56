-- ===== src/Workflow/Nested.antt =====
-- modules/workflow/engine.go: the steps that run other steps. The sub-steps of a parallel step run in the
-- order of the list; as the replies of the outside are arbitrary, and results are written only when all
-- have ended, this stands for every schedule of sub-steps that write no results themselves.
use cyntr.Common.{
  ℕ, ◌+◌, String, ◌<>◌, List, [], ◌∷◌, Option, none, some, Bool, true, false, ◌==◌, string_eq,
  if◌then◌else◌, map,
}
use cyntr.Common.Dict.{get}
use cyntr.Common.Int.{pos}
use cyntr.Common.Text.{split_list, join, replace_all, decimal_text, trim_space}
use cyntr.Workflow.{Step, other, Workflow, StepResult, success, failure}
use cyntr.Workflow.Calls.{Exec, config_of, store, succeeded, failed_with, Outcome, is_success}

-- stepMap[id]: a later step with the same ID takes the place of an earlier one.
unfoldable pub last_step : String → List Step → Option Step
last_step id [] = none
last_step id (s ∷ ss) =
    let later = last_step id ss in
    elim later [ some t ↦ some t | none ↦ if s.id == id then some s else none ]

abbrev steps_of : Option Workflow → List Step
steps_of none = []
steps_of (some wf) = wf.steps

abbrev sub_step_missing : String → StepResult
sub_step_missing id = record {
  step_id = id;
  status = failure;
  output = "";
  error = "sub-step not found";
}

-- The results of the sub-steps in order, each step run by `rec`.
unfoldable run_sub_steps :
    (Step → Exec → Outcome) → List Step → List String → Exec → Option (List StepResult × Exec)
run_sub_steps rec steps [] x = some ([], x)
run_sub_steps rec steps (id ∷ ids) x = elim (last_step id steps) [
  | none ↦ elim (run_sub_steps rec steps ids x) [
    | none ↦ none
    | some (rs, y) ↦ some (sub_step_missing id ∷ rs, y)
  ]
  | some s ↦ elim (rec s x) [
    | none ↦ none
    | some (r, y) ↦ elim (run_sub_steps rec steps ids y) [
      | none ↦ none
      | some (rs, z) ↦ some (r ∷ rs, z)
    ]
  ]
]

unfoldable store_all : List StepResult → Exec → Exec
store_all [] x = x
store_all (r ∷ rs) x = store_all rs (store r.step_id r x)

unfoldable all_success : List StepResult → Bool
all_success [] = true
all_success (r ∷ rs) = if is_success r then all_success rs else false

abbrev output_of : StepResult → String
output_of r = r.output

unfoldable parallel_result : Step → List StepResult → StepResult
unfolding all_success
parallel_result s rs = record {
  step_id = s.id;
  status = if all_success rs then success else failure;
  output = join "\n---\n" (map output_of rs);
  error = "";
}

abbrev execute_sub_steps :
    (Step → Exec → Outcome) → Option Workflow → Step → List String → Exec → Outcome
execute_sub_steps rec wf s [] x = some (failed_with s "" "no sub-steps defined", x)
execute_sub_steps rec wf s (id ∷ ids) x = elim (run_sub_steps rec (steps_of wf) (id ∷ ids) x) [
  | none ↦ none
  | some (rs, y) ↦ some (parallel_result s rs, store_all rs y)
]

unfoldable pub execute_parallel : (Step → Exec → Outcome) → Option Workflow → Step → Exec → Outcome
unfolding run_sub_steps store_all parallel_result
execute_parallel rec wf s x = execute_sub_steps rec wf s s.sub_steps x

-- The first step of that ID; where there is none, Go's zero step.
unfoldable first_step : String → List Step → Step
first_step id [] = record {
  id = "";
  name = "";
  kind = other "";
  config = [];
  on_success = "";
  on_failure = "";
  retry_count = pos 0;
  sub_steps = [];
  loop_over = "";
}
first_step id (s ∷ ss) = if s.id == id then s else first_step id ss

abbrev earlier_output : List String → Option StepResult → List String
earlier_output items none = items
earlier_output items (some r) = split_list b'\n' r.output

abbrev from_source : List String → Option String → Exec → List String
from_source items none x = items
from_source items (some ref) x = earlier_output items (get ref x.run.results)

unfoldable loop_items : Step → Exec → List String
loop_items s x =
    if s.loop_over == ""
    then from_source (split_list b',' s.loop_over) (get "loop_source" s.config) x
    else split_list b',' s.loop_over

abbrev with_item : String → String × String → String × String
with_item item e = (e.0, replace_all e.1 "{{item}}" item)

abbrev iteration : Step → Step → ℕ → String → Step
iteration s body i item = record body {
  id = s.id <> ("_iter_" <> decimal_text i);
  config = map (with_item item) body.config;
}

abbrev add_output : StepResult → Option (List String × Exec) → Option (List String × Exec)
add_output r none = none
add_output r (some (outputs, x)) = some (r.output ∷ outputs, x)

-- A blank item is passed over, and counts.
unfoldable run_items :
    (Step → Exec → Outcome) → Step → Step → ℕ → List String → Exec → Option (List String × Exec)
run_items rec s body i [] x = some ([], x)
run_items rec s body i (raw ∷ items) x =
    let item = trim_space raw in
    let skipped = run_items rec s body (i + 1) items x in
    let done : Option (List String × Exec) = elim (rec (iteration s body i item) x) [
      | none ↦ none
      | some (r, y) ↦
          add_output r (run_items rec s body (i + 1) items (store (iteration s body i item).id r y))
    ] in
    if item == "" then skipped else done

unfoldable pub execute_loop : (Step → Exec → Outcome) → Option Workflow → Step → Exec → Outcome
unfolding config_of run_items first_step loop_items
execute_loop rec wf s x =
    if config_of "body_step" s == ""
    then some (failed_with s "" "body_step not configured", x)
    else elim (run_items rec s (first_step (config_of "body_step" s) (steps_of wf)) 0
        (loop_items s x) x) [
          | none ↦ none
          | some (outputs, y) ↦ some (succeeded s (join "\n" outputs), y)
        ]
