-- ===== src/Workflow/Text.antt =====
-- modules/workflow/engine.go: substituteVar and the texts of a tool call.
pub mod Endless
use Prim.Native.String.{compare}
use text.Mathlib.Text.{is_lt}
use cyntr.Common.{
  ℕ, zero, suc, String, ◌<>◌, List, [], ◌∷◌, ◌++◌, Option, none, some, Bool, ◌==◌, string_eq,
  if◌then◌else◌, map, select, not,
}
use cyntr.Common.Dict.{Dict}
use cyntr.Common.Order.{sort_by}
use cyntr.Common.Text.{cut_at, join}
use cyntr.Workflow.{StepResult}

-- The loop runs as long as the text is found, on fuel; none where the fuel runs out.
unfoldable pub substitute_var : ℕ → String → String → String → Option String
substitute_var zero s old new = none
substitute_var (suc fuel) s old new = elim (cut_at old s) [
  | none ↦ some s
  | some (before, after) ↦ substitute_var fuel (before <> (new <> after)) old new
]

abbrev pub placeholder : String → String
placeholder id = "{{" <> (id <> ".output}}")

-- The loop over run.Results.
unfoldable pub substitute_results : ℕ → Dict String StepResult → String → Option String
substitute_results fuel [] message = some message
substitute_results fuel ((id, r) ∷ results) message =
    elim (substitute_var fuel message (placeholder id) r.output) [
      | none ↦ none
      | some text ↦ substitute_results fuel results text
    ]

abbrev pub key_less : String × String → String × String → Bool
key_less a b = is_lt (compare a.0 b.0)

abbrev pub entry_text : String × String → String
entry_text e = e.0 <> (":" <> e.1)

-- fmt's %v of a map: its keys in order.
unfoldable pub format_map : Dict String String → String
format_map m = "map[" <> (join " " (map entry_text (sort_by key_less m)) <> "]")

-- The configuration but for the tool's name.
unfoldable pub tool_input : Dict String String → Dict String String
tool_input config = select (λ (e : String × String). not (e.0 == "tool")) config

unfoldable pub tool_message : String → Dict String String → String
unfolding format_map tool_input
tool_message tool config =
    "Execute tool " <> (tool <> (" with input: " <> format_map (tool_input config)))
