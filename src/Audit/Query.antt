-- ===== src/Audit/Query.antt =====
-- modules/audit/query.go: reading the log, always within one tenant and within a number of rows.
pub mod Scoped
use Prim.Native.String.{compare}
use text.Mathlib.Text.{is_le}
use cyntr.Common.{
  ℕ, String, List, [], ◌∷◌, Option, none, some, Bool, true, false, ◌&&◌, ◌==◌, string_eq, nat_eq,
  if◌then◌else◌, select, take, ltb,
}
use cyntr.Common.Int.{ℤ, pos, negsuc}
use cyntr.Audit.{Entry, Row, Codec}

-- A time of 0 is Go's zero time.
pub record QueryFilter : Type 0 where
  pub tenant : String
  pub action_type : String
  pub user : String
  pub agent : String
  pub since : ℕ
  pub until : ℕ
  pub limit : ℤ

abbrev pub default_query_limit : ℕ
default_query_limit = 1000

abbrev pub max_query_limit : ℕ
max_query_limit = 10_000

-- The hard cap on a limit that is given.
abbrev pub capped : ℕ → ℕ
capped n = if ltb max_query_limit n then max_query_limit else n

unfoldable pub effective_limit : ℤ → ℕ
effective_limit (pos n) = if n == 0 then capped default_query_limit else capped n
effective_limit (negsuc n) = capped default_query_limit

-- SQL's `column = ?`, where json_extract may give NULL
abbrev pub sql_eq : Option String → String → Bool
sql_eq none v = false
sql_eq (some x) v = x == v

-- A condition is added only where the filter has a value.
abbrev pub field_is : Codec → Row → String → String → Bool
field_is c r path wanted =
    if wanted == "" then true else sql_eq (c.json_extract r.content path) wanted

abbrev pub not_before : Codec → Row → ℕ → Bool
not_before c r t = if t == 0 then true else is_le (compare (c.format_time t) r.timestamp)

abbrev pub not_after : Codec → Row → ℕ → Bool
not_after c r t = if t == 0 then true else is_le (compare r.timestamp (c.format_time t))

-- The WHERE clause.
unfoldable pub selects : Codec → QueryFilter → Row → Bool
selects c f r =
    r.tenant == f.tenant
    && field_is c r "$.action.type" f.action_type
    && field_is c r "$.principal.user" f.user
    && field_is c r "$.principal.agent" f.agent
    && not_before c r f.since
    && not_after c r f.until

pub data QueryResult : Type 0 where
  entries : List Entry → QueryResult
  tenant_required query_failed unmarshal_failed : QueryResult

-- The loop over the rows: the first entry that does not decode ends it.
unfoldable pub decode_all : Codec → List Row → Option (List Entry)
decode_all c [] = some []
decode_all c (r ∷ rs) =
    let rest = decode_all c rs in
    elim (c.unmarshal r.content) [
      | none ↦ none
      | some e ↦ elim rest [ none ↦ none | some es ↦ some (e ∷ es) ]
    ]

-- `ok` says whether the database answers.
unfoldable pub query_entries : Codec → Bool → QueryFilter → List Row → QueryResult
query_entries c ok f rows =
    if f.tenant == ""
    then tenant_required
    else if ok
    then elim (decode_all c (take (effective_limit f.limit) (select (selects c f) rows))) [
      | none ↦ unmarshal_failed
      | some es ↦ entries es
    ]
    else query_failed
