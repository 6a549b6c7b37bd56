-- ===== src/Audit.antt =====
-- modules/audit/types.go: the entries of the audit log, what the log takes from libraries, and its rows.
-- The texts of an entry are valid UTF-8: Go's strings may hold other bytes, which json.Marshal replaces, and
-- an entry that is read back then has another JSON than the one that was hashed.
pub mod Writer
pub mod Examples
pub mod Query
pub mod Logger
pub mod Rotation
pub mod Chain
use cyntr.Common.{ℕ, String, Option, Bool}
use cyntr.Common.Dict.{Dict}
use cyntr.Common.Int.{ℤ}

pub record Principal : Type 0 where
  pub user : String
  pub agent : String
  pub role : String

pub record Action : Type 0 where
  pub kind : String
  pub module_name : String
  pub detail : Dict String String

pub record PolicyDecision : Type 0 where
  pub rule : String
  pub decision : String
  pub decided_by : String
  pub evaluation_ms : ℤ

pub record Result : Type 0 where
  pub status : String
  pub duration_ms : ℤ

pub record ChainInfo : Type 0 where
  pub parent_event : String
  pub session : String

pub record Entry : Type 0 where
  pub id : String
  pub timestamp : ℕ
  pub instance_name : String
  pub tenant : String
  pub principal : Principal
  pub action : Action
  pub policy : PolicyDecision
  pub outcome : Result
  pub chain : ChainInfo
  pub signature : String
  pub prev_hash : String

-- json.Marshal and json.Unmarshal of an Entry, the hex digits of SHA-256 and of HMAC-SHA256 under a
-- secret, the text of a time in UTC, and SQLite's json_extract.
pub record Codec : Type 0 where
  pub marshal : Entry → Option String
  pub unmarshal : String → Option Entry
  pub sha256 : String → String
  pub mac : String → String → String
  pub format_time : ℕ → String
  pub json_extract : String → String → Option String

-- A row of the table audit_entries.
pub record Row : Type 0 where
  pub id : String
  pub timestamp : String
  pub instance_name : String
  pub tenant : String
  pub content : String
  pub signature : String
  pub prev_hash : String
  pub entry_hash : String
