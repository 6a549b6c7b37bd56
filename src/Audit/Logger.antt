-- ===== src/Audit/Logger.antt =====
-- modules/audit/logger.go: the bus handlers of the audit module.
use cyntr.Common.{String, Bool, true, not, ◌==◌, string_eq, if◌then◌else◌}
use cyntr.Audit.{Entry, Codec}
use cyntr.Audit.Writer.{Writer, write}
use cyntr.Audit.Query.{QueryFilter, QueryResult, query_entries}

-- A payload of type `any`: the types that the handlers assert, and any other.
pub data Payload : Type 0 where
  entry : Entry → Payload
  filter : QueryFilter → Payload
  unknown : Payload

pub record Message : Type 0 where
  pub source : String
  pub payload : Payload

pub data Reply : Type 0 where
  not_authorized bad_payload : Reply
  answered : QueryResult → Reply

-- The subscriber of audit.write. A failure is printed and dropped.
abbrev pub write_payload : Codec → Bool → Payload → Writer → Writer
write_payload c ok (entry e) w = (write c ok e w).0
write_payload c ok _ w = w

unfoldable pub handle_write : Codec → Bool → Message → Writer → Writer
handle_write c ok msg w = write_payload c ok msg.payload w

unfoldable pub authorized_query_source : String → Bool
authorized_query_source s = if s == "api" then true else s == "cli"

abbrev pub query_payload : Codec → Bool → Payload → Writer → Reply
query_payload c ok (filter f) w = answered (query_entries c ok f w.rows)
query_payload c ok _ w = bad_payload

unfoldable pub handle_query : Codec → Bool → Message → Writer → Reply
unfolding authorized_query_source
handle_query c ok msg w =
    if not (authorized_query_source msg.source)
    then not_authorized
    else query_payload c ok msg.payload w
