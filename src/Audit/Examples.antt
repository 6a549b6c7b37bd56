-- ===== src/Audit/Examples.antt =====
-- Concrete runs of the audit log: two entries of one tenant, and stand-ins for JSON and SHA-256 that
-- meet the hypotheses.
use cyntr.Common.{
  String, ◌≡◌, refl, ◌⊎◌, List, [], ◌∷◌, Option, none, some, Bool, true, false, ◌==◌, string_eq,
  str_iff, if◌then◌else◌, Bool-cases, inl, inr,
}
use Prim.Native.String.{count}
use cyntr.Common.{◌∙◌}
use cyntr.Common.Int.{pos}
use cyntr.Common.Dict.{get}
use cyntr.Common.{select, any}
use cyntr.Audit.{Entry, Row, Codec}
use cyntr.Audit.Writer.{Writer, write, new_writer, verify_chain, check_row, last_hash}
use cyntr.Audit.Chain.{RoundTrips}
use cyntr.Audit.Chain.Tamper.{history, Collision, verify_chain-tamper}
use cyntr.Audit.Rotation.{RotatingWriter, new_rotating_writer, file_of}
use cyntr.Audit.Rotation.Days.{Attempt, run, FilesOk, run-FilesOk}
use cyntr.Audit.Query.{query_entries, selects, decode_all, effective_limit}
use cyntr.Audit.Logger.{Message, Payload, handle_query, handle_write}
use cyntr.Audit.Query.Scoped.{logged, Disclosed, handle_query-Disclosed}
use cyntr.Common.{sym}
use cyntr.Common.{map}

abbrev login : Entry
login = record {
  id = "e1";
  timestamp = 7;
  instance_name = "";
  tenant = "acme";
  principal = record { user = "jane"; agent = ""; role = "user" };
  action = record { kind = "login"; module_name = "auth"; detail = [] };
  policy = record {
    rule = "default";
    decision = "allow";
    decided_by = "yaml";
    evaluation_ms = pos 1;
  };
  outcome = record { status = "ok"; duration_ms = pos 2 };
  chain = record { parent_event = ""; session = "s1" };
  signature = "";
  prev_hash = "";
}

abbrev logout : Entry
logout = record login { id = "e2" }

-- An encoder for the entries of one tenant, which writes the id alone.
abbrev encode : Entry → Option String
encode e = if e.tenant == "acme" then some e.id else none

abbrev codec : Codec
codec = record {
  marshal = encode;
  unmarshal = λ text. some (record login { id = text });
  sha256 = λ text. if text == "genesise1" then "a" else "b";
  mac = λ secret text. text;
  format_time = λ t. "1970";
  json_extract = λ text path. none;
}

codec-RoundTrips : RoundTrips codec
codec-RoundTrips e text h = elim (Bool-cases (e.tenant == "acme")) [
  | inl y ↦ record {
    entry = record login { id = text };
    decodes = refl;
    same_json = λ s. rw y (sym (rw y at h));
    same_tenant = sym ((str_iff e.tenant "acme").0 y);
  }
  | inr n ↦ absurd (cc (rw n at h))
]

one_digit : (x : String) → count (codec.sha256 x) ≡ 1
one_digit x = elim (Bool-cases (x == "genesise1")) [ inl y ↦ rw y refl | inr n ↦ rw n refl ]

abbrev empty_log : Writer
empty_log = record {
  rows = [];
  instance_name = "n1";
  secret = "k";
  prev_hash = "genesis";
  closed = false;
}

abbrev two_rows : List Row
two_rows = (write codec true logout (write codec true login empty_log).0).0.rows

abbrev moved : Row → Row
moved r = record r { signature = "forged" }

abbrev forged_rows : List Row
forged_rows = map moved two_rows

verify_chain-tamper_example :
    (history codec two_rows ≡ history codec forged_rows) ⊎ Collision codec two_rows forged_rows
unfolding write verify_chain check_row last_hash any
verify_chain-tamper_example =
    verify_chain-tamper codec two_rows forged_rows (λ x y. one_digit x ∙ sym (one_digit y)) refl
      refl refl refl

abbrev first_day : RotatingWriter
first_day = record {
  files = [];
  instance_name = "n1";
  secret = "k";
  current = some empty_log;
  cur_date = "2026-01-01";
}

abbrev attempts : List Attempt
attempts =
    record {
      today = "2026-01-01";
      next_today = "2026-01-01";
      open_ok = true;
      insert_ok = true;
      entry = login;
    }
    ∷ record {
      today = "2026-01-02";
      next_today = "2026-01-02";
      open_ok = false;
      insert_ok = true;
      entry = login;
    }
    ∷ record {
      today = "2026-01-02";
      next_today = "2026-01-02";
      open_ok = true;
      insert_ok = true;
      entry = logout;
    }
    ∷ []

run-FilesOk_example : FilesOk codec (run codec attempts first_day).files
unfolding new_rotating_writer verify_chain file_of last_hash get
run-FilesOk_example =
    run-FilesOk codec true "2026-01-01" [] "n1" "k" first_day attempts codec-RoundTrips
      (λ day. refl) refl (refl, (refl, (refl, tt)))

abbrev question : Message
question = record {
  source = "api";
  payload = Payload.filter (record {
    tenant = "acme";
    action_type = "";
    user = "";
    agent = "";
    since = 0;
    until = 0;
    limit = pos 1;
  });
}

abbrev messages : List (Bool × Message)
messages =
    (true, record { source = "proxy"; payload = Payload.entry login })
    ∷ (true, record { source = "proxy"; payload = Payload.entry logout })
    ∷ []

handle_query-Disclosed_example : Disclosed question (login ∷ [])
unfolding new_writer handle_query logged handle_write write query_entries selects decode_all
    effective_limit last_hash select any
handle_query-Disclosed_example =
    handle_query-Disclosed codec "n1" "k" empty_log messages true question (login ∷ [])
      codec-RoundTrips refl refl
