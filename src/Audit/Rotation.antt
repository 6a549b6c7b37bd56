-- ===== src/Audit/Rotation.antt =====
-- modules/audit/rotation.go: one database, and one chain, for each day.
pub mod Days
use cyntr.Common.{
  String, List, [], ◌∷◌, Option, none, some, Bool, true, false, ◌==◌, string_eq, if◌then◌else◌,
}
use cyntr.Common.Dict.{Dict, get, put}
use cyntr.Audit.{Entry, Row, Codec}
use cyntr.Audit.Writer.{Writer, WriteError, ChainError, new_writer, write, close, verify_chain}

-- The files of the directory by the date in their names, and the writer that is open.
pub record RotatingWriter : Type 0 where
  pub files : Dict String (List Row)
  pub instance_name : String
  pub secret : String
  pub current : Option Writer
  pub cur_date : String

abbrev pub rows_of : Option (List Row) → List Row
rows_of none = []
rows_of (some rows) = rows

-- The rows of a day's file; opening a file that is not there makes an empty one.
unfoldable pub file_of : String → Dict String (List Row) → List Row
file_of day files = rows_of (get day files)

abbrev pub close_current : Option Writer → Option Writer
close_current none = none
close_current (some w) = some (close w)

-- Where the new file does not open, the writer of the day before stays, closed.
abbrev pub opened : String → RotatingWriter → Option Writer → RotatingWriter × Bool
opened today rw none = (record rw { current = close_current rw.current }, false)
opened today rw (some w) = (record rw { current = some w; cur_date = today }, true)

-- `ok` says whether the database opens; the result says whether there is no error.
unfoldable pub rotate_locked : Bool → String → RotatingWriter → RotatingWriter × Bool
unfolding new_writer file_of
rotate_locked ok today rw =
    opened today rw (new_writer ok (file_of today rw.files) rw.instance_name rw.secret)

unfoldable pub new_rotating_writer :
    Bool → String → Dict String (List Row) → String → String → Option RotatingWriter
unfolding rotate_locked
new_rotating_writer ok today files name secret =
    let (rw, done) = rotate_locked ok today (record {
      files = files;
      instance_name = name;
      secret = secret;
      current = none;
      cur_date = "";
    }) in
    if done then some rw else none

pub data RotatingError : Type 0 where
  rotate_failed no_writer : RotatingError
  write_failed : WriteError → RotatingError

abbrev pub write_error : Option WriteError → Option RotatingError
write_error none = none
write_error (some e) = some (write_failed e)

-- The current writer's rows are those of its day's file.
abbrev pub write_current :
    Codec → Bool → Entry → Option Writer → RotatingWriter → RotatingWriter × Option RotatingError
write_current c ok e none rw = (rw, some no_writer)
write_current c ok e (some w) rw =
    let (w', err) = write c ok e w in
    (record rw { current = some w'; files = put rw.cur_date w'.rows rw.files }, write_error err)

-- The clock is read twice: to see whether the day is over, and for the name of the new file.
unfoldable pub write_rotating :
    Codec
    → String
    → String
    → Bool
    → Bool
    → Entry
    → RotatingWriter
    → RotatingWriter × Option RotatingError
unfolding rotate_locked
write_rotating c today today' open_ok ok e rw =
    if today == rw.cur_date
    then write_current c ok e rw.current rw
    else let (rw', done) = rotate_locked open_ok today' rw in
      if done then write_current c ok e rw'.current rw' else (rw', some rotate_failed)

-- The outer none is the error that there is no writer.
unfoldable pub verify_current : Codec → RotatingWriter → Option (Option ChainError)
verify_current c rw = elim rw.current [ none ↦ none | some w ↦ some (verify_chain c w.rows) ]

unfoldable pub close_rotating : RotatingWriter → RotatingWriter
close_rotating rw = record rw { current = close_current rw.current }
