-- ===== src/Audit/Writer.antt =====
-- modules/audit/writer.go: appending to the hash chain, and checking it.
use cyntr.Common.{
  String, ◌<>◌, List, [], ◌∷◌, ◌++◌, Option, none, some, Bool, true, false, not, ◌&&◌, ◌==◌,
  string_eq, if◌then◌else◌, any,
}
use cyntr.Audit.{Entry, Row, Codec}

pub record Writer : Type 0 where
  pub rows : List Row
  pub instance_name : String
  pub secret : String
  pub prev_hash : String
  pub closed : Bool

-- The entry_hash of the last row, and `start` where there is no row.
unfoldable pub last_hash : String → List Row → String
last_hash start [] = start
last_hash start (r ∷ rs) = last_hash r.entry_hash rs

-- `ok` says whether the database opens; `none` is the error.
unfoldable pub new_writer : Bool → List Row → String → String → Option Writer
new_writer false rows name secret = none
new_writer true rows name secret = some (record {
  rows = rows;
  instance_name = name;
  secret = secret;
  prev_hash = last_hash "genesis" rows;
  closed = false;
})

pub data WriteError : Type 0 where
  marshal_entry marshal_signed insert_entry : WriteError

-- The columns of an entry that is hashed, signed and marshalled.
abbrev pub row_of : Codec → Entry → String → String → String → Row
row_of c e text signature hash = record {
  id = e.id;
  timestamp = c.format_time e.timestamp;
  instance_name = e.instance_name;
  tenant = e.tenant;
  content = text;
  signature = signature;
  prev_hash = e.prev_hash;
  entry_hash = hash;
}

-- The primary key refuses an id that is there already; `ok` says whether the database works.
abbrev pub insert : Bool → Row → Writer → Writer × Option WriteError
insert ok r w =
    if ok && not w.closed && not (any (λ (x : Row). x.id == r.id) w.rows)
    then (record w { rows = w.rows ++ (r ∷ []); prev_hash = r.entry_hash }, none)
    else (w, some insert_entry)

abbrev pub write_signed :
    Codec → Bool → Entry → String → String → Option String → Writer → Writer × Option WriteError
write_signed c ok e signature hash none w = (w, some marshal_signed)
write_signed c ok e signature hash (some text) w = insert ok (row_of c e text signature hash) w

abbrev pub write_hashed : Codec → Bool → Entry → Option String → Writer → Writer × Option WriteError
write_hashed c ok e none w = (w, some marshal_entry)
write_hashed c ok e (some text) w =
    let hash = c.sha256 (w.prev_hash <> text) in
    let signature = c.mac w.secret hash in
    let signed = record e { signature = signature } in
    write_signed c ok signed signature hash (c.marshal signed) w

-- The entry as it is hashed: the instance and the hash before are the writer's.
abbrev pub stamped : Writer → Entry → Entry
stamped w e = record e { instance_name = w.instance_name; prev_hash = w.prev_hash }

unfoldable pub write : Codec → Bool → Entry → Writer → Writer × Option WriteError
write c ok e w = write_hashed c ok (stamped w e) (c.marshal (stamped w e)) w

unfoldable pub close : Writer → Writer
close w = record w { closed = true }

pub data ChainError : Type 0 where
  prev_mismatch bad_json bad_entry hash_mismatch : String → ChainError

-- The stored entry with its signature cleared, marshalled again.
unfoldable pub presigned : Codec → String → Option String
presigned c text = elim (c.unmarshal text) [
  | none ↦ none
  | some e ↦ c.marshal (record e { signature = "" })
]

-- One round of the loop: the error, or none where the row is as it should be.
abbrev pub check_hash : Codec → Row → Option String → Option ChainError
check_hash c r none = some (bad_entry r.id)
check_hash c r (some text) =
    if c.sha256 (r.prev_hash <> text) == r.entry_hash then none else some (hash_mismatch r.id)

abbrev pub check_content : Codec → Row → Option Entry → Option ChainError
check_content c r none = some (bad_json r.id)
check_content c r (some e) = check_hash c r (c.marshal (record e { signature = "" }))

unfoldable pub check_row : Codec → String → Row → Option ChainError
check_row c expected r =
    if r.prev_hash == expected
    then check_content c r (c.unmarshal r.content)
    else some (prev_mismatch r.id)

unfoldable pub verify_from : Codec → String → List Row → Option ChainError
verify_from c expected [] = none
verify_from c expected (r ∷ rs) =
    let rest = verify_from c r.entry_hash rs in
    elim (check_row c expected r) [ some e ↦ some e | none ↦ rest ]

-- None where the chain is whole.
unfoldable pub verify_chain : Codec → List Row → Option ChainError
unfolding verify_from
verify_chain c rows = verify_from c "genesis" rows
