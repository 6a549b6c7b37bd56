-- ===== src/Audit/Rotation/Days.antt =====
-- Every day's file holds a whole chain.
use cyntr.Common.{
  String, ◌≡◌, refl, List, [], ◌∷◌, Option, none, some, Bool, true, false, ◌==◌, string_eq, inl,
  inr, Bool-cases, All,
}
use cyntr.Common.Dict.{Dict, put, get-put}
use cyntr.Audit.{Entry, Row, Codec}
use cyntr.Audit.Writer.{Writer, new_writer, close, verify_chain}
use cyntr.Audit.Chain.{RoundTrips, Whole, write-Whole}
use cyntr.Audit.Rotation.{
  RotatingWriter, file_of, close_current, rotate_locked, new_rotating_writer, write_current,
  write_rotating,
}
use cyntr.Common.{subst}
use mathlib.Core.Option.{some-injective}

-- A write as it comes: both readings of the date, whether the new file opens and takes the row.
pub record Attempt : Type 0 where
  pub today : String
  pub next_today : String
  pub open_ok : Bool
  pub insert_ok : Bool
  pub entry : Entry

unfoldable pub run : Codec → List Attempt → RotatingWriter → RotatingWriter
run c [] log = log
run c (a ∷ more) log =
    run c more (write_rotating c a.today a.next_today a.open_ok a.insert_ok a.entry log).0

abbrev CurrentOk : Codec → Option Writer → Type 0
CurrentOk c none = Unit
CurrentOk c (some w) = Whole c w

abbrev pub FilesOk : Codec → Dict String (List Row) → Type 0
FilesOk c files = (day : String) → verify_chain c (file_of day files) ≡ none

record Kept (c : Codec) (log : RotatingWriter) : Type 0 where
  files_ok : FilesOk c log.files
  current_ok : CurrentOk c log.current

close-Kept : (c : Codec) (o : Option Writer) → CurrentOk c o → CurrentOk c (close_current o)
unfolding close
close-Kept c none h = tt
close-Kept c (some w) h = record { verified = h.verified; at_end = h.at_end }

rotate-Kept :
    (c : Codec) (ok : Bool) (today : String) (log : RotatingWriter)
    → Kept c log
    → Kept c (rotate_locked ok today log).0
unfolding rotate_locked new_writer
rotate-Kept c false today log k = record {
  files_ok = k.files_ok;
  current_ok = close-Kept c log.current k.current_ok;
}
rotate-Kept c true today log k = record {
  files_ok = k.files_ok;
  current_ok = record { verified = k.files_ok today; at_end = refl };
}

put-FilesOk :
    (c : Codec) (day : String) (rows : List Row) (files : Dict String (List Row))
    → verify_chain c rows ≡ none
    → FilesOk c files
    → FilesOk c (put day rows files)
unfolding file_of
put-FilesOk c day rows files v h d =
    rw (get-put day d rows files)
      (elim (Bool-cases (day == d)) [ inl y ↦ rw y v | inr n ↦ rw n (h d) ])

module _ (c : Codec) (trips : RoundTrips c) where
  write_current-Kept :
      (ok : Bool) (e : Entry) (o : Option Writer) (log : RotatingWriter)
      → e.signature ≡ ""
      → CurrentOk c o
      → Kept c log
      → Kept c (write_current c ok e o log).0
  write_current-Kept ok e none log s h k = k
  write_current-Kept ok e (some w) log s h k =
      let w' = write-Whole c trips ok e w s h in
      record {
        files_ok = put-FilesOk c log.cur_date _ log.files w'.verified k.files_ok;
        current_ok = w';
      }

  write_rotating-Kept :
      (a : Attempt) (log : RotatingWriter)
      → a.entry.signature ≡ ""
      → Kept c log
      → Kept c (write_rotating c a.today a.next_today a.open_ok a.insert_ok a.entry log).0
  unfolding write_rotating
  write_rotating-Kept a log s k = elim (Bool-cases (a.today == log.cur_date)) [
    | inl y ↦ rw y (write_current-Kept a.insert_ok a.entry log.current log s k.current_ok k)
    | inr n ↦
        let k' = rotate-Kept c a.open_ok a.next_today log k in
        rw n (elim (Bool-cases (rotate_locked a.open_ok a.next_today log).1) [
          | inl d ↦ rw d (write_current-Kept a.insert_ok a.entry _ _ s k'.current_ok k')
          | inr d ↦ rw d k'
        ])
  ]

  run-Kept :
      (more : List Attempt) (log : RotatingWriter)
      → All (λ (a : Attempt). a.entry.signature ≡ "") more
      → Kept c log
      → Kept c (run c more log)
  unfolding run
  run-Kept [] log s k = k
  run-Kept (a ∷ more) log s k = run-Kept more _ s.1 (write_rotating-Kept a log s.0 k)

new_rotating_writer-Kept :
    (c : Codec) (ok : Bool) (today : String) (files : Dict String (List Row)) (name secret : String)
    (log : RotatingWriter)
    → FilesOk c files
    → new_rotating_writer ok today files name secret ≡ some log
    → Kept c log
unfolding new_rotating_writer rotate_locked new_writer
new_rotating_writer-Kept c false today files name secret log h e = absurd (cc e)
new_rotating_writer-Kept c true today files name secret log h e =
    subst (Kept c) (some-injective _ _ e)
      (record { files_ok = h; current_ok = record { verified = h today; at_end = refl } })

-- From a directory whose files hold whole chains, after any writes of entries without a signature,
-- whatever the clock says at each, whether or not the files open and take the rows: VerifyChain
-- accepts the file of every day. The hypothesis on JSON: decoding an entry that was marshalled gives
-- one of the same tenant that marshals alike under every signature.
pub run-FilesOk :
    (c : Codec) (ok : Bool) (today : String) (files : Dict String (List Row)) (name secret : String)
    (log : RotatingWriter) (attempts : List Attempt)
    → RoundTrips c
    → FilesOk c files
    → new_rotating_writer ok today files name secret ≡ some log
    → All (λ (a : Attempt). a.entry.signature ≡ "") attempts
    → FilesOk c (run c attempts log).files
run-FilesOk c ok today files name secret log attempts trips h e s =
    let k =
      run-Kept c trips attempts log s
        (new_rotating_writer-Kept c ok today files name secret log h e) in
    k.files_ok
