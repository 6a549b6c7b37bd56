-- ===== src/Audit/Chain.antt =====
-- Every entry that the writer appends keeps the chain verifiable.
pub mod Tamper
use cyntr.Common.{
  String, ◌<>◌, ◌≡◌, refl, sym, ap, ◌∙◌, List, [], ◌∷◌, ◌++◌, Option, none, some, Bool, true, false,
  not, ◌&&◌, ◌==◌, string_eq, str_iff, if◌then◌else◌, any, inl, inr, arith, Bool-cases,
  Option-cases, All,
}
use cyntr.Audit.{Entry, Row, Codec}
use cyntr.Audit.Writer.{
  Writer, last_hash, write, write_hashed, write_signed, insert, row_of, stamped, presigned,
  check_row, check_hash, check_content, verify_from, verify_chain, new_writer,
}

-- What decoding gives back of an entry of valid UTF-8 that was marshalled: the same JSON under any signature, and
-- the same tenant. (A decoded map may list its keys in another order.)
pub record Decoded (c : Codec) (e : Entry) (text : String) : Type 0 where
  pub entry : Entry
  pub decodes : c.unmarshal text ≡ some entry
  pub same_json :
      (s : String)
      → c.marshal (record entry { signature = s }) ≡ c.marshal (record e { signature = s })
  pub same_tenant : entry.tenant ≡ e.tenant

abbrev pub RoundTrips : Codec → Type 0
RoundTrips c = (e : Entry) (text : String) → c.marshal e ≡ some text → Decoded c e text

-- The chain is whole, and the writer goes on from its end.
pub record Whole (c : Codec) (w : Writer) : Type 0 where
  pub verified : verify_chain c w.rows ≡ none
  pub at_end : w.prev_hash ≡ last_hash "genesis" w.rows

verify_from-append :
    (c : Codec) (p : String) (rows : List Row) (r : Row)
    → verify_from c p rows ≡ none
    → check_row c (last_hash p rows) r ≡ none
    → verify_from c p (rows ++ (r ∷ [])) ≡ none
unfolding verify_from last_hash
verify_from-append c p [] r h k = let k' : check_row c p r ≡ none = k in rw (k', verify_from) refl
verify_from-append c p (x ∷ rows) r h k = elim (Option-cases (check_row c p x)) [
  | inl n ↦
      rw (n, verify_from) (verify_from-append c x.entry_hash rows r (rw (n, verify_from) at h) k)
  | inr (e, s) ↦ absurd (cc (rw (s, verify_from) at h))
]

last_hash-append :
    (p : String) (rows : List Row) (r : Row) → last_hash p (rows ++ (r ∷ [])) ≡ r.entry_hash
unfolding last_hash
last_hash-append p [] r = refl
last_hash-append p (x ∷ rows) r = last_hash-append x.entry_hash rows r

module _ (c : Codec) (trips : RoundTrips c) where
  -- The row that is written passes the check behind the hash that the writer holds.
  row_of-checks :
      (w : Writer) (e : Entry) (text signed_text signature : String)
      → e.prev_hash ≡ w.prev_hash
      → e.signature ≡ ""
      → c.marshal e ≡ some text
      → c.marshal (record e { signature = signature }) ≡ some signed_text
      → check_row c w.prev_hash (
          row_of c
            (record e { signature = signature })
            signed_text
            signature
            (c.sha256 (w.prev_hash <> text)))
        ≡ none
  unfolding check_row
  row_of-checks w e text signed_text signature p s m n =
      let d = trips (record e { signature = signature }) signed_text n in
      let again : c.marshal (record d.entry { signature = "" }) ≡ some text =
        d.same_json "" ∙ (rw (← s) m) in
      rw (p, (str_iff w.prev_hash w.prev_hash).1 refl, d.decodes, again)
        (rw ((str_iff (c.sha256 (w.prev_hash <> text)) (c.sha256 (w.prev_hash <> text))).1 refl)
          refl)

  inserted-Whole :
      (ok : Bool) (r : Row) (w : Writer)
      → check_row c w.prev_hash r ≡ none
      → Whole c w
      → Whole c (insert ok r w).0
  unfolding verify_chain
  inserted-Whole ok r w k h =
      elim (Bool-cases (ok && not w.closed && not (any (λ (x : Row). x.id == r.id) w.rows))) [
        | inl t ↦ rw t (record {
          verified = verify_from-append c "genesis" w.rows r h.verified (rw (← h.at_end) k);
          at_end = sym (last_hash-append "genesis" w.rows r);
        })
        | inr f ↦ rw f h
      ]

  signed-Whole :
      (ok : Bool) (w : Writer) (e : Entry) (text : String)
      → e.prev_hash ≡ w.prev_hash
      → e.signature ≡ ""
      → c.marshal e ≡ some text
      → Whole c w
      → Whole c (write_hashed c ok e (some text) w).0
  signed-Whole ok w e text p s m h =
      let signature = c.mac w.secret (c.sha256 (w.prev_hash <> text)) in
      elim (Option-cases (c.marshal (record e { signature = signature }))) [
        | inl n ↦ rw n h
        | inr (signed_text, n) ↦
            rw n (inserted-Whole ok _ w (row_of-checks w e text signed_text signature p s m n) h)
      ]

  pub write-Whole :
      (ok : Bool) (e : Entry) (w : Writer)
      → e.signature ≡ ""
      → Whole c w
      → Whole c (write c ok e w).0
  unfolding write
  write-Whole ok e w s h = elim (Option-cases (c.marshal (stamped w e))) [
    | inl n ↦ rw n h
    | inr (text, m) ↦ rw m (signed-Whole ok w (stamped w e) text refl s m h)
  ]
