-- ===== src/Audit/Chain/Tamper.antt =====
-- What a verified chain says of the stored entries: an auditor who kept the number of rows and the
-- last hash detects any change.
use cyntr.Common.{
  String, ◌<>◌, ◌≡◌, ◌≢◌, refl, sym, ap, ◌∙◌, ◌⊎◌, List, [], ◌∷◌, Option, none, some, ◌==◌,
  string_eq, str_iff, inl, inr, arith, Bool-cases, Option-cases, length,
}
use Prim.Native.String.{count}
use text.Mathlib.TextLemmas.{append_inj}
use cyntr.Audit.{Entry, Row, Codec}
use cyntr.Audit.Writer.{last_hash, presigned, check_row, check_hash, verify_from, verify_chain}

-- The text whose hash a row holds: the hash before, then the entry without its signature.
abbrev pub hashed_text : Codec → Row → Option String
hashed_text c r = elim (presigned c r.content) [ none ↦ none | some t ↦ some (r.prev_hash <> t) ]

-- The two rows hash different texts and have the same hash.
pub record Clash (c : Codec) (r r' : Row) : Type 0 where
  pub text : String
  pub text' : String
  pub hashes : hashed_text c r ≡ some text
  pub hashes' : hashed_text c r' ≡ some text'
  pub differ : text ≢ text'
  pub same_hash : c.sha256 text ≡ c.sha256 text'

-- Rows at the same place of the tables clash.
abbrev pub Collision : Codec → List Row → List Row → Type 0
Collision c [] rows' = ⊥
Collision c (r ∷ rows) [] = ⊥
Collision c (r ∷ rows) (r' ∷ rows') = Clash c r r' ⊎ Collision c rows rows'

-- What a row that passes the check holds.
record Checked (c : Codec) (expected : String) (r : Row) : Type 0 where
  text : String
  presigned_as : presigned c r.content ≡ some text
  follows : r.prev_hash ≡ expected
  hashed : r.entry_hash ≡ c.sha256 (expected <> text)

check_hash-text :
    (c : Codec) (r : Row) (o : Option String)
    → check_hash c r o ≡ none
    → (t : String) × (o ≡ some t) × (c.sha256 (r.prev_hash <> t) ≡ r.entry_hash)
check_hash-text c r none h = absurd (cc)
check_hash-text c r (some t) h = elim (Bool-cases (c.sha256 (r.prev_hash <> t) == r.entry_hash)) [
  | inl y ↦ (t, refl, (str_iff _ _).0 y)
  | inr n ↦ absurd (cc (rw n at h))
]

check_hash-Checked :
    (c : Codec) (expected : String) (r : Row) (e : Entry)
    → r.prev_hash ≡ expected
    → c.unmarshal r.content ≡ some e
    → check_hash c r (c.marshal (record e { signature = "" })) ≡ none
    → Checked c expected r
unfolding presigned
check_hash-Checked c expected r e p d h =
    let (text, m, k) = check_hash-text c r (c.marshal (record e { signature = "" })) h in
    record {
      text = text;
      presigned_as = rw (d, presigned) m;
      follows = p;
      hashed = sym k ∙ ap (λ q. c.sha256 (q <> text)) p;
    }

check_row-Checked :
    (c : Codec) (expected : String) (r : Row) → check_row c expected r ≡ none → Checked c expected r
unfolding check_row
check_row-Checked c expected r h = elim (Bool-cases (r.prev_hash == expected)) [
  | inr n ↦ absurd (cc (rw n at h))
  | inl y ↦ elim (Option-cases (c.unmarshal r.content)) [
    | inl n ↦ absurd (cc (rw (y, n) at h))
    | inr (e, d) ↦
        check_hash-Checked c expected r e ((str_iff r.prev_hash expected).0 y) d (rw (y, d) at h)
  ]
]

verify_from-first :
    (c : Codec) (p : String) (r : Row) (rs : List Row)
    → verify_from c p (r ∷ rs) ≡ none
    → Checked c p r × (verify_from c r.entry_hash rs ≡ none)
unfolding verify_from
verify_from-first c p r rs v = elim (Option-cases (check_row c p r)) [
  | inl n ↦ (check_row-Checked c p r n, rw (n, verify_from) at v)
  | inr (e, s) ↦ absurd (cc (rw (s, verify_from) at v))
]

-- What an auditor can compare of a table: each row's entry without its signature, and its hashes.
abbrev pub history : Codec → List Row → List (Option String × String × String)
history c [] = []
history c (r ∷ rs) = (presigned c r.content, r.prev_hash, r.entry_hash) ∷ history c rs

record SameFrom (c : Codec) (p p' : String) (rows rows' : List Row) : Type 0 where
  starts : p ≡ p'
  entries : history c rows ≡ history c rows'

module _ (c : Codec) (size : (x y : String) → count (c.sha256 x) ≡ count (c.sha256 y)) where
  same_row :
      (p p' : String) (r r' : Row) (rs rs' : List Row)
      → count p ≡ count p'
      → Checked c p r
      → Checked c p' r'
      → SameFrom c r.entry_hash r'.entry_hash rs rs'
      → SameFrom c p p' (r ∷ rs) (r' ∷ rs') ⊎ Clash c r r'
  same_row p p' r r' rs rs' n k k' s = elim (Bool-cases ((p <> k.text) == (p' <> k'.text))) [
    | inl y ↦
        let (e, t) = append_inj ((str_iff _ _).0 y) n in
        inl (record {
          starts = e;
          entries =
              cc
                (k.presigned_as, k'.presigned_as, k.follows, k'.follows, s.starts, s.entries, e, t);
        })
    | inr f ↦ inr (record {
      text = r.prev_hash <> k.text;
      text' = r'.prev_hash <> k'.text;
      hashes = rw (k.presigned_as, hashed_text) refl;
      hashes' = rw (k'.presigned_as, hashed_text) refl;
      differ = λ e. cc (f, (str_iff _ _).1 (rw (k.follows, k'.follows) at e));
      same_hash = rw (k.follows, k'.follows) (sym k.hashed ∙ s.starts ∙ k'.hashed);
    })
  ]

  same_from :
      (p p' : String) (rows rows' : List Row)
      → count p ≡ count p'
      → length rows ≡ length rows'
      → last_hash p rows ≡ last_hash p' rows'
      → verify_from c p rows ≡ none
      → verify_from c p' rows' ≡ none
      → SameFrom c p p' rows rows' ⊎ Collision c rows rows'
  unfolding last_hash verify_from
  same_from p p' [] [] n l e v v' = inl (record { starts = e; entries = refl })
  same_from p p' [] (r' ∷ rs') n l e v v' = absurd (omega (arith, l))
  same_from p p' (r ∷ rs) [] n l e v v' = absurd (omega (arith, l))
  same_from p p' (r ∷ rs) (r' ∷ rs') n l e v v' =
      let (k, u) = verify_from-first c p r rs v in
      let (k', u') = verify_from-first c p' r' rs' v' in
      elim (same_from r.entry_hash r'.entry_hash rs rs'
        (ap count k.hashed ∙ size _ _ ∙ sym (ap count k'.hashed)) (omega (arith, l)) e u u') [
          | inl s ↦ elim (same_row p p' r r' rs rs' n k k' s) [
            | inl t ↦ inl t
            | inr x ↦ inr (inl x)
          ]
          | inr x ↦ inr (inr x)
        ]

-- Two tables that VerifyChain accepts and that have the same number of rows and the same last
-- entry_hash agree, row by row, on the entry without its signature, on prev_hash and on entry_hash,
-- or two rows at the same place have the same hash of different texts: those that these rows hash, which
-- are the hash before and the entry without its signature. The hypothesis: SHA-256 always gives the
-- same number of digits.
pub verify_chain-tamper :
    (c : Codec) (rows rows' : List Row)
    → ((x y : String) → count (c.sha256 x) ≡ count (c.sha256 y))
    → length rows ≡ length rows'
    → last_hash "genesis" rows ≡ last_hash "genesis" rows'
    → verify_chain c rows ≡ none
    → verify_chain c rows' ≡ none
    → (history c rows ≡ history c rows') ⊎ Collision c rows rows'
unfolding verify_chain
verify_chain-tamper c rows rows' size l e v v' =
    elim (same_from c size "genesis" "genesis" rows rows' refl l e v v') [
      | inl s ↦ inl s.entries
      | inr x ↦ inr x
    ]
