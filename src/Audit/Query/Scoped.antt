-- ===== src/Audit/Query/Scoped.antt =====
-- A query of the log reads one tenant's entries, and only for the sources that may ask.
use cyntr.Common.{
  ℕ, String, ◌≡◌, ◌≢◌, ◌≤◌, refl, sym, ap, ◌∙◌, ◌⊎◌, List, [], ◌∷◌, Option, none, some, Bool, true,
  false, not, ◌&&◌, ◌==◌, string_eq, str_iff, inl, inr, arith, Bool-cases, Option-cases, All,
  length, select, take, All-append, All-take, All-select,
}
use cyntr.Common.{zero, ◌<>◌}
use cyntr.Common.Int.{ℤ, pos, negsuc}
use mathlib.Core.Option.{some-injective}
use cyntr.Audit.{Entry, Row, Codec}
use cyntr.Audit.Writer.{Writer, new_writer, write, write_hashed, insert, stamped}
use cyntr.Audit.Chain.{RoundTrips}
use cyntr.Audit.Query.{
  QueryFilter, QueryResult, entries, effective_limit, selects, decode_all, query_entries,
}
use cyntr.Audit.Logger.{
  Message, Payload, answered, filter, entry, handle_write, handle_query, write_payload,
  query_payload, authorized_query_source,
}
use cyntr.Common.{suc}
use cyntr.Common.{subst}
use cyntr.Common.{any}

-- The tenant column is the tenant of the entry that is stored.
abbrev RowTenant : Codec → Row → Type 0
RowTenant c r = (e : Entry) → c.unmarshal r.content ≡ some e → e.tenant ≡ r.tenant

insert-RowTenant :
    (c : Codec) (ok : Bool) (r : Row) (w : Writer)
    → RowTenant c r
    → All (RowTenant c) w.rows
    → All (RowTenant c) (insert ok r w).0.rows
insert-RowTenant c ok r w k h =
    elim (Bool-cases (ok && not w.closed && not (any (λ (x : Row). x.id == r.id) w.rows))) [
      | inl t ↦ rw t (All-append (RowTenant c) w.rows (r ∷ []) h (k, tt))
      | inr f ↦ rw f h
    ]

write_hashed-RowTenant :
    (c : Codec)
    → RoundTrips c
    → (ok : Bool) (e : Entry) (o : Option String) (w : Writer) → All (RowTenant c) w.rows
    → All (RowTenant c) (write_hashed c ok e o w).0.rows
write_hashed-RowTenant c trips ok e none w h = h
write_hashed-RowTenant c trips ok e (some text) w h =
    let signed = record e { signature = c.mac w.secret (c.sha256 (w.prev_hash <> text)) } in
    elim (Option-cases (c.marshal signed)) [
      | inl n ↦ rw n h
      | inr (stored, n) ↦
          let d = trips signed stored n in
          rw n (
            insert-RowTenant c ok _ w
              (λ x u.
                ap (λ (y : Entry). y.tenant) (some-injective _ _ (sym u ∙ d.decodes))
                ∙ d.same_tenant)
              h)
    ]

-- The log after the messages of audit.write, each with whether the database takes a row.
unfoldable pub logged : Codec → List (Bool × Message) → Writer → Writer
logged c [] w = w
logged c ((ok, msg) ∷ rest) w = logged c rest (handle_write c ok msg w)

handle_write-RowTenant :
    (c : Codec)
    → RoundTrips c
    → (ok : Bool) (p : Payload) (w : Writer) → All (RowTenant c) w.rows
    → All (RowTenant c) (write_payload c ok p w).rows
unfolding write
handle_write-RowTenant c trips ok (entry e) w h =
    write_hashed-RowTenant c trips ok (stamped w e) (c.marshal (stamped w e)) w h
handle_write-RowTenant c trips ok (filter f) w h = h
handle_write-RowTenant c trips ok Payload.unknown w h = h

logged-RowTenant :
    (c : Codec)
    → RoundTrips c
    → (msgs : List (Bool × Message)) (w : Writer) → All (RowTenant c) w.rows
    → All (RowTenant c) (logged c msgs w).rows
unfolding logged handle_write
logged-RowTenant c trips [] w h = h
logged-RowTenant c trips ((ok, msg) ∷ rest) w h =
    logged-RowTenant c trips rest _ (handle_write-RowTenant c trips ok msg.payload w h)

abbrev OfTenant : String → Entry → Type 0
OfTenant t e = e.tenant ≡ t

decode_all-OfTenant :
    (c : Codec) (t : String) (rows : List Row) (es : List Entry)
    → All (RowTenant c) rows
    → All (λ (r : Row). r.tenant ≡ t) rows
    → decode_all c rows ≡ some es
    → All (OfTenant t) es × (length es ≡ length rows)
unfolding decode_all
decode_all-OfTenant c t [] es h k e =
    subst (λ l. All (OfTenant t) l × (length l ≡ 0)) (some-injective _ _ e) (tt, refl)
decode_all-OfTenant c t (r ∷ rows) es h k e = elim (Option-cases (c.unmarshal r.content)) [
  | inl n ↦ absurd (cc (rw (n, decode_all) at e))
  | inr (x, d) ↦ elim (Option-cases (decode_all c rows)) [
    | inl n ↦ absurd (cc (rw (d, decode_all, n) at e))
    | inr (xs, m) ↦
        let rest = decode_all-OfTenant c t rows xs h.1 k.1 m in
        subst (λ l. All (OfTenant t) l × (length l ≡ suc (length rows)))
          (some-injective _ _ (rw (d, decode_all, m) at e))
          ((h.0 x d ∙ k.0, rest.0), omega (arith, rest.1))
  ]
]

length-take : {A : Type 0} (n : ℕ) (xs : List A) → length (take n xs) ≤ n
length-take zero xs = omega arith
length-take (suc n) [] = omega arith
length-take (suc n) (x ∷ xs) = omega (arith, length-take n xs)

selected-tenant :
    (c : Codec) (f : QueryFilter) (rows : List Row)
    → All (λ (r : Row). r.tenant ≡ f.tenant) (select (selects c f) rows)
unfolding select selects
selected-tenant c f [] = tt
selected-tenant c f (r ∷ rows) = elim (Bool-cases (selects c f r)) [
  | inl t ↦ rw t ((str_iff r.tenant f.tenant).0 (ground (arith, t)), selected-tenant c f rows)
  | inr n ↦ rw n (selected-tenant c f rows)
]

effective_limit-le : (l : ℤ) → effective_limit l ≤ 10_000
unfolding effective_limit
effective_limit-le (pos n) = ground arith
effective_limit-le (negsuc n) = ground arith

-- What an answer of the log discloses, and to whom.
pub record Disclosed (msg : Message) (es : List Entry) : Type 0 where
  pub asked : QueryFilter
  pub payload : msg.payload ≡ filter asked
  pub source : (msg.source ≡ "api") ⊎ (msg.source ≡ "cli")
  pub tenant_given : asked.tenant ≢ ""
  pub within_tenant : All (OfTenant asked.tenant) es
  pub few : length es ≤ 10_000

listed-injective : (xs ys : List Entry) → entries xs ≡ entries ys → xs ≡ ys
listed-injective xs ys e = cc e

query_entries-OfTenant :
    (c : Codec) (ok : Bool) (f : QueryFilter) (rows : List Row) (es : List Entry)
    → All (RowTenant c) rows
    → query_entries c ok f rows ≡ entries es
    → (f.tenant ≢ "") × All (OfTenant f.tenant) es × (length es ≤ 10_000)
unfolding query_entries
query_entries-OfTenant c ok f rows es h e = elim (Bool-cases (f.tenant == "")) [
  | inl y ↦ absurd (cc (rw y at e))
  | inr n ↦ elim (Bool-cases ok) [
    | inr d ↦ absurd (cc (rw (n, d) at e))
    | inl d ↦
        let kept = take (effective_limit f.limit) (select (selects c f) rows) in
        elim (Option-cases (decode_all c kept)) [
          | inl m ↦ absurd (cc (rw (n, d, m) at e))
          | inr (xs, m) ↦
              let given : entries xs ≡ entries es = rw (n, d, m) at e in
              let r =
                decode_all-OfTenant c f.tenant kept xs
                  (All-take (RowTenant c) (effective_limit f.limit) _
                    (All-select (RowTenant c) (selects c f) rows h))
                  (All-take _ (effective_limit f.limit) _ (selected-tenant c f rows)) m in
              (
                λ z. cc (n, (str_iff f.tenant "").1 z),
                subst (All (OfTenant f.tenant)) (listed-injective xs es given) r.0,
                subst (λ (l : List Entry). length l ≤ 10_000) (listed-injective xs es given)
                    (omega (
                      arith,
                      r.1,
                      length-take (effective_limit f.limit) (select (selects c f) rows),
                      effective_limit-le f.limit,
                    )),
              )
        ]
  ]
]

answered-injective : (q r : QueryResult) → answered q ≡ answered r → q ≡ r
answered-injective q r e = cc e

source-cases :
    (s : String)
    → (authorized_query_source s ≡ false)
      ⊎ ((authorized_query_source s ≡ true) × ((s ≡ "api") ⊎ (s ≡ "cli")))
unfolding authorized_query_source
source-cases s = elim (Bool-cases (s == "api")) [
  | inl y ↦ inr (rw y, inl ((str_iff s "api").0 y))
  | inr n ↦ elim (Bool-cases (s == "cli")) [
    | inl y ↦ inr (ground (arith, n, y), inr ((str_iff s "cli").0 y))
    | inr m ↦ inl (ground (arith, n, m))
  ]
]

answer-Disclosed :
    (c : Codec) (ok : Bool) (source : String) (p : Payload) (w : Writer) (es : List Entry)
    → All (RowTenant c) w.rows
    → (source ≡ "api") ⊎ (source ≡ "cli")
    → query_payload c ok p w ≡ answered (entries es)
    → Disclosed (record { source = source; payload = p }) es
answer-Disclosed c ok source (entry x) w es h s e = absurd (cc e)
answer-Disclosed c ok source Payload.unknown w es h s e = absurd (cc e)
answer-Disclosed c ok source (filter f) w es h s e =
    let q = query_entries-OfTenant c ok f w.rows es h (answered-injective _ _ e) in
    record {
      asked = f;
      payload = refl;
      source = s;
      tenant_given = q.0;
      within_tenant = q.1;
      few = q.2;
    }

-- From an empty database, after any messages of audit.write: an answer with entries goes only to the
-- sources api and cli, the query names a tenant that is not empty, every entry in the answer is of
-- that tenant, and there are at most 10,000 of them. The hypothesis on JSON: decoding an entry that was
-- marshalled gives one of the same tenant that marshals alike under every signature.
pub handle_query-Disclosed :
    (c : Codec) (name secret : String) (w : Writer) (msgs : List (Bool × Message)) (ok : Bool)
    (msg : Message) (es : List Entry)
    → RoundTrips c
    → new_writer true [] name secret ≡ some w
    → handle_query c ok msg (logged c msgs w) ≡ answered (entries es)
    → Disclosed msg es
unfolding new_writer handle_query
handle_query-Disclosed c name secret w msgs ok msg es trips n e =
    let start = subst (λ (x : Writer). All (RowTenant c) x.rows) (some-injective _ _ n) tt in
    let h = logged-RowTenant c trips msgs w start in
    elim (source-cases msg.source) [
      | inl k ↦ absurd (cc (rw k at e))
      | inr (k, s) ↦
          answer-Disclosed c ok msg.source msg.payload (logged c msgs w) es h s (rw k at e)
    ]
