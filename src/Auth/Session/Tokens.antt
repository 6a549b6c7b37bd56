-- ===== src/Auth/Session/Tokens.antt =====
-- What validation demands of a token, and that it accepts those that were created.
use text.Mathlib.TextLemmas.{append_assoc}
use mathlib.Core.Option.{some-injective}
use cyntr.Common.{
  false, ℕ, ◌+◌, ◌/◌, String, ◌<>◌, ◌≡◌, refl, sym, ap, ◌∙◌, inl, inr, subst, List, [], ◌∷◌, Option,
  none, some, ◌==◌, string_eq, str_iff, ltb, if◌then◌else◌, Bool-cases, Option-cases,
}
use cyntr.Common.Int.{ℤ, pos, negsuc, ◌≤ℤ◌}
use cyntr.Auth.{Principal}
use cyntr.Auth.Session.{
  Crypto, Claims, SessionManager, ok, error, expired, unix, base64url, base64url_decode, jwt_header,
  signed, trim_pad, split_dots, claims_of, create_token, principal_of, unless_expired, is_past,
  parse_payload, check_parts, validate_token,
}
use cyntr.Auth.Session.Parts.{
  join_dots, join_dots-split_dots, NoDot, split_dots-join, split_dots-NoDot, Encoded,
  base64url-body, base64url_decode-body,
}
use cyntr.Common.{arith}

-- A token that the holder of the secret signed, with claims that are not over.
pub record SignedToken (c : Crypto) (now : ℕ) (secret token : String) (p : Principal) : Type 0 where
  pub header : String
  pub payload : String
  pub json : String
  pub claims : Claims
  pub parts : token ≡ signed c secret (header <> ("." <> payload))
  pub decoded : base64url_decode c payload ≡ some json
  pub parsed : c.unmarshal json ≡ some claims
  pub in_time : pos (unix now) ≤ℤ claims.exp
  pub claimed : p ≡ principal_of claims

record Parsed (c : Crypto) (now : ℕ) (payload : String) (p : Principal) : Type 0 where
  json : String
  claims : Claims
  decoded : base64url_decode c payload ≡ some json
  parsed : c.unmarshal json ≡ some claims
  in_time : pos (unix now) ≤ℤ claims.exp
  claimed : p ≡ principal_of claims

ok-injective : (p q : Principal) → ok p ≡ ok q → p ≡ q
ok-injective p q e = cc e

is_past-le : (exp : ℤ) (now : ℕ) → is_past exp now ≡ false → pos now ≤ℤ exp
is_past-le (pos exp) now n = ground (arith, n)
is_past-le (negsuc exp) now n = absurd (ground arith)

unless_expired-ok :
    (now : ℕ) (o : Option Claims) (p : Principal)
    → unless_expired now o ≡ ok p
    → (k : Claims) × (o ≡ some k) × (pos (unix now) ≤ℤ k.exp) × (p ≡ principal_of k)
unless_expired-ok now none p e = absurd (cc e)
unless_expired-ok now (some k) p e = elim (Bool-cases (is_past k.exp (unix now))) [
  | inl y ↦ absurd (cc (rw y at e))
  | inr n ↦ (k, refl, is_past-le k.exp (unix now) n, sym (ok-injective _ _ (rw n at e)))
]

parse_payload-Parsed :
    (c : Crypto) (now : ℕ) (payload : String) (o : Option String) (p : Principal)
    → base64url_decode c payload ≡ o
    → parse_payload c now o ≡ ok p
    → Parsed c now payload p
parse_payload-Parsed c now payload none p d e = absurd (cc e)
parse_payload-Parsed c now payload (some json) p d e =
    let u = unless_expired-ok now (c.unmarshal json) p e in
    record { json = json; claims = u.0; decoded = d; parsed = u.1; in_time = u.2; claimed = u.3 }

check_parts-Signed :
    (c : Crypto) (now : ℕ) (secret token : String) (parts : String × List String) (p : Principal)
    → join_dots parts.0 parts.1 ≡ token
    → check_parts c now secret parts ≡ ok p
    → SignedToken c now secret token p
unfolding join_dots
check_parts-Signed c now secret token (header, []) p j e = absurd (cc e)
check_parts-Signed c now secret token (header, payload ∷ []) p j e = absurd (cc e)
check_parts-Signed c now secret token (header, payload ∷ signature ∷ more ∷ rest) p j e =
    absurd (cc e)
check_parts-Signed c now secret token (header, payload ∷ signature ∷ []) p j e =
    elim (Bool-cases
      (signature == trim_pad (c.encode (c.mac secret (header <> ("." <> payload)))))) [
        | inr n ↦ absurd (cc (rw n at e))
        | inl y ↦
            let k =
              parse_payload-Parsed c now payload (base64url_decode c payload) p refl (rw y at e) in
            record {
              header = header;
              payload = payload;
              json = k.json;
              claims = k.claims;
              parts =
                  sym j
                  ∙ ap (λ (s : String). header <> ("." <> (payload <> ("." <> s))))
                      ((str_iff _ _).0 y)
                  ∙ ap (λ (s : String). header <> s) (sym (append_assoc "." payload _))
                  ∙ sym (append_assoc header ("." <> payload) _);
              decoded = k.decoded;
              parsed = k.parsed;
              in_time = k.in_time;
              claimed = k.claimed;
            }
      ]

-- ValidateToken accepts a token only if it is a header and a payload followed by their MAC under the
-- manager's secret, the payload decodes to claims whose expiry has not passed, and the principal is the
-- one of those claims, without permissions or scopes.
pub validate_token-Signed :
    (c : Crypto) (now : ℕ) (token : String) (sm : SessionManager) (p : Principal)
    → validate_token c now token sm ≡ ok p
    → SignedToken c now sm.secret token p
unfolding validate_token
validate_token-Signed c now token sm p e =
    check_parts-Signed c now sm.secret token (split_dots token) p (join_dots-split_dots token) e

-- What the libraries promise: base64 encodes every text, and JSON gives claims back.
pub record LawfulCrypto (c : Crypto) : Type 0 where
  pub encodes : (text : String) → Encoded c text
  pub round_trips :
      (k : Claims) (json : String) → c.marshal k ≡ some json → c.unmarshal json ≡ some k

module _ (c : Crypto) (lawful : LawfulCrypto c) where
  base64url-NoDot : (text : String) → NoDot (base64url c text)
  base64url-NoDot text =
      let e = lawful.encodes text in subst NoDot (sym (base64url-body c text e)) e.no_dot

  split_dots-signed :
      (a b : String) (s : String)
      → NoDot a
      → NoDot b
      → NoDot s
      → split_dots ((a <> ("." <> b)) <> ("." <> s)) ≡ (a, b ∷ s ∷ [])
  split_dots-signed a b s na nb ns =
      ap split_dots (
        append_assoc a ("." <> b) ("." <> s)
        ∙ ap (λ (x : String). a <> x) (append_assoc "." b ("." <> s)))
      ∙ split_dots-join a (b <> ("." <> s)) na
      ∙ ap (λ (q : String × List String). (a, q.0 ∷ q.1))
          (split_dots-join b s nb
            ∙ ap (λ (q : String × List String). (b, q.0 ∷ q.1)) (split_dots-NoDot s ns))

  decode-base64url : (text : String) → base64url_decode c (base64url c text) ≡ some text
  decode-base64url text =
      let e = lawful.encodes text in
      ap (base64url_decode c) (base64url-body c text e) ∙ base64url_decode-body c text e

  validate-created :
      (now later ttl : ℕ) (p : Principal) (sm : SessionManager) (json : String)
      → c.marshal (claims_of now ttl p) ≡ some json
      → validate_token c later (signed c sm.secret (jwt_header c <> ("." <> base64url c json))) sm
        ≡ unless_expired later (some (claims_of now ttl p))
  unfolding validate_token jwt_header
  validate-created now later ttl p sm json m =
      let input = jwt_header c <> ("." <> base64url c json) in
      let mac = base64url c (c.mac sm.secret input) in
      ap (check_parts c later sm.secret) (
        split_dots-signed (jwt_header c) (base64url c json) mac (base64url-NoDot _)
          (base64url-NoDot json) (base64url-NoDot _))
      ∙ rw ((str_iff mac mac).1 refl) refl
      ∙ ap (parse_payload c later) (decode-base64url json)
      ∙ ap (unless_expired later) (lawful.round_trips (claims_of now ttl p) json m)

  -- A token that CreateToken made is accepted by ValidateToken under the same secret until the second
  -- of its expiry is over, and then refused as expired; the principal has the type, ID, tenant and roles
  -- that it was created for, and no permissions or scopes. The hypotheses: base64 encodes every text
  -- without dots and with its padding at the end, and decoding and parsing undo encoding and
  -- marshalling.
  pub create_token-validate_token :
      (now later ttl : ℕ) (p : Principal) (sm : SessionManager) (token : String)
      → create_token c now p ttl sm ≡ some token
      → validate_token c later token sm ≡ (
          if ltb ((now + ttl) / 1_000_000_000) (later / 1_000_000_000)
          then error expired
          else ok (record p { permissions = []; scopes = [] }))
  unfolding create_token
  create_token-validate_token now later ttl p sm token e =
      elim (Option-cases (c.marshal (claims_of now ttl p))) [
        | inl n ↦ absurd (cc (rw (n, create_token) at e))
        | inr (json, m) ↦
            subst
              (λ (t : String).
                validate_token c later t sm ≡ unless_expired later (some (claims_of now ttl p)))
              (some-injective _ _ (rw (m, create_token) at e))
              (validate-created now later ttl p sm json m)
      ]
