-- ===== src/Auth/Examples.antt =====
-- Concrete runs of auth: a token for one user, the built-in roles, and two bindings; stand-ins for
-- base64, JSON and the MAC that meet the hypotheses.
use Prim.Native.String.{count}
use cyntr.Common.{
  String, ◌≡◌, refl, sym, List, [], ◌∷◌, Option, none, some, Bool, true, false, ◌==◌, string_eq,
  str_iff, if◌then◌else◌, Bool-cases, inl, inr, arith, In,
}
use cyntr.Common.Dict.{get, put, remove}
use Prim.Native.Char.{Char, code}
use text.Mathlib.TextEquality.{Char-path}
use text.Mathlib.TextLemmas.{append-nil, length-cons}
use cyntr.Common.{◌&&◌, ◌%◌, nat_eq, nat_beq, nat_beq_iff, ap, ◌∙◌, ◌<>◌, any}
use cyntr.Common.Int.{ℤ, pos, negsuc, beq_ℤ}
use cyntr.Common.{zero, suc}
use cyntr.Auth.{Principal, PrincipalType, user}
use cyntr.Auth.Rbac.{new_rbac, role_permissions}
use cyntr.Auth.Session.{
  signed, expired, validate_api_key, Crypto, Claims, SessionManager, error, create_token,
  validate_token, base64url, jwt_header,
}
use cyntr.Auth.Session.Parts.{NoDot, NoPad}
use cyntr.Auth.Session.Tokens.{
  LawfulCrypto, SignedToken, validate_token-Signed, create_token-validate_token,
}
use cyntr.Auth.Identity.{
  Message, resolve_request, handle_resolve, resolve, resolve_permissions, add_unseen, collect,
}
use cyntr.Auth.Identity.Resolved.{Resolved, handle_resolve-Resolved}
use cyntr.Auth.Binding.{identity_eq, new_identity_binding, bind, unbind, get_bindings}
use cyntr.Auth.Binding.{resolve as resolve_identity}
use cyntr.Auth.Binding.Covered.{Op, do_bind, do_unbind, run, resolve-get_bindings}
use cyntr.Auth.Session.{ok}

abbrev jane : Principal
jane = record {
  kind = user;
  id = "jane";
  tenant = "acme";
  roles = [];
  permissions = [];
  scopes = [];
}

abbrev claims_for : String → Claims
claims_for sub = record {
  sub = sub;
  tenant = "acme";
  kind = user;
  roles = [];
  exp = pos 61;
  iat = pos 1;
}

-- JSON for the claims of one tenant and one minute: the subject alone.
abbrev plain : PrincipalType → List String → Bool
plain (pos zero) [] = true
plain _ _ = false

abbrev to_json : Claims → Option String
to_json k =
    if plain k.kind k.roles && k.tenant == "acme" && beq_ℤ k.exp (pos 61) && beq_ℤ k.iat (pos 1)
    then some k.sub
    else none

to_json-round :
    (sub tenant : String) (kind : PrincipalType) (roles : List String) (exp iat : ℤ) (json : String)
    → to_json
        (record { sub = sub; tenant = tenant; kind = kind; roles = roles; exp = exp; iat = iat })
      ≡ some json
    → some (claims_for json)
      ≡ some
          (record { sub = sub; tenant = tenant; kind = kind; roles = roles; exp = exp; iat = iat })
to_json-round sub tenant (pos zero) [] (pos exp) (pos iat) json h =
    ground (arith, str_iff tenant "acme")
to_json-round sub tenant (pos zero) [] (pos exp) (negsuc iat) json h = absurd (ground arith)
to_json-round sub tenant (pos zero) [] (negsuc exp) iat json h = absurd (ground arith)
to_json-round sub tenant (pos zero) (r ∷ rs) exp iat json h = absurd (cc h)
to_json-round sub tenant (pos (suc n)) roles exp iat json h = absurd (cc h)
to_json-round sub tenant (negsuc n) roles exp iat json h = absurd (cc h)

-- Four characters for one, without dots and padding.
abbrev escape_char : Char → String → String
escape_char c s =
    if nat_beq (code c) b'.'
    then String.◌∷◌ "d" (String.◌∷◌ "a" (String.◌∷◌ "a" (String.◌∷◌ "a" s)))
    else if nat_beq (code c) b'='
    then String.◌∷◌ "e" (String.◌∷◌ "a" (String.◌∷◌ "a" (String.◌∷◌ "a" s)))
    else String.◌∷◌ "o" (String.◌∷◌ c (String.◌∷◌ "a" (String.◌∷◌ "a" s)))

escape : String → String
escape String.[] = String.[]
escape (String.◌∷◌ c s) = escape_char c (escape s)

abbrev char_of : Char → Char → Char
char_of mark c =
    if nat_beq (code mark) b'd' then "." else if nat_beq (code mark) b'e' then "=" else c

plain_text : String → String
plain_text (String.◌∷◌ mark (String.◌∷◌ c (String.◌∷◌ y (String.◌∷◌ z s)))) =
    String.◌∷◌ (char_of mark c) (plain_text s)
plain_text _ = String.[]

plain_text-escape : (s : String) → plain_text (escape s) ≡ s
unfolding plain_text escape
plain_text-escape String.[] = refl
plain_text-escape (String.◌∷◌ c s) = elim (Bool-cases (nat_beq (code c) b'.')) [
  | inl y ↦ rw y (cc (plain_text-escape s, Char-path "." c (sym ((nat_beq_iff (code c) b'.').0 y))))
  | inr n ↦ elim (Bool-cases (nat_beq (code c) b'=')) [
    | inl y ↦
        rw (n, y)
          (cc (plain_text-escape s, Char-path "=" c (sym ((nat_beq_iff (code c) b'=').0 y))))
    | inr m ↦ rw (n, m) (cc (plain_text-escape s))
  ]
]

escape-NoDot : (s : String) → NoDot (escape s)
unfolding escape
escape-NoDot String.[] = tt
escape-NoDot (String.◌∷◌ c s) = elim (Bool-cases (nat_beq (code c) b'.')) [
  | inl y ↦ rw y (refl, (refl, (refl, (refl, escape-NoDot s))))
  | inr n ↦ elim (Bool-cases (nat_beq (code c) b'=')) [
    | inl y ↦ rw (n, y) (refl, (refl, (refl, (refl, escape-NoDot s))))
    | inr m ↦ rw (n, m) (refl, (n, (refl, (refl, escape-NoDot s))))
  ]
]

escape-NoPad : (s : String) → NoPad (escape s)
unfolding escape
escape-NoPad String.[] = tt
escape-NoPad (String.◌∷◌ c s) = elim (Bool-cases (nat_beq (code c) b'.')) [
  | inl y ↦ rw y (refl, (refl, (refl, (refl, escape-NoPad s))))
  | inr n ↦ elim (Bool-cases (nat_beq (code c) b'=')) [
    | inl y ↦ rw (n, y) (refl, (refl, (refl, (refl, escape-NoPad s))))
    | inr m ↦ rw (n, m) (refl, (m, (refl, (refl, escape-NoPad s))))
  ]
]

count_four :
    (a b c d : Char) (s : String)
    → count s % 4 ≡ 0
    → count (String.◌∷◌ a (String.◌∷◌ b (String.◌∷◌ c (String.◌∷◌ d s)))) % 4 ≡ 0
count_four a b c d s h = omega (
  arith,
  h,
  length-cons a (String.◌∷◌ b (String.◌∷◌ c (String.◌∷◌ d s))),
  length-cons b (String.◌∷◌ c (String.◌∷◌ d s)),
  length-cons c (String.◌∷◌ d s),
  length-cons d s,
)

count-escape : (s : String) → count (escape s) % 4 ≡ 0
unfolding escape
count-escape String.[] = refl
count-escape (String.◌∷◌ c s) = elim (Bool-cases (nat_beq (code c) b'.')) [
  | inl y ↦ rw y (count_four _ _ _ _ _ (count-escape s))
  | inr n ↦ elim (Bool-cases (nat_beq (code c) b'=')) [
    | inl y ↦ rw (n, y) (count_four _ _ _ _ _ (count-escape s))
    | inr m ↦ rw (n, m) (count_four _ _ _ _ _ (count-escape s))
  ]
]

abbrev crypto : Crypto
crypto = record {
  marshal = to_json;
  unmarshal = λ s. some (claims_for s);
  encode = escape;
  decode = λ s. some (plain_text s);
  mac = λ secret s. "sig";
  sha256 = λ s. s;
}

crypto-lawful : LawfulCrypto crypto
crypto-lawful = record {
  encodes = λ text. record {
    body = escape text;
    pad = "";
    whole = sym (append-nil (escape text));
    no_dot = escape-NoDot text;
    no_pad = escape-NoPad text;
    padded = inl (refl, count-escape text);
    decodes =
        ap (λ (t : String). some (plain_text t)) (append-nil (escape text))
        ∙ ap some (plain_text-escape text);
  };
  round_trips = λ k json h. to_json-round k.sub k.tenant k.kind k.roles k.exp k.iat json h;
}

abbrev sessions : SessionManager
sessions = record {
  secret = "k";
  api_keys = ("cyntr_1", record jane { roles = "user" ∷ "auditor" ∷ [] }) ∷ [];
}

abbrev jane_token : String
jane_token = signed crypto "k" (jwt_header crypto <> ("." <> base64url crypto "jane"))

create_token-validate_token_example :
    validate_token crypto 62_000_000_000 jane_token sessions ≡ error expired
unfolding create_token
create_token-validate_token_example =
    create_token-validate_token crypto crypto-lawful 1_000_000_000 62_000_000_000 60_000_000_000
      jane sessions jane_token refl

jane_token-ok : validate_token crypto 5_000_000_000 jane_token sessions ≡ ok jane
unfolding create_token
jane_token-ok =
    create_token-validate_token crypto crypto-lawful 1_000_000_000 5_000_000_000 60_000_000_000 jane
      sessions jane_token refl

validate_token-Signed_example : SignedToken crypto 5_000_000_000 "k" jane_token jane
validate_token-Signed_example =
    validate_token-Signed crypto 5_000_000_000 jane_token sessions jane jane_token-ok

abbrev asked : Message
asked = record { source = "proxy"; payload = resolve_request "apikey" "cyntr_1" }

abbrev resolved_jane : Principal
resolved_jane = record jane {
  roles = "user" ∷ "auditor" ∷ [];
  permissions = "interact_with_agents" ∷ "view_own_audit" ∷ "view_all_audit" ∷ "export_audit" ∷ [];
}

handle_resolve-Resolved_example : Resolved crypto 5 asked sessions new_rbac resolved_jane
unfolding handle_resolve resolve validate_api_key get resolve_permissions collect add_unseen
    role_permissions new_rbac any
handle_resolve-Resolved_example =
    handle_resolve-Resolved crypto 5 asked sessions new_rbac resolved_jane refl

abbrev ops : List Op
ops = do_bind "slack" "U1" "jane" ∷ do_bind "irc" "jj" "jane" ∷ do_unbind "irc" "jj" ∷ []

resolve-get_bindings_example :
    In
      (record { channel = "slack"; user_id = "U1" })
      (get_bindings "jane" (run ops new_identity_binding))
unfolding resolve_identity run bind unbind new_identity_binding get put remove
resolve-get_bindings_example = resolve-get_bindings ops "slack" "U1" "jane" refl
