-- ===== src/Auth/Session.antt =====
-- auth/session.go: signed tokens and API keys.
pub mod Parts
pub mod Tokens
use Prim.Native.Char.{Char, code}
use Prim.Native.String.{count}
use cyntr.Common.{
  ℕ, ◌+◌, ◌/◌, ◌%◌, String, ◌<>◌, List, [], ◌∷◌, ◌++◌, Option, none, some, Bool, true, false, ◌==◌,
  string_eq, nat_eq, nat_beq, if◌then◌else◌, ltb,
}
use cyntr.Common.Int.{ℤ, pos, negsuc}
use cyntr.Common.Dict.{Dict, get, put}
use cyntr.Auth.{Principal, PrincipalType, user, agent, scope_read}

pub record Claims : Type 0 where
  pub sub : String
  pub tenant : String
  pub kind : PrincipalType
  pub roles : List String
  pub exp : ℤ
  pub iat : ℤ

-- JSON of claims, base64.URLEncoding with its padding, HMAC-SHA256 under a secret and the hex digits
-- of SHA-256.
pub record Crypto : Type 0 where
  pub marshal : Claims → Option String
  pub unmarshal : String → Option Claims
  pub encode : String → String
  pub decode : String → Option String
  pub mac : String → String → String
  pub sha256 : String → String

pub record SessionManager : Type 0 where
  pub secret : String
  pub api_keys : Dict String Principal

unfoldable pub new_session_manager : String → SessionManager
new_session_manager secret = record { secret = secret; api_keys = [] }

abbrev pub cons_unless_pad : Char → String → String
cons_unless_pad c String.[] = if nat_beq (code c) b'=' then String.[] else String.◌∷◌ c String.[]
cons_unless_pad c (String.◌∷◌ d s) = String.◌∷◌ c (String.◌∷◌ d s)

-- strings.TrimRight(s, "=")
unfoldable pub trim_pad : String → String
trim_pad String.[] = String.[]
trim_pad (String.◌∷◌ c s) = cons_unless_pad c (trim_pad s)

unfoldable pub base64url : Crypto → String → String
unfolding trim_pad
base64url c text = trim_pad (c.encode text)

unfoldable pub base64url_decode : Crypto → String → Option String
base64url_decode c s =
    c.decode (if count s % 4 == 2 then s <> "==" else if count s % 4 == 3 then s <> "=" else s)

-- strings.Split(s, "."): the part under way, and the parts behind it.
abbrev pub split_at : Char → String × List String → String × List String
split_at c (part, parts) =
    if nat_beq (code c) b'.' then (String.[], part ∷ parts) else (String.◌∷◌ c part, parts)

unfoldable pub split_dots : String → String × List String
split_dots String.[] = (String.[], [])
split_dots (String.◌∷◌ c s) = split_at c (split_dots s)

-- The seconds of a time in nanoseconds.
abbrev pub unix : ℕ → ℕ
unix t = t / 1_000_000_000

unfoldable pub jwt_header : Crypto → String
unfolding base64url
jwt_header c = base64url c "{\"alg\":\"HS256\",\"typ\":\"JWT\"}"

abbrev pub signed : Crypto → String → String → String
signed c secret input = input <> ("." <> trim_pad (c.encode (c.mac secret input)))

-- The clock and the lifetime are not negative.
abbrev pub claims_of : ℕ → ℕ → Principal → Claims
claims_of now ttl p = record {
  sub = p.id;
  tenant = p.tenant;
  kind = p.kind;
  roles = p.roles;
  exp = pos (unix (now + ttl));
  iat = pos (unix now);
}

-- None is the error of json.Marshal.
unfoldable pub create_token : Crypto → ℕ → Principal → ℕ → SessionManager → Option String
unfolding jwt_header base64url
create_token c now p ttl sm = elim (c.marshal (claims_of now ttl p)) [
  | none ↦ none
  | some json ↦ some (signed c sm.secret (jwt_header c <> ("." <> base64url c json)))
]

pub data AuthError : Type 0 where
  bad_format bad_signature decode_claims parse_claims expired bad_key unsupported_scheme : AuthError

pub data Authenticated : Type 0 where
  ok : Principal → Authenticated
  error : AuthError → Authenticated

-- What a token's claims give: no permissions, no scopes.
abbrev pub principal_of : Claims → Principal
principal_of claims = record {
  kind = claims.kind;
  id = claims.sub;
  tenant = claims.tenant;
  roles = claims.roles;
  permissions = [];
  scopes = [];
}

-- now > exp
abbrev pub is_past : ℤ → ℕ → Bool
is_past (pos exp) now = ltb exp now
is_past (negsuc exp) now = true

abbrev pub unless_expired : ℕ → Option Claims → Authenticated
unless_expired now none = error parse_claims
unless_expired now (some claims) =
    if is_past claims.exp (unix now) then error expired else ok (principal_of claims)

abbrev pub parse_payload : Crypto → ℕ → Option String → Authenticated
parse_payload c now none = error decode_claims
parse_payload c now (some json) = unless_expired now (c.unmarshal json)

abbrev pub check_parts : Crypto → ℕ → String → String × List String → Authenticated
check_parts c now secret (header, payload ∷ signature ∷ []) =
    if signature == trim_pad (c.encode (c.mac secret (header <> ("." <> payload))))
    then parse_payload c now (base64url_decode c payload)
    else error bad_signature
check_parts c now secret _ = error bad_format

unfoldable pub validate_token : Crypto → ℕ → String → SessionManager → Authenticated
unfolding base64url_decode split_dots trim_pad
validate_token c now token sm = check_parts c now sm.secret (split_dots token)

abbrev pub default_scopes : List String → List String
default_scopes [] = scope_read ∷ []
default_scopes (s ∷ ss) = s ∷ ss

-- `drawn` is the hex of the random bytes, or none where rand.Read fails. The name is not used.
unfoldable pub create_api_key :
    Crypto → Option String → Principal → SessionManager → SessionManager × Option String
create_api_key c none p sm = (sm, none)
create_api_key c (some hex) p sm =
    let key = "cyntr_" <> hex in
    (
      record sm {
        api_keys = put (c.sha256 key) (record p { scopes = default_scopes p.scopes }) sm.api_keys;
      },
      some key,
    )

unfoldable pub validate_api_key : Crypto → String → SessionManager → Authenticated
validate_api_key c key sm = elim (get (c.sha256 key) sm.api_keys) [
  | none ↦ error bad_key
  | some p ↦ ok p
]
