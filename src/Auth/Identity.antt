-- ===== src/Auth/Identity.antt =====
-- auth/identity.go: from a credential to a principal with its permissions.
pub mod Resolved
use cyntr.Common.{ℕ, String, List, [], ◌∷◌, ◌++◌, Bool, ◌==◌, string_eq, if◌then◌else◌, any}
use cyntr.Auth.{Permission, Principal}
use cyntr.Auth.Rbac.{Rbac, role_permissions}
use cyntr.Auth.Session.{
  Crypto, SessionManager, Authenticated, ok, error, unsupported_scheme, validate_token,
  validate_api_key,
}
use cyntr.Common.{not}

-- The inner loop: a permission that was seen is left out. The collected list stands for `seen` too.
unfoldable pub add_unseen : List Permission → List Permission → List Permission
add_unseen perms [] = perms
add_unseen perms (p ∷ rest) =
    add_unseen (if any (λ (q : Permission). q == p) perms then perms else perms ++ (p ∷ [])) rest

unfoldable pub collect : Rbac → List Permission → List String → List Permission
collect r perms [] = perms
collect r perms (name ∷ names) = collect r (add_unseen perms (role_permissions name r)) names

unfoldable pub resolve_permissions : Rbac → Principal → List Permission
resolve_permissions r p = collect r [] p.roles

abbrev pub with_permissions : Rbac → Authenticated → Authenticated
with_permissions r (ok p) = ok (record p { permissions = resolve_permissions r p })
with_permissions r (error e) = error e

unfoldable pub resolve : Crypto → ℕ → String → String → SessionManager → Rbac → Authenticated
resolve c now scheme credential sm r =
    if scheme == "bearer"
    then with_permissions r (validate_token c now credential sm)
    else if scheme == "apikey"
    then with_permissions r (validate_api_key c credential sm)
    else error unsupported_scheme

-- auth/module.go: a payload of type `any`, with the one type that the handler asserts.
pub data Payload : Type 0 where
  resolve_request : String → String → Payload
  unknown : Payload

pub record Message : Type 0 where
  pub source : String
  pub payload : Payload

pub data Reply : Type 0 where
  not_trusted bad_payload : Reply
  answered : Authenticated → Reply

unfoldable pub trusted_resolve_source : String → Bool
trusted_resolve_source s = s == "proxy"

abbrev pub resolve_payload : Crypto → ℕ → Payload → SessionManager → Rbac → Reply
resolve_payload c now (resolve_request scheme credential) sm r =
    answered (resolve c now scheme credential sm r)
resolve_payload c now unknown sm r = bad_payload

unfoldable pub handle_resolve : Crypto → ℕ → Message → SessionManager → Rbac → Reply
unfolding trusted_resolve_source
handle_resolve c now msg sm r =
    if not (trusted_resolve_source msg.source)
    then not_trusted
    else resolve_payload c now msg.payload sm r
