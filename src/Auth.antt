-- ===== src/Auth.antt =====
-- auth/types.go: principals, roles and their permissions.
pub mod Rbac
pub mod Examples
pub mod Session
pub mod Identity
pub mod Binding
use cyntr.Common.Int.{ℤ, pos}
use cyntr.Common.{String, List, [], ◌∷◌}

-- A number of which two have names.
abbrev pub PrincipalType : Type 0
PrincipalType = ℤ

abbrev pub user : PrincipalType
user = pos 0

abbrev pub agent : PrincipalType
agent = pos 1

abbrev pub Permission : Type 0
Permission = String

pub record Principal : Type 0 where
  pub kind : PrincipalType
  pub id : String
  pub tenant : String
  pub roles : List String
  pub permissions : List Permission
  pub scopes : List String

pub record Role : Type 0 where
  pub name : String
  pub permissions : List Permission

abbrev pub scope_read : String
scope_read = "read"
