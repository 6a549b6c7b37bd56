-- ===== src/Auth/Rbac.antt =====
-- auth/rbac.go: roles by name and the check of a permission.
use cyntr.Common.{String, List, [], ◌∷◌, Option, none, some, Bool, false, ◌==◌, string_eq, any}
use cyntr.Common.Dict.{Dict, get, put}
use cyntr.Auth.{Permission, Principal, Role}

abbrev pub Rbac : Type 0
Rbac = Dict String Role

-- The four built-in roles.
unfoldable pub new_rbac : Rbac
new_rbac =
    (
      "admin",
      record {
        name = "admin";
        permissions =
            "manage_tenants" ∷ "manage_policies" ∷ "manage_agents" ∷ "view_all_audit" ∷ [];
      },
    )
    ∷ (
      "team_lead",
      record {
        name = "team_lead";
        permissions =
            "manage_team_agents" ∷ "manage_team_skills" ∷ "approve_actions" ∷ "view_team_audit"
            ∷ [];
      },
    )
    ∷ (
      "user",
      record { name = "user"; permissions = "interact_with_agents" ∷ "view_own_audit" ∷ [] },
    )
    ∷ ("auditor", record { name = "auditor"; permissions = "view_all_audit" ∷ "export_audit" ∷ [] })
    ∷ []

unfoldable pub add_role : Role → Rbac → Rbac
add_role role r = put role.name role r

abbrev pub permissions_of : Option Role → List Permission
permissions_of none = []
permissions_of (some role) = role.permissions

unfoldable pub role_permissions : String → Rbac → List Permission
role_permissions name r = permissions_of (get name r)

-- The inner loop of HasPermission; a role that is not there is skipped.
abbrev pub grants : Permission → Option Role → Bool
grants perm none = false
grants perm (some role) = any (λ (p : Permission). p == perm) role.permissions

abbrev pub role_grants : Rbac → Permission → String → Bool
role_grants r perm name = grants perm (get name r)

unfoldable pub has_permission : Principal → Permission → Rbac → Bool
has_permission principal perm r = any (role_grants r perm) principal.roles
