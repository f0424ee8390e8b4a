-- ===== src/Server/State/Roles.antt =====
-- The methods of `State` on roles and role assignments (cmd/test-server/state.go).
use baton_tenable_vm.Prelude.{
  Bool, List, Option, String, [], false, map, none, put, some, string_eq, true, ℕ, ℕ_eq, ℤ_eq, ◌∷◌,
}
use baton_tenable_vm.Server.Types.{RbacRole, Role}
use baton_tenable_vm.Server.State.{State}
use baton_tenable_vm.Server.State.Users.{write_user}

unfoldable pub list_roles : State → List Role
list_roles s = map s.role_at s.role_list

unfoldable pub get_user_roles : State → String → Option (List String)
get_user_roles s user_uuid = elim (s.users user_uuid) [
  | none ↦ none
  | some _ ↦ some (s.user_roles user_uuid)
]

-- Both loops of `SetUserRoles` over the requested roles: `none` if one of them is unknown.
unfoldable pub find_roles : State → List String → Option (List RbacRole)
find_roles s [] = some []
find_roles s (role_uuid ∷ role_uuids) = elim (s.roles role_uuid) [
  | none ↦ none
  | some r ↦ elim (find_roles s role_uuids) [
    | none ↦ none
    | some found ↦ some (record { uuid = (s.role_at r).uuid; name = (s.role_at r).name } ∷ found)
  ]
]

-- The part of `SetUserRoles` after its early returns.
unfoldable pub assign_roles : State → String → List String → ℕ → List RbacRole → State
assign_roles s user_uuid role_uuids u found =
    record (write_user s u (record (s.user_at u) { rbac_roles = found })) {
      user_roles = put s.user_roles user_uuid role_uuids;
    }

unfoldable pub set_user_roles : String → List String → State → Bool × State
set_user_roles user_uuid role_uuids s = elim (s.users user_uuid) [
  | none ↦ (false, s)
  | some u ↦ elim (find_roles s role_uuids) [
    | none ↦ (false, s)
    | some found ↦ (true, assign_roles s user_uuid role_uuids u found)
  ]
]
