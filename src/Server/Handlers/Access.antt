-- ===== src/Server/Handlers/Access.antt =====
-- The handlers of roles and permissions in cmd/test-server/handlers.go.
use baton_tenable_vm.Prelude.{
  Bool, List, Option, String, false, none, some, string_eq, true, ℕ_eq, ℤ_eq,
}
use baton_tenable_vm.Server.Handlers.{
  roles, user_roles, permissions, permission, Response, not_found, with_body, write_json,
}
use baton_tenable_vm.Server.Types.{Permission, PermissionObject, PermissionSubject}
use baton_tenable_vm.Server.Seeds.Constants.{container_uuid}
use baton_tenable_vm.Server.State.{State}
use baton_tenable_vm.Server.State.Permissions.{get_permission, list_permissions, update_permission}
use baton_tenable_vm.Server.State.Roles.{get_user_roles, list_roles, set_user_roles}

pub record PermissionBody : Type 0 where
  pub name : String
  pub actions : List String
  pub objects : List PermissionObject
  pub subjects : List PermissionSubject

unfoldable pub list_roles_handler : State → Response × State
list_roles_handler s = (write_json 200 (roles (list_roles s)), s)

unfoldable pub get_user_roles_handler : String → State → Response × State
get_user_roles_handler user_uuid s = elim (get_user_roles s user_uuid) [
  | none ↦ (not_found "user not found", s)
  | some held ↦ (write_json 200 (user_roles container_uuid user_uuid held), s)
]

abbrev roles_response : String → List String → Bool × State → Response × State
roles_response user_uuid role_uuids (false, s) = (not_found "user or role not found", s)
roles_response user_uuid role_uuids (true, s) =
    (write_json 200 (user_roles container_uuid user_uuid role_uuids), s)

-- The body is the field `role_uuids`.
unfoldable pub update_user_roles_handler : String → Option (List String) → State → Response × State
update_user_roles_handler user_uuid body =
    with_body body
      λ role_uuids. λ s. roles_response user_uuid role_uuids (set_user_roles user_uuid role_uuids s)

unfoldable pub list_permissions_handler : State → Response × State
list_permissions_handler s = (write_json 200 (permissions (list_permissions s)), s)

unfoldable pub get_permission_handler : String → State → Response × State
get_permission_handler uuid s = elim (get_permission s uuid) [
  | none ↦ (not_found "permission not found", s)
  | some p ↦ (write_json 200 (permission p), s)
]

abbrev permission_response : Option Permission × State → Response × State
permission_response (none, s) = (not_found "permission not found", s)
permission_response (some p, s) = (write_json 200 (permission p), s)

unfoldable pub update_permission_handler : String → Option PermissionBody → State → Response × State
update_permission_handler uuid body =
    with_body body
      λ b. λ s. permission_response (update_permission uuid b.name b.actions b.objects b.subjects s)
