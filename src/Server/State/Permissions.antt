-- ===== src/Server/State/Permissions.antt =====
-- The methods of `State` on permissions (cmd/test-server/state.go).
use baton_tenable_vm.Prelude.{List, Option, String, map, none, put, some, string_eq, ℕ, ℕ_eq, ℤ_eq}
use mathlib.Core.Option
use baton_tenable_vm.Server.Types.{Permission, PermissionObject, PermissionSubject}
use baton_tenable_vm.Server.State.{State}

unfoldable pub list_permissions : State → List Permission
list_permissions s = map s.permission_at s.perm_list

unfoldable pub get_permission : State → String → Option Permission
get_permission s uuid = Option.map s.permission_at (s.permissions uuid)

-- The object that `UpdatePermission` leaves at the address.
abbrev pub rewritten :
    String → List String → List PermissionObject → List PermissionSubject → Permission → Permission
rewritten name actions objects subjects p = record p {
  name = name;
  actions = actions;
  objects = objects;
  subjects = subjects;
}

unfoldable pub rewrite_permission :
    State → ℕ → String → List String → List PermissionObject → List PermissionSubject → State
rewrite_permission s p name actions objects subjects = record s {
  permission_at =
      put s.permission_at p (rewritten name actions objects subjects (s.permission_at p));
}

unfoldable pub update_permission :
    String
    → String
    → List String
    → List PermissionObject
    → List PermissionSubject
    → State
    → Option Permission × State
update_permission uuid name actions objects subjects s = elim (s.permissions uuid) [
  | none ↦ (none, s)
  | some p ↦ (
    some (rewritten name actions objects subjects (s.permission_at p)),
    rewrite_permission s p name actions objects subjects,
  )
]
