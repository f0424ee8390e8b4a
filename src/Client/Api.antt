-- ===== src/Client/Api.antt =====
-- The methods of `TenableVMClient` (pkg/client/client.go) that the connector calls, as an interface
-- over the world `W` on which the API stands, and the functions it uses of github.com/google/uuid.
use baton_tenable_vm.Prelude.{Eq, List, String, string_eq, ℕ_eq, ℤ_eq, ◌≡◌}
use baton_tenable_vm.Client.Action.{Action, Result, ok}
use baton_tenable_vm.Client.Types.{Group, NewUser, Permission, RoleDetails, User, UserRole}

-- `uuid.UUID` with its `==`, `uuid.Parse` and `UUID.String`
pub record UuidLibrary : Type 1 where
  pub Uuid : Type 0
  pub uuid_eq : Eq Uuid
  pub parse : String → Result Uuid
  pub to_string : Uuid → String
  -- `Parse` reads what `String` writes.
  pub parse-to_string : (u : Uuid) → parse (to_string u) ≡ ok u

pub record Api (Uuid W : Type 0) : Type 0 where
  pub get_users : Action W (List (User Uuid))
  pub get_user_details : String → Action W (User Uuid)
  pub enable_user : String → Action W (User Uuid)
  pub disable_user : String → Action W (User Uuid)
  pub create_user : NewUser → Action W (User Uuid)
  pub delete_user : String → Action W Unit
  pub get_roles : Action W (List (RoleDetails Uuid))
  pub get_user_roles : String → Action W UserRole
  pub update_user_roles : String → String → Action W UserRole
  pub get_groups : Action W (List Group)
  pub get_group_members : String → Action W (List (User Uuid))
  pub create_user_group_membership : String → String → Action W Unit
  pub delete_user_group_membership : String → String → Action W Unit
  pub list_permissions : Action W (List (Permission Uuid))
  pub get_permission_details : String → Action W (Permission Uuid)
  pub update_permission : Permission Uuid → Action W Unit
