-- ===== src/Client/Json/Transport.antt =====
-- The answers that pkg/client/client.go reads, over what carries their JSON.
use baton_tenable_vm.Prelude.{List, string_eq, ℕ_eq, ℤ_eq}
use baton_tenable_vm.Client.Types.{UserRole}
use baton_tenable_vm.Client.Action.{ok, Action, Result}
use baton_tenable_vm.Client.Json.{
  read_user, read_users_response, read_role_list, read_groups_response, read_string,
}
use baton_tenable_vm.Client.Json.Permissions.{read_permission, read_permissions_list}
use baton_tenable_vm.Json.{Json, ◌>>=◌, find_field, read_list, read_struct, read_text, Fields}
use baton_tenable_vm.Client.Api.{UuidLibrary}
use baton_tenable_vm.Client.Http.{Method, RequestOption, Transport}
use baton_tenable_vm.Server.Seeds.Constants.{container_uuid}

module _ (lib : UuidLibrary) (nil_uuid : lib.Uuid) where
  abbrev user_role_fields : Fields → Result UserRole
  user_role_fields f = do
    container_uuid ← read_text (find_field "container_uuid" f)
    user_uuid ← read_text (find_field "user_uuid" f)
    roles_uuid ← read_list (read_string lib nil_uuid) (find_field "role_uuids" f)
    ok (record { container_uuid = container_uuid; user_uuid = user_uuid; roles_uuid = roles_uuid })

  abbrev pub read_user_role : Json → Result UserRole
  read_user_role = read_struct user_role_fields

  -- The SDK's HTTP client over what sends a request and receives the JSON of the answer
  abbrev pub json_transport :
      {Url W : Type 0}
      → (Method → Url → List (RequestOption lib.Uuid) → Action W Json)
      → Transport lib.Uuid Url W
  json_transport send = record {
    Json = Json;
    send = send;
    users_response = read_users_response lib nil_uuid;
    user = read_user lib nil_uuid;
    role_list = read_role_list lib nil_uuid;
    user_role = read_user_role;
    groups_response = read_groups_response;
    permissions_list = read_permissions_list lib nil_uuid;
    permission = read_permission lib nil_uuid;
  }
