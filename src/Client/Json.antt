-- ===== src/Client/Json.antt =====
-- Reading the answers of the API into the structs of pkg/client/models.go, by their tags. `nil_uuid` is
-- the zero `uuid.UUID`, and the zero of a struct is that of its fields.
pub mod Laws
pub mod Permissions
pub mod Bodies
pub mod Assignment
pub mod Status
pub mod Transport
use baton_tenable_vm.Prelude.{List, Option, String, none, some, string_eq, ℕ_eq, ℤ_eq}
use baton_tenable_vm.Client.Types.{Group, Role, RoleDetails, User}
use baton_tenable_vm.Client.Action.{ok, failed, Result}
use baton_tenable_vm.Json.{
  ◌>>=◌, json_null, json_text, json_number, json_bool, json_array, json_object, Fields, Json,
  find_field, read_bool, read_list, read_number, read_struct, read_text,
}
use baton_tenable_vm.Client.Api.{UuidLibrary}
use baton_tenable_vm.Server.Seeds.Constants.{container_uuid}

module _ (lib : UuidLibrary) (nil_uuid : lib.Uuid) where
  -- `UnmarshalText` of a `uuid.UUID`
  abbrev pub read_uuid : Option Json → Result lib.Uuid
  read_uuid none = ok nil_uuid
  read_uuid (some json_null) = ok nil_uuid
  read_uuid (some (json_text t)) = lib.parse t
  read_uuid (some (json_number n)) = failed "cannot unmarshal number into uuid.UUID"
  read_uuid (some (json_bool b)) = failed "cannot unmarshal bool into uuid.UUID"
  read_uuid (some (json_array items)) = failed "cannot unmarshal array into uuid.UUID"
  read_uuid (some (json_object members)) = failed "cannot unmarshal object into uuid.UUID"

  abbrev pub read_string : Json → Result String
  read_string j = read_text (some j)

  abbrev role_fields : Fields → Result (Role lib.Uuid)
  role_fields f = do
    uuid ← read_uuid (find_field "uuid" f)
    name ← read_text (find_field "name" f)
    ok (record { uuid = uuid; name = name })

  abbrev pub read_role : Json → Result (Role lib.Uuid)
  read_role = read_struct role_fields

  abbrev user_fields : Fields → Result (User lib.Uuid)
  user_fields f = do
    id ← read_number (find_field "id" f)
    uuid ← read_text (find_field "uuid" f)
    username ← read_text (find_field "username" f)
    email ← read_text (find_field "email" f)
    name ← read_text (find_field "name" f)
    last_login ← read_number (find_field "lastlogin" f)
    enabled ← read_bool (find_field "enabled" f)
    permissions ← read_number (find_field "permissions" f)
    container_uuid ← read_text (find_field "container_uuid" f)
    rbac_roles ← read_list read_role (find_field "rbac_roles" f)
    roles ← read_list read_string (find_field "roles" f)
    group_uuids ← read_list read_string (find_field "group_uuids" f)
    ok (record {
      id = id;
      uuid = uuid;
      username = username;
      email = email;
      name = name;
      last_login = last_login;
      enabled = enabled;
      permissions = permissions;
      container_uuid = container_uuid;
      rbac_roles = rbac_roles;
      roles = roles;
      group_uuids = group_uuids;
    })

  abbrev pub read_user : Json → Result (User lib.Uuid)
  read_user = read_struct user_fields

  -- `UsersResponse`
  abbrev pub read_users_response : Json → Result (List (User lib.Uuid))
  read_users_response = read_struct λ f. read_list read_user (find_field "users" f)

  abbrev role_details_fields : Fields → Result (RoleDetails lib.Uuid)
  role_details_fields f = do
    uuid ← read_uuid (find_field "uuid" f)
    name ← read_text (find_field "name" f)
    permissions ← read_list read_string (find_field "role_permission_strings" f)
    description ← read_text (find_field "description" f)
    type ← read_text (find_field "type" f)
    status ← read_text (find_field "status" f)
    ok (record {
      uuid = uuid;
      name = name;
      permissions = permissions;
      description = description;
      type = type;
      status = status;
    })

  abbrev pub read_role_details : Json → Result (RoleDetails lib.Uuid)
  read_role_details = read_struct role_details_fields

  -- `[]*RoleDetails`, where no element is null
  abbrev pub read_role_list : Json → Result (List (RoleDetails lib.Uuid))
  read_role_list j = read_list read_role_details (some j)

abbrev group_fields : Fields → Result Group
group_fields f = do
  id ← read_number (find_field "id" f)
  uuid ← read_text (find_field "uuid" f)
  name ← read_text (find_field "name" f)
  permissions ← read_number (find_field "permissions" f)
  users_count ← read_number (find_field "users_count" f)
  container_uuid ← read_text (find_field "container_uuid" f)
  ok (record {
    id = id;
    uuid = uuid;
    name = name;
    permissions = permissions;
    users_count = users_count;
    container_uuid = container_uuid;
  })

abbrev pub read_group : Json → Result Group
read_group = read_struct group_fields

-- `GroupsResponse`
abbrev pub read_groups_response : Json → Result (List Group)
read_groups_response = read_struct λ f. read_list read_group (find_field "groups" f)
