-- ===== src/Server/Json.antt =====
-- The JSON of the objects that cmd/test-server answers with, by the struct tags of state.go, and of the
-- answers of handlers.go.
pub mod Permissions
pub mod Bodies
pub mod Answers
use baton_tenable_vm.Prelude.{List, string_eq, ℕ_eq, ℤ_eq}
use baton_tenable_vm.Server.Types.{Group, RbacRole, Role, User}
use baton_tenable_vm.Json.{
  json_text, json_number, json_bool, json_object, no_fields, field, Json, array_of, omit_bool,
  omit_list, omit_number,
}

abbrev pub rbac_role_json : RbacRole → Json
rbac_role_json role =
    json_object (field "uuid" (json_text role.uuid) (field "name" (json_text role.name) no_fields))

abbrev pub user_json : User → Json
user_json user = json_object (
    field "uuid" (json_text user.uuid) (
      field "id" (json_number user.id) (
        field "username" (json_text user.username) (
          field "email" (json_text user.email) (
            field "name" (json_text user.name) (
              field "permissions" (json_number user.permissions) (
                field "enabled" (json_bool user.enabled) (
                  omit_number "lastlogin" user.last_login (
                    field "container_uuid" (json_text user.container_uuid) (
                      omit_list json_text "group_uuids" user.group_uuids
                        (omit_list rbac_role_json "rbac_roles" user.rbac_roles no_fields)))))))))))

abbrev pub group_json : Group → Json
group_json group = json_object (
    field "uuid" (json_text group.uuid) (
      field "id" (json_number group.id) (
        field "name" (json_text group.name) (
          field "user_count" (json_number group.user_count) (
            field "container_uuid" (json_text group.container_uuid) (
              omit_bool "immutable" group.immutable
                (omit_bool "membership_fixed" group.membership_fixed no_fields)))))))

abbrev pub role_json : Role → Json
role_json role = json_object (
    field "uuid" (json_text role.uuid) (
      field "name" (json_text role.name) (
        field "description" (json_text role.description) (
          field "role_permission_strings" (array_of json_text role.role_permission_strings) (
            field "type" (json_text role.type)
              (field "status" (json_text role.status) no_fields))))))

-- `map[string][]User{"users": users}` and the like
abbrev pub users_json : List User → Json
users_json users = json_object (field "users" (array_of user_json users) no_fields)

abbrev pub groups_json : List Group → Json
groups_json groups = json_object (field "groups" (array_of group_json groups) no_fields)

-- The roles are an array.
abbrev pub roles_json : List Role → Json
roles_json roles = array_of role_json roles
