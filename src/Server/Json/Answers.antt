-- ===== src/Server/Json/Answers.antt =====
-- What `writeJSON` and `writeError` of cmd/test-server/errors.go encode of each answer of handlers.go.
use baton_tenable_vm.Prelude.{
  List, Option, String, [], none, pos, some, string_eq, ℕ, ℕ_eq, ℤ_eq, ◌∷◌,
}
use baton_tenable_vm.Server.Handlers.{
  error, users, user, groups, roles, user_roles, permissions, permission, health, empty, Payload,
}
use baton_tenable_vm.Server.Json.{user_json, users_json, groups_json, roles_json}
use baton_tenable_vm.Server.Json.Permissions.{permission_json, permissions_json}
use baton_tenable_vm.Json.{
  json_text, json_number, json_null, json_object, no_fields, field, Json, array_of,
}
use baton_tenable_vm.Connector.Users.{role_uuids}
use baton_tenable_vm.Server.Seeds.Constants.{container_uuid}

abbrev pub error_json : ℕ → String → String → Json
error_json status name message = json_object (
    field "statusCode" (json_number (pos status))
      (field "error" (json_text name) (field "message" (json_text message) no_fields)))

-- The roles of an answer. A slice without elements is nil: the user has no entry, or the body had no
-- roles. An array without elements in the body, which pkg/client never sends, gives an array in its place.
abbrev pub role_uuids_json : List String → Json
role_uuids_json [] = json_null
role_uuids_json (t ∷ ts) = array_of json_text (t ∷ ts)

-- The keys of a map are in order.
abbrev pub user_roles_json : String → String → List String → Json
user_roles_json container_uuid user_uuid role_uuids = json_object (
    field "container_uuid" (json_text container_uuid) (
      field "role_uuids" (role_uuids_json role_uuids)
        (field "user_uuid" (json_text user_uuid) no_fields)))

-- `none` where only a header is written
abbrev pub payload_json : Payload → Option Json
payload_json (error status name message) = some (error_json status name message)
payload_json (users us) = some (users_json us)
payload_json (user u) = some (user_json u)
payload_json (groups gs) = some (groups_json gs)
payload_json (roles rs) = some (roles_json rs)
payload_json (user_roles container_uuid user_uuid role_uuids) =
    some (user_roles_json container_uuid user_uuid role_uuids)
payload_json (permissions ps) = some (permissions_json ps)
payload_json (permission p) = some (permission_json p)
payload_json (health status) = some (json_object (field "status" (json_text status) no_fields))
payload_json empty = none
