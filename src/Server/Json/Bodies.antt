-- ===== src/Server/Json/Bodies.antt =====
-- How the handlers of cmd/test-server/handlers.go read the bodies of requests about users.
use baton_tenable_vm.Prelude.{List, String, some, string_eq, ℕ_eq, ℤ_eq}
use baton_tenable_vm.Server.Handlers.Users.{CreateBody, EnabledBody}
use baton_tenable_vm.Client.Action.{ok, Result}
use baton_tenable_vm.Json.{
  ◌>>=◌, Fields, Json, find_field, read_bool, read_list, read_number, read_struct, read_text,
}

abbrev create_fields : Fields → Result CreateBody
create_fields f = do
  username ← read_text (find_field "username" f)
  password ← read_text (find_field "password" f)
  email ← read_text (find_field "email" f)
  name ← read_text (find_field "name" f)
  permissions ← read_number (find_field "permissions" f)
  ok (record {
    username = username;
    password = password;
    email = email;
    name = name;
    permissions = permissions;
  })

abbrev pub read_create_body : Json → Result CreateBody
read_create_body = read_struct create_fields

abbrev enabled_fields : Fields → Result EnabledBody
enabled_fields f = do
  enabled ← read_bool (find_field "enabled" f)
  ok (record { enabled = enabled })

abbrev pub read_enabled_body : Json → Result EnabledBody
read_enabled_body = read_struct enabled_fields

abbrev pub read_role_uuid : Json → Result String
read_role_uuid j = read_text (some j)

abbrev pub read_roles_body : Json → Result (List String)
read_roles_body = read_struct λ f. read_list read_role_uuid (find_field "role_uuids" f)
