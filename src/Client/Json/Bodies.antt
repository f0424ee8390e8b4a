-- ===== src/Client/Json/Bodies.antt =====
-- The JSON of the bodies that pkg/client sends, by the tags of models.go, and how cmd/test-server reads
-- those about users.
use baton_tenable_vm.Prelude.{
  Bool, List, String, [], map, refl, string_eq, subst, ℕ_eq, ℤ_eq, ◌∷◌, ◌≡◌,
}
use baton_tenable_vm.Client.Types.{NewUser}
use baton_tenable_vm.Client.Action.{ok}
use baton_tenable_vm.Client.Http.{
  Body, user_role_body, new_user_body, user_enabled_body, permission_update_body,
}
use baton_tenable_vm.Client.Json.Permissions.{permission_update_body_json}
use baton_tenable_vm.Json.{
  json_text, json_bool, json_object, no_fields, field, Fields, Json, find_field, omit_list,
  omit_list-same, omit_number, omit_number-other, omit_number-same, omit_text, omit_text-other,
  omit_text-same, read_list, read_number, read_text,
}
use baton_tenable_vm.Client.Api.{UuidLibrary}
use baton_tenable_vm.Connector.Users.{role_uuids}
use baton_tenable_vm.Server.Json.Bodies.{
  read_create_body, read_enabled_body, read_role_uuid, read_roles_body,
}

abbrev pub permissions_field : NewUser → Fields
permissions_field user = omit_number "permissions" user.permissions no_fields

abbrev pub name_fields : NewUser → Fields
name_fields user = omit_text "name" user.name (permissions_field user)

abbrev pub email_fields : NewUser → Fields
email_fields user = omit_text "email" user.email (name_fields user)

abbrev pub password_fields : NewUser → Fields
password_fields user = omit_text "password" user.password (email_fields user)

-- `WithJSONBody(body)`
abbrev pub body_json : (lib : UuidLibrary) → Body lib.Uuid → Json
body_json lib (user_role_body role_uuids) =
    json_object (omit_list json_text "role_uuids" role_uuids no_fields)
body_json lib (new_user_body user) =
    json_object (omit_text "username" user.username (password_fields user))
body_json lib (user_enabled_body enabled) =
    json_object (field "enabled" (json_bool enabled) no_fields)
body_json lib (permission_update_body body) = permission_update_body_json lib body

pub texts_meant : (ts : List String) → map (λ (t : String). t) ts ≡ ts
texts_meant [] = refl
texts_meant (t ∷ ts) = rw (texts_meant ts) refl

module _ (user : NewUser) where
  new_user_sent :
      let f = omit_text "username" user.username (password_fields user) in
      (read_text (find_field "username" f) ≡ ok user.username)
      × (read_text (find_field "password" f) ≡ ok user.password)
      × (read_text (find_field "email" f) ≡ ok user.email)
      × (read_text (find_field "name" f) ≡ ok user.name)
      × (read_number (find_field "permissions" f) ≡ ok user.permissions)
  unfolding find_field
  new_user_sent = (
    omit_text-same "username" (password_fields user) user.username (
        rw
          (
            omit_text-other "password" (email_fields user) "username" user.password refl,
            omit_text-other "email" (name_fields user) "username" user.email refl,
            omit_text-other "name" (permissions_field user) "username" user.name refl,
            omit_number-other "permissions" no_fields "username" user.permissions refl,
          )
          refl),
    rw (omit_text-other "username" (password_fields user) "password" user.username refl) (
        omit_text-same "password" (email_fields user) user.password (
          rw
            (
              omit_text-other "email" (name_fields user) "password" user.email refl,
              omit_text-other "name" (permissions_field user) "password" user.name refl,
              omit_number-other "permissions" no_fields "password" user.permissions refl,
            )
            refl)),
    rw
        (
          omit_text-other "username" (password_fields user) "email" user.username refl,
          omit_text-other "password" (email_fields user) "email" user.password refl,
        )
        (omit_text-same "email" (name_fields user) user.email (
          rw
            (
              omit_text-other "name" (permissions_field user) "email" user.name refl,
              omit_number-other "permissions" no_fields "email" user.permissions refl,
            )
            refl)),
    rw
        (
          omit_text-other "username" (password_fields user) "name" user.username refl,
          omit_text-other "password" (email_fields user) "name" user.password refl,
          omit_text-other "email" (name_fields user) "name" user.email refl,
        )
        (omit_text-same "name" (permissions_field user) user.name
          (omit_number-other "permissions" no_fields "name" user.permissions refl)),
    rw
        (
          omit_text-other "username" (password_fields user) "permissions" user.username refl,
          omit_text-other "password" (email_fields user) "permissions" user.password refl,
          omit_text-other "email" (name_fields user) "permissions" user.email refl,
          omit_text-other "name" (permissions_field user) "permissions" user.name refl,
        )
        (omit_number-same "permissions" no_fields user.permissions refl),
  )

pub roles_sent :
    (lib : UuidLibrary) (role_uuids : List String)
    → read_roles_body (body_json lib (user_role_body role_uuids)) ≡ ok role_uuids
unfolding find_field
roles_sent lib role_uuids =
    subst
      (λ ts.
        read_list read_role_uuid
          (find_field "role_uuids" (omit_list json_text "role_uuids" role_uuids no_fields))
        ≡ ok ts)
      (texts_meant role_uuids)
      (omit_list-same json_text "role_uuids" no_fields read_role_uuid (λ t. t) (λ t. refl)
        role_uuids refl)

-- The server reads each body about users as the client means it: the new user, the state that the
-- account shall have, and the roles.
pub body_json-read :
    (lib : UuidLibrary) (user : NewUser) (enabled : Bool) (role_uuids : List String)
    → (read_create_body (body_json lib (new_user_body user))
        ≡ ok (record {
          username = user.username;
          password = user.password;
          email = user.email;
          name = user.name;
          permissions = user.permissions;
        }))
      × (read_enabled_body (body_json lib (user_enabled_body enabled))
          ≡ ok (record { enabled = enabled }))
      × (read_roles_body (body_json lib (user_role_body role_uuids)) ≡ ok role_uuids)
unfolding find_field
body_json-read lib user enabled role_uuids =
    let (a, b, c, d, e) = new_user_sent user in
    (rw (a, b, c, d, e) refl, refl, roles_sent lib role_uuids)
