-- ===== src/Client/Tests/Wire.antt =====
-- The JSON between cmd/test-server and pkg/client at small inputs.
use mathlib.Core.Option
use text.Mathlib.TextLemmas.{cons-ne-nil}
use baton_tenable_vm.Prelude.{
  Bool, [], arith, false, none, pos, put, refl, some, string_eq, true, ℕ_eq, ℤ_eq, ◌∷◌, ◌≡◌, ◌≢◌,
}
use baton_tenable_vm.Server.Types as Server
use baton_tenable_vm.Server.Types.{zero_user, zero_group, zero_role}
use baton_tenable_vm.Client.Types.{NewUser, Role, RoleDetails, Permission, PermissionUpdateBody}
use baton_tenable_vm.Client.Action.{ok}
use baton_tenable_vm.Client.Json.{
  read_groups_response, read_role_list, read_users_response, read_user,
}
use baton_tenable_vm.Client.Json.Laws.{
  client_group, client_user, listed_role, read_groups_response-groups_json,
  read_role_list-roles_json, read_users_response-users_json,
}
use baton_tenable_vm.Client.Json.Permissions.{permission_update_body_json, read_permission}
use baton_tenable_vm.Client.Json.Permissions.Laws.{
  Entry, kept_permission, read_permission-permission_json,
  read_permission_body-permission_update_body_json,
}
use baton_tenable_vm.Client.Http.{new_user_body, user_enabled_body, user_role_body}
use baton_tenable_vm.Client.Tests.Uuids.{bool_text, two_uuids}
use baton_tenable_vm.Server.Json.{groups_json, roles_json, users_json}
use baton_tenable_vm.Server.Json.Permissions.{permission_json, read_permission_body}
use baton_tenable_vm.Client.Json.Bodies.{body_json, body_json-read}
use baton_tenable_vm.Server.Json.Bodies.{read_create_body, read_enabled_body, read_roles_body}
use baton_tenable_vm.Client.Json.Assignment.{decoded, update_user_roles-get_user_roles}
use baton_tenable_vm.Client.Json.Transport.{read_user_role}
use baton_tenable_vm.Server.Handlers.Access.{get_user_roles_handler, update_user_roles_handler}
use baton_tenable_vm.Server.Json.Answers.{payload_json}
use baton_tenable_vm.Server.Seeds.Constants.{container_uuid}
use baton_tenable_vm.Server.State.{State, empty_state}
use baton_tenable_vm.Server.State.Roles.{find_roles}
use baton_tenable_vm.Client.Json.Status.{set_user_enabled-get_user}
use baton_tenable_vm.Connector.Decimal.{itoa}
use baton_tenable_vm.Server.Handlers.Users.{get_user, set_user_enabled_handler}

abbrev basic_role : Role Bool
basic_role = record { uuid = true; name = "Basic" }

abbrev one_user : Server.User
one_user = record zero_user {
  id = pos 7;
  name = "Ann";
  last_login = pos 1;
  rbac_roles = record { uuid = bool_text true; name = "Basic" } ∷ [];
}

read_users_response_example :
    read_users_response two_uuids false (users_json (one_user ∷ zero_user ∷ []))
    ≡ ok (
        client_user two_uuids false one_user (basic_role ∷ [])
        ∷ client_user two_uuids false zero_user []
        ∷ [])
read_users_response_example =
    read_users_response-users_json two_uuids false
      ((one_user, basic_role ∷ []) ∷ (zero_user, []) ∷ []) (refl, (refl, tt))

abbrev basic_details : RoleDetails Bool
basic_details = record {
  uuid = true;
  name = "Basic";
  permissions = "CanView" ∷ [];
  description = "";
  type = "STANDARD";
  status = "ACTIVE";
}

read_role_list_example :
    read_role_list two_uuids false (roles_json (listed_role two_uuids false basic_details ∷ []))
    ≡ ok (basic_details ∷ [])
read_role_list_example = read_role_list-roles_json two_uuids false (basic_details ∷ [])

read_groups_response_example :
    read_groups_response (groups_json (record zero_group { user_count = pos 3 } ∷ []))
    ≡ ok (client_group zero_group ∷ [])
read_groups_response_example =
    read_groups_response-groups_json (record zero_group { user_count = pos 3 } ∷ [])

bool_text-shown : (b : Bool) → bool_text b ≢ ""
bool_text-shown true = cons-ne-nil _ _
bool_text-shown false = cons-ne-nil _ _

abbrev all_users : Entry Bool
all_users = record { type = "AllUsers"; uuid = none; name = "" }

abbrev rome : Entry Bool
rome = record { type = "Tag"; uuid = some true; name = "Location:Rome" }

abbrev scan : Permission Bool
scan = record {
  uuid = true;
  name = "scan";
  actions = "CanScan" ∷ [];
  objects = [];
  subjects = [];
  created_at = pos 5;
  created_by = "ann";
  updated_at = pos 0;
  updated_by = "";
}

read_permission_example :
    read_permission two_uuids false (
      permission_json
        (kept_permission two_uuids false bool_text-shown scan (rome ∷ []) (all_users ∷ [])))
    ≡ ok (record scan {
      objects = record { type = "Tag"; uuid = true; name = "Location:Rome" } ∷ [];
      subjects = record { type = "AllUsers"; uuid = false; name = "" } ∷ [];
    })
read_permission_example =
    read_permission-permission_json two_uuids false bool_text-shown scan (rome ∷ [])
      (all_users ∷ [])

abbrev update : PermissionUpdateBody Bool
update = record {
  name = "scan";
  actions = [];
  objects = [];
  subjects = record { type = "AllUsers"; uuid = false; name = "" } ∷ [];
}

-- The subject that the server kept without a uuid comes back with the text of the nil uuid.
read_permission_body_example :
    read_permission_body (permission_update_body_json two_uuids update)
    ≡ ok (record {
      name = "scan";
      actions = [];
      objects = [];
      subjects = record { type = "AllUsers"; uuid = bool_text false; name = "" } ∷ [];
    })
read_permission_body_example =
    read_permission_body-permission_update_body_json two_uuids false bool_text-shown update

abbrev new_ann : NewUser
new_ann = record {
  username = "ann";
  password = "secret";
  email = "";
  name = "Ann";
  permissions = pos 0;
}

body_json-read_example :
    (read_create_body (body_json two_uuids (new_user_body new_ann))
      ≡ ok (record {
        username = "ann";
        password = "secret";
        email = "";
        name = "Ann";
        permissions = pos 0;
      }))
    × (read_enabled_body (body_json two_uuids (user_enabled_body false))
        ≡ ok (record { enabled = false }))
    × (read_roles_body (body_json two_uuids (user_role_body ("basic" ∷ []))) ≡ ok ("basic" ∷ []))
body_json-read_example = body_json-read two_uuids new_ann false ("basic" ∷ [])

abbrev ann_and_basic : State
ann_and_basic = record (empty_state container_uuid) {
  user_at = λ _. record zero_user { uuid = "ann" };
  role_at = λ _. record zero_role { uuid = "basic"; name = "Basic" };
  users = put (λ _. none) "ann" (some 3);
  roles = put (λ _. none) "basic" (some 4);
}

update_user_roles-get_user_roles_example :
    let sent = decoded (read_roles_body (body_json two_uuids (user_role_body ("basic" ∷ [])))) in
    let (answer, t) = update_user_roles_handler "ann" sent ann_and_basic in
    (answer.status ≡ 200)
    × (Option.map (read_user_role two_uuids false) (payload_json answer.payload)
        ≡ some (
            ok (record {
              container_uuid = container_uuid;
              user_uuid = "ann";
              roles_uuid = "basic" ∷ [];
            })))
    × (get_user_roles_handler "ann" t ≡ (answer, t))
unfolding find_roles put empty_state
update_user_roles-get_user_roles_example =
    update_user_roles-get_user_roles two_uuids false ann_and_basic "ann" ("basic" ∷ []) refl refl

abbrev ann_at_seven : State
ann_at_seven = record (empty_state container_uuid) {
  user_at = λ _. record zero_user { id = pos 7; uuid = "ann" };
  users = put (λ _. none) "ann" (some 3);
  users_by_id = put (λ _. none) (pos 7) (some 3);
}

set_user_enabled-get_user_example :
    let sent = decoded (read_enabled_body (body_json two_uuids (user_enabled_body true))) in
    let (answer, t) = set_user_enabled_handler (itoa (pos 7)) sent ann_at_seven in
    (answer.status ≡ 200)
    × (Option.map (read_user two_uuids false) (payload_json answer.payload)
        ≡ some (
            ok (record (client_user two_uuids false (ann_at_seven.user_at 3) []) {
              enabled = true;
            })))
    × (get_user (itoa (pos 7)) "true" t ≡ (answer, t))
unfolding put empty_state
set_user_enabled-get_user_example =
    set_user_enabled-get_user two_uuids false ann_at_seven (pos 7) true [] (omega arith) refl refl
