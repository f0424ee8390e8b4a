-- ===== src/Server/Json/Permissions.antt =====
-- The JSON of permissions: what cmd/test-server answers, by the tags of state.go, and how
-- `updatePermission` of handlers.go reads its body.
use baton_tenable_vm.Prelude.{List, String, some, string_eq, ℕ_eq, ℤ, ℤ_eq}
use baton_tenable_vm.Server.Types.{Permission, PermissionObject, PermissionSubject}
use baton_tenable_vm.Server.Handlers.Access.{PermissionBody}
use baton_tenable_vm.Client.Action.{ok, Result}
use baton_tenable_vm.Json.{
  ◌>>=◌, json_text, json_object, no_fields, field, Fields, Json, array_of, find_field, omit_number,
  omit_text, read_list, read_struct, read_text,
}

abbrev pub permission_object_json : PermissionObject → Json
permission_object_json object = json_object (
    field "type" (json_text object.type)
      (omit_text "uuid" object.uuid (omit_text "name" object.name no_fields)))

abbrev pub permission_subject_json : PermissionSubject → Json
permission_subject_json subject = json_object (
    field "type" (json_text subject.type)
      (omit_text "uuid" subject.uuid (omit_text "name" subject.name no_fields)))

-- The fields behind the subjects
abbrev pub audit_fields : ℤ → String → ℤ → String → Fields
audit_fields created_at created_by updated_at updated_by = omit_number "created_at" created_at (
    omit_text "created_by" created_by
      (omit_number "updated_at" updated_at (omit_text "updated_by" updated_by no_fields)))

abbrev pub permission_json : Permission → Json
permission_json p = json_object (
    field "permission_uuid" (json_text p.uuid) (
      field "name" (json_text p.name) (
        field "actions" (array_of json_text p.actions) (
          field "objects" (array_of permission_object_json p.objects) (
            field "subjects" (array_of permission_subject_json p.subjects)
              (audit_fields p.created_at p.created_by p.updated_at p.updated_by))))))

-- `map[string][]Permission{"permissions": ...}`
abbrev pub permissions_json : List Permission → Json
permissions_json permissions =
    json_object (field "permissions" (array_of permission_json permissions) no_fields)

abbrev object_fields : Fields → Result PermissionObject
object_fields f = do
  type ← read_text (find_field "type" f)
  uuid ← read_text (find_field "uuid" f)
  name ← read_text (find_field "name" f)
  ok (record { type = type; uuid = uuid; name = name })

abbrev subject_fields : Fields → Result PermissionSubject
subject_fields f = do
  type ← read_text (find_field "type" f)
  uuid ← read_text (find_field "uuid" f)
  name ← read_text (find_field "name" f)
  ok (record { type = type; uuid = uuid; name = name })

abbrev pub read_permission_object : Json → Result PermissionObject
read_permission_object = read_struct object_fields

abbrev pub read_permission_subject : Json → Result PermissionSubject
read_permission_subject = read_struct subject_fields

abbrev pub read_action : Json → Result String
read_action j = read_text (some j)

abbrev body_fields : Fields → Result PermissionBody
body_fields f = do
  name ← read_text (find_field "name" f)
  actions ← read_list read_action (find_field "actions" f)
  objects ← read_list read_permission_object (find_field "objects" f)
  subjects ← read_list read_permission_subject (find_field "subjects" f)
  ok (record { name = name; actions = actions; objects = objects; subjects = subjects })

abbrev pub read_permission_body : Json → Result PermissionBody
read_permission_body = read_struct body_fields
