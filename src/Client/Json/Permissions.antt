-- ===== src/Client/Json/Permissions.antt =====
-- The JSON of permissions, by the tags of pkg/client/models.go: how the client reads them, and what
-- it writes to update one. A `uuid.UUID` is an array, which `omitempty` never leaves out.
pub mod Laws
use baton_tenable_vm.Prelude.{List, string_eq, ℕ_eq, ℤ_eq}
use baton_tenable_vm.Client.Types.{Permission, PermissionUpdateBody, TenableObject}
use baton_tenable_vm.Client.Action.{ok, Result}
use baton_tenable_vm.Json.{
  ◌>>=◌, json_text, json_number, json_object, no_fields, field, Fields, Json, find_field, omit_list,
  omit_text, read_list, read_number, read_struct, read_text,
}
use baton_tenable_vm.Client.Api.{UuidLibrary}
use baton_tenable_vm.Client.Json.{read_string, read_uuid}

module _ (lib : UuidLibrary) where
  abbrev pub tenable_object_json : TenableObject lib.Uuid → Json
  tenable_object_json object = json_object (
      omit_text "type" object.type (
        field "uuid" (json_text (lib.to_string object.uuid))
          (omit_text "name" object.name no_fields)))

  abbrev pub permission_update_body_json : PermissionUpdateBody lib.Uuid → Json
  permission_update_body_json body = json_object (
      omit_text "name" body.name (
        omit_list json_text "actions" body.actions (
          omit_list tenable_object_json "objects" body.objects
            (omit_list tenable_object_json "subjects" body.subjects no_fields))))

  module _ (nil_uuid : lib.Uuid) where
    abbrev tenable_object_fields : Fields → Result (TenableObject lib.Uuid)
    tenable_object_fields f = do
      type ← read_text (find_field "type" f)
      uuid ← read_uuid lib nil_uuid (find_field "uuid" f)
      name ← read_text (find_field "name" f)
      ok (record { type = type; uuid = uuid; name = name })

    abbrev pub read_tenable_object : Json → Result (TenableObject lib.Uuid)
    read_tenable_object = read_struct tenable_object_fields

    abbrev permission_fields : Fields → Result (Permission lib.Uuid)
    permission_fields f = do
      uuid ← read_uuid lib nil_uuid (find_field "permission_uuid" f)
      name ← read_text (find_field "name" f)
      actions ← read_list (read_string lib nil_uuid) (find_field "actions" f)
      objects ← read_list read_tenable_object (find_field "objects" f)
      subjects ← read_list read_tenable_object (find_field "subjects" f)
      created_at ← read_number (find_field "created_at" f)
      created_by ← read_text (find_field "created_by" f)
      updated_at ← read_number (find_field "updated_at" f)
      updated_by ← read_text (find_field "updated_by" f)
      ok (record {
        uuid = uuid;
        name = name;
        actions = actions;
        objects = objects;
        subjects = subjects;
        created_at = created_at;
        created_by = created_by;
        updated_at = updated_at;
        updated_by = updated_by;
      })

    abbrev pub read_permission : Json → Result (Permission lib.Uuid)
    read_permission = read_struct permission_fields

    -- `PermissionsList`
    abbrev pub read_permissions_list : Json → Result (List (Permission lib.Uuid))
    read_permissions_list = read_struct λ f. read_list read_permission (find_field "permissions" f)
