-- ===== src/Client/Json/Permissions/Laws.antt =====
-- Permissions on their way from cmd/test-server to pkg/client and back in an update.
use baton_tenable_vm.Prelude.{
  List, Option, String, [], map, none, refl, some, string_eq, subst, ℕ_eq, ℤ, ℤ_eq, ◌∷◌, ◌≡◌, ◌≢◌,
}
use baton_tenable_vm.Server.Types as Server
use baton_tenable_vm.Client.Types.{TenableObject, Permission, PermissionUpdateBody}
use baton_tenable_vm.Client.Action.{ok}
use baton_tenable_vm.Json.{
  field, json_text, no_fields, find_field, omit_text-other, omit_text-same, items_of, read_items,
  omit_number, omit_number-other, omit_number-same, omit_text, read_number, read_text, Fields,
  omit_list, omit_list-other, omit_list-same, read_list,
}
use baton_tenable_vm.Server.Json.Permissions.{
  permission_object_json, permission_json, permission_subject_json, audit_fields,
  read_permission_object, read_permission_subject, read_action, read_permission_body,
}
use baton_tenable_vm.Client.Api.{UuidLibrary}
use baton_tenable_vm.Client.Json.Permissions.{
  read_tenable_object, read_permission, tenable_object_json, permission_update_body_json,
}
use baton_tenable_vm.Server.Keys.Laws.{eq-empty}
use baton_tenable_vm.Client.Json.{read_string}

-- A subject or object of a permission, which the server may keep without a uuid
pub record Entry (Uuid : Type 0) : Type 0 where
  pub type : String
  pub uuid : Option Uuid
  pub name : String

audit_back :
    (a : ℤ) (b : String) (c : ℤ) (d : String)
    → (read_number (find_field "created_at" (audit_fields a b c d)) ≡ ok a)
      × (read_text (find_field "created_by" (audit_fields a b c d)) ≡ ok b)
      × (read_number (find_field "updated_at" (audit_fields a b c d)) ≡ ok c)
      × (read_text (find_field "updated_by" (audit_fields a b c d)) ≡ ok d)
unfolding find_field
audit_back a b c d =
    let last = omit_text "updated_by" d no_fields in
    let later = omit_number "updated_at" c last in
    let early = omit_text "created_by" b later in
    (
      omit_number-same "created_at" early a (
          rw
            (
              omit_text-other "created_by" later "created_at" b refl,
              omit_number-other "updated_at" last "created_at" c refl,
              omit_text-other "updated_by" no_fields "created_at" d refl,
            )
            refl),
      rw (omit_number-other "created_at" early "created_by" a refl) (
          omit_text-same "created_by" later b (
            rw
              (
                omit_number-other "updated_at" last "created_by" c refl,
                omit_text-other "updated_by" no_fields "created_by" d refl,
              )
              refl)),
      rw
          (
            omit_number-other "created_at" early "updated_at" a refl,
            omit_text-other "created_by" later "updated_at" b refl,
          )
          (omit_number-same "updated_at" last c
            (omit_text-other "updated_by" no_fields "updated_at" d refl)),
      rw
          (
            omit_number-other "created_at" early "updated_by" a refl,
            omit_text-other "created_by" later "updated_by" b refl,
            omit_number-other "updated_at" last "updated_by" c refl,
          )
          (omit_text-same "updated_by" no_fields d refl),
    )

module _ (lib : UuidLibrary) (nil_uuid : lib.Uuid)
    (shown : (u : lib.Uuid) → lib.to_string u ≢ "") where
  abbrev pub uuid_text : Option lib.Uuid → String
  uuid_text none = ""
  uuid_text (some u) = lib.to_string u

  abbrev pub uuid_or_nil : Option lib.Uuid → lib.Uuid
  uuid_or_nil none = nil_uuid
  uuid_or_nil (some u) = u

  abbrev pub kept_object : Entry lib.Uuid → Server.PermissionObject
  kept_object e = record { type = e.type; uuid = uuid_text e.uuid; name = e.name }

  abbrev pub kept_subject : Entry lib.Uuid → Server.PermissionSubject
  kept_subject e = record { type = e.type; uuid = uuid_text e.uuid; name = e.name }

  abbrev pub read_entry : Entry lib.Uuid → TenableObject lib.Uuid
  read_entry e = record { type = e.type; uuid = uuid_or_nil e.uuid; name = e.name }

  entry_back :
      (type name : String) (o : Option lib.Uuid)
      → read_tenable_object lib nil_uuid
          (permission_object_json (record { type = type; uuid = uuid_text o; name = name }))
        ≡ ok (record { type = type; uuid = uuid_or_nil o; name = name })
  unfolding find_field
  entry_back type name none =
      rw
        (
          omit_text-other "name" no_fields "uuid" name refl,
          omit_text-same "name" no_fields name refl,
        )
        refl
  entry_back type name (some u) =
      rw
        (
          eq-empty (lib.to_string u) (shown u),
          lib.parse-to_string u,
          omit_text-same "name" no_fields name refl,
        )
        refl

  objects_back :
      (es : List (Entry lib.Uuid))
      → read_items
          (read_tenable_object lib nil_uuid)
          (items_of permission_object_json (map kept_object es))
        ≡ ok (map read_entry es)
  unfolding read_items
  objects_back [] = refl
  objects_back (e ∷ es) = rw (entry_back e.type e.name e.uuid, objects_back es) refl

  subjects_back :
      (es : List (Entry lib.Uuid))
      → read_items
          (read_tenable_object lib nil_uuid)
          (items_of permission_subject_json (map kept_subject es))
        ≡ ok (map read_entry es)
  unfolding read_items
  subjects_back [] = refl
  subjects_back (e ∷ es) = rw (entry_back e.type e.name e.uuid, subjects_back es) refl

  texts_read :
      (ts : List String) → read_items (read_string lib nil_uuid) (items_of json_text ts) ≡ ok ts
  unfolding read_items
  texts_read [] = refl
  texts_read (t ∷ ts) = rw (texts_read ts) refl

  -- A permission as the server keeps it, with these objects and subjects
  abbrev pub kept_permission :
      Permission lib.Uuid → List (Entry lib.Uuid) → List (Entry lib.Uuid) → Server.Permission
  kept_permission p objects subjects = record {
    uuid = lib.to_string p.uuid;
    name = p.name;
    actions = p.actions;
    objects = map kept_object objects;
    subjects = map kept_subject subjects;
    created_at = p.created_at;
    created_by = p.created_by;
    updated_at = p.updated_at;
    updated_by = p.updated_by;
  }

  -- A permission whose own uuid is the text of a uuid, and whose objects and subjects have the text of a
  -- uuid or none, is read by the client as the server writes it, but for the objects and subjects without
  -- a uuid, which get the nil uuid. It is assumed that no uuid has an empty text.
  pub read_permission-permission_json :
      (p : Permission lib.Uuid) (objects subjects : List (Entry lib.Uuid))
      → read_permission lib nil_uuid (permission_json (kept_permission p objects subjects))
        ≡ ok (record p { objects = map read_entry objects; subjects = map read_entry subjects })
  unfolding find_field
  read_permission-permission_json p objects subjects =
      let (a, b, c, d) = audit_back p.created_at p.created_by p.updated_at p.updated_by in
      rw
        (
          lib.parse-to_string p.uuid,
          texts_read p.actions,
          objects_back objects,
          subjects_back subjects,
          a,
          b,
          c,
          d,
        )
        refl

  -- An object or subject of an update, as the server stores it
  abbrev pub stored_object : TenableObject lib.Uuid → Server.PermissionObject
  stored_object o = record { type = o.type; uuid = lib.to_string o.uuid; name = o.name }

  abbrev pub stored_subject : TenableObject lib.Uuid → Server.PermissionSubject
  stored_subject o = record { type = o.type; uuid = lib.to_string o.uuid; name = o.name }

  uuid_field : TenableObject lib.Uuid → Fields
  uuid_field o = field "uuid" (json_text (lib.to_string o.uuid)) (omit_text "name" o.name no_fields)

  object_sent :
      (o : TenableObject lib.Uuid)
      → read_permission_object (tenable_object_json lib o) ≡ ok (stored_object o)
  unfolding find_field uuid_field
  object_sent o =
      rw
        (
          omit_text-same "type" (uuid_field o) o.type
              (omit_text-other "name" no_fields "type" o.name refl),
          omit_text-other "type" (uuid_field o) "uuid" o.type refl,
          omit_text-other "type" (uuid_field o) "name" o.type refl,
          omit_text-same "name" no_fields o.name refl,
        )
        refl

  subject_sent :
      (o : TenableObject lib.Uuid)
      → read_permission_subject (tenable_object_json lib o) ≡ ok (stored_subject o)
  unfolding find_field uuid_field
  subject_sent o =
      rw
        (
          omit_text-same "type" (uuid_field o) o.type
              (omit_text-other "name" no_fields "type" o.name refl),
          omit_text-other "type" (uuid_field o) "uuid" o.type refl,
          omit_text-other "type" (uuid_field o) "name" o.type refl,
          omit_text-same "name" no_fields o.name refl,
        )
        refl

  actions_meant : (ts : List String) → map (λ (t : String). t) ts ≡ ts
  actions_meant [] = refl
  actions_meant (t ∷ ts) = rw (actions_meant ts) refl

  module _ (body : PermissionUpdateBody lib.Uuid) where
    subjects_field : Fields
    subjects_field = omit_list (tenable_object_json lib) "subjects" body.subjects no_fields

    objects_field : Fields
    objects_field = omit_list (tenable_object_json lib) "objects" body.objects subjects_field

    actions_field : Fields
    actions_field = omit_list json_text "actions" body.actions objects_field

    body_sent :
        (read_text (find_field "name" (omit_text "name" body.name actions_field)) ≡ ok body.name)
        × (read_list read_action (find_field "actions" (omit_text "name" body.name actions_field))
            ≡ ok body.actions)
        × (read_list read_permission_object
              (find_field "objects" (omit_text "name" body.name actions_field))
            ≡ ok (map stored_object body.objects))
        × (read_list read_permission_subject
              (find_field "subjects" (omit_text "name" body.name actions_field))
            ≡ ok (map stored_subject body.subjects))
    unfolding find_field subjects_field objects_field actions_field
    body_sent =
        let write = tenable_object_json lib in
        let name_last : find_field "name" actions_field ≡ none =
          rw
            (
              omit_list-other json_text "actions" objects_field "name" body.actions refl,
              omit_list-other write "objects" subjects_field "name" body.objects refl,
              omit_list-other write "subjects" no_fields "name" body.subjects refl,
            )
            refl in
        let actions_last : find_field "actions" objects_field ≡ none =
          rw
            (
              omit_list-other write "objects" subjects_field "actions" body.objects refl,
              omit_list-other write "subjects" no_fields "actions" body.subjects refl,
            )
            refl in
        (
          omit_text-same "name" actions_field body.name name_last,
          rw (omit_text-other "name" actions_field "actions" body.name refl) (
              subst (λ ts. read_list read_action (find_field "actions" actions_field) ≡ ok ts)
                (actions_meant body.actions)
                (omit_list-same json_text "actions" objects_field read_action (λ t. t) (λ t. refl)
                  body.actions actions_last)),
          rw
              (
                omit_text-other "name" actions_field "objects" body.name refl,
                omit_list-other json_text "actions" objects_field "objects" body.actions refl,
              )
              (omit_list-same write "objects" subjects_field read_permission_object stored_object
                object_sent body.objects
                (omit_list-other write "subjects" no_fields "objects" body.subjects refl)),
          rw
              (
                omit_text-other "name" actions_field "subjects" body.name refl,
                omit_list-other json_text "actions" objects_field "subjects" body.actions refl,
                omit_list-other write "objects" subjects_field "subjects" body.objects refl,
              )
              (omit_list-same write "subjects" no_fields read_permission_subject stored_subject
                subject_sent body.subjects refl),
        )

    -- The server reads the body of an update as the client means it: the name, the actions, and the
    -- objects and subjects in order, each with the text of its uuid, be it the nil uuid.
    pub read_permission_body-permission_update_body_json :
        read_permission_body (permission_update_body_json lib body)
        ≡ ok (record {
          name = body.name;
          actions = body.actions;
          objects = map stored_object body.objects;
          subjects = map stored_subject body.subjects;
        })
    unfolding find_field subjects_field objects_field actions_field
    read_permission_body-permission_update_body_json =
        let (a, b, c, d) = body_sent in rw (a, b, c, d) refl
