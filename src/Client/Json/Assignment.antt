-- ===== src/Client/Json/Assignment.antt =====
-- The update of a user's roles by pkg/client and its answers by cmd/test-server, over their JSON.
use baton_tenable_vm.Json.{
  json_text, find_field, read_list, items_of, read_items, read_items-items_of,
}
use baton_tenable_vm.Server.Seeds.Constants.{container_uuid}
use baton_tenable_vm.Prelude.{
  List, Option, String, [], ap, beq_refl, none, put, refl, some, string_eq, subst, true, ℕ, ℕ_eq,
  ℤ_eq, ◌∷◌, ◌≡◌,
}
use baton_tenable_vm.Server.Handlers.{user_roles, write_json}
use mathlib.Core.Option
use baton_tenable_vm.Client.Action.{ok, failed, Result}
use baton_tenable_vm.Client.Http.{user_role_body}
use baton_tenable_vm.Client.Json.Bodies.{body_json, roles_sent, texts_meant}
use baton_tenable_vm.Client.Json.Transport.{read_user_role}
use baton_tenable_vm.Server.Handlers.Access.{get_user_roles_handler, update_user_roles_handler}
use baton_tenable_vm.Server.Json.Answers.{payload_json, role_uuids_json, user_roles_json}
use baton_tenable_vm.Server.Json.Bodies.{read_roles_body}
use baton_tenable_vm.Server.State.{State}
use baton_tenable_vm.Server.State.Roles.{find_roles, assign_roles, get_user_roles, set_user_roles}
use baton_tenable_vm.Client.Api.{UuidLibrary}
use baton_tenable_vm.Client.Json.{read_string}
use baton_tenable_vm.Server.Types.{RbacRole}

-- A body that a handler decodes, `none` if that fails
abbrev pub decoded : {A : Type 0} → Result A → Option A
decoded (ok a) = some a
decoded (failed message) = none

roles_set :
    (s : State) (user_uuid : String) (roles : List String) {u : ℕ} {found : List RbacRole}
    → s.users user_uuid ≡ some u
    → find_roles s roles ≡ some found
    → set_user_roles user_uuid roles s ≡ (true, assign_roles s user_uuid roles u found)
unfolding set_user_roles
roles_set s user_uuid roles known all_known = rw (known, all_known, set_user_roles) refl

roles_held :
    (s : State) (user_uuid : String) (roles : List String) {u : ℕ} (found : List RbacRole)
    → s.users user_uuid ≡ some u
    → get_user_roles (assign_roles s user_uuid roles u found) user_uuid ≡ some roles
unfolding get_user_roles assign_roles put
roles_held s user_uuid roles found known = rw (known, beq_refl user_uuid, get_user_roles) refl

roles_answered :
    (s : State) (user_uuid : String) (roles : List String) {u : ℕ} (found : List RbacRole)
    → s.users user_uuid ≡ some u
    → get_user_roles_handler user_uuid (assign_roles s user_uuid roles u found) ≡ (
      write_json 200 (user_roles container_uuid user_uuid roles),
      assign_roles s user_uuid roles u found,
    )
unfolding get_user_roles_handler
roles_answered s user_uuid roles found known =
    rw (roles_held s user_uuid roles found known, get_user_roles_handler) refl

module _ (lib : UuidLibrary) (nil_uuid : lib.Uuid) where
  role_uuids_read :
      (assigned : List String)
      → read_list (read_string lib nil_uuid) (some (role_uuids_json assigned)) ≡ ok assigned
  role_uuids_read [] = refl
  role_uuids_read (t ∷ ts) =
      subst (λ us. read_items (read_string lib nil_uuid) (items_of json_text (t ∷ ts)) ≡ ok us)
        (texts_meant (t ∷ ts))
        (read_items-items_of (read_string lib nil_uuid) json_text (λ x. x) (λ x. refl) (t ∷ ts))

  user_roles_read :
      (container_uuid user_uuid : String) (assigned : List String)
      → read_user_role lib nil_uuid (user_roles_json container_uuid user_uuid assigned)
        ≡ ok (record {
          container_uuid = container_uuid;
          user_uuid = user_uuid;
          roles_uuid = assigned;
        })
  unfolding find_field
  user_roles_read container_uuid user_uuid assigned = rw (role_uuids_read assigned) refl

  -- Where the user and all the roles are known, `PUT` of the roles by the client is answered with 200
  -- and an object that the client reads as the user with these roles, and the following `GET` gives the
  -- same answer and changes nothing.
  pub update_user_roles-get_user_roles :
      (s : State) (user_uuid : String) (assigned : List String) {u : ℕ} {found : List RbacRole}
      → s.users user_uuid ≡ some u
      → find_roles s assigned ≡ some found
      → let sent = decoded (read_roles_body (body_json lib (user_role_body assigned))) in
        let (answer, t) = update_user_roles_handler user_uuid sent s in
        (answer.status ≡ 200)
        × (Option.map (read_user_role lib nil_uuid) (payload_json answer.payload)
            ≡ some (
                ok (record {
                  container_uuid = container_uuid;
                  user_uuid = user_uuid;
                  roles_uuid = assigned;
                })))
        × (get_user_roles_handler user_uuid t ≡ (answer, t))
  unfolding update_user_roles_handler
  update_user_roles-get_user_roles s user_uuid assigned {u} {found} known all_known =
      rw (roles_sent lib assigned, roles_set s user_uuid assigned known all_known)
        (
          refl,
          ap some (user_roles_read container_uuid user_uuid assigned),
          roles_answered s user_uuid assigned found known,
        )
