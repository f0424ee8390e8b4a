-- ===== src/Client/Json/Laws.antt =====
-- What pkg/client reads of the JSON that cmd/test-server writes.
use baton_tenable_vm.Prelude.{
  All, Bool, List, String, [], false, map, negsuc, pos, refl, string_eq, subst, suc, sym, true,
  zero, ℕ_eq, ℤ, ℤ_eq, ◌∷◌, ◌≡◌,
}
use baton_tenable_vm.Server.Types as Server
use baton_tenable_vm.Client.Types.{Role, User, Group, RoleDetails}
use baton_tenable_vm.Client.Action.{ok}
use baton_tenable_vm.Json.{json_text, find_field, items_of, read_items}
use baton_tenable_vm.Client.Api.{UuidLibrary}
use baton_tenable_vm.Client.Json.{
  read_role, read_string, read_user, read_group, read_groups_response, read_role_details,
  read_role_list, read_users_response,
}
use baton_tenable_vm.Server.Json.{
  rbac_role_json, user_json, group_json, groups_json, role_json, roles_json, users_json,
}

texts_back :
    (lib : UuidLibrary) (nil_uuid : lib.Uuid) (ts : List String)
    → read_items (read_string lib nil_uuid) (items_of json_text ts) ≡ ok ts
unfolding read_items
texts_back lib nil_uuid [] = refl
texts_back lib nil_uuid (t ∷ ts) = rw (texts_back lib nil_uuid ts) refl

module _ (lib : UuidLibrary) (nil_uuid : lib.Uuid) where
  -- A role as the server keeps it, with the text of its uuid
  abbrev pub kept_role : Role lib.Uuid → Server.RbacRole
  kept_role role = record { uuid = lib.to_string role.uuid; name = role.name }

  role_back :
      (role : Role lib.Uuid) → read_role lib nil_uuid (rbac_role_json (kept_role role)) ≡ ok role
  unfolding find_field
  role_back role = rw (lib.parse-to_string role.uuid) refl

  roles_back :
      (roles : List (Role lib.Uuid))
      → read_items (read_role lib nil_uuid) (items_of rbac_role_json (map kept_role roles))
        ≡ ok roles
  unfolding read_items
  roles_back [] = refl
  roles_back (role ∷ roles) = rw (role_back role, roles_back roles) refl

  -- The user that the client has for a user of the server with these roles
  abbrev pub client_user : Server.User → List (Role lib.Uuid) → User lib.Uuid
  client_user u held = record {
    id = u.id;
    uuid = u.uuid;
    username = u.username;
    email = u.email;
    name = u.name;
    last_login = u.last_login;
    enabled = u.enabled;
    permissions = u.permissions;
    container_uuid = u.container_uuid;
    rbac_roles = held;
    roles = [];
    group_uuids = u.group_uuids;
  }

  abbrev with_fields : Server.User → ℤ → List String → List (Role lib.Uuid) → Server.User
  with_fields u last_login group_uuids held = record u {
    last_login = last_login;
    group_uuids = group_uuids;
    rbac_roles = map kept_role held;
  }

  user_back :
      (u : Server.User) (n : ℤ) (gs : List String) (held : List (Role lib.Uuid))
      → read_user lib nil_uuid (user_json (with_fields u n gs held))
        ≡ ok (client_user (with_fields u n gs held) held)
  unfolding find_field
  user_back u (pos zero) [] [] = refl
  user_back u (pos zero) [] (r ∷ rs) = rw (roles_back (r ∷ rs)) refl
  user_back u (pos zero) (g ∷ gs) [] = rw (texts_back lib nil_uuid (g ∷ gs)) refl
  user_back u (pos zero) (g ∷ gs) (r ∷ rs) =
      rw (roles_back (r ∷ rs), texts_back lib nil_uuid (g ∷ gs)) refl
  user_back u (pos (suc n)) [] [] = refl
  user_back u (pos (suc n)) [] (r ∷ rs) = rw (roles_back (r ∷ rs)) refl
  user_back u (pos (suc n)) (g ∷ gs) [] = rw (texts_back lib nil_uuid (g ∷ gs)) refl
  user_back u (pos (suc n)) (g ∷ gs) (r ∷ rs) =
      rw (roles_back (r ∷ rs), texts_back lib nil_uuid (g ∷ gs)) refl
  user_back u (negsuc n) [] [] = refl
  user_back u (negsuc n) [] (r ∷ rs) = rw (roles_back (r ∷ rs)) refl
  user_back u (negsuc n) (g ∷ gs) [] = rw (texts_back lib nil_uuid (g ∷ gs)) refl
  user_back u (negsuc n) (g ∷ gs) (r ∷ rs) =
      rw (roles_back (r ∷ rs), texts_back lib nil_uuid (g ∷ gs)) refl

  pub read_user-user_json :
      (u : Server.User) (held : List (Role lib.Uuid))
      → u.rbac_roles ≡ map kept_role held
      → read_user lib nil_uuid (user_json u) ≡ ok (client_user u held)
  read_user-user_json u held kept =
      subst
        (λ rs.
          read_user lib nil_uuid (user_json (record u { rbac_roles = rs }))
          ≡ ok (client_user u held))
        (sym kept) (user_back u u.last_login u.group_uuids held)

  users_back :
      (users : List (Server.User × List (Role lib.Uuid)))
      → All (λ p. p.0.rbac_roles ≡ map kept_role p.1) users
      → read_items (read_user lib nil_uuid) (items_of user_json (map (λ p. p.0) users))
        ≡ ok (map (λ p. client_user p.0 p.1) users)
  unfolding read_items
  users_back [] h = refl
  users_back ((u, held) ∷ users) h = rw (read_user-user_json u held h.0, users_back users h.1) refl

  -- The client reads the list of users that the server writes as the same users with their roles,
  -- where the roles' uuids are texts of uuids; the field `roles`, which the server does not write,
  -- stays empty.
  pub read_users_response-users_json :
      (users : List (Server.User × List (Role lib.Uuid)))
      → All (λ p. p.0.rbac_roles ≡ map kept_role p.1) users
      → read_users_response lib nil_uuid (users_json (map (λ p. p.0) users))
        ≡ ok (map (λ p. client_user p.0 p.1) users)
  unfolding find_field
  read_users_response-users_json users h = users_back users h

  -- A role of the server with the text of its uuid
  abbrev pub listed_role : RoleDetails lib.Uuid → Server.Role
  listed_role role = record {
    uuid = lib.to_string role.uuid;
    name = role.name;
    description = role.description;
    role_permission_strings = role.permissions;
    type = role.type;
    status = role.status;
  }

  role_details_back :
      (role : RoleDetails lib.Uuid)
      → read_role_details lib nil_uuid (role_json (listed_role role)) ≡ ok role
  unfolding find_field
  role_details_back role =
      rw (lib.parse-to_string role.uuid, texts_back lib nil_uuid role.permissions) refl

  -- The client reads the roles that the server writes as they are.
  pub read_role_list-roles_json :
      (roles : List (RoleDetails lib.Uuid))
      → read_role_list lib nil_uuid (roles_json (map listed_role roles)) ≡ ok roles
  unfolding read_items
  read_role_list-roles_json [] = refl
  read_role_list-roles_json (role ∷ roles) =
      rw (role_details_back role, read_role_list-roles_json roles) refl

-- The group that the client has for a group of the server
abbrev pub client_group : Server.Group → Group
client_group group = record {
  id = group.id;
  uuid = group.uuid;
  name = group.name;
  permissions = pos 0;
  users_count = pos 0;
  container_uuid = group.container_uuid;
}

group_back :
    (group : Server.Group) (immutable fixed : Bool)
    → read_group (group_json (record group { immutable = immutable; membership_fixed = fixed }))
      ≡ ok (client_group group)
unfolding find_field
group_back group false false = refl
group_back group false true = refl
group_back group true false = refl
group_back group true true = refl

groups_back :
    (groups : List Server.Group)
    → read_items read_group (items_of group_json groups) ≡ ok (map client_group groups)
unfolding read_items
groups_back [] = refl
groups_back (group ∷ groups) =
    rw (group_back group group.immutable group.membership_fixed, groups_back groups) refl

-- The client reads the groups that the server writes, each with its number, uuid, name and container,
-- and with a count of users that is 0 however many users the server counts.
pub read_groups_response-groups_json :
    (groups : List Server.Group)
    → read_groups_response (groups_json groups) ≡ ok (map client_group groups)
unfolding find_field
read_groups_response-groups_json groups = groups_back groups
