-- ===== src/Client/Operations.antt =====
-- The methods of `TenableVMClient` (pkg/client/client.go) on which the connector stands.
pub mod Effect
pub mod Reads
use Prim.Native.String
use baton_tenable_vm.Prelude.{
  Bool, List, String, [], false, none, some, string_eq, true, ℕ_eq, ℤ_eq, ◌∷◌,
}
use baton_tenable_vm.Client.Types.{
  Permission, Group, NewUser, PermissionUpdateBody, RoleDetails, User, UserRole,
}
use baton_tenable_vm.Client.Action.{ok, failed, ◌>>=◌, Action, context, lift}
use baton_tenable_vm.Client.Http.{
  method_get, method_put, method_post, method_delete, user_role_body, new_user_body,
  user_enabled_body, permission_update_body, accept_json_header, content_type_json_header, header,
  json_body, Transport, UrlLibrary,
}
use baton_tenable_vm.Client.Api.{Api, UuidLibrary}
use baton_tenable_vm.Client.Helper.{parse_tag_names}
use baton_tenable_vm.Client.Requests.{
  TenableVmClient, do_request, get_resources_from_api, unread, with_roles,
}
use baton_tenable_vm.Server.State.Users.{updated}

module _ (lib : UuidLibrary) (urls : UrlLibrary) {W : Type 0} (http : Transport lib.Uuid urls.Url W)
    (c : TenableVmClient) where
  abbrev pub url_of : List String → Action W String
  url_of elements = lift (urls.join_path c.base_url elements)

  -- `url.JoinPath` where the error is explained
  abbrev pub created_url : List String → Action W String
  created_url elements = context "error creating url: " (url_of elements)

  abbrev pub user_path : String → String
  user_path user_id = String.◌++◌ "/users/" user_id

  abbrev pub list_group_members_path : String → String
  list_group_members_path group_id = String.◌++◌ "/groups/" (String.◌++◌ group_id "/users")

  abbrev pub user_group_membership_path : String → String → String
  user_group_membership_path group_id user_id =
      String.◌++◌ "/groups/" (String.◌++◌ group_id (String.◌++◌ "/users/" user_id))

  abbrev pub user_role_path : String → String
  user_role_path user_uuid =
      String.◌++◌ "/access-control/v1/users/" (String.◌++◌ user_uuid "/roles")

  abbrev pub permissions_path : String
  permissions_path = "/api/v3/access-control/permissions"

  unfoldable pub get_users : Action W (List (User lib.Uuid))
  get_users = do
    query_url ← url_of ("/users" ∷ [])
    get_resources_from_api lib urls http c query_url http.users_response
        (with_roles lib urls http c ∷ [])

  unfoldable pub get_user_details : String → Action W (User lib.Uuid)
  get_user_details user_id = do
    query_url ← created_url (user_path user_id ∷ [])
    context "error getting user details resource: " (
        get_resources_from_api lib urls http c query_url http.user
          (with_roles lib urls http c ∷ []))

  unfoldable pub get_roles : Action W (List (RoleDetails lib.Uuid))
  get_roles = do
    query_url ← url_of ("/access-control/v1/roles" ∷ [])
    get_resources_from_api lib urls http c query_url http.role_list []

  unfoldable pub get_user_roles : String → Action W UserRole
  get_user_roles user_uuid = do
    query_url ← created_url (user_role_path user_uuid ∷ [])
    context "error getting user details resource: "
        (get_resources_from_api lib urls http c query_url http.user_role [])

  unfoldable pub update_user_roles : String → String → Action W UserRole
  update_user_roles user_uuid role_uuid = do
    query_url ← created_url (user_role_path user_uuid ∷ [])
    context "error updating user role: " (
        do_request lib urls http c method_put query_url http.user_role
          (some (user_role_body (role_uuid ∷ []))) [])

  unfoldable pub create_user : NewUser → Action W (User lib.Uuid)
  create_user new_user = do
    query_url ← created_url ("/users" ∷ [])
    context "error creating user: " (
        do_request lib urls http c method_post query_url http.user (some (new_user_body new_user))
          [])

  unfoldable pub delete_user : String → Action W Unit
  delete_user user_id = do
    query_url ← created_url (user_path user_id ∷ [])
    context "error deleting user: "
        (do_request lib urls http c method_delete query_url (unread lib urls http c) none [])

  -- `DisableUser` and `EnableUser`, which differ in the body and in the words of an error
  abbrev pub set_enabled : Bool → String → String → Action W (User lib.Uuid)
  set_enabled enabled words user_id = do
    query_url ← created_url (user_path user_id ∷ "enabled" ∷ [])
    context words (
        do_request lib urls http c method_put query_url http.user (some (user_enabled_body enabled))
          [])

  unfoldable pub disable_user : String → Action W (User lib.Uuid)
  disable_user user_id = set_enabled false "error disabling user: " user_id

  unfoldable pub enable_user : String → Action W (User lib.Uuid)
  enable_user user_id = set_enabled true "error enabling user: " user_id

  unfoldable pub get_groups : Action W (List Group)
  get_groups = do
    query_url ← url_of ("/groups" ∷ [])
    get_resources_from_api lib urls http c query_url http.groups_response []

  unfoldable pub get_group_members : String → Action W (List (User lib.Uuid))
  get_group_members group_id = do
    query_url ← url_of (list_group_members_path group_id ∷ [])
    get_resources_from_api lib urls http c query_url http.users_response []

  unfoldable pub delete_user_group_membership : String → String → Action W Unit
  delete_user_group_membership group_id user_id = do
    query_url ← url_of (user_group_membership_path group_id user_id ∷ [])
    do_request lib urls http c method_delete query_url (unread lib urls http c) none []

  -- The parameter `add` is not used.
  unfoldable pub create_user_group_membership : String → String → Bool → Action W Unit
  create_user_group_membership group_id user_id add = do
    query_url ← url_of (user_group_membership_path group_id user_id ∷ [])
    do_request lib urls http c method_post query_url (unread lib urls http c) none []

  unfoldable pub list_permissions : Action W (List (Permission lib.Uuid))
  list_permissions = do
    query_url ← url_of (permissions_path ∷ [])
    get_resources_from_api lib urls http c query_url http.permissions_list []

  unfoldable pub get_permission_details : String → Action W (Permission lib.Uuid)
  get_permission_details uuid = do
    query_url ← url_of (permissions_path ∷ uuid ∷ [])
    get_resources_from_api lib urls http c query_url http.permission []

  abbrev pub update_body : Permission lib.Uuid → PermissionUpdateBody lib.Uuid
  update_body updated = record {
    name = updated.name;
    actions = updated.actions;
    objects = parse_tag_names updated.objects;
    subjects = updated.subjects;
  }

  unfoldable pub update_permission : Permission lib.Uuid → Action W Unit
  update_permission updated = do
    query_url ← url_of (permissions_path ∷ lib.to_string updated.uuid ∷ [])
    do_request lib urls http c method_put query_url (unread lib urls http c)
        (some (permission_update_body (update_body updated))) []

  -- What the connector calls of the client
  abbrev pub tenable_api : Api lib.Uuid W
  tenable_api = record {
    get_users = get_users;
    get_user_details = get_user_details;
    enable_user = enable_user;
    disable_user = disable_user;
    create_user = create_user;
    delete_user = delete_user;
    get_roles = get_roles;
    get_user_roles = get_user_roles;
    update_user_roles = update_user_roles;
    get_groups = get_groups;
    get_group_members = get_group_members;
    create_user_group_membership =
        λ group_id user_id. create_user_group_membership group_id user_id true;
    delete_user_group_membership = delete_user_group_membership;
    list_permissions = list_permissions;
    get_permission_details = get_permission_details;
    update_permission = update_permission;
  }
