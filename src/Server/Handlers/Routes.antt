-- ===== src/Server/Handlers/Routes.antt =====
-- `newMux` of cmd/test-server/main.go, behind the matching of patterns, and `requireAPIKeys` of handlers.go.
use baton_tenable_vm.Prelude.{List, Option, String, if◌then◌else◌, some, string_eq, ℕ_eq, ℤ_eq}
use baton_tenable_vm.Server.Handlers.{health, Response, unauthorized, write_json}
use baton_tenable_vm.Server.Handlers.Access.{
  PermissionBody, get_permission_handler, get_user_roles_handler, list_permissions_handler,
  list_roles_handler, update_permission_handler, update_user_roles_handler,
}
use baton_tenable_vm.Server.Handlers.Groups.{
  add_group_member_handler, list_group_members_handler, list_groups_handler,
  remove_group_member_handler,
}
use baton_tenable_vm.Server.Handlers.Users.{
  CreateBody, EnabledBody, UpdateBody, create_user_handler, delete_user_handler, get_user,
  list_users_handler, set_user_enabled_handler, update_user_handler,
}
use baton_tenable_vm.Server.Invariant.Seed.{with_roles}
use baton_tenable_vm.Server.State.{State}
use baton_tenable_vm.Server.Keys.{accepted}

-- A request that matched the pattern of a handler, with its path values, query parameter and body.
pub data Request : Type 0 where
  get_users : String → Request
  post_users : Option CreateBody → Request
  get_users_id : String → String → Request
  put_users_id : String → Option UpdateBody → Request
  delete_users_id : String → Request
  put_users_enabled : String → Option EnabledBody → Request
  get_groups : Request
  get_groups_users : String → Request
  post_groups_users : String → String → Request
  delete_groups_users : String → String → Request
  get_roles : Request
  get_users_roles : String → Request
  put_users_roles : String → Option (List String) → Request
  get_permissions : Request
  get_permissions_uuid : String → Request
  put_permissions_uuid : String → Option PermissionBody → Request

abbrev pub answered : Response × State → Option Response × State
answered (r, s) = (some r, s)

-- `none` is a handler that panics, whose connection net/http closes.
unfoldable pub serve : Request → State → Option Response × State
serve (get_users with_roles) s = answered (list_users_handler with_roles s)
serve (post_users body) s = create_user_handler body s
serve (get_users_id id with_roles) s = answered (get_user id with_roles s)
serve (put_users_id id body) s = answered (update_user_handler id body s)
serve (delete_users_id id) s = answered (delete_user_handler id s)
serve (put_users_enabled id body) s = answered (set_user_enabled_handler id body s)
serve get_groups s = answered (list_groups_handler s)
serve (get_groups_users id) s = answered (list_group_members_handler id s)
serve (post_groups_users id user_id) s = answered (add_group_member_handler id user_id s)
serve (delete_groups_users id user_id) s = answered (remove_group_member_handler id user_id s)
serve get_roles s = answered (list_roles_handler s)
serve (get_users_roles uuid) s = answered (get_user_roles_handler uuid s)
serve (put_users_roles uuid body) s = answered (update_user_roles_handler uuid body s)
serve get_permissions s = answered (list_permissions_handler s)
serve (get_permissions_uuid uuid) s = answered (get_permission_handler uuid s)
serve (put_permissions_uuid uuid body) s = answered (update_permission_handler uuid body s)

-- `requireAPIKeys`, with the value of the header X-ApiKeys, "" if it is missing
unfoldable pub require_api_keys : String → Request → State → Option Response × State
require_api_keys raw request s =
    if accepted raw then serve request s else answered (unauthorized, s)

-- A request that matched a pattern of `newMux`: `GET /health`, or one behind `auth` with its header.
pub data Incoming : Type 0 where
  get_health : Incoming
  auth : String → Request → Incoming

unfoldable pub new_mux : Incoming → State → Option Response × State
new_mux get_health s = answered (write_json 200 (health "ok"), s)
new_mux (auth raw request) s = require_api_keys raw request s
