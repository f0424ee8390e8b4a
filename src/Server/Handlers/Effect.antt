-- ===== src/Server/Handlers/Effect.antt =====
-- Requests to cmd/test-server (handlers.go) that are refused.
use baton_tenable_vm.Prelude.{
  List, Option, String, arith, refl, some, string_eq, ℕ_eq, ℤ_eq, ◌≡◌, ◌≢◌,
}
use baton_tenable_vm.Server.Handlers.{Response}
use baton_tenable_vm.Server.Handlers.Access.{
  PermissionBody, get_permission_handler, get_user_roles_handler, list_permissions_handler,
  list_roles_handler, update_permission_handler, update_user_roles_handler,
}
use baton_tenable_vm.Server.Handlers.Groups.{
  add_group_member_handler, list_group_members_handler, list_groups_handler,
  remove_group_member_handler,
}
use baton_tenable_vm.Server.Handlers.Users.{
  CreateBody, EnabledBody, UpdateBody, create_user_handler, delete_user_handler, get_user,
  list_users_handler, set_user_enabled_handler, update_user_handler,
}
use baton_tenable_vm.Server.State.{State}
use baton_tenable_vm.Server.State.Groups.{add_group_member, remove_group_member}
use baton_tenable_vm.Server.State.Users.{
  delete_user, edit_user, update_user, create_numbered, create_user, set_user_enabled,
}
use baton_tenable_vm.Server.State.Permissions.{update_permission}
use baton_tenable_vm.Server.State.Roles.{set_user_roles}
use baton_tenable_vm.Server.Handlers.Routes.{
  get_users, post_users, get_users_id, put_users_id, delete_users_id, put_users_enabled, get_groups,
  get_groups_users, post_groups_users, delete_groups_users, get_roles, get_users_roles,
  put_users_roles, get_permissions, get_permissions_uuid, put_permissions_uuid, Request, answered,
  serve,
}

update_user-Effect :
    (id : String) (body : Option UpdateBody) (s : State)
    → (update_user_handler id body s).0.status ≢ 200
    → (update_user_handler id body s).1 ≡ s
unfolding update_user_handler update_user edit_user
update_user-Effect id body s refused = ground arith

delete_user-Effect :
    (id : String) (s : State)
    → (delete_user_handler id s).0.status ≢ 200
    → (delete_user_handler id s).1 ≡ s
unfolding delete_user_handler delete_user
delete_user-Effect id s refused = ground arith

add_group_member-Effect :
    (id user_id : String) (s : State)
    → (add_group_member_handler id user_id s).0.status ≢ 200
    → (add_group_member_handler id user_id s).1 ≡ s
unfolding add_group_member_handler add_group_member
add_group_member-Effect id user_id s refused = ground arith

remove_group_member-Effect :
    (id user_id : String) (s : State)
    → (remove_group_member_handler id user_id s).0.status ≢ 200
    → (remove_group_member_handler id user_id s).1 ≡ s
unfolding remove_group_member_handler remove_group_member
remove_group_member-Effect id user_id s refused = ground arith

set_user_enabled-Effect :
    (id : String) (body : Option EnabledBody) (s : State)
    → (set_user_enabled_handler id body s).0.status ≢ 200
    → (set_user_enabled_handler id body s).1 ≡ s
unfolding set_user_enabled_handler set_user_enabled edit_user
set_user_enabled-Effect id body s refused = ground arith

update_user_roles-Effect :
    (uuid : String) (body : Option (List String)) (s : State)
    → (update_user_roles_handler uuid body s).0.status ≢ 200
    → (update_user_roles_handler uuid body s).1 ≡ s
unfolding update_user_roles_handler set_user_roles
update_user_roles-Effect uuid body s refused = ground arith

update_permission-Effect :
    (uuid : String) (body : Option PermissionBody) (s : State)
    → (update_permission_handler uuid body s).0.status ≢ 200
    → (update_permission_handler uuid body s).1 ≡ s
unfolding update_permission_handler update_permission
update_permission-Effect uuid body s refused = ground arith

create_user-Effect :
    (body : Option CreateBody) (s : State) (r : Response)
    → (create_user_handler body s).0 ≡ some r
    → r.status ≢ 200
    → (create_user_handler body s).1 ≡ s
unfolding create_user_handler create_user create_numbered
create_user-Effect body s r given refused = ground arith

get-Effect :
    (id flag uuid : String) (s : State)
    → ((get_user id flag s).1 ≡ s)
      × ((list_group_members_handler id s).1 ≡ s)
      × ((get_user_roles_handler uuid s).1 ≡ s)
      × ((get_permission_handler uuid s).1 ≡ s)
unfolding get_user list_group_members_handler get_user_roles_handler get_permission_handler
get-Effect id flag uuid s = (ground arith, ground arith, ground arith, ground arith)

answered-Effect :
    (x : Response × State) (s : State) (r : Response)
    → (x.0.status ≢ 200 → x.1 ≡ s)
    → (answered x).0 ≡ some r
    → r.status ≢ 200
    → (answered x).1 ≡ s
answered-Effect (x, t) s r unchanged given refused = unchanged (ground arith)

-- A request that is answered with a status other than 200 leaves the state as it was, whichever
-- handler it goes to and at whichever check it fails.
pub serve-refused :
    (request : Request) (s : State) (r : Response)
    → (serve request s).0 ≡ some r
    → r.status ≢ 200
    → (serve request s).1 ≡ s
unfolding serve list_users_handler list_groups_handler list_roles_handler list_permissions_handler
serve-refused (get_users flag) s r given refused = refl
serve-refused (post_users body) s r given refused = create_user-Effect body s r given refused
serve-refused (get_users_id id flag) s r given refused = (get-Effect id flag "" s).0
serve-refused (put_users_id id body) s r given refused =
    answered-Effect _ s r (update_user-Effect id body s) given refused
serve-refused (delete_users_id id) s r given refused =
    answered-Effect _ s r (delete_user-Effect id s) given refused
serve-refused (put_users_enabled id body) s r given refused =
    answered-Effect _ s r (set_user_enabled-Effect id body s) given refused
serve-refused get_groups s r given refused = refl
serve-refused (get_groups_users id) s r given refused = (get-Effect id "" "" s).1
serve-refused (post_groups_users id user_id) s r given refused =
    answered-Effect _ s r (add_group_member-Effect id user_id s) given refused
serve-refused (delete_groups_users id user_id) s r given refused =
    answered-Effect _ s r (remove_group_member-Effect id user_id s) given refused
serve-refused get_roles s r given refused = refl
serve-refused (get_users_roles uuid) s r given refused = (get-Effect "" "" uuid s).2
serve-refused (put_users_roles uuid body) s r given refused =
    answered-Effect _ s r (update_user_roles-Effect uuid body s) given refused
serve-refused get_permissions s r given refused = refl
serve-refused (get_permissions_uuid uuid) s r given refused = (get-Effect "" "" uuid s).3
serve-refused (put_permissions_uuid uuid body) s r given refused =
    answered-Effect _ s r (update_permission-Effect uuid body s) given refused
