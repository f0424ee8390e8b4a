-- ===== src/Server/Handlers/Users.antt =====
-- The handlers of /users in cmd/test-server/handlers.go.
use baton_tenable_vm.Prelude.{
  Bool, Option, String, [], false, if◌then◌else◌, map, none, pos, some, string_eq, true, ℕ_eq, ℤ,
  ℤ_eq, ◌==◌, ◌||◌,
}
use mathlib.Core.Option
use baton_tenable_vm.Server.Handlers.{
  users, user, Response, bad_request, not_found, with_body, with_number, write_header, write_json,
}
use baton_tenable_vm.Server.Types.{User}
use baton_tenable_vm.Server.Invariant.Seed.{with_roles}
use baton_tenable_vm.Server.State.{State}
use baton_tenable_vm.Server.State.Users.{
  create_user, delete_user, get_user_by_id, list_users, set_user_enabled, update_user,
}

pub record CreateBody : Type 0 where
  pub username : String
  pub password : String
  pub email : String
  pub name : String
  pub permissions : ℤ

pub record UpdateBody : Type 0 where
  pub name : String
  pub permissions : ℤ
  pub email : String
  pub enabled : Option Bool

pub record EnabledBody : Type 0 where
  pub enabled : Bool

-- `RbacRoles = nil`
abbrev without_roles : User → User
without_roles u = record u { rbac_roles = [] }

unfoldable pub list_users_handler : String → State → Response × State
list_users_handler with_roles s = (
  write_json 200
      (users (if with_roles == "true" then list_users s else map without_roles (list_users s))),
  s,
)

unfoldable pub get_user : String → String → State → Response × State
get_user id with_roles = with_number id "invalid user id" λ n. λ s. elim (get_user_by_id s n) [
  | none ↦ (not_found "user not found", s)
  | some u ↦ (write_json 200 (user (if with_roles == "true" then u else without_roles u)), s)
]

-- `none` where `CreateUser` panics
abbrev created_response : Option User → Option Response
created_response o = Option.map (λ u. write_json 200 (user u)) o

unfoldable pub create_user_handler : Option CreateBody → State → Option Response × State
create_user_handler none s = (some (bad_request "malformed body"), s)
create_user_handler (some body) s =
    if (body.username == "") || (body.password == "")
    then (some (bad_request "username and password are required"), s)
    else (let email = if body.email == "" then body.username else body.email in
        let permissions = if body.permissions == pos 0 then pos 16 else body.permissions in
        let (made, s') = create_user body.username email body.name permissions s in
        (created_response made, s'))

-- The answer of the handlers that change a user
abbrev changed_response : Option User × State → Response × State
changed_response (none, s) = (not_found "user not found", s)
changed_response (some u, s) = (write_json 200 (user u), s)

unfoldable pub update_user_handler : String → Option UpdateBody → State → Response × State
update_user_handler id body = with_number id "invalid user id" λ n.
    with_body body
      λ b. λ s. changed_response (update_user n b.name b.permissions b.email b.enabled s)

abbrev deleted_response : Bool × State → Response × State
deleted_response (false, s) = (not_found "user not found", s)
deleted_response (true, s) = (write_header 200, s)

unfoldable pub delete_user_handler : String → State → Response × State
delete_user_handler id =
    with_number id "invalid user id" λ n. λ s. deleted_response (delete_user n s)

unfoldable pub set_user_enabled_handler : String → Option EnabledBody → State → Response × State
set_user_enabled_handler id body =
    with_number id "invalid user id"
      λ n. with_body body λ b. λ s. changed_response (set_user_enabled n b.enabled s)
