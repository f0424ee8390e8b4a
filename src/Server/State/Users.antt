-- ===== src/Server/State/Users.antt =====
-- The methods of `State` on users (cmd/test-server/state.go). `(User{}, false)` is `none`, and the
-- copy that a method returns (`copyUserLocked`) is the value at the address.
use baton_tenable_vm.Prelude.{
  Bool, List, Option, String, [], delete_eq, delete_func, if◌then◌else◌, incr, map, none, pos, put,
  some, string_eq, true, ℕ, ℕ_eq, ℤ, ℤ_eq, ◌++◌, ◌+◌, ◌==◌, ◌∷◌,
}
use mathlib.Core.Option
use baton_tenable_vm.Server.Types.{User, zero_user}
use baton_tenable_vm.Server.Uuid.{new_deterministic_uuid}
use baton_tenable_vm.Server.State.{State, recompute_group_counts_locked}

abbrev pub all_users_group_uuid : String
all_users_group_uuid = "00000000-0000-0000-0000-000000000000"

abbrev pub copy_user_locked : State → ℕ → User
copy_user_locked s u = s.user_at u

unfoldable pub list_users : State → List User
list_users s = map (copy_user_locked s) s.user_list

unfoldable pub get_user_by_uuid : State → String → Option User
get_user_by_uuid s uuid = Option.map (copy_user_locked s) (s.users uuid)

unfoldable pub get_user_by_id : State → ℤ → Option User
get_user_by_id s id = Option.map (copy_user_locked s) (s.users_by_id id)

-- The part of `CreateUser` after the uuid is made: the new object, its indexes and its membership.
unfoldable pub insert_user : State → User → State
insert_user s user = recompute_group_counts_locked (record s {
  user_at = put s.user_at s.next_address user;
  next_address = s.next_address + 1;
  users = put s.users user.uuid (some s.next_address);
  users_by_id = put s.users_by_id user.id (some s.next_address);
  user_list = s.user_list ++ s.next_address ∷ [];
  group_members =
      put s.group_members all_users_group_uuid
        (s.group_members all_users_group_uuid ++ user.uuid ∷ []);
})

-- `CreateUser` after the counter has moved to `id` and the uuid is made, or its making panicked.
unfoldable pub create_numbered :
    ℤ → Option String → String → String → String → ℤ → State → Option User × State
create_numbered id none username email name permissions s = (none, record s { next_user_id = id })
create_numbered id (some uuid) username email name permissions s =
    let user : User = record zero_user {
      uuid = uuid;
      id = id;
      username = username;
      email = email;
      name = name;
      permissions = permissions;
      enabled = true;
      container_uuid = s.container_uuid;
      group_uuids = all_users_group_uuid ∷ [];
    } in
    (some user, insert_user (record s { next_user_id = id }) user)

-- The first component is `none` where the method panics.
unfoldable pub create_user : String → String → String → ℤ → State → Option User × State
create_user username email name permissions s =
    let id = incr s.next_user_id in
    create_numbered id (new_deterministic_uuid "user" id) username email name permissions s

-- The part of `DeleteUser` after the user at address `u` is found.
unfoldable pub remove_user : State → ℤ → ℕ → State
remove_user s id u =
    let uuid = (s.user_at u).uuid in
    recompute_group_counts_locked (record s {
      users = put s.users uuid none;
      users_by_id = put s.users_by_id id none;
      user_roles = put s.user_roles uuid [];
      user_list = delete_func (λ x. (s.user_at x).uuid == uuid) s.user_list;
      group_members = λ g. delete_eq (s.group_members g) uuid;
    })

unfoldable pub delete_user : ℤ → State → Bool × State
delete_user id s = elim (s.users_by_id id) [
  | none ↦ (Bool.false, s)
  | some u ↦ (true, remove_user s id u)
]

-- A write through the pointer `u`
abbrev pub write_user : State → ℕ → User → State
write_user s u user = record s { user_at = put s.user_at u user }

-- What both editing methods share: find the user, write it back changed, and return the copy.
unfoldable pub edit_user : ℤ → (User → User) → State → Option User × State
edit_user id f s = elim (s.users_by_id id) [
  | none ↦ (none, s)
  | some u ↦ (some (f (s.user_at u)), write_user s u (f (s.user_at u)))
]

abbrev pub enabled_set : Bool → User → User
enabled_set enabled user = record user { enabled = enabled }

unfoldable pub set_user_enabled : ℤ → Bool → State → Option User × State
set_user_enabled id enabled = edit_user id (enabled_set enabled)

-- Empty texts, a zero and an absent flag leave their fields as they are.
abbrev pub updated : String → ℤ → String → Option Bool → User → User
updated name permissions email enabled user = record user {
  name = if name == "" then user.name else name;
  email = if email == "" then user.email else email;
  permissions = if permissions == pos 0 then user.permissions else permissions;
  enabled = elim enabled [ none ↦ user.enabled | some flag ↦ flag ];
}

unfoldable pub update_user : ℤ → String → ℤ → String → Option Bool → State → Option User × State
update_user id name permissions email enabled =
    edit_user id (updated name permissions email enabled)
