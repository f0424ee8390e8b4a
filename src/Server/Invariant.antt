-- ===== src/Server/Invariant.antt =====
-- The invariant of the state of cmd/test-server/state.go between two calls.
pub mod Users
pub mod Groups
pub mod Members
pub mod Roles
pub mod Numbers
pub mod Frame
pub mod Create
pub mod Methods
pub mod Seed
pub mod Start
pub mod AllUsers
use baton_tenable_vm.Prelude.{
  IsDistinct, String, [], contains, false, length, map, none, pos, some, string_eq, true, ℕ, ℕ_eq,
  ℤ, ℤ_eq, ◌<◌, ◌^◌, ◌≡◌,
}
use baton_tenable_vm.Server.Types.{RbacRole}
use baton_tenable_vm.Server.Uuid.{format_uuid}
use baton_tenable_vm.Server.State.Users.{all_users_group_uuid}
use baton_tenable_vm.Server.State.{State}

-- The three indexes of the users agree: they hold the same addresses, each under the keys of the
-- user that stands there, and no address is listed twice.
pub record UsersIndexed (s : State) : Type 0 where
  pub by_uuid :
      (uuid : String) (u : ℕ)
      → s.users uuid ≡ some u
      → ((s.user_at u).uuid ≡ uuid) × (contains s.user_list u ≡ true)
  pub by_id :
      (id : ℤ) (u : ℕ)
      → s.users_by_id id ≡ some u
      → ((s.user_at u).id ≡ id) × (contains s.user_list u ≡ true)
  pub listed :
      (u : ℕ)
      → contains s.user_list u ≡ true
      → (s.users (s.user_at u).uuid ≡ some u)
        × (s.users_by_id (s.user_at u).id ≡ some u)
        × (u < s.next_address)
  pub distinct : IsDistinct s.user_list

-- The index of the groups by number and the list of groups agree, the All Users group refuses
-- membership changes, and every group shows how many members it has.
pub record GroupsIndexed (s : State) : Type 0 where
  pub by_id :
      (id : ℤ) (g : ℕ)
      → s.groups_by_id id ≡ some g
      → ((s.group_at g).id ≡ id) × (contains s.group_list g ≡ true)
  pub listed : (g : ℕ) → contains s.group_list g ≡ true → s.groups_by_id (s.group_at g).id ≡ some g
  pub fixed :
      (g : ℕ)
      → contains s.group_list g ≡ true
      → (s.group_at g).uuid ≡ all_users_group_uuid
      → (s.group_at g).membership_fixed ≡ true
  pub counted :
      (g : ℕ)
      → contains s.group_list g ≡ true
      → (s.group_at g).user_count ≡ pos (length (s.group_members (s.group_at g).uuid))

-- The two sides of a membership agree: a user's own list of groups and the groups' lists of members.
pub record MembersLinked (s : State) : Type 0 where
  pub linked :
      (u : ℕ)
      → contains s.user_list u ≡ true
      → (g : String)
      → contains (s.user_at u).group_uuids g ≡ contains (s.group_members g) (s.user_at u).uuid
  pub known : (g m : String) → s.users m ≡ none → contains (s.group_members g) m ≡ false
  pub distinct : (g : String) → IsDistinct (s.group_members g)

-- A user's role objects carry the uuids that are assigned to the user; who is no user has no roles.
pub record RolesLinked (s : State) : Type 0 where
  pub assigned :
      (u : ℕ)
      → contains s.user_list u ≡ true
      → s.user_roles (s.user_at u).uuid ≡ map (λ (r : RbacRole). r.uuid) (s.user_at u).rbac_roles
  pub none_left : (m : String) → s.users m ≡ none → s.user_roles m ≡ []
  pub by_uuid : (uuid : String) (r : ℕ) → s.roles uuid ≡ some r → (s.role_at r).uuid ≡ uuid

-- The next numbers, and the uuids made from them, are not in use: `k` is the last number given.
pub record NumbersFresh (s : State) : Type 0 where
  pub last : ℕ
  pub counter : s.next_user_id ≡ pos last
  pub free_id : (n : ℕ) → last < n → s.users_by_id (pos n) ≡ none
  pub free_uuid :
      (n : ℕ) (uuid : String)
      → last < n
      → n < 2 ^ 48
      → format_uuid (pos n) ≡ some uuid
      → s.users uuid ≡ none

pub record IsWellFormed (s : State) : Type 0 where
  pub users : UsersIndexed s
  pub groups : GroupsIndexed s
  pub members : MembersLinked s
  pub roles : RolesLinked s
  pub numbers : NumbersFresh s

-- The All Users group holds exactly the users, in the order of the list of users.
abbrev pub AllUsersComplete : State → Type 0
AllUsersComplete s =
    s.group_members all_users_group_uuid ≡ map (λ u. (s.user_at u).uuid) s.user_list
