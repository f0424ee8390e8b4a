-- ===== src/Server/State/Groups.antt =====
-- The methods of `State` on groups and memberships (cmd/test-server/state.go).
use baton_tenable_vm.Prelude.{
  Bool, List, Option, String, [], contains, delete_eq, false, if◌then◌else◌, map, none, put, some,
  string_eq, true, ℕ, ℕ_eq, ℤ, ℤ_eq, ◌++◌, ◌∷◌,
}
use mathlib.Core.Option
use baton_tenable_vm.Server.Types.{User, Group}
use baton_tenable_vm.Server.State.{State, recompute_group_counts_locked}
use baton_tenable_vm.Server.State.Users.{copy_user_locked, write_user}

unfoldable pub list_groups : State → List Group
list_groups s = map s.group_at s.group_list

unfoldable pub get_group_by_id : State → ℤ → Option Group
get_group_by_id s id = Option.map s.group_at (s.groups_by_id id)

-- `none` is "not found".
unfoldable pub group_membership_fixed : State → ℤ → Option Bool
group_membership_fixed s group_id =
    Option.map (λ g. (s.group_at g).membership_fixed) (s.groups_by_id group_id)

-- The loop of `ListGroupMembers`: members that are not users are passed over.
unfoldable pub member_users : State → List String → List User
member_users s [] = []
member_users s (m ∷ members) =
    let rest = member_users s members in
    elim (s.users m) [ none ↦ rest | some u ↦ copy_user_locked s u ∷ rest ]

unfoldable pub list_group_members : State → ℤ → Option (List User)
unfolding member_users
list_group_members s group_id =
    Option.map (λ g. member_users s (s.group_members (s.group_at g).uuid)) (s.groups_by_id group_id)

-- The part of `AddGroupMember` after its three early returns.
unfoldable pub insert_member : State → ℕ → ℕ → State
insert_member s g u =
    let group_uuid = (s.group_at g).uuid in
    let user = s.user_at u in
    let groups =
      if contains user.group_uuids group_uuid
      then user.group_uuids
      else user.group_uuids ++ group_uuid ∷ [] in
    recompute_group_counts_locked (record (write_user s u (record user { group_uuids = groups })) {
      group_members = put s.group_members group_uuid (s.group_members group_uuid ++ user.uuid ∷ []);
    })

-- The result is `(alreadyMember, ok)`.
unfoldable pub add_group_member : ℤ → ℤ → State → (Bool × Bool) × State
add_group_member group_id user_id s = elim (s.groups_by_id group_id) [
  | none ↦ ((false, false), s)
  | some g ↦ elim (s.users_by_id user_id) [
    | none ↦ ((false, false), s)
    | some u ↦
        if contains (s.group_members (s.group_at g).uuid) (s.user_at u).uuid
        then ((true, true), s)
        else ((false, true), insert_member s g u)
  ]
]

-- The part of `RemoveGroupMember` after its three early returns.
unfoldable pub erase_member : State → ℕ → ℕ → State
erase_member s g u =
    let group_uuid = (s.group_at g).uuid in
    let user = s.user_at u in
    recompute_group_counts_locked
      (record (write_user s u
        (record user { group_uuids = delete_eq user.group_uuids group_uuid })) {
          group_members =
              put s.group_members group_uuid (delete_eq (s.group_members group_uuid) user.uuid);
        })

-- The result is `(alreadyRemoved, ok)`.
unfoldable pub remove_group_member : ℤ → ℤ → State → (Bool × Bool) × State
remove_group_member group_id user_id s = elim (s.groups_by_id group_id) [
  | none ↦ ((false, false), s)
  | some g ↦ elim (s.users_by_id user_id) [
    | none ↦ ((false, false), s)
    | some u ↦
        if contains (s.group_members (s.group_at g).uuid) (s.user_at u).uuid
        then ((false, true), erase_member s g u)
        else ((true, true), s)
  ]
]
