-- ===== src/Server/Invariant/Methods.antt =====
-- The methods of `State` that write (cmd/test-server/state.go) and the invariant.
use baton_tenable_vm.Prelude.{
  Bool, List, Option, String, contains, false, refl, some, string_eq, true, ℕ, ℕ_eq, ℤ, ℤ_eq, ◌≡◌,
}
use baton_tenable_vm.Server.Types.{User, PermissionObject, PermissionSubject, RbacRole}
use baton_tenable_vm.Server.State.{State, recompute_group_counts_locked}
use baton_tenable_vm.Server.State.Users.{
  write_user, edit_user, delete_user, enabled_set, set_user_enabled, update_user, updated,
  remove_user,
}
use baton_tenable_vm.Server.Invariant.{IsWellFormed, MembersLinked}
use baton_tenable_vm.Server.Invariant.Frame.{
  frame-GroupsIndexed, frame-MembersLinked, frame-RolesLinked, frame-UsersIndexed,
}
use baton_tenable_vm.Server.Invariant.Users.{write_user-UsersIndexed, remove_user-UsersIndexed}
use baton_tenable_vm.Server.Invariant.Members.{
  write_user-MembersLinked, erase_member-MembersLinked, insert_member-MembersLinked,
  remove_user-MembersLinked,
}
use baton_tenable_vm.Server.Invariant.Roles.{
  write_user-RolesLinked, remove_user-RolesLinked, assign_roles-RolesLinked,
}
use baton_tenable_vm.Server.Invariant.Numbers.{shrink-NumbersFresh, remove_user-NumbersFresh}
use baton_tenable_vm.Server.Invariant.Groups.{recompute-GroupsIndexed}
use baton_tenable_vm.Server.State.Groups.{
  add_group_member, erase_member, insert_member, remove_group_member,
}
use baton_tenable_vm.Server.State.Permissions.{update_permission, rewrite_permission}
use baton_tenable_vm.Server.State.Roles.{set_user_roles, find_roles, assign_roles}
use baton_tenable_vm.Server.State.Cases.{
  add_group_member_cases, delete_user_cases, edit_user_cases, remove_group_member_cases,
  set_user_roles_cases, update_permission_cases,
}

-- A write that leaves the keys, the groups and the roles of the user alone.
write_user-IsWellFormed :
    (s : State) (u : ℕ) (user : User)
    → user.uuid ≡ (s.user_at u).uuid
    → user.id ≡ (s.user_at u).id
    → user.group_uuids ≡ (s.user_at u).group_uuids
    → user.rbac_roles ≡ (s.user_at u).rbac_roles
    → IsWellFormed s
    → IsWellFormed (write_user s u user)
write_user-IsWellFormed s u user uuid id groups roles w = record {
  users = write_user-UsersIndexed s u user uuid id w.users;
  groups = frame-GroupsIndexed s _ refl refl refl refl w.groups;
  members = write_user-MembersLinked s u user uuid groups w.members;
  roles = write_user-RolesLinked s u user uuid roles w.roles;
  numbers = shrink-NumbersFresh s _ refl (λ id e. e) (λ uuid e. e) w.numbers;
}

-- The fields by which the rest of the state refers to a user.
abbrev KeepsKeys : (User → User) → Type 0
KeepsKeys f =
    (user : User)
    → ((f user).uuid ≡ user.uuid)
      × ((f user).id ≡ user.id)
      × ((f user).group_uuids ≡ user.group_uuids)
      × ((f user).rbac_roles ≡ user.rbac_roles)

edit_user-IsWellFormed :
    (id : ℤ) (f : User → User) (s : State)
    → KeepsKeys f
    → IsWellFormed s
    → IsWellFormed (edit_user id f s).1
edit_user-IsWellFormed id f s k w = edit_user_cases IsWellFormed s w id f (λ u found.
    let (uuid, same_id, groups, roles) = k (s.user_at u) in
    write_user-IsWellFormed s u _ uuid same_id groups roles w)

pub set_user_enabled-IsWellFormed :
    (id : ℤ) (enabled : Bool) (s : State)
    → IsWellFormed s
    → IsWellFormed (set_user_enabled id enabled s).1
unfolding set_user_enabled
set_user_enabled-IsWellFormed id enabled s w =
    edit_user-IsWellFormed id (enabled_set enabled) s (λ user. (refl, refl, refl, refl)) w

pub update_user-IsWellFormed :
    (id : ℤ) (name : String) (permissions : ℤ) (email : String) (enabled : Option Bool) (s : State)
    → IsWellFormed s
    → IsWellFormed (update_user id name permissions email enabled s).1
unfolding update_user
update_user-IsWellFormed id name permissions email enabled s w =
    edit_user-IsWellFormed id (updated name permissions email enabled) s
      (λ user. (refl, refl, refl, refl)) w

remove_user-IsWellFormed :
    (s : State) (id : ℤ) (u : ℕ)
    → s.users_by_id id ≡ some u
    → IsWellFormed s
    → IsWellFormed (remove_user s id u)
unfolding remove_user
remove_user-IsWellFormed s id u found w = record {
  users = remove_user-UsersIndexed s id u found w.users;
  groups = recompute-GroupsIndexed s _ refl refl refl w.groups;
  members = remove_user-MembersLinked s id u found w.users w.members;
  roles = remove_user-RolesLinked s id u found w.users w.roles;
  numbers = remove_user-NumbersFresh s id u w.numbers;
}

pub delete_user-IsWellFormed :
    (id : ℤ) (s : State) → IsWellFormed s → IsWellFormed (delete_user id s).1
delete_user-IsWellFormed id s w =
    delete_user_cases IsWellFormed s w id (λ u found. remove_user-IsWellFormed s id u found w)

-- What both membership methods do at the end: new groups for one user, new members, new counts.
abbrev regrouped : State → ℕ → List String → (String → List String) → State
regrouped s u groups members =
    recompute_group_counts_locked
      (record (write_user s u (record (s.user_at u) { group_uuids = groups })) {
        group_members = members;
      })

regrouped-IsWellFormed :
    (s : State) (u : ℕ) (groups : List String) (members : String → List String)
    → MembersLinked (regrouped s u groups members)
    → IsWellFormed s
    → IsWellFormed (regrouped s u groups members)
unfolding recompute_group_counts_locked
regrouped-IsWellFormed s u groups members linked w =
    let user : User = record (s.user_at u) { group_uuids = groups } in
    let written : State = write_user s u user in
    let t : State = regrouped s u groups members in
    record {
      users =
          frame-UsersIndexed written t refl refl refl refl refl
            (write_user-UsersIndexed s u user refl refl w.users);
      groups =
          recompute-GroupsIndexed s (record written { group_members = members }) refl refl refl
            w.groups;
      members = linked;
      roles =
          frame-RolesLinked written t refl refl refl refl refl refl
            (write_user-RolesLinked s u user refl refl w.roles);
      numbers = shrink-NumbersFresh s t refl (λ id e. e) (λ uuid e. e) w.numbers;
    }

insert_member-IsWellFormed :
    (s : State) (g u : ℕ)
    → contains s.user_list u ≡ true
    → contains (s.group_members (s.group_at g).uuid) (s.user_at u).uuid ≡ false
    → IsWellFormed s
    → IsWellFormed (insert_member s g u)
insert_member-IsWellFormed s g u listed new w =
    let linked = insert_member-MembersLinked s g u listed new w.users w.members in
    unfold insert_member in regrouped-IsWellFormed s u _ _ linked w

erase_member-IsWellFormed :
    (s : State) (g u : ℕ)
    → contains s.user_list u ≡ true
    → IsWellFormed s
    → IsWellFormed (erase_member s g u)
erase_member-IsWellFormed s g u listed w =
    let linked = erase_member-MembersLinked s g u listed w.users w.members in
    unfold erase_member in regrouped-IsWellFormed s u _ _ linked w

pub add_group_member-IsWellFormed :
    (group_id user_id : ℤ) (s : State)
    → IsWellFormed s
    → IsWellFormed (add_group_member group_id user_id s).1
add_group_member-IsWellFormed group_id user_id s w =
    add_group_member_cases IsWellFormed s w group_id user_id (λ g u group user new.
      insert_member-IsWellFormed s g u (w.users.by_id user_id u user).1 new w)

pub remove_group_member-IsWellFormed :
    (group_id user_id : ℤ) (s : State)
    → IsWellFormed s
    → IsWellFormed (remove_group_member group_id user_id s).1
remove_group_member-IsWellFormed group_id user_id s w =
    remove_group_member_cases IsWellFormed s w group_id user_id
      (λ g u group user member. erase_member-IsWellFormed s g u (w.users.by_id user_id u user).1 w)

assign_roles-IsWellFormed :
    (user_uuid : String) (role_uuids : List String) (s : State) (u : ℕ) (found : List RbacRole)
    → s.users user_uuid ≡ some u
    → find_roles s role_uuids ≡ some found
    → IsWellFormed s
    → IsWellFormed (assign_roles s user_uuid role_uuids u found)
unfolding assign_roles
assign_roles-IsWellFormed user_uuid role_uuids s u found known all_known w =
    let user : User = record (s.user_at u) { rbac_roles = found } in
    let written : State = write_user s u user in
    let t : State = assign_roles s user_uuid role_uuids u found in
    record {
      users =
          frame-UsersIndexed written t refl refl refl refl refl
            (write_user-UsersIndexed s u user refl refl w.users);
      groups = frame-GroupsIndexed s t refl refl refl refl w.groups;
      members =
          frame-MembersLinked written t refl refl refl refl
            (write_user-MembersLinked s u user refl refl w.members);
      roles =
          assign_roles-RolesLinked user_uuid role_uuids s u found known all_known w.users w.roles;
      numbers = shrink-NumbersFresh s t refl (λ id e. e) (λ uuid e. e) w.numbers;
    }

pub set_user_roles-IsWellFormed :
    (user_uuid : String) (role_uuids : List String) (s : State)
    → IsWellFormed s
    → IsWellFormed (set_user_roles user_uuid role_uuids s).1
set_user_roles-IsWellFormed user_uuid role_uuids s w =
    set_user_roles_cases IsWellFormed s w user_uuid role_uuids (λ u found known all_known.
      assign_roles-IsWellFormed user_uuid role_uuids s u found known all_known w)

pub update_permission-IsWellFormed :
    (uuid name : String) (actions : List String) (objects : List PermissionObject)
    (subjects : List PermissionSubject) (s : State)
    → IsWellFormed s
    → IsWellFormed (update_permission uuid name actions objects subjects s).1
unfolding rewrite_permission
update_permission-IsWellFormed uuid name actions objects subjects s w =
    update_permission_cases IsWellFormed s w uuid name actions objects subjects (λ p found.
      let t : State = rewrite_permission s p name actions objects subjects in
      record {
        users = frame-UsersIndexed s t refl refl refl refl refl w.users;
        groups = frame-GroupsIndexed s t refl refl refl refl w.groups;
        members = frame-MembersLinked s t refl refl refl refl w.members;
        roles = frame-RolesLinked s t refl refl refl refl refl refl w.roles;
        numbers = shrink-NumbersFresh s t refl (λ id e. e) (λ uuid e. e) w.numbers;
      })
