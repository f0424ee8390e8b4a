-- ===== src/Server/State/Cases.antt =====
-- The branches of the methods of `State` that write (cmd/test-server/state.go): to prove something of
-- the state behind a method, prove it of the state before, for the early returns, and of the state
-- that its last lines make, under the guards that lead there.
use baton_tenable_vm.Prelude.{
  Bool-cases, List, Option-cases, String, contains, false, inl, inr, some, string_eq, true, ℕ, ℕ_eq,
  ℤ, ℤ_eq, ◌≡◌,
}
use baton_tenable_vm.Server.Types.{User, RbacRole, PermissionObject, PermissionSubject}
use baton_tenable_vm.Server.State.{State}
use baton_tenable_vm.Server.State.Groups.{
  add_group_member, erase_member, insert_member, remove_group_member,
}
use baton_tenable_vm.Server.State.Permissions.{rewrite_permission, rewritten, update_permission}
use baton_tenable_vm.Server.State.Roles.{assign_roles, find_roles, set_user_roles}
use baton_tenable_vm.Server.State.Users.{delete_user, edit_user, remove_user, write_user}

module _ (P : State → Type 0) (s : State) (unchanged : P s) where
  pub edit_user_cases :
      (id : ℤ) (f : User → User)
      → ((u : ℕ) → s.users_by_id id ≡ some u → P (write_user s u (f (s.user_at u))))
      → P (edit_user id f s).1
  unfolding edit_user
  edit_user_cases id f written = elim (Option-cases (s.users_by_id id)) [
    | inl missing ↦ rw (missing, edit_user) unchanged
    | inr (u, found) ↦ rw (found, edit_user) (written u found)
  ]

  pub delete_user_cases :
      (id : ℤ)
      → ((u : ℕ) → s.users_by_id id ≡ some u → P (remove_user s id u))
      → P (delete_user id s).1
  unfolding delete_user
  delete_user_cases id removed = elim (Option-cases (s.users_by_id id)) [
    | inl missing ↦ rw (missing, delete_user) unchanged
    | inr (u, found) ↦ rw (found, delete_user) (removed u found)
  ]

  pub add_group_member_cases :
      (group_id user_id : ℤ)
      → ((g u : ℕ)
          → s.groups_by_id group_id ≡ some g
          → s.users_by_id user_id ≡ some u
          → contains (s.group_members (s.group_at g).uuid) (s.user_at u).uuid ≡ false
          → P (insert_member s g u))
      → P (add_group_member group_id user_id s).1
  unfolding add_group_member
  add_group_member_cases group_id user_id inserted = elim (Option-cases (s.groups_by_id group_id)) [
    | inl missing ↦ rw (missing, add_group_member) unchanged
    | inr (g, group) ↦ elim (Option-cases (s.users_by_id user_id)) [
      | inl missing ↦ rw (group, missing, add_group_member) unchanged
      | inr (u, user) ↦
          elim (Bool-cases (contains (s.group_members (s.group_at g).uuid) (s.user_at u).uuid)) [
            | inl member ↦ rw (group, user, member, add_group_member) unchanged
            | inr new ↦ rw (group, user, new, add_group_member) (inserted g u group user new)
          ]
    ]
  ]

  pub remove_group_member_cases :
      (group_id user_id : ℤ)
      → ((g u : ℕ)
          → s.groups_by_id group_id ≡ some g
          → s.users_by_id user_id ≡ some u
          → contains (s.group_members (s.group_at g).uuid) (s.user_at u).uuid ≡ true
          → P (erase_member s g u))
      → P (remove_group_member group_id user_id s).1
  unfolding remove_group_member
  remove_group_member_cases group_id user_id erased =
      elim (Option-cases (s.groups_by_id group_id)) [
        | inl missing ↦ rw (missing, remove_group_member) unchanged
        | inr (g, group) ↦ elim (Option-cases (s.users_by_id user_id)) [
          | inl missing ↦ rw (group, missing, remove_group_member) unchanged
          | inr (u, user) ↦
              elim (Bool-cases
                (contains (s.group_members (s.group_at g).uuid) (s.user_at u).uuid)) [
                  | inl member ↦
                      rw (group, user, member, remove_group_member) (erased g u group user member)
                  | inr new ↦ rw (group, user, new, remove_group_member) unchanged
                ]
        ]
      ]

  pub set_user_roles_cases :
      (user_uuid : String) (role_uuids : List String)
      → ((u : ℕ) (found : List RbacRole)
          → s.users user_uuid ≡ some u
          → find_roles s role_uuids ≡ some found
          → P (assign_roles s user_uuid role_uuids u found))
      → P (set_user_roles user_uuid role_uuids s).1
  unfolding set_user_roles
  set_user_roles_cases user_uuid role_uuids assigned = elim (Option-cases (s.users user_uuid)) [
    | inl missing ↦ rw (missing, set_user_roles) unchanged
    | inr (u, known) ↦ elim (Option-cases (find_roles s role_uuids)) [
      | inl missing ↦ rw (known, missing, set_user_roles) unchanged
      | inr (found, all_known) ↦
          rw (known, all_known, set_user_roles) (assigned u found known all_known)
    ]
  ]

  pub update_permission_cases :
      (uuid name : String) (actions : List String) (objects : List PermissionObject)
      (subjects : List PermissionSubject)
      → ((p : ℕ)
          → s.permissions uuid ≡ some p
          → P (rewrite_permission s p name actions objects subjects))
      → P (update_permission uuid name actions objects subjects s).1
  unfolding update_permission
  update_permission_cases uuid name actions objects subjects rewritten =
      elim (Option-cases (s.permissions uuid)) [
        | inl missing ↦ rw (missing, update_permission) unchanged
        | inr (p, found) ↦ rw (found, update_permission) (rewritten p found)
      ]
