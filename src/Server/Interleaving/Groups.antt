-- ===== src/Server/Interleaving/Groups.antt =====
-- The groups and their uuids under the calls on the state of cmd/test-server/state.go.
use baton_tenable_vm.Prelude.{
  Option, String, ap, arith, incr, none, refl, some, string_eq, sym, ℕ, ℕ_eq, ℤ, ℤ_eq, ◌∙◌, ◌≡◌,
}
use baton_tenable_vm.Server.State.{State, recompute_group_counts_locked}
use baton_tenable_vm.Server.Calls.{
  Call, create, delete, set_enabled, update, add_member, remove_member, set_roles, set_permission,
  perform,
}
use baton_tenable_vm.Server.Invariant.AllUsers.{IsOrdinary}
use baton_tenable_vm.Server.Invariant.Groups.{count_members_lem}
use baton_tenable_vm.Server.State.Groups.{erase_member, insert_member}
use baton_tenable_vm.Server.State.Users.{
  create_numbered, create_user, edit_user, insert_user, remove_user, set_user_enabled, update_user,
  enabled_set, updated,
}
use baton_tenable_vm.Server.Types.{User}
use baton_tenable_vm.Server.State.Cases.{
  add_group_member_cases, delete_user_cases, edit_user_cases, remove_group_member_cases,
  set_user_roles_cases, update_permission_cases,
}
use baton_tenable_vm.Server.State.Permissions.{rewrite_permission}
use baton_tenable_vm.Server.State.Roles.{assign_roles}

pub record SameGroups (s t : State) : Type 0 where
  pub by_id : t.groups_by_id ≡ s.groups_by_id
  pub uuid : (g : ℕ) → (t.group_at g).uuid ≡ (s.group_at g).uuid

pub IsOrdinary-same :
    (s t : State) (group_id : ℤ) → SameGroups s t → IsOrdinary s group_id → IsOrdinary t group_id
IsOrdinary-same s t group_id h ordinary g found = λ all.
    ordinary g (sym (ap (λ (m : ℤ → Option ℕ). m group_id) h.by_id) ∙ found) (sym (h.uuid g) ∙ all)

SameGroups-refl : (s : State) → SameGroups s s
SameGroups-refl s = record { by_id = refl; uuid = λ g. refl }

recompute-SameGroups :
    (s t : State)
    → t.groups_by_id ≡ s.groups_by_id
    → t.group_at ≡ s.group_at
    → SameGroups s (recompute_group_counts_locked t)
unfolding recompute_group_counts_locked
recompute-SameGroups s t same_ids same_at = record {
  by_id = same_ids;
  uuid = λ g. ground (arith, count_members_lem t.group_members t.group_list t.group_at g);
}

create_numbered-SameGroups :
    (id : ℤ) (o : Option String) (username email name : String) (permissions : ℤ) (s : State)
    → SameGroups s (create_numbered id o username email name permissions s).1
unfolding create_numbered insert_user
create_numbered-SameGroups id none username email name permissions s = record {
  by_id = refl;
  uuid = λ g. refl;
}
create_numbered-SameGroups id (some uuid) username email name permissions s =
    recompute-SameGroups s _ refl refl

edit_user-SameGroups : (id : ℤ) (f : User → User) (s : State) → SameGroups s (edit_user id f s).1
edit_user-SameGroups id f s =
    edit_user_cases (SameGroups s) s (SameGroups-refl s) id f
      (λ u found. record { by_id = refl; uuid = λ g. refl })

pub perform-SameGroups : (c : Call) (s : State) → SameGroups s (perform c s)
unfolding perform create_user set_user_enabled update_user remove_user insert_member erase_member
    assign_roles rewrite_permission
perform-SameGroups (create username email name permissions) s =
    create_numbered-SameGroups (incr s.next_user_id) _ username email name permissions s
perform-SameGroups (delete id) s =
    delete_user_cases (SameGroups s) s (SameGroups-refl s) id
      (λ u found. recompute-SameGroups s _ refl refl)
perform-SameGroups (set_enabled id enabled) s = edit_user-SameGroups id (enabled_set enabled) s
perform-SameGroups (update id name permissions email enabled) s =
    edit_user-SameGroups id (updated name permissions email enabled) s
perform-SameGroups (add_member group_id user_id) s =
    add_group_member_cases (SameGroups s) s (SameGroups-refl s) group_id user_id
      (λ g u group user new. recompute-SameGroups s _ refl refl)
perform-SameGroups (remove_member group_id user_id) s =
    remove_group_member_cases (SameGroups s) s (SameGroups-refl s) group_id user_id
      (λ g u group user member. recompute-SameGroups s _ refl refl)
perform-SameGroups (set_roles user_uuid role_uuids) s =
    set_user_roles_cases (SameGroups s) s (SameGroups-refl s) user_uuid role_uuids
      (λ u found known all_known. record { by_id = refl; uuid = λ g. refl })
perform-SameGroups (set_permission uuid name actions objects subjects) s =
    update_permission_cases (SameGroups s) s (SameGroups-refl s) uuid name actions objects subjects
      (λ p found. record { by_id = refl; uuid = λ g. refl })
