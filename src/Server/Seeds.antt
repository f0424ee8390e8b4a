-- ===== src/Server/Seeds.antt =====
-- `seed` and `NewState` of cmd/test-server. The objects are in the children; here are the loops that
-- store a copy of each object and enter its address in the indexes.
pub mod Constants
pub mod Users
pub mod Others
use baton_tenable_vm.Prelude.{
  List, String, [], map, pos, put, some, string_eq, ℕ_eq, ℤ_eq, ◌++◌, ◌+◌, ◌∷◌,
}
use baton_tenable_vm.Server.Types.{User, Group, Role, Permission, RbacRole}
use baton_tenable_vm.Server.State.{State, empty_state, recompute_group_counts_locked}
use baton_tenable_vm.Server.State.Users.{all_users_group_uuid}
use baton_tenable_vm.Server.Seeds.Constants.{
  container_uuid, group_eng_uuid, group_ops_uuid, group_product_uuid, user_alice_uuid,
  user_bob_uuid, user_carol_uuid, user_dave_uuid, user_eve_uuid, user_frank_uuid,
}
use baton_tenable_vm.Server.Seeds.Others.{seed_groups, seed_permissions, seed_roles}
use baton_tenable_vm.Server.Seeds.Users.{seed_users}

unfoldable pub seed_role : State → Role → State
seed_role s r = record s {
  role_at = put s.role_at s.next_address r;
  next_address = s.next_address + 1;
  roles = put s.roles r.uuid (some s.next_address);
  role_list = s.role_list ++ s.next_address ∷ [];
}

unfoldable pub seed_group : State → Group → State
seed_group s g = record s {
  group_at = put s.group_at s.next_address g;
  next_address = s.next_address + 1;
  groups = put s.groups g.uuid (some s.next_address);
  groups_by_id = put s.groups_by_id g.id (some s.next_address);
  group_list = s.group_list ++ s.next_address ∷ [];
}

unfoldable pub seed_user : State → User → State
seed_user s u = record s {
  user_at = put s.user_at s.next_address u;
  next_address = s.next_address + 1;
  users = put s.users u.uuid (some s.next_address);
  users_by_id = put s.users_by_id u.id (some s.next_address);
  user_list = s.user_list ++ s.next_address ∷ [];
  user_roles = put s.user_roles u.uuid (map (λ (r : RbacRole). r.uuid) u.rbac_roles);
}

unfoldable pub seed_permission : State → Permission → State
seed_permission s p = record s {
  permission_at = put s.permission_at s.next_address p;
  next_address = s.next_address + 1;
  permissions = put s.permissions p.uuid (some s.next_address);
  perm_list = s.perm_list ++ s.next_address ∷ [];
}

unfoldable pub seed_all : {A : Type 0} → (State → A → State) → State → List A → State
seed_all step s [] = s
seed_all step s (a ∷ as_) = seed_all step (step s a) as_

unfoldable pub seed_memberships : (String → List String) → String → List String
seed_memberships members =
    put
      (put
        (put
          (put members all_users_group_uuid (
            user_alice_uuid ∷ user_bob_uuid ∷ user_carol_uuid ∷ user_dave_uuid ∷ user_eve_uuid
            ∷ user_frank_uuid ∷ []))
          group_eng_uuid (user_alice_uuid ∷ user_bob_uuid ∷ []))
        group_product_uuid (user_bob_uuid ∷ user_carol_uuid ∷ []))
      group_ops_uuid (user_eve_uuid ∷ [])

-- `seed` from the memberships on
unfoldable pub seed_rest : State → State
seed_rest s =
    seed_all seed_permission
      (recompute_group_counts_locked
        (record s { next_user_id = pos 1006; group_members = seed_memberships s.group_members }))
      seed_permissions

unfoldable pub seed : State → State
seed s = seed_rest (
    seed_all seed_user (seed_all seed_group (seed_all seed_role s seed_roles) seed_groups)
      seed_users)

unfoldable pub new_state : State
new_state = seed (empty_state container_uuid)
