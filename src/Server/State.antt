-- ===== src/Server/State.antt =====
-- The `State` of cmd/test-server/state.go. Its maps share their values by pointers, so each kind of
-- object has a memory (`user_at` and so on) from addresses to values, and the maps and lists hold
-- addresses. Each method holds the mutex from its first line to its last: it is one step.
pub mod Users
pub mod Groups
pub mod Roles
pub mod Permissions
pub mod Cases
use baton_tenable_vm.Prelude.{
  List, Option, String, [], length, none, pos, put, string_eq, ℕ, ℕ_eq, ℤ, ℤ_eq, ◌∷◌,
}
use baton_tenable_vm.Server.Types.{
  User, Group, Role, Permission, zero_user, zero_group, zero_role, zero_permission,
}

pub record State : Type 0 where
  pub container_uuid : String
  pub next_user_id : ℤ
  pub next_group_id : ℤ
  -- memory, and the first address that is not in use
  pub user_at : ℕ → User
  pub group_at : ℕ → Group
  pub role_at : ℕ → Role
  pub permission_at : ℕ → Permission
  pub next_address : ℕ
  pub users : String → Option ℕ
  pub users_by_id : ℤ → Option ℕ
  pub user_list : List ℕ
  pub groups : String → Option ℕ
  pub groups_by_id : ℤ → Option ℕ
  pub group_list : List ℕ
  pub roles : String → Option ℕ
  pub role_list : List ℕ
  pub permissions : String → Option ℕ
  pub perm_list : List ℕ
  -- A key that is missing reads as nil.
  pub group_members : String → List String
  pub user_roles : String → List String

-- `NewState` before it calls `seed`
unfoldable pub empty_state : String → State
empty_state container = record {
  container_uuid = container;
  next_user_id = pos 1000;
  next_group_id = pos 100;
  user_at = λ _. zero_user;
  group_at = λ _. zero_group;
  role_at = λ _. zero_role;
  permission_at = λ _. zero_permission;
  next_address = 0;
  users = λ _. none;
  users_by_id = λ _. none;
  user_list = [];
  groups = λ _. none;
  groups_by_id = λ _. none;
  group_list = [];
  roles = λ _. none;
  role_list = [];
  permissions = λ _. none;
  perm_list = [];
  group_members = λ _. [];
  user_roles = λ _. [];
}

-- The loop of `recomputeGroupCountsLocked`
unfoldable pub count_members : (String → List String) → List ℕ → (ℕ → Group) → ℕ → Group
count_members members [] at_ = at_
count_members members (g ∷ gs) at_ =
    count_members members gs
      (put at_ g (record (at_ g) { user_count = pos (length (members (at_ g).uuid)) }))

unfoldable pub recompute_group_counts_locked : State → State
recompute_group_counts_locked s = record s {
  group_at = count_members s.group_members s.group_list s.group_at;
}
