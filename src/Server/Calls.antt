-- ===== src/Server/Calls.antt =====
-- The calls that write to the `State` of cmd/test-server/state.go. The mutex is held for the whole of
-- each method, so that concurrent requests are a sequence of calls.
pub mod Laws
use baton_tenable_vm.Prelude.{Bool, List, Option, String, [], string_eq, ℕ_eq, ℤ, ℤ_eq, ◌∷◌}
use baton_tenable_vm.Server.Types.{PermissionObject, PermissionSubject}
use baton_tenable_vm.Server.State.{State}
use baton_tenable_vm.Server.State.Users.{create_user, delete_user, set_user_enabled, update_user}
use baton_tenable_vm.Server.State.Groups.{add_group_member, remove_group_member}
use baton_tenable_vm.Server.State.Roles.{set_user_roles}
use baton_tenable_vm.Server.State.Permissions.{update_permission}

pub data Call : Type 0 where
  create : String → String → String → ℤ → Call
  delete : ℤ → Call
  set_enabled : ℤ → Bool → Call
  update : ℤ → String → ℤ → String → Option Bool → Call
  add_member : ℤ → ℤ → Call
  remove_member : ℤ → ℤ → Call
  set_roles : String → List String → Call
  set_permission :
      String → String → List String → List PermissionObject → List PermissionSubject → Call

unfoldable pub perform : Call → State → State
perform (create username email name permissions) s =
    (create_user username email name permissions s).1
perform (delete id) s = (delete_user id s).1
perform (set_enabled id enabled) s = (set_user_enabled id enabled s).1
perform (update id name permissions email enabled) s =
    (update_user id name permissions email enabled s).1
perform (add_member group_id user_id) s = (add_group_member group_id user_id s).1
perform (remove_member group_id user_id) s = (remove_group_member group_id user_id s).1
perform (set_roles user_uuid role_uuids) s = (set_user_roles user_uuid role_uuids s).1
perform (set_permission uuid name actions objects subjects) s =
    (update_permission uuid name actions objects subjects s).1

unfoldable pub perform_all : List Call → State → State
perform_all [] s = s
perform_all (c ∷ cs) s = perform_all cs (perform c s)
