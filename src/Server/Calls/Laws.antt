-- ===== src/Server/Calls/Laws.antt =====
-- Sequences of calls on the state of cmd/test-server/state.go, and the invariant.
use baton_tenable_vm.Prelude.{
  List, Option, String, [], arith, incr, inl, inr, length, none, refl, some, string_eq, ℕ_eq, ℤ,
  ℤ_eq, ◌+◌, ◌-◌, ◌<◌, ◌^◌, ◌∷◌, ◌≡◌, ◌≤◌, ◌⊎◌,
}
use baton_tenable_vm.Server.State.{State, recompute_group_counts_locked}
use baton_tenable_vm.Server.State.Users.{
  create_numbered, create_user, delete_user, insert_user, remove_user, set_user_enabled,
  update_user, edit_user,
}
use baton_tenable_vm.Server.Calls.{
  Call, create, delete, set_enabled, update, add_member, remove_member, set_roles, set_permission,
  perform, perform_all,
}
use baton_tenable_vm.Server.Invariant.{IsWellFormed}
use baton_tenable_vm.Server.Invariant.Create.{create_user-IsWellFormed}
use baton_tenable_vm.Server.Invariant.Methods.{
  add_group_member-IsWellFormed, delete_user-IsWellFormed, remove_group_member-IsWellFormed,
  set_user_enabled-IsWellFormed, set_user_roles-IsWellFormed, update_permission-IsWellFormed,
  update_user-IsWellFormed,
}
use baton_tenable_vm.Server.State.Groups.{
  add_group_member, erase_member, insert_member, remove_group_member,
}
use baton_tenable_vm.Server.State.Permissions.{update_permission, rewrite_permission}
use baton_tenable_vm.Server.State.Roles.{set_user_roles, assign_roles}
use baton_tenable_vm.Server.Invariant.Start.{new_state-IsWellFormed, new_state-next_user_id}
use baton_tenable_vm.Server.Seeds.{new_state}

-- A call keeps the state well formed, if there is room for one more number.
pub perform-IsWellFormed :
    (c : Call) (s : State) (w : IsWellFormed s)
    → w.numbers.last + 1 < 2 ^ 48
    → IsWellFormed (perform c s)
unfolding perform
perform-IsWellFormed (create username email name permissions) s w room =
    create_user-IsWellFormed s username email name permissions w room
perform-IsWellFormed (delete id) s w room = delete_user-IsWellFormed id s w
perform-IsWellFormed (set_enabled id enabled) s w room =
    set_user_enabled-IsWellFormed id enabled s w
perform-IsWellFormed (update id name permissions email enabled) s w room =
    update_user-IsWellFormed id name permissions email enabled s w
perform-IsWellFormed (add_member group_id user_id) s w room =
    add_group_member-IsWellFormed group_id user_id s w
perform-IsWellFormed (remove_member group_id user_id) s w room =
    remove_group_member-IsWellFormed group_id user_id s w
perform-IsWellFormed (set_roles user_uuid role_uuids) s w room =
    set_user_roles-IsWellFormed user_uuid role_uuids s w
perform-IsWellFormed (set_permission uuid name actions objects subjects) s w room =
    update_permission-IsWellFormed uuid name actions objects subjects s w

next-create_numbered :
    (id : ℤ) (o : Option String) (username email name : String) (permissions : ℤ) (s : State)
    → (create_numbered id o username email name permissions s).1.next_user_id ≡ id
unfolding create_numbered insert_user recompute_group_counts_locked
next-create_numbered id none username email name permissions s = refl
next-create_numbered id (some uuid) username email name permissions s = refl

-- A call moves the counter by at most one.
next-perform :
    (c : Call) (s : State)
    → ((perform c s).next_user_id ≡ incr s.next_user_id)
      ⊎ ((perform c s).next_user_id ≡ s.next_user_id)
unfolding perform create_user delete_user set_user_enabled edit_user assign_roles rewrite_permission
    update_user add_group_member remove_group_member set_user_roles update_permission remove_user
    insert_member erase_member recompute_group_counts_locked
next-perform (create username email name permissions) s =
    inl (next-create_numbered (incr s.next_user_id) _ username email name permissions s)
next-perform (delete id) s = inr (ground arith)
next-perform (set_enabled id enabled) s = inr (ground arith)
next-perform (update id name permissions email enabled) s = inr (ground arith)
next-perform (add_member group_id user_id) s = inr (ground arith)
next-perform (remove_member group_id user_id) s = inr (ground arith)
next-perform (set_roles user_uuid role_uuids) s = inr (ground arith)
next-perform (set_permission uuid name actions objects subjects) s = inr (ground arith)

pub last-perform :
    (c : Call) (s : State) (w : IsWellFormed s) (w' : IsWellFormed (perform c s))
    → w.numbers.last + 1 < 2 ^ 48
    → w'.numbers.last ≤ w.numbers.last + 1
unfolding incr
last-perform c s w w' room = ground (arith, next-perform c s, w.numbers.counter, w'.numbers.counter)

perform_all-IsWellFormed :
    (cs : List Call) (s : State) (w : IsWellFormed s)
    → w.numbers.last + length cs < 2 ^ 48
    → IsWellFormed (perform_all cs s)
unfolding perform_all
perform_all-IsWellFormed [] s w room = w
perform_all-IsWellFormed (c ∷ cs) s w room =
    let w' = perform-IsWellFormed c s w (omega arith) in
    perform_all-IsWellFormed cs (perform c s) w' (omega (arith, last-perform c s w w'))

-- After fewer than 2^48 - 1007 calls in any order, from the seeded state of the server, the state is
-- well formed: the indexes of the users agree, every group shows its number of members, both sides of
-- each membership and of each role assignment agree, and no number or uuid will be given twice.
pub perform_all-new_state-IsWellFormed :
    (cs : List Call) → length cs < 2 ^ 48 - 1006 → IsWellFormed (perform_all cs new_state)
perform_all-new_state-IsWellFormed cs few =
    let w = new_state-IsWellFormed in
    let first : w.numbers.last ≡ 1006 = ground (arith, w.numbers.counter, new_state-next_user_id) in
    perform_all-IsWellFormed cs new_state w (omega (arith, first))
