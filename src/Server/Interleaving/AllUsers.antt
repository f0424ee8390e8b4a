-- ===== src/Server/Interleaving/AllUsers.antt =====
-- The All Users group under concurrent requests to cmd/test-server (handlers.go, state.go).
use baton_tenable_vm.Prelude.{
  All, List, [], arith, refl, string_eq, subst, suc, zero, ℕ, ℕ_eq, ℤ_eq, ◌++◌, ◌+◌, ◌-◌, ◌<◌, ◌^◌,
  ◌∷◌, ◌≤◌,
}
use baton_tenable_vm.Server.State.{State}
use baton_tenable_vm.Server.Calls.{
  Call, create, delete, set_enabled, update, add_member, remove_member, set_roles, set_permission,
  perform,
}
use baton_tenable_vm.Server.Interleaving.{
  Server, Change, join, leave, Step, call, check, proceed, Reach, here, next, IsUnchecked, call_of,
  group_of,
}
use baton_tenable_vm.Server.Interleaving.Groups.{IsOrdinary-same, perform-SameGroups}
use baton_tenable_vm.Server.Invariant.{AllUsersComplete, IsWellFormed}
use baton_tenable_vm.Server.Invariant.AllUsers.{
  IsOrdinary, add_group_member-AllUsersComplete, create_user-AllUsersComplete,
  delete_user-AllUsersComplete, edit_user-AllUsersComplete, remove_group_member-AllUsersComplete,
  set_user_roles-AllUsersComplete, IsOrdinary-of_not_fixed,
}
use baton_tenable_vm.Server.State.Cases.{update_permission_cases}
use baton_tenable_vm.Server.State.Permissions.{rewrite_permission}
use baton_tenable_vm.Server.State.Users.{enabled_set, set_user_enabled, update_user, updated}
use baton_tenable_vm.Server.Calls.Laws.{last-perform, perform-IsWellFormed}
use baton_tenable_vm.Server.Invariant.Start.{
  new_state-AllUsersComplete, new_state-IsWellFormed, new_state-next_user_id,
}
use baton_tenable_vm.Server.Seeds.{new_state}

-- What holds after `n` steps: the change of each waiting handler is to an ordinary group.
record IsSafe (n : ℕ) (s : State) (cs : List Change) : Type 0 where
  pub well_formed : IsWellFormed s
  pub numbered : well_formed.numbers.last ≤ 1006 + n
  pub complete : AllUsersComplete s
  pub ordinary : All (λ c. IsOrdinary s (group_of c)) cs

call-AllUsersComplete :
    (c : Call) (s : State) (w : IsWellFormed s)
    → w.numbers.last + 1 < 2 ^ 48
    → IsUnchecked c
    → AllUsersComplete s
    → AllUsersComplete (perform c s)
unfolding perform set_user_enabled update_user
call-AllUsersComplete (create username email name permissions) s w room free h =
    create_user-AllUsersComplete s username email name permissions w room h
call-AllUsersComplete (delete id) s w room free h = delete_user-AllUsersComplete id s h
call-AllUsersComplete (set_enabled id enabled) s w room free h =
    edit_user-AllUsersComplete id (enabled_set enabled) s (λ user. refl) h
call-AllUsersComplete (update id name permissions email enabled) s w room free h =
    edit_user-AllUsersComplete id (updated name permissions email enabled) s (λ user. refl) h
call-AllUsersComplete (add_member group_id user_id) s w room free h = absurd free
call-AllUsersComplete (remove_member group_id user_id) s w room free h = absurd free
call-AllUsersComplete (set_roles user_uuid role_uuids) s w room free h =
    set_user_roles-AllUsersComplete user_uuid role_uuids s h
call-AllUsersComplete (set_permission uuid name actions objects subjects) s w room free h =
    update_permission_cases AllUsersComplete s h uuid name actions objects subjects
      (λ p found. unfold rewrite_permission in h)

change-AllUsersComplete :
    (c : Change) (s : State)
    → IsOrdinary s (group_of c)
    → AllUsersComplete s
    → AllUsersComplete (perform (call_of c) s)
unfolding perform
change-AllUsersComplete (join group_id user_id) s =
    add_group_member-AllUsersComplete group_id user_id s
change-AllUsersComplete (leave group_id user_id) s =
    remove_group_member-AllUsersComplete group_id user_id s

IsOrdinary-perform :
    (c : Call) (s : State) (cs : List Change)
    → All (λ d. IsOrdinary s (group_of d)) cs
    → All (λ d. IsOrdinary (perform c s) (group_of d)) cs
IsOrdinary-perform c s [] h = tt
IsOrdinary-perform c s (d ∷ cs) h = (
  IsOrdinary-same s (perform c s) (group_of d) (perform-SameGroups c s) h.0,
  IsOrdinary-perform c s cs h.1,
)

perform-IsSafe :
    (n : ℕ) (c : Call) (s : State) (cs : List Change)
    → n < 2 ^ 48 - 1007
    → (h : IsSafe n s cs) → AllUsersComplete (perform c s)
    → IsSafe (suc n) (perform c s) cs
perform-IsSafe n c s cs few h complete =
    let room : h.well_formed.numbers.last + 1 < 2 ^ 48 = omega (arith, h.numbered) in
    let w' = perform-IsWellFormed c s h.well_formed room in
    record {
      well_formed = w';
      numbered = omega (arith, last-perform c s h.well_formed w' room, h.numbered);
      complete = complete;
      ordinary = IsOrdinary-perform c s cs h.ordinary;
    }

All-split :
    (P : Change → Type 0) (before : List Change) (c : Change) (after : List Change)
    → All P (before ++ c ∷ after)
    → P c × All P (before ++ after)
All-split P [] c after h = h
All-split P (b ∷ before) c after h =
    let rest = All-split P before c after h.1 in (rest.0, (h.0, rest.1))

step-IsSafe :
    {v w : Server} (n : ℕ)
    → n < 2 ^ 48 - 1007
    → Step v w
    → IsSafe n v.state v.checked
    → IsSafe (suc n) w.state w.checked
step-IsSafe {v} {w} n few (call c free state checked) h =
    let room : h.well_formed.numbers.last + 1 < 2 ^ 48 = omega (arith, h.numbered) in
    rw (state, checked)
      (perform-IsSafe n c v.state v.checked few h
        (call-AllUsersComplete c v.state h.well_formed room free h.complete))
step-IsSafe {v} {w} n few (check c passed state checked) h =
    let ordinary = IsOrdinary-of_not_fixed v.state (group_of c) h.well_formed.groups passed in
    rw (state, checked)
      (record {
        well_formed = h.well_formed;
        numbered = omega (arith, h.numbered);
        complete = h.complete;
        ordinary = (ordinary, h.ordinary);
      })
step-IsSafe {v} {w} n few (proceed before c after waiting state checked) h =
    let split =
      All-split (λ d. IsOrdinary v.state (group_of d)) before c after
        (subst (All (λ d. IsOrdinary v.state (group_of d))) waiting h.ordinary) in
    rw (state, checked)
      (perform-IsSafe n (call_of c) v.state (before ++ after) few
        (record {
          well_formed = h.well_formed;
          numbered = h.numbered;
          complete = h.complete;
          ordinary = split.1;
        })
        (change-AllUsersComplete c v.state split.0 h.complete))

Reach-IsSafe :
    {v w : Server} (n : ℕ)
    → n < 2 ^ 48 - 1006
    → Reach v n w
    → IsSafe 0 v.state v.checked
    → IsSafe n w.state w.checked
Reach-IsSafe zero few here h = h
Reach-IsSafe (suc n) few (next r step) h =
    step-IsSafe n (omega arith) step (Reach-IsSafe n (omega arith) r h)

start-IsSafe : IsSafe 0 new_state []
start-IsSafe = record {
  well_formed = new_state-IsWellFormed;
  numbered = ground (arith, new_state-IsWellFormed.numbers.counter, new_state-next_user_id);
  complete = new_state-AllUsersComplete;
  ordinary = tt;
}

-- From the seeded state with no request under way, after fewer than 2^48 - 1006 steps of any requests
-- in any interleaving, the members of the All Users group are exactly the users, in order.
pub Reach-AllUsersComplete :
    {w : Server} (n : ℕ)
    → n < 2 ^ 48 - 1006
    → Reach (record { state = new_state; checked = [] }) n w
    → AllUsersComplete w.state
Reach-AllUsersComplete n few r = (Reach-IsSafe n few r start-IsSafe).complete
