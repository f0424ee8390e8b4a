-- ===== src/Server/Interleaving.antt =====
-- Concurrent requests to cmd/test-server. The handlers of the two membership endpoints take the mutex
-- twice: GroupMembershipFixed, and, if that did not refuse, AddGroupMember or RemoveGroupMember. Calls
-- of other requests may come in between. The other handlers that write make one call.
pub mod Groups
pub mod AllUsers
use baton_tenable_vm.Prelude.{
  List, some, string_eq, suc, true, ℕ, ℕ_eq, ℤ, ℤ_eq, ◌++◌, ◌∷◌, ◌≡◌, ◌≢◌,
}
use baton_tenable_vm.Server.State.{State}
use baton_tenable_vm.Server.Calls.{Call, add_member, remove_member, perform}
use baton_tenable_vm.Server.State.Groups.{group_membership_fixed}

-- A membership change: the number of the group, and that of the user.
pub data Change : Type 0 where
  join : ℤ → ℤ → Change
  leave : ℤ → ℤ → Change

abbrev pub call_of : Change → Call
call_of (join group_id user_id) = add_member group_id user_id
call_of (leave group_id user_id) = remove_member group_id user_id

abbrev pub group_of : Change → ℤ
group_of (join group_id user_id) = group_id
group_of (leave group_id user_id) = group_id

-- The calls that a handler makes with no check before.
abbrev pub IsUnchecked : Call → Type 0
IsUnchecked (add_member _ _) = ⊥
IsUnchecked (remove_member _ _) = ⊥
IsUnchecked _ = Unit

-- The state, and the changes whose handler has passed its check and not yet made the call.
pub record Server : Type 0 where
  pub state : State
  pub checked : List Change

-- One critical section of one request, as what it makes of the state and of the waiting changes.
pub data Step (v w : Server) : Type 0 where
  call : (c : Call) → IsUnchecked c → w.state ≡ perform c v.state → w.checked ≡ v.checked → Step v w
  check :
      (c : Change)
      → group_membership_fixed v.state (group_of c) ≢ some true
      → w.state ≡ v.state
      → w.checked ≡ c ∷ v.checked
      → Step v w
  proceed :
      (before : List Change) (c : Change) (after : List Change)
      → v.checked ≡ before ++ c ∷ after
      → w.state ≡ perform (call_of c) v.state
      → w.checked ≡ before ++ after
      → Step v w

-- The servers that `v` becomes by that many steps.
pub data Reach (v : Server) : ℕ → Server → Type 0 where
  here : Reach v 0 v
  next : {n : ℕ} {w x : Server} → Reach v n w → Step w x → Reach v (suc n) x
