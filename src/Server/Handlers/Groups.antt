-- ===== src/Server/Handlers/Groups.antt =====
-- The handlers of /groups in cmd/test-server/handlers.go, with no other request between their calls.
use baton_tenable_vm.Prelude.{Bool, String, false, none, some, string_eq, true, ℕ_eq, ℤ, ℤ_eq}
use baton_tenable_vm.Server.Handlers.{
  users, groups, Response, not_found, with_number, write_error, write_header, write_json,
}
use baton_tenable_vm.Server.State.{State}
use baton_tenable_vm.Server.State.Groups.{
  add_group_member, group_membership_fixed, list_group_members, list_groups, remove_group_member,
}

unfoldable pub list_groups_handler : State → Response × State
list_groups_handler s = (write_json 200 (groups (list_groups s)), s)

unfoldable pub list_group_members_handler : String → State → Response × State
list_group_members_handler id = with_number id "invalid group id" λ n. λ s.
    elim (list_group_members s n) [
      | none ↦ (not_found "group not found", s)
      | some members ↦ (write_json 200 (users members), s)
    ]

-- The answer to `(already, ok)` of the change
abbrev membership_response : (Bool × Bool) × State → Response × State
membership_response ((already, false), s) = (not_found "group or user not found", s)
membership_response ((already, true), s) = (write_header 200, s)

-- What both handlers share: the two numbers, and the refusal for a group of fixed membership.
abbrev membership_handler :
    String → (ℤ → ℤ → State → (Bool × Bool) × State) → String → String → State → Response × State
membership_handler refusal change id user_id = with_number id "invalid group id" λ group.
    with_number user_id "invalid user id" λ member. λ s. elim (group_membership_fixed s group) [
      | some true ↦ (write_error 403 "Forbidden" refusal, s)
      | _ ↦ membership_response (change group member s)
    ]

unfoldable pub add_group_member_handler : String → String → State → Response × State
add_group_member_handler = membership_handler "users cannot be added to this group" add_group_member

unfoldable pub remove_group_member_handler : String → String → State → Response × State
remove_group_member_handler =
    membership_handler "users cannot be removed from this group" remove_group_member
