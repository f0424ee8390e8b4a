-- ===== src/Server/Invariant/Frame.antt =====
-- States of cmd/test-server/state.go that agree on the fields on which a part of the invariant rests.
use baton_tenable_vm.Prelude.{arith, contains, string_eq, true, ℕ_eq, ℤ_eq, ◌≡◌}
use baton_tenable_vm.Server.State.{State}
use baton_tenable_vm.Server.Invariant.{UsersIndexed, GroupsIndexed, MembersLinked, RolesLinked}

module _ (s t : State) where
  pub frame-UsersIndexed :
      t.users ≡ s.users
      → t.users_by_id ≡ s.users_by_id
      → t.user_list ≡ s.user_list
      → t.user_at ≡ s.user_at
      → t.next_address ≡ s.next_address
      → UsersIndexed s
      → UsersIndexed t
  frame-UsersIndexed a b c d e h = record {
    by_uuid = λ uuid u p. ground (arith, h.by_uuid uuid u);
    by_id = λ id u p. ground (arith, h.by_id id u);
    listed = λ u p. ground (arith, h.listed u);
    distinct = rw c h.distinct;
  }

  pub frame-GroupsIndexed :
      t.groups_by_id ≡ s.groups_by_id
      → t.group_list ≡ s.group_list
      → t.group_at ≡ s.group_at
      → t.group_members ≡ s.group_members
      → GroupsIndexed s
      → GroupsIndexed t
  frame-GroupsIndexed a b c d h = record {
    by_id = λ id g p. ground (arith, h.by_id id g);
    listed = λ g p. ground (arith, h.listed g);
    fixed = λ g p q. ground (arith, h.fixed g);
    counted = λ g p. ground (arith, h.counted g);
  }

  pub frame-MembersLinked :
      t.users ≡ s.users
      → t.user_list ≡ s.user_list
      → t.user_at ≡ s.user_at
      → t.group_members ≡ s.group_members
      → MembersLinked s
      → MembersLinked t
  frame-MembersLinked a b c d h = record {
    linked = λ u p g. ground (arith, λ (q : contains s.user_list u ≡ true). h.linked u q g);
    known = λ g m p. ground (arith, h.known g m);
    distinct = λ g. rw d (h.distinct g);
  }

  pub frame-RolesLinked :
      t.users ≡ s.users
      → t.user_list ≡ s.user_list
      → t.user_at ≡ s.user_at
      → t.user_roles ≡ s.user_roles
      → t.roles ≡ s.roles
      → t.role_at ≡ s.role_at
      → RolesLinked s
      → RolesLinked t
  frame-RolesLinked a b c d e f h = record {
    assigned = λ u p. ground (arith, h.assigned u);
    none_left = λ m p. ground (arith, h.none_left m);
    by_uuid = λ uuid r p. ground (arith, h.by_uuid uuid r);
  }
