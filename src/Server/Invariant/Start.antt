-- ===== src/Server/Invariant/Start.antt =====
-- The memberships of `seed` (cmd/test-server/seeds.go), and NewState as a whole.
use Prim.Native.Char.{Char, code}
use baton_tenable_vm.Prelude.{
  All-contains, Bool-cases, IsDistinct, List, String, [], arith, beq→eq, contains, false, inl, inr,
  pos, put, refl, string_eq, subst, true, ℕ, ℕ_eq, ℤ_eq, ◌==◌, ◌∷◌, ◌≡◌, ◌≢◌,
}
use baton_tenable_vm.Server.Types.{Permission}
use baton_tenable_vm.Server.State.{State, empty_state, recompute_group_counts_locked}
use baton_tenable_vm.Server.Seeds.{
  seed_user, seed_group, seed_role, seed_permission, seed_all, seed_memberships, seed_rest, seed,
  new_state,
}
use baton_tenable_vm.Server.Invariant.{
  UsersIndexed, MembersLinked, NumbersFresh, IsWellFormed, AllUsersComplete,
}
use baton_tenable_vm.Server.Invariant.Seed.{
  with_users, with_users-GroupsIndexed, with_users-Indexed,
}
use baton_tenable_vm.Server.Seeds.Constants.{group_eng_uuid, group_ops_uuid, group_product_uuid}
use baton_tenable_vm.Server.State.Users.{all_users_group_uuid}
use baton_tenable_vm.Server.Invariant.Frame.{
  frame-GroupsIndexed, frame-MembersLinked, frame-RolesLinked, frame-UsersIndexed,
}
use baton_tenable_vm.Server.Invariant.Groups.{recompute-GroupsIndexed}
use baton_tenable_vm.Server.Invariant.Numbers.{shrink-NumbersFresh}
use baton_tenable_vm.Server.Seeds.Others.{seed_permissions}
use baton_tenable_vm.Server.Uuid.Laws.{format_uuid-ne}

abbrev with_members : State
with_members = record with_users {
  next_user_id = pos 1006;
  group_members = seed_memberships with_users.group_members;
}

-- To prove something of every group key: the four groups that have members, and the rest.
by_group :
    (Q : String → Type 0)
    → Q all_users_group_uuid
    → Q group_eng_uuid
    → Q group_product_uuid
    → Q group_ops_uuid
    → ((g : String)
        → (all_users_group_uuid == g) ≡ false
        → (group_eng_uuid == g) ≡ false
        → (group_product_uuid == g) ≡ false
        → (group_ops_uuid == g) ≡ false
        → Q g)
    → (g : String) → Q g
by_group Q a b c d rest g = elim (Bool-cases (all_users_group_uuid == g)) [
  | inl same ↦ subst Q (beq→eq all_users_group_uuid g same) a
  | inr no_a ↦ elim (Bool-cases (group_eng_uuid == g)) [
    | inl same ↦ subst Q (beq→eq group_eng_uuid g same) b
    | inr no_b ↦ elim (Bool-cases (group_product_uuid == g)) [
      | inl same ↦ subst Q (beq→eq group_product_uuid g same) c
      | inr no_c ↦ elim (Bool-cases (group_ops_uuid == g)) [
        | inl same ↦ subst Q (beq→eq group_ops_uuid g same) d
        | inr no_d ↦ rest g no_a no_b no_c no_d
      ]
    ]
  ]
]

abbrev LinkedAt : ℕ → String → Type 0
LinkedAt u g =
    contains (with_members.user_at u).group_uuids g
    ≡ contains (with_members.group_members g) (with_members.user_at u).uuid

with_members-linked :
    (u : ℕ) → contains with_members.user_list u ≡ true → (g : String) → LinkedAt u g
unfolding seed_all seed_role seed_group seed_user empty_state put contains seed_memberships
with_members-linked =
    All-contains (λ u. (g : String) → LinkedAt u g) with_members.user_list
      (
        by_group (LinkedAt 9) refl refl refl refl (λ g a b c d. ground arith),
        (
          by_group (LinkedAt 10) refl refl refl refl (λ g a b c d. ground arith),
          (
            by_group (LinkedAt 11) refl refl refl refl (λ g a b c d. ground arith),
            (
              by_group (LinkedAt 12) refl refl refl refl (λ g a b c d. ground arith),
              (
                by_group (LinkedAt 13) refl refl refl refl (λ g a b c d. ground arith),
                (by_group (LinkedAt 14) refl refl refl refl (λ g a b c d. ground arith), tt),
              ),
            ),
          ),
        ),
      )

seed_memberships-other :
    (members : String → List String) (g : String)
    → (all_users_group_uuid == g) ≡ false
    → (group_eng_uuid == g) ≡ false
    → (group_product_uuid == g) ≡ false
    → (group_ops_uuid == g) ≡ false
    → seed_memberships members g ≡ members g
unfolding seed_memberships put
seed_memberships-other members g a b c d = ground arith

with_members-MembersLinked : MembersLinked with_members
unfolding seed_all seed_role seed_group seed_user empty_state put contains seed_memberships
with_members-MembersLinked = record {
  linked = with_members-linked;
  known = λ g m e. ground arith;
  distinct =
      by_group (λ g. IsDistinct (with_members.group_members g))
        (refl, (refl, (refl, (refl, (refl, (refl, tt)))))) (refl, (refl, tt)) (refl, (refl, tt))
        (refl, tt) (λ g a b c d. rw (seed_memberships-other with_users.group_members g a b c d) tt);
}

-- `AllUsersComplete` and all parts of the invariant but the counts are about fields that the rest of
-- `seed` leaves alone.
module _ (s : State) (p : Permission) where
  seed_permission-UsersIndexed : UsersIndexed s → UsersIndexed (seed_permission s p)
  unfolding seed_permission
  seed_permission-UsersIndexed h = record {
    by_uuid = h.by_uuid;
    by_id = h.by_id;
    listed = λ u e. ground (arith, h.listed u e);
    distinct = h.distinct;
  }

  seed_permission-IsWellFormed : IsWellFormed s → IsWellFormed (seed_permission s p)
  unfolding seed_permission
  seed_permission-IsWellFormed w =
      let t : State = seed_permission s p in
      record {
        users = seed_permission-UsersIndexed w.users;
        groups = frame-GroupsIndexed s t refl refl refl refl w.groups;
        members = frame-MembersLinked s t refl refl refl refl w.members;
        roles = frame-RolesLinked s t refl refl refl refl refl refl w.roles;
        numbers = shrink-NumbersFresh s t refl (λ id e. e) (λ uuid e. e) w.numbers;
      }

seed_permissions-IsWellFormed :
    (ps : List Permission) (s : State)
    → IsWellFormed s
    → IsWellFormed (seed_all seed_permission s ps)
unfolding seed_all
seed_permissions-IsWellFormed [] s w = w
seed_permissions-IsWellFormed (p ∷ ps) s w =
    seed_permissions-IsWellFormed ps (seed_permission s p) (seed_permission-IsWellFormed s p w)

with_members-NumbersFresh : NumbersFresh with_members
unfolding seed_all seed_role seed_group seed_user empty_state put
with_members-NumbersFresh = record {
  last = 1006;
  counter = refl;
  free_id = λ n lt. ground arith;
  free_uuid = λ n uuid lt small e.
      let not_made =
        λ (c : Char) (s : String) (other : code c ≢ code "0"). format_uuid-ne n c s e other in
      ground (
        arith,
        not_made "1" "1111111-1111-4111-8111-111111111111" (omega arith),
        not_made "2" "2222222-2222-4222-8222-222222222222" (omega arith),
        not_made "3" "3333333-3333-4333-8333-333333333333" (omega arith),
        not_made "4" "4444444-4444-4444-8444-444444444444" (omega arith),
        not_made "5" "5555555-5555-4555-8555-555555555555" (omega arith),
        not_made "6" "6666666-6666-4666-8666-666666666666" (omega arith),
      );
}

recomputed-IsWellFormed : IsWellFormed (recompute_group_counts_locked with_members)
unfolding recompute_group_counts_locked
recomputed-IsWellFormed =
    let t : State = recompute_group_counts_locked with_members in
    record {
      users = frame-UsersIndexed with_users t refl refl refl refl refl with_users-Indexed.0;
      groups =
          recompute-GroupsIndexed with_users with_members refl refl refl with_users-GroupsIndexed;
      members = frame-MembersLinked with_members t refl refl refl refl with_members-MembersLinked;
      roles = frame-RolesLinked with_users t refl refl refl refl refl refl with_users-Indexed.1;
      numbers =
          shrink-NumbersFresh with_members t refl (λ id e. e) (λ uuid e. e)
            with_members-NumbersFresh;
    }

-- The state that the server starts with is well formed.
pub new_state-IsWellFormed : IsWellFormed new_state
unfolding new_state seed seed_rest
new_state-IsWellFormed =
    seed_permissions-IsWellFormed seed_permissions (recompute_group_counts_locked with_members)
      recomputed-IsWellFormed

pub new_state-AllUsersComplete : AllUsersComplete new_state
unfolding new_state seed seed_rest seed_all seed_role seed_group seed_user seed_permission
    empty_state recompute_group_counts_locked seed_memberships put
new_state-AllUsersComplete = refl

pub new_state-next_user_id : new_state.next_user_id ≡ pos 1006
unfolding new_state seed seed_rest seed_all seed_permission recompute_group_counts_locked
new_state-next_user_id = refl
