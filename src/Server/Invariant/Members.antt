-- ===== src/Server/Invariant/Members.antt =====
-- The methods of cmd/test-server/state.go and the two sides of each membership.
use baton_tenable_vm.Prelude.{
  Bool-cases, IsDistinct, IsDistinct-concat, IsDistinct-delete_func, List, String, [], arith,
  contains, contains-append, contains-delete_eq, contains-delete_func, eq_iff, eq_refl, false, inl,
  inr, none, put, some, string_eq, true, ℕ, ℕ_eq, ℤ, ℤ_eq, ◌==◌, ◌∷◌, ◌≡◌,
}
use baton_tenable_vm.Server.Types.{User}
use baton_tenable_vm.Server.State.{State, recompute_group_counts_locked}
use baton_tenable_vm.Server.State.Users.{write_user, insert_user, remove_user, all_users_group_uuid}
use baton_tenable_vm.Server.State.Groups.{insert_member, erase_member}
use baton_tenable_vm.Server.Invariant.{UsersIndexed, MembersLinked}

-- A write that leaves the uuid and the groups of the user alone.
pub write_user-MembersLinked :
    (s : State) (u : ℕ) (user : User)
    → user.uuid ≡ (s.user_at u).uuid
    → user.group_uuids ≡ (s.user_at u).group_uuids
    → MembersLinked s
    → MembersLinked (write_user s u user)
unfolding put
write_user-MembersLinked s u user same_uuid same_groups h = record {
  linked = λ v e g. ground (arith, h.linked v e g);
  known = h.known;
  distinct = h.distinct;
}

put-IsDistinct :
    (members : String → List String) (g : String) (ms : List String)
    → ((k : String) → IsDistinct (members k))
    → IsDistinct ms
    → (k : String) → IsDistinct (put members g ms k)
unfolding put
put-IsDistinct members g ms h d k = elim (Bool-cases (g == k)) [
  | inl same ↦ rw (same, put) d
  | inr other ↦ rw (other, put) (h k)
]

pub insert_user-MembersLinked :
    (s : State) (user : User)
    → s.users user.uuid ≡ none
    → user.group_uuids ≡ all_users_group_uuid ∷ []
    → UsersIndexed s
    → MembersLinked s
    → MembersLinked (insert_user s user)
unfolding insert_user put recompute_group_counts_locked contains
insert_user-MembersLinked s user new_uuid groups i h = record {
  linked = λ v e g. ground (
    arith,
    λ (old : contains s.user_list v ≡ true). h.linked v old g,
    i.listed v,
    h.known g user.uuid new_uuid,
    eq_iff all_users_group_uuid g,
    contains-append s.user_list (s.next_address ∷ []) v,
    contains-append (s.group_members all_users_group_uuid) (user.uuid ∷ []) user.uuid,
    contains-append (s.group_members all_users_group_uuid) (user.uuid ∷ []) (s.user_at v).uuid,
    eq_refl user.uuid,
    eq_iff user.uuid (s.user_at v).uuid,
  );
  known = λ g m e. ground (
    arith,
    h.known g m,
    eq_iff all_users_group_uuid g,
    eq_iff user.uuid m,
    contains-append (s.group_members all_users_group_uuid) (user.uuid ∷ []) m,
  );
  distinct = λ g.
      put-IsDistinct s.group_members all_users_group_uuid _ h.distinct
        (IsDistinct-concat (s.group_members all_users_group_uuid) user.uuid
          (h.known all_users_group_uuid user.uuid new_uuid) (h.distinct all_users_group_uuid))
        g;
}

pub remove_user-MembersLinked :
    (s : State) (id : ℤ) (u : ℕ)
    → s.users_by_id id ≡ some u
    → UsersIndexed s
    → MembersLinked s
    → MembersLinked (remove_user s id u)
unfolding remove_user put recompute_group_counts_locked
remove_user-MembersLinked s id u found i h = record {
  linked = λ v e g. ground (
    arith,
    λ (old : contains s.user_list v ≡ true). h.linked v old g,
    contains-delete_func (λ x. (s.user_at x).uuid == (s.user_at u).uuid) s.user_list v,
    contains-delete_eq (s.group_members g) (s.user_at u).uuid (s.user_at v).uuid,
    eq_iff (s.user_at u).uuid (s.user_at v).uuid,
    eq_iff (s.user_at v).uuid (s.user_at u).uuid,
  );
  known = λ g m e. ground (
    arith,
    h.known g m,
    contains-delete_eq (s.group_members g) (s.user_at u).uuid m,
    eq_iff (s.user_at u).uuid m,
  );
  distinct = λ g. IsDistinct-delete_func _ (s.group_members g) (h.distinct g);
}

-- AddGroupMember past its guard: the user was no member.
pub insert_member-MembersLinked :
    (s : State) (g u : ℕ)
    → contains s.user_list u ≡ true
    → contains (s.group_members (s.group_at g).uuid) (s.user_at u).uuid ≡ false
    → UsersIndexed s
    → MembersLinked s
    → MembersLinked (insert_member s g u)
unfolding insert_member put recompute_group_counts_locked contains
insert_member-MembersLinked s g u listed new i h = record {
  linked = λ v e k. ground (
    arith,
    h.linked v e k,
    h.linked u listed (s.group_at g).uuid,
    i.listed v e,
    i.listed u listed,
    contains-append (s.group_members (s.group_at g).uuid) ((s.user_at u).uuid ∷ [])
        (s.user_at v).uuid,
    contains-append (s.group_members (s.group_at g).uuid) ((s.user_at u).uuid ∷ [])
        (s.user_at u).uuid,
    contains-append (s.user_at u).group_uuids ((s.group_at g).uuid ∷ []) k,
    eq_iff (s.group_at g).uuid k,
    eq_iff (s.user_at u).uuid (s.user_at v).uuid,
    eq_refl (s.user_at u).uuid,
  );
  known = λ k m e. ground (
    arith,
    h.known k m e,
    i.listed u listed,
    eq_iff (s.group_at g).uuid k,
    eq_iff (s.user_at u).uuid m,
    contains-append (s.group_members (s.group_at g).uuid) ((s.user_at u).uuid ∷ []) m,
  );
  distinct = put-IsDistinct s.group_members (s.group_at g).uuid _ h.distinct (
      IsDistinct-concat (s.group_members (s.group_at g).uuid) (s.user_at u).uuid new
        (h.distinct (s.group_at g).uuid));
}

pub erase_member-MembersLinked :
    (s : State) (g u : ℕ)
    → contains s.user_list u ≡ true
    → UsersIndexed s
    → MembersLinked s
    → MembersLinked (erase_member s g u)
unfolding erase_member put recompute_group_counts_locked
erase_member-MembersLinked s g u listed i h = record {
  linked = λ v e k. ground (
    arith,
    h.linked v e k,
    i.listed v e,
    i.listed u listed,
    contains-delete_eq (s.group_members (s.group_at g).uuid) (s.user_at u).uuid (s.user_at v).uuid,
    contains-delete_eq (s.group_members (s.group_at g).uuid) (s.user_at u).uuid (s.user_at u).uuid,
    contains-delete_eq (s.user_at u).group_uuids (s.group_at g).uuid k,
    eq_iff (s.group_at g).uuid k,
    eq_iff (s.user_at u).uuid (s.user_at v).uuid,
    eq_refl (s.user_at u).uuid,
  );
  known = λ k m e. ground (
    arith,
    h.known k m e,
    eq_iff (s.group_at g).uuid k,
    contains-delete_eq (s.group_members (s.group_at g).uuid) (s.user_at u).uuid m,
  );
  distinct = put-IsDistinct s.group_members (s.group_at g).uuid _ h.distinct (
      IsDistinct-delete_func _ (s.group_members (s.group_at g).uuid)
        (h.distinct (s.group_at g).uuid));
}
