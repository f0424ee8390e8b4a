-- ===== src/Server/Invariant/Users.antt =====
-- The methods of cmd/test-server/state.go and the indexes of the users.
use baton_tenable_vm.Prelude.{
  IsDistinct-concat, IsDistinct-delete_func, [], arith, contains, contains-append,
  contains-delete_func, eq_iff, eq_refl, int_eq_iff, none, put, some, string_eq, ℕ, ℕ_eq, ℤ, ℤ_eq,
  ◌==◌, ◌∷◌, ◌≡◌,
}
use baton_tenable_vm.Server.Types.{User}
use baton_tenable_vm.Server.State.{State, recompute_group_counts_locked}
use baton_tenable_vm.Server.State.Users.{write_user, insert_user, remove_user}
use baton_tenable_vm.Server.Invariant.{UsersIndexed}

-- A write that leaves the keys of the user alone.
pub write_user-UsersIndexed :
    (s : State) (u : ℕ) (user : User)
    → user.uuid ≡ (s.user_at u).uuid
    → user.id ≡ (s.user_at u).id
    → UsersIndexed s
    → UsersIndexed (write_user s u user)
unfolding put
write_user-UsersIndexed s u user same_uuid same_id h = record {
  by_uuid = λ uuid v e. ground (arith, h.by_uuid uuid v e);
  by_id = λ id v e. ground (arith, h.by_id id v e);
  listed = λ v e. ground (arith, h.listed v e);
  distinct = h.distinct;
}

pub insert_user-UsersIndexed :
    (s : State) (user : User)
    → s.users user.uuid ≡ none
    → s.users_by_id user.id ≡ none
    → UsersIndexed s
    → UsersIndexed (insert_user s user)
unfolding insert_user put recompute_group_counts_locked contains
insert_user-UsersIndexed s user new_uuid new_id h = record {
  by_uuid = λ uuid v e. ground (
    arith,
    h.by_uuid uuid v,
    h.listed v,
    eq_iff user.uuid uuid,
    contains-append s.user_list (s.next_address ∷ []) v,
  );
  by_id = λ id v e. ground (
    arith,
    h.by_id id v,
    h.listed v,
    int_eq_iff user.id id,
    contains-append s.user_list (s.next_address ∷ []) v,
  );
  listed = λ v e. ground (
    arith,
    h.listed v,
    h.listed s.next_address,
    eq_iff user.uuid (s.user_at v).uuid,
    int_eq_iff user.id (s.user_at v).id,
    eq_refl user.uuid,
    int_eq_iff user.id user.id,
    contains-append s.user_list (s.next_address ∷ []) v,
  );
  distinct =
      IsDistinct-concat s.user_list s.next_address (ground (arith, h.listed s.next_address))
        h.distinct;
}

pub remove_user-UsersIndexed :
    (s : State) (id : ℤ) (u : ℕ)
    → s.users_by_id id ≡ some u
    → UsersIndexed s
    → UsersIndexed (remove_user s id u)
unfolding remove_user put recompute_group_counts_locked
remove_user-UsersIndexed s id u found h = record {
  by_uuid = λ uuid v e. ground (
    arith,
    h.by_uuid uuid v,
    h.by_id id u found,
    eq_iff (s.user_at u).uuid uuid,
    contains-delete_func (λ x. (s.user_at x).uuid == (s.user_at u).uuid) s.user_list v,
    eq_iff (s.user_at v).uuid (s.user_at u).uuid,
  );
  by_id = λ id' v e. ground (
    arith,
    h.by_id id' v,
    h.by_id id u found,
    h.listed u,
    h.listed v,
    int_eq_iff id id',
    contains-delete_func (λ x. (s.user_at x).uuid == (s.user_at u).uuid) s.user_list v,
    eq_iff (s.user_at v).uuid (s.user_at u).uuid,
  );
  listed = λ v e. ground (
    arith,
    h.listed v,
    h.by_id id u found,
    h.listed u,
    contains-delete_func (λ x. (s.user_at x).uuid == (s.user_at u).uuid) s.user_list v,
    eq_iff (s.user_at u).uuid (s.user_at v).uuid,
    eq_iff (s.user_at v).uuid (s.user_at u).uuid,
    int_eq_iff id (s.user_at v).id,
  );
  distinct = IsDistinct-delete_func _ s.user_list h.distinct;
}
