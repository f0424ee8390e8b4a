-- ===== src/Server/Lookup.antt =====
-- Reading methods of cmd/test-server/state.go after writing ones.
use baton_tenable_vm.Prelude.{
  List, Option-cases, String, [], arith, beq_refl, contains, contains-delete_eq, delete_func, false,
  inl, inr, map, map-append, nat_eq_iff, none, put, put_self, refl, some, string_eq, true, ℕ, ℕ_eq,
  ℤ, ℤ_eq, ◌++◌, ◌+◌, ◌<◌, ◌==◌, ◌^◌, ◌∷◌, ◌≡◌,
}
use baton_tenable_vm.Server.Types.{User}
use baton_tenable_vm.Server.Invariant.{IsWellFormed}
use baton_tenable_vm.Server.Invariant.Create.{create_user_lem, created}
use baton_tenable_vm.Server.State.{State, recompute_group_counts_locked}
use baton_tenable_vm.Server.State.Roles.{get_user_roles}
use baton_tenable_vm.Server.State.Users.{
  create_user, delete_user, get_user_by_id, get_user_by_uuid, insert_user, list_users, remove_user,
}

map-put_fresh :
    (at_ : ℕ → User) (u : ℕ) (user : User) (us : List ℕ)
    → contains us u ≡ false
    → map (put at_ u user) us ≡ map at_ us
unfolding put contains
map-put_fresh at_ u user [] new = refl
map-put_fresh at_ u user (v ∷ us) new =
    ground (arith, map-put_fresh at_ u user us, nat_eq_iff u v, nat_eq_iff v u)

module _ (s : State) (user : User) where
  insert_user-get_user_by_id : get_user_by_id (insert_user s user) user.id ≡ some user
  unfolding insert_user recompute_group_counts_locked get_user_by_id
  insert_user-get_user_by_id = rw (put_self, put_self) refl

  insert_user-get_user_by_uuid : get_user_by_uuid (insert_user s user) user.uuid ≡ some user
  unfolding insert_user recompute_group_counts_locked get_user_by_uuid
  insert_user-get_user_by_uuid = rw (put_self, put_self) refl

  insert_user-list_users :
      contains s.user_list s.next_address ≡ false
      → list_users (insert_user s user) ≡ list_users s ++ user ∷ []
  unfolding insert_user recompute_group_counts_locked list_users
  insert_user-list_users new =
      rw (map-append, map-put_fresh s.user_at s.next_address user s.user_list new)
        (rw put_self refl)

-- In a well-formed state with room for one more number, `CreateUser` returns a user; afterwards that
-- user is found by its number and by its uuid, and it is the last of the users listed.
pub create_user-lookup :
    (s : State) (username email name : String) (permissions : ℤ) (w : IsWellFormed s)
    → w.numbers.last + 1 < 2 ^ 48
    → let t = (create_user username email name permissions s).1 in
      (user : User) × ((create_user username email name permissions s).0 ≡ some user)
      × (get_user_by_id t user.id ≡ some user)
      × (get_user_by_uuid t user.uuid ≡ some user)
      × (list_users t ≡ list_users s ++ user ∷ [])
unfolding list_users
create_user-lookup s username email name permissions w room =
    let (uuid, named, e) = create_user_lem s username email name permissions w.numbers room in
    let user = created s (w.numbers.last + 1) uuid username email name permissions in
    let t : State = record s { next_user_id = user.id } in
    let new : contains s.user_list s.next_address ≡ false =
      ground (arith, w.users.listed s.next_address) in
    rw e (
      user,
      refl,
      insert_user-get_user_by_id t user,
      insert_user-get_user_by_uuid t user,
      insert_user-list_users t user new,
    )

map-delete :
    (at_ : ℕ → User) (uuid : String) (us : List ℕ)
    → map at_ (delete_func (λ u. (at_ u).uuid == uuid) us)
      ≡ delete_func (λ (x : User). x.uuid == uuid) (map at_ us)
map-delete at_ uuid [] = refl
map-delete at_ uuid (u ∷ us) = ground (arith, map-delete at_ uuid us)

remove_user-lookup :
    (s : State) (id : ℤ) (u : ℕ)
    → let t = remove_user s id u in
      (get_user_by_id t id ≡ none)
      × (get_user_by_uuid t (s.user_at u).uuid ≡ none)
      × (get_user_roles t (s.user_at u).uuid ≡ none)
      × (list_users t ≡ delete_func (λ (x : User). x.uuid == (s.user_at u).uuid) (list_users s))
      × ((group : String) → contains (t.group_members group) (s.user_at u).uuid ≡ false)
unfolding remove_user recompute_group_counts_locked get_user_by_id get_user_by_uuid get_user_roles
    list_users
remove_user-lookup s id u = (
  rw put_self refl,
  rw put_self refl,
  ground (arith, put_self s.users (s.user_at u).uuid none),
  map-delete s.user_at (s.user_at u).uuid s.user_list,
  λ group.
      rw
        (
          contains-delete_eq (s.group_members group) (s.user_at u).uuid (s.user_at u).uuid,
          beq_refl (s.user_at u).uuid,
        )
        refl,
)

-- `DeleteUser` of a user that is found succeeds; afterwards the user is not found by its number or
-- uuid, has no roles to read and is a member of no group, and the other users are listed as before.
pub delete_user-lookup :
    (s : State) (id : ℤ) (user : User)
    → get_user_by_id s id ≡ some user
    → let t = (delete_user id s).1 in
      ((delete_user id s).0 ≡ true)
      × (get_user_by_id t id ≡ none)
      × (get_user_by_uuid t user.uuid ≡ none)
      × (get_user_roles t user.uuid ≡ none)
      × (list_users t ≡ delete_func (λ (x : User). x.uuid == user.uuid) (list_users s))
      × ((group : String) → contains (t.group_members group) user.uuid ≡ false)
unfolding delete_user get_user_by_id
delete_user-lookup s id user found = elim (Option-cases (s.users_by_id id)) [
  | inl missing ↦ absurd (ground arith)
  | inr (u, here) ↦
      let same : s.user_at u ≡ user = ground arith in
      let after = remove_user-lookup s id u in
      rw (← same, here, delete_user) (refl, after.0, after.1, after.2, after.3, after.4)
]
