-- ===== src/Server/Invariant/AllUsers.antt =====
-- The methods of cmd/test-server/state.go and the All Users group.
use baton_tenable_vm.Prelude.{
  List, String, [], arith, contains, delete_eq, delete_func, false, map, map-append, nat_eq_iff,
  put, put_ne, put_self, refl, some, string_eq, sym, true, ℕ, ℕ_eq, ℤ, ℤ_eq, ◌+◌, ◌<◌, ◌==◌, ◌^◌,
  ◌∙◌, ◌∷◌, ◌≡◌, ◌≢◌,
}
use baton_tenable_vm.Server.Types.{User}
use baton_tenable_vm.Server.State.{State, recompute_group_counts_locked}
use baton_tenable_vm.Server.State.Users.{
  write_user, insert_user, remove_user, all_users_group_uuid, create_user, delete_user, edit_user,
}
use baton_tenable_vm.Server.Invariant.{UsersIndexed, AllUsersComplete, GroupsIndexed, IsWellFormed}
use baton_tenable_vm.Server.Invariant.Create.{create_user_lem, created}
use baton_tenable_vm.Server.Invariant.Frame.{frame-UsersIndexed}
use baton_tenable_vm.Server.State.Groups.{
  add_group_member, erase_member, group_membership_fixed, insert_member, remove_group_member,
}
use baton_tenable_vm.Server.State.Roles.{set_user_roles, assign_roles}
use baton_tenable_vm.Server.State.Cases.{
  add_group_member_cases, delete_user_cases, edit_user_cases, remove_group_member_cases,
  set_user_roles_cases,
}

abbrev uuids : (ℕ → User) → List ℕ → List String
uuids at_ = map (λ u. (at_ u).uuid)

uuids-put_same :
    (at_ : ℕ → User) (u : ℕ) (user : User) (us : List ℕ)
    → user.uuid ≡ (at_ u).uuid
    → uuids (put at_ u user) us ≡ uuids at_ us
unfolding put
uuids-put_same at_ u user [] same = refl
uuids-put_same at_ u user (v ∷ us) same =
    ground (arith, uuids-put_same at_ u user us same, nat_eq_iff u v)

uuids-put_fresh :
    (at_ : ℕ → User) (u : ℕ) (user : User) (us : List ℕ)
    → contains us u ≡ false
    → uuids (put at_ u user) us ≡ uuids at_ us
unfolding put contains
uuids-put_fresh at_ u user [] new = refl
uuids-put_fresh at_ u user (v ∷ us) new =
    ground (arith, uuids-put_fresh at_ u user us, nat_eq_iff u v, nat_eq_iff v u)

uuids-delete :
    (at_ : ℕ → User) (uuid : String) (us : List ℕ)
    → uuids at_ (delete_func (λ u. (at_ u).uuid == uuid) us) ≡ delete_eq (uuids at_ us) uuid
uuids-delete at_ uuid [] = refl
uuids-delete at_ uuid (u ∷ us) = ground (arith, uuids-delete at_ uuid us)

pub write_user-AllUsersComplete :
    (s : State) (u : ℕ) (user : User)
    → user.uuid ≡ (s.user_at u).uuid
    → AllUsersComplete s
    → AllUsersComplete (write_user s u user)
write_user-AllUsersComplete s u user same h =
    h ∙ sym (uuids-put_same s.user_at u user s.user_list same)

pub insert_user-AllUsersComplete :
    (s : State) (user : User)
    → UsersIndexed s
    → AllUsersComplete s
    → AllUsersComplete (insert_user s user)
unfolding insert_user recompute_group_counts_locked
insert_user-AllUsersComplete s user i h =
    let new : contains s.user_list s.next_address ≡ false =
      ground (arith, i.listed s.next_address) in
    let old = uuids-put_fresh s.user_at s.next_address user s.user_list new in
    rw (put_self, map-append, old, h) (rw put_self refl)

pub remove_user-AllUsersComplete :
    (s : State) (id : ℤ) (u : ℕ) → AllUsersComplete s → AllUsersComplete (remove_user s id u)
unfolding remove_user recompute_group_counts_locked
remove_user-AllUsersComplete s id u h =
    rw h (sym (uuids-delete s.user_at (s.user_at u).uuid s.user_list))

module _ (s : State) (g u : ℕ) (other : (s.group_at g).uuid ≢ all_users_group_uuid) where
  pub insert_member-AllUsersComplete : AllUsersComplete s → AllUsersComplete (insert_member s g u)
  unfolding insert_member recompute_group_counts_locked
  insert_member-AllUsersComplete h =
      rw (put_ne s.group_members (s.group_at g).uuid all_users_group_uuid _ other)
        (h ∙ sym (uuids-put_same s.user_at u _ s.user_list refl))

  pub erase_member-AllUsersComplete : AllUsersComplete s → AllUsersComplete (erase_member s g u)
  unfolding erase_member recompute_group_counts_locked
  erase_member-AllUsersComplete h =
      rw (put_ne s.group_members (s.group_at g).uuid all_users_group_uuid _ other)
        (h ∙ sym (uuids-put_same s.user_at u _ s.user_list refl))

pub edit_user-AllUsersComplete :
    (id : ℤ) (f : User → User) (s : State)
    → ((user : User) → (f user).uuid ≡ user.uuid)
    → AllUsersComplete s
    → AllUsersComplete (edit_user id f s).1
edit_user-AllUsersComplete id f s same h =
    edit_user_cases AllUsersComplete s h id f
      (λ u found. write_user-AllUsersComplete s u (f (s.user_at u)) (same (s.user_at u)) h)

pub delete_user-AllUsersComplete :
    (id : ℤ) (s : State) → AllUsersComplete s → AllUsersComplete (delete_user id s).1
delete_user-AllUsersComplete id s h =
    delete_user_cases AllUsersComplete s h id (λ u found. remove_user-AllUsersComplete s id u h)

pub set_user_roles-AllUsersComplete :
    (user_uuid : String) (role_uuids : List String) (s : State)
    → AllUsersComplete s
    → AllUsersComplete (set_user_roles user_uuid role_uuids s).1
unfolding assign_roles
set_user_roles-AllUsersComplete user_uuid role_uuids s h =
    set_user_roles_cases AllUsersComplete s h user_uuid role_uuids (λ u found known all_known.
      h
      ∙ sym (
          uuids-put_same s.user_at u (record (s.user_at u) { rbac_roles = found }) s.user_list
            refl))

pub create_user-AllUsersComplete :
    (s : State) (username email name : String) (permissions : ℤ) (w : IsWellFormed s)
    → w.numbers.last + 1 < 2 ^ 48
    → AllUsersComplete s
    → AllUsersComplete (create_user username email name permissions s).1
create_user-AllUsersComplete s username email name permissions w room h =
    let (uuid, named, e) = create_user_lem s username email name permissions w.numbers room in
    let user = created s (w.numbers.last + 1) uuid username email name permissions in
    let t : State = record s { next_user_id = user.id } in
    rw e (
      insert_user-AllUsersComplete t user (frame-UsersIndexed s t refl refl refl refl refl w.users)
        h)

-- The groups that are on no list of exceptions: those whose uuid is not that of All Users.
abbrev pub IsOrdinary : State → ℤ → Type 0
IsOrdinary s group_id =
    (g : ℕ) → s.groups_by_id group_id ≡ some g → (s.group_at g).uuid ≢ all_users_group_uuid

pub add_group_member-AllUsersComplete :
    (group_id user_id : ℤ) (s : State)
    → IsOrdinary s group_id
    → AllUsersComplete s
    → AllUsersComplete (add_group_member group_id user_id s).1
add_group_member-AllUsersComplete group_id user_id s ordinary h =
    add_group_member_cases AllUsersComplete s h group_id user_id
      (λ g u group user new. insert_member-AllUsersComplete s g u (ordinary g group) h)

pub remove_group_member-AllUsersComplete :
    (group_id user_id : ℤ) (s : State)
    → IsOrdinary s group_id
    → AllUsersComplete s
    → AllUsersComplete (remove_group_member group_id user_id s).1
remove_group_member-AllUsersComplete group_id user_id s ordinary h =
    remove_group_member_cases AllUsersComplete s h group_id user_id
      (λ g u group user member. erase_member-AllUsersComplete s g u (ordinary g group) h)

-- Only a group that refuses changes can be All Users.
pub IsOrdinary-of_not_fixed :
    (s : State) (group_id : ℤ)
    → GroupsIndexed s
    → group_membership_fixed s group_id ≢ some true
    → IsOrdinary s group_id
unfolding group_membership_fixed
IsOrdinary-of_not_fixed s group_id i h g found =
    λ all. h (ground (arith, i.by_id group_id g found, i.fixed g))
