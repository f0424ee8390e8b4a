-- ===== src/Server/Invariant/Seed.antt =====
-- The loops of `seed` (cmd/test-server/seeds.go) and the invariant.
use baton_tenable_vm.Prelude.{
  List, [], arith, contains, contains-append, eq_iff, eq_refl, false, if◌then◌else◌, int_eq_iff,
  none, pos, put, refl, string_eq, true, ℕ_eq, ℤ_eq, ◌==◌, ◌∷◌, ◌≡◌,
}
use baton_tenable_vm.Server.Types.{User, Group}
use baton_tenable_vm.Server.State.{State, recompute_group_counts_locked, empty_state}
use baton_tenable_vm.Server.State.Users.{insert_user, all_users_group_uuid}
use baton_tenable_vm.Server.Seeds.{seed_user, seed_group, seed_role, seed_all}
use baton_tenable_vm.Server.Invariant.{UsersIndexed, GroupsIndexed, RolesLinked}
use baton_tenable_vm.Server.Invariant.Frame.{
  frame-UsersIndexed, frame-GroupsIndexed, frame-RolesLinked,
}
use baton_tenable_vm.Server.Invariant.Users.{insert_user-UsersIndexed}
use baton_tenable_vm.Server.Seeds.Others.{seed_groups, seed_roles}
use baton_tenable_vm.Server.Seeds.Users.{seed_users}
use baton_tenable_vm.Server.Seeds.Constants.{
  container_uuid, role_admin_uuid, role_basic_uuid, role_custom_uuid, role_scan_mgr_uuid,
}

-- No uuid and no number of the objects still to be stored is in use.
abbrev UsersNew : State → List User → Type 0
UsersNew s [] = Unit
UsersNew s (u ∷ us) =
    (s.users u.uuid ≡ none) × (s.users_by_id u.id ≡ none) × UsersNew (seed_user s u) us

seed_user-UsersIndexed :
    (s : State) (u : User)
    → s.users u.uuid ≡ none
    → s.users_by_id u.id ≡ none
    → UsersIndexed s
    → UsersIndexed (seed_user s u)
unfolding seed_user
seed_user-UsersIndexed s u new_uuid new_id h =
    let t = insert_user-UsersIndexed s u new_uuid new_id h in
    unfold insert_user recompute_group_counts_locked in
    frame-UsersIndexed (insert_user s u) (seed_user s u) refl refl refl refl refl t

seed_user-RolesLinked :
    (s : State) (u : User)
    → s.users u.uuid ≡ none
    → UsersIndexed s
    → RolesLinked s
    → RolesLinked (seed_user s u)
unfolding seed_user put contains
seed_user-RolesLinked s u new i h = record {
  assigned = λ v e. ground (
    arith,
    h.assigned v,
    i.listed v,
    contains-append s.user_list (s.next_address ∷ []) v,
    eq_refl u.uuid,
    eq_iff u.uuid (s.user_at v).uuid,
  );
  none_left = λ m e. ground (arith, h.none_left m);
  by_uuid = h.by_uuid;
}

seed_users-Indexed :
    (us : List User) (s : State)
    → UsersNew s us
    → UsersIndexed s
    → RolesLinked s
    → UsersIndexed (seed_all seed_user s us) × RolesLinked (seed_all seed_user s us)
unfolding seed_all
seed_users-Indexed [] s new i h = (i, h)
seed_users-Indexed (u ∷ us) s (new_uuid, new_id, new) i h =
    seed_users-Indexed us (seed_user s u) new (seed_user-UsersIndexed s u new_uuid new_id i)
      (seed_user-RolesLinked s u new_uuid i h)

abbrev GroupsNew : State → List Group → Type 0
GroupsNew s [] = Unit
GroupsNew s (g ∷ gs) =
    (s.groups_by_id g.id ≡ none)
    × (contains s.group_list s.next_address ≡ false)
    × (g.user_count ≡ pos 0)
    × (s.group_members g.uuid ≡ [])
    × ((if g.uuid == all_users_group_uuid then g.membership_fixed else true) ≡ true)
    × GroupsNew (seed_group s g) gs

seed_group-GroupsIndexed :
    (s : State) (g : Group)
    → s.groups_by_id g.id ≡ none
    → contains s.group_list s.next_address ≡ false
    → g.user_count ≡ pos 0
    → s.group_members g.uuid ≡ []
    → (if g.uuid == all_users_group_uuid then g.membership_fixed else true) ≡ true
    → GroupsIndexed s
    → GroupsIndexed (seed_group s g)
unfolding seed_group put contains
seed_group-GroupsIndexed s g new_id new_address zero_count no_members fixed h = record {
  by_id = λ id v e. ground (
    arith,
    h.by_id id v,
    int_eq_iff g.id id,
    contains-append s.group_list (s.next_address ∷ []) v,
  );
  listed = λ v e. ground (
    arith,
    h.listed v,
    int_eq_iff g.id (s.group_at v).id,
    int_eq_iff g.id g.id,
    contains-append s.group_list (s.next_address ∷ []) v,
  );
  fixed = λ v e same. ground (
    arith,
    h.fixed v,
    eq_iff g.uuid all_users_group_uuid,
    contains-append s.group_list (s.next_address ∷ []) v,
  );
  counted =
      λ v e. ground (arith, h.counted v, contains-append s.group_list (s.next_address ∷ []) v);
}

seed_groups-Indexed :
    (gs : List Group) (s : State)
    → GroupsNew s gs
    → GroupsIndexed s
    → GroupsIndexed (seed_all seed_group s gs)
unfolding seed_all
seed_groups-Indexed [] s new h = h
seed_groups-Indexed (g ∷ gs) s (new_id, new_address, zero_count, no_members, fixed, new) h =
    seed_groups-Indexed gs (seed_group s g) new
      (seed_group-GroupsIndexed s g new_id new_address zero_count no_members fixed h)

-- The states of `seed`, one for each of its loops.
abbrev pub with_roles : State
with_roles = seed_all seed_role (empty_state container_uuid) seed_roles

abbrev pub with_groups : State
with_groups = seed_all seed_group with_roles seed_groups

abbrev pub with_users : State
with_users = seed_all seed_user with_groups seed_users

with_roles-GroupsIndexed : GroupsIndexed with_roles
unfolding seed_all seed_role empty_state contains
with_roles-GroupsIndexed = record {
  by_id = λ id g e. ground arith;
  listed = λ g e. ground arith;
  fixed = λ g e same. ground arith;
  counted = λ g e. ground arith;
}

with_roles-RolesLinked : RolesLinked with_roles
unfolding seed_all seed_role empty_state contains put
with_roles-RolesLinked = record {
  assigned = λ u e. ground arith;
  none_left = λ m e. refl;
  by_uuid = λ uuid r e. ground (
    arith,
    eq_iff role_admin_uuid uuid,
    eq_iff role_scan_mgr_uuid uuid,
    eq_iff role_basic_uuid uuid,
    eq_iff role_custom_uuid uuid,
  );
}

with_groups-GroupsIndexed : GroupsIndexed with_groups
unfolding seed_all seed_role seed_group empty_state contains put
with_groups-GroupsIndexed =
    seed_groups-Indexed seed_groups with_roles
      (
        refl,
        refl,
        refl,
        refl,
        refl,
        (
          refl,
          refl,
          refl,
          refl,
          refl,
          (
            refl,
            refl,
            refl,
            refl,
            refl,
            (refl, refl, refl, refl, refl, (refl, refl, refl, refl, refl, tt)),
          ),
        ),
      )
      with_roles-GroupsIndexed

with_groups-UsersIndexed : UsersIndexed with_groups
unfolding seed_all seed_role seed_group empty_state contains
with_groups-UsersIndexed = record {
  by_uuid = λ uuid u e. ground arith;
  by_id = λ id u e. ground arith;
  listed = λ u e. ground arith;
  distinct = tt;
}

with_groups-RolesLinked : RolesLinked with_groups
unfolding seed_all seed_group
with_groups-RolesLinked =
    frame-RolesLinked with_roles with_groups refl refl refl refl refl refl with_roles-RolesLinked

pub with_users-Indexed : UsersIndexed with_users × RolesLinked with_users
unfolding seed_all seed_role seed_group seed_user empty_state put
with_users-Indexed =
    seed_users-Indexed seed_users with_groups new with_groups-UsersIndexed with_groups-RolesLinked
  where
    new : UsersNew with_groups seed_users
    new = (refl, refl, (refl, refl, (refl, refl, (refl, refl, (refl, refl, (refl, refl, tt))))))

pub with_users-GroupsIndexed : GroupsIndexed with_users
unfolding seed_all seed_user
with_users-GroupsIndexed =
    frame-GroupsIndexed with_groups with_users refl refl refl refl with_groups-GroupsIndexed
