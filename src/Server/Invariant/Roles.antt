-- ===== src/Server/Invariant/Roles.antt =====
-- The methods of cmd/test-server/state.go and the two records of the assigned roles.
use baton_tenable_vm.Prelude.{
  List, Option-cases, String, [], arith, contains, contains-append, contains-delete_func, eq_iff,
  inl, inr, map, none, put, some, string_eq, ℕ, ℕ_eq, ℤ, ℤ_eq, ◌==◌, ◌∷◌, ◌≡◌,
}
use baton_tenable_vm.Server.Types.{User, RbacRole}
use baton_tenable_vm.Server.State.{State, recompute_group_counts_locked}
use baton_tenable_vm.Server.State.Users.{write_user, insert_user, remove_user}
use baton_tenable_vm.Server.State.Roles.{find_roles, assign_roles}
use baton_tenable_vm.Server.Invariant.{UsersIndexed, RolesLinked}

-- A write that leaves the uuid and the roles of the user alone.
pub write_user-RolesLinked :
    (s : State) (u : ℕ) (user : User)
    → user.uuid ≡ (s.user_at u).uuid
    → user.rbac_roles ≡ (s.user_at u).rbac_roles
    → RolesLinked s
    → RolesLinked (write_user s u user)
unfolding put
write_user-RolesLinked s u user same_uuid same_roles h = record {
  assigned = λ v e. ground (arith, h.assigned v e);
  none_left = h.none_left;
  by_uuid = h.by_uuid;
}

pub insert_user-RolesLinked :
    (s : State) (user : User)
    → s.users user.uuid ≡ none
    → user.rbac_roles ≡ []
    → UsersIndexed s
    → RolesLinked s
    → RolesLinked (insert_user s user)
unfolding insert_user put recompute_group_counts_locked contains
insert_user-RolesLinked s user new_uuid no_roles i h = record {
  assigned = λ v e. ground (
    arith,
    h.assigned v,
    i.listed v,
    h.none_left user.uuid new_uuid,
    contains-append s.user_list (s.next_address ∷ []) v,
  );
  none_left = λ m e. ground (arith, h.none_left m);
  by_uuid = h.by_uuid;
}

pub remove_user-RolesLinked :
    (s : State) (id : ℤ) (u : ℕ)
    → s.users_by_id id ≡ some u
    → UsersIndexed s
    → RolesLinked s
    → RolesLinked (remove_user s id u)
unfolding remove_user put recompute_group_counts_locked
remove_user-RolesLinked s id u found i h = record {
  assigned = λ v e. ground (
    arith,
    h.assigned v,
    i.by_id id u found,
    i.listed u,
    i.listed v,
    contains-delete_func (λ x. (s.user_at x).uuid == (s.user_at u).uuid) s.user_list v,
    eq_iff (s.user_at u).uuid (s.user_at v).uuid,
    eq_iff (s.user_at v).uuid (s.user_at u).uuid,
  );
  none_left = λ m e. ground (arith, h.none_left m, eq_iff (s.user_at u).uuid m);
  by_uuid = h.by_uuid;
}

-- The role objects that are found carry the uuids that were asked for.
pub find_roles-uuids :
    (s : State) (role_uuids : List String) {found : List RbacRole}
    → RolesLinked s
    → find_roles s role_uuids ≡ some found
    → map (λ (r : RbacRole). r.uuid) found ≡ role_uuids
unfolding find_roles
find_roles-uuids s [] h e = ground arith
find_roles-uuids s (role_uuid ∷ role_uuids) h e = elim (Option-cases (s.roles role_uuid)) [
  | inl missing ↦ ground arith
  | inr (r, known) ↦ elim (Option-cases (find_roles s role_uuids)) [
    | inl missing ↦ ground arith
    | inr (rest, later) ↦
        ground (arith, find_roles-uuids s role_uuids h later, h.by_uuid role_uuid r known)
  ]
]

pub assign_roles-RolesLinked :
    (user_uuid : String) (role_uuids : List String) (s : State) (u : ℕ) (found : List RbacRole)
    → s.users user_uuid ≡ some u
    → find_roles s role_uuids ≡ some found
    → UsersIndexed s
    → RolesLinked s
    → RolesLinked (assign_roles s user_uuid role_uuids u found)
unfolding assign_roles put
assign_roles-RolesLinked user_uuid role_uuids s u found known all_known i h = record {
  assigned = λ v e. ground (
    arith,
    h.assigned v,
    i.by_uuid user_uuid u known,
    i.listed u,
    i.listed v,
    find_roles-uuids s role_uuids h all_known,
    eq_iff user_uuid (s.user_at v).uuid,
  );
  none_left = λ m e. ground (arith, h.none_left m, eq_iff user_uuid m);
  by_uuid = h.by_uuid;
}
