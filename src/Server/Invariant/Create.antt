-- ===== src/Server/Invariant/Create.antt =====
-- CreateUser of cmd/test-server/state.go, as long as its numbers have 12 hexadecimal digits.
use baton_tenable_vm.Prelude.{
  Option, String, [], ap, arith, incr, none, pos, refl, some, string_eq, true, ℕ, ℕ_eq, ℤ, ℤ_eq,
  ◌+◌, ◌<◌, ◌^◌, ◌∙◌, ◌∷◌, ◌≡◌,
}
use baton_tenable_vm.Server.Types.{User, zero_user}
use baton_tenable_vm.Server.Uuid.{format_uuid, new_deterministic_uuid}
use baton_tenable_vm.Server.Uuid.Laws.{format_uuid_total}
use baton_tenable_vm.Server.State.{State}
use baton_tenable_vm.Server.State.Users.{
  create_user, create_numbered, insert_user, all_users_group_uuid,
}
use baton_tenable_vm.Server.Invariant.{UsersIndexed, NumbersFresh, IsWellFormed}
use baton_tenable_vm.Server.Invariant.Frame.{
  frame-UsersIndexed, frame-MembersLinked, frame-RolesLinked,
}
use baton_tenable_vm.Server.Invariant.Users.{insert_user-UsersIndexed}
use baton_tenable_vm.Server.Invariant.Groups.{recompute-GroupsIndexed}
use baton_tenable_vm.Server.Invariant.Members.{insert_user-MembersLinked}
use baton_tenable_vm.Server.Invariant.Roles.{insert_user-RolesLinked}
use baton_tenable_vm.Server.Invariant.Numbers.{insert_user-NumbersFresh}

-- The object that `CreateUser` stores for a number and a uuid.
abbrev pub created : State → ℕ → String → String → String → String → ℤ → User
created s n uuid username email name permissions = record zero_user {
  uuid = uuid;
  id = pos n;
  username = username;
  email = email;
  name = name;
  permissions = permissions;
  enabled = true;
  container_uuid = s.container_uuid;
  group_uuids = all_users_group_uuid ∷ [];
}

incr-pos : (n : ℕ) → n + 1 < 2 ^ 48 → incr (pos n) ≡ pos (n + 1)
unfolding incr
incr-pos n h = ground arith

module _ (s : State) (username email name : String) (permissions : ℤ) (h : NumbersFresh s)
    (small : h.last + 1 < 2 ^ 48) where
  -- There is room for a number: the method stores an object with the next one.
  pub create_user_lem :
      (uuid : String) × (format_uuid (pos (h.last + 1)) ≡ some uuid)
      × (let user = created s (h.last + 1) uuid username email name permissions in
          create_user username email name permissions s
          ≡ (some user, insert_user (record s { next_user_id = user.id }) user))
  unfolding create_user create_numbered new_deterministic_uuid
  create_user_lem =
      let (uuid, made) = format_uuid_total (h.last + 1) in
      let next : incr s.next_user_id ≡ pos (h.last + 1) =
        ap incr h.counter ∙ incr-pos h.last small in
      let run =
        λ (id : ℤ) (o : Option String). create_numbered id o username email name permissions s in
      (uuid, made, ap (λ id. run id (format_uuid id)) next ∙ ap (run (pos (h.last + 1))) made)

-- Storing the user with the next number keeps the state well formed.
pub insert_user-IsWellFormed :
    (s : State) (user : User) (w : IsWellFormed s)
    → w.numbers.last + 1 < 2 ^ 48
    → user.id ≡ pos (w.numbers.last + 1)
    → format_uuid (pos (w.numbers.last + 1)) ≡ some user.uuid
    → user.group_uuids ≡ all_users_group_uuid ∷ []
    → user.rbac_roles ≡ []
    → IsWellFormed (insert_user (record s { next_user_id = user.id }) user)
unfolding insert_user
insert_user-IsWellFormed s user w small numbered named groups roles =
    let new_uuid : s.users user.uuid ≡ none =
      w.numbers.free_uuid (w.numbers.last + 1) user.uuid (omega arith) small named in
    let new_id : s.users_by_id user.id ≡ none =
      rw numbered (w.numbers.free_id (w.numbers.last + 1) (omega arith)) in
    let t : State = record s { next_user_id = user.id } in
    let indexed : UsersIndexed t = frame-UsersIndexed s t refl refl refl refl refl w.users in
    record {
      users = insert_user-UsersIndexed t user new_uuid new_id indexed;
      groups = recompute-GroupsIndexed s _ refl refl refl w.groups;
      members =
          insert_user-MembersLinked t user new_uuid groups indexed
            (frame-MembersLinked s t refl refl refl refl w.members);
      roles =
          insert_user-RolesLinked t user new_uuid roles indexed
            (frame-RolesLinked s t refl refl refl refl refl refl w.roles);
      numbers = insert_user-NumbersFresh s user w.numbers small numbered named;
    }

pub create_user-IsWellFormed :
    (s : State) (username email name : String) (permissions : ℤ) (w : IsWellFormed s)
    → w.numbers.last + 1 < 2 ^ 48
    → IsWellFormed (create_user username email name permissions s).1
create_user-IsWellFormed s username email name permissions w small =
    let (uuid, named, e) = create_user_lem s username email name permissions w.numbers small in
    rw e (insert_user-IsWellFormed s _ w small refl named refl refl)
