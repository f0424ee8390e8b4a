-- ===== src/Connector/Groups/Answers.antt =====
-- What the theorems on pkg/connector/groups.go assume of the API's calls about groups.
use baton_tenable_vm.Prelude.{
  Bool, List, Option, String, [], contains, delete_eq, false, map, some, string_eq, true, ℕ_eq,
  ℤ_eq, ◌++◌, ◌∷◌, ◌≡◌,
}
use baton_tenable_vm.Client.Action.{ok, failed}
use baton_tenable_vm.Client.Api.{Api, UuidLibrary}
use baton_tenable_vm.Client.Types.{User}
use baton_tenable_vm.Connector.Decimal.{itoa}

abbrev pub ids : {Uuid : Type 0} → List (User Uuid) → List String
ids members = map (λ m. itoa m.id) members

-- An API whose calls about groups do what its documentation says. Reading a user or the members of a
-- group changes nothing. A user is added behind the members of a group or taken out of them, which may
-- show in the user's record but not in its number and its status; a group with a fixed membership
-- refuses both. Enabling a user leaves memberships alone. Nothing is said of unknown users and groups.
pub record GroupAnswers (lib : UuidLibrary) {W : Type 0} (api : Api lib.Uuid W) : Type 0 where
  pub user : W → String → Option (User lib.Uuid)
  pub members : W → String → Option (List (User lib.Uuid))
  pub membership_fixed : W → String → Bool
  pub read_user :
      (w : W) (id : String) (u : User lib.Uuid)
      → user w id ≡ some u
      → api.get_user_details id w ≡ (ok u, w)
  pub read_members :
      (w : W) (group : String) (ms : List (User lib.Uuid))
      → members w group ≡ some ms
      → api.get_group_members group w ≡ (ok ms, w)
  pub create :
      (w : W) (group id : String) (u : User lib.Uuid) (ms : List (User lib.Uuid))
      → user w id ≡ some u
      → members w group ≡ some ms
      → membership_fixed w group ≡ false
      → contains (ids ms) id ≡ false
      → (w' : W) × (u' : User lib.Uuid) × (ms' : List (User lib.Uuid))
        × (api.create_user_group_membership group id w ≡ (ok tt, w'))
        × (user w' id ≡ some u')
        × (u'.id ≡ u.id)
        × (u'.enabled ≡ u.enabled)
        × (members w' group ≡ some ms')
        × (ids ms' ≡ ids ms ++ id ∷ [])
  pub delete :
      (w : W) (group id : String) (u : User lib.Uuid) (ms : List (User lib.Uuid))
      → user w id ≡ some u
      → members w group ≡ some ms
      → membership_fixed w group ≡ false
      → contains (ids ms) id ≡ true
      → (w' : W) × (ms' : List (User lib.Uuid)) × (api.delete_user_group_membership group id w
          ≡ (ok tt, w'))
        × (members w' group ≡ some ms')
        × (ids ms' ≡ delete_eq (ids ms) id)
  pub refused :
      (w : W) (group id : String) (u : User lib.Uuid) (ms : List (User lib.Uuid))
      → user w id ≡ some u
      → members w group ≡ some ms
      → membership_fixed w group ≡ true
      → ((reason : String) × (api.create_user_group_membership group id w ≡ (failed reason, w)))
        × ((reason : String) × (api.delete_user_group_membership group id w ≡ (failed reason, w)))
  pub enable :
      (w : W) (id : String) (u : User lib.Uuid)
      → user w id ≡ some u
      → (u' : User lib.Uuid) × (w' : W) × (api.enable_user id w ≡ (ok u', w'))
        × ((group : String) (ms : List (User lib.Uuid))
            → members w group ≡ some ms
            → (ms' : List (User lib.Uuid)) × (members w' group ≡ some ms') × (ids ms' ≡ ids ms))
