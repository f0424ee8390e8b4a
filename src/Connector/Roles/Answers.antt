-- ===== src/Connector/Roles/Answers.antt =====
-- What the theorems on pkg/connector/roles.go assume of the API's calls about roles.
use baton_tenable_vm.Prelude.{
  List, Option, String, [], contains, map, put, some, string_eq, true, ℕ_eq, ℤ_eq, ◌∷◌, ◌≡◌,
}
use baton_tenable_vm.Client.Action.{ok}
use baton_tenable_vm.Client.Api.{Api, UuidLibrary}
use baton_tenable_vm.Client.Types.{RoleDetails, User, UserRole}

abbrev pub role_ids : (lib : UuidLibrary) → List (RoleDetails lib.Uuid) → List String
role_ids lib roles = map (λ role. lib.to_string role.uuid) roles

-- An API whose calls about roles do what its documentation says, for the users and roles that it has:
-- reading changes nothing, an update puts the one role sent in place of the user's roles, and enabling
-- a user leaves roles alone. Nothing is said of unknown users and roles.
pub record RoleAnswers (lib : UuidLibrary) {W : Type 0} (api : Api lib.Uuid W) : Type 0 where
  pub user : W → String → Option (User lib.Uuid)
  pub roles : W → List (RoleDetails lib.Uuid)
  pub roles_of : W → String → List String
  pub read_user :
      (w : W) (id : String) (u : User lib.Uuid)
      → user w id ≡ some u
      → api.get_user_details id w ≡ (ok u, w)
  pub read_roles : (w : W) → api.get_roles w ≡ (ok (roles w), w)
  pub read_user_roles :
      (w : W) (id : String) (u : User lib.Uuid)
      → user w id ≡ some u
      → (r : UserRole) × (api.get_user_roles u.uuid w ≡ (ok r, w))
        × (r.roles_uuid ≡ roles_of w u.uuid)
  pub update :
      (w : W) (id role : String) (u : User lib.Uuid)
      → user w id ≡ some u
      → contains (role_ids lib (roles w)) role ≡ true
      → (r : UserRole) × (w' : W) × (u' : User lib.Uuid) × (api.update_user_roles u.uuid role w
          ≡ (ok r, w'))
        × (roles_of w' ≡ put (roles_of w) u.uuid (role ∷ []))
        × (user w' id ≡ some u')
        × (u'.enabled ≡ u.enabled)
  pub enable :
      (w : W) (id : String) (u : User lib.Uuid)
      → user w id ≡ some u
      → (u' : User lib.Uuid) × (w' : W) × (api.enable_user id w ≡ (ok u', w'))
        × (roles_of w' ≡ roles_of w)
        × (user w' id ≡ some u')
        × (u'.enabled ≡ true)
