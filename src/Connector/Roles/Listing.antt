-- ===== src/Connector/Roles/Listing.antt =====
-- The listing of roles, with their entitlements and grants: pkg/connector/roles.go.
use baton_tenable_vm.Prelude.{List, Option, [], string_eq, ℕ_eq, ℤ_eq, ◌∷◌}
use baton_tenable_vm.Client.Types.{RoleDetails}
use baton_tenable_vm.Client.Action.{◌>>=◌, Action, Result, lift}
use baton_tenable_vm.Connector.Base.{ResourceId, Connector, user_type}
use baton_tenable_vm.Connector.Sdk.{
  text_value, with_resource_profile, permission_purpose, NewEntitlement, NewGrant, Profile, Sdk,
  collect, no_profile, role_type, set, parent_option,
}
use baton_tenable_vm.Client.Api.{UuidLibrary}
use baton_tenable_vm.Strings.{join}

module _ (lib : UuidLibrary) (sdk : Sdk) where
  abbrev pub role_profile : RoleDetails lib.Uuid → Profile
  role_profile role =
      set
        (set
          (set
            (set
              (set (set no_profile "uuid" (text_value (lib.to_string role.uuid))) "name"
                (text_value role.name))
              "description" (text_value role.description))
            "type" (text_value role.type))
          "status" (text_value role.status))
        "permissions" (text_value (join "," role.permissions))

  unfoldable pub parse_into_role_resource :
      Option ResourceId → RoleDetails lib.Uuid → Result sdk.Resource
  parse_into_role_resource parent role =
      sdk.new_role_resource role.name role_type (lib.to_string role.uuid)
        (with_resource_profile (role_profile role) ∷ parent_option parent)

  -- `Entitlements`
  unfoldable pub role_entitlements : sdk.Resource → List NewEntitlement
  role_entitlements resource =
      record {
        purpose = permission_purpose;
        resource = sdk.id resource;
        name = "assigned";
        grantable_to = user_type ∷ [];
        description = sdk.description resource;
        display_name = sdk.display_name resource;
      }
      ∷ []

  -- `Grants`, which leaves the roles to the users
  unfoldable pub role_grants : sdk.Resource → List NewGrant
  role_grants resource = []

  -- `List`
  unfoldable pub list_roles :
      {W : Type 0} → Connector lib.Uuid W → Option ResourceId → Action W (List sdk.Resource)
  list_roles c parent = do
    roles ← c.client.get_roles
    lift (collect (parse_into_role_resource parent) roles)
