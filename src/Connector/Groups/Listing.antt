-- ===== src/Connector/Groups/Listing.antt =====
-- The listing of groups, with their entitlements and grants: pkg/connector/groups.go.
use Prim.Native.String
use baton_tenable_vm.Prelude.{List, Option, [], false, map, string_eq, ℕ_eq, ℤ_eq, ◌∷◌}
use baton_tenable_vm.Client.Types.{User, Group}
use baton_tenable_vm.Client.Action.{◌>>=◌, Action, Result, lift, pure}
use baton_tenable_vm.Connector.Base.{ResourceId, Connector, user_type}
use baton_tenable_vm.Connector.Sdk.{
  text_value, number_value, with_resource_profile, assignment, NewEntitlement, NewGrant, Profile,
  Sdk, collect, group_type, no_profile, set, parent_option,
}
use baton_tenable_vm.Client.Api.{UuidLibrary}
use baton_tenable_vm.Connector.Decimal.{itoa}

abbrev pub group_profile : Group → Profile
group_profile group =
    set
      (set
        (set (set (set no_profile "name" (text_value group.name)) "id" (number_value group.id))
          "UUID" (text_value group.uuid))
        "container_uuid" (text_value group.container_uuid))
      "users_count" (number_value group.users_count)

module _ (lib : UuidLibrary) (sdk : Sdk) where
  unfoldable pub parse_into_group_resource : Option ResourceId → Group → Result sdk.Resource
  parse_into_group_resource parent group =
      sdk.new_group_resource group.name group_type group.id
        (with_resource_profile (group_profile group) ∷ parent_option parent)

  -- `Entitlements`
  unfoldable pub group_entitlements : sdk.Resource → List NewEntitlement
  group_entitlements resource =
      record {
        purpose = assignment;
        resource = sdk.id resource;
        name = "member";
        grantable_to = user_type ∷ [];
        description = String.◌++◌ "Member of " (String.◌++◌ (sdk.display_name resource) " group");
        display_name = String.◌++◌ (sdk.display_name resource) " group member";
      }
      ∷ []

  abbrev pub member_grant : ResourceId → User lib.Uuid → NewGrant
  member_grant resource member = record {
    resource = resource;
    entitlement = "member";
    principal = record { resource_type = user_type; resource = itoa member.id };
    expandable = [];
    immutable = false;
  }

  module _ {W : Type 0} (c : Connector lib.Uuid W) where
    -- `List`
    unfoldable pub list_groups : Option ResourceId → Action W (List sdk.Resource)
    list_groups parent = do
      groups ← c.client.get_groups
      lift (collect (parse_into_group_resource parent) groups)

    -- `Grants`
    unfoldable pub group_grants : sdk.Resource → Action W (List NewGrant)
    group_grants resource = do
      members ← c.client.get_group_members (sdk.id resource).resource
      pure (map (member_grant (sdk.id resource)) members)
