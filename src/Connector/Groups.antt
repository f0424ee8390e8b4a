-- ===== src/Connector/Groups.antt =====
-- `Grant` and `Revoke` of pkg/connector/groups.go.
pub mod Answers
pub mod Effect
pub mod Listing
pub mod Sync
use baton_tenable_vm.Prelude.{
  Bool, List, Option, String, [], false, if◌then◌else◌, none, some, string_eq, true, ℕ_eq, ℤ_eq,
  ◌==◌, ◌∷◌,
}
use baton_tenable_vm.Client.Action.{◌>>=◌, Action, context, pure}
use baton_tenable_vm.Connector.Base.{
  Annotation, grant_already_exists, grant_already_revoked, Connector, ResourceId,
  re_enable_user_if_needed,
}
use baton_tenable_vm.Client.Api.{UuidLibrary}
use baton_tenable_vm.Client.Types.{User}
use baton_tenable_vm.Connector.Decimal.{itoa}

module _ (lib : UuidLibrary) {W : Type 0} (c : Connector lib.Uuid W) where
  -- The loop over the members: the first one that has the wanted number.
  unfoldable pub find_member : String → List (User lib.Uuid) → Option (User lib.Uuid)
  find_member user_id [] = none
  find_member user_id (member ∷ members) =
      let rest = find_member user_id members in
      if itoa member.id == user_id then some member else rest

  -- The end of `Grant`, for the setting `enableOnProvision`
  unfoldable pub after_grant : Bool → String → Action W (List Annotation)
  after_grant true user_id = do
    user ←
        context "baton-tenable-vm: group membership granted but failed to get user status: "
          (c.client.get_user_details user_id)
    _ ← re_enable_user_if_needed c user "group membership"
    pure []
  after_grant false user_id = pure []

  -- `Grant` behind its loop, for the member that the loop found
  unfoldable pub grant_found : String → String → Option (User lib.Uuid) → Action W (List Annotation)
  grant_found user_id group_id (some member) = do
    _ ← re_enable_user_if_needed c member "group membership"
    pure (grant_already_exists ∷ [])
  grant_found user_id group_id none = do
    _ ←
        context "baton-tenable-vm: failed to add user to group: "
          (c.client.create_user_group_membership group_id user_id)
    after_grant c.enable_on_provision user_id

  unfoldable pub grant_membership : ResourceId → ResourceId → Action W (List Annotation)
  grant_membership principal group = do
    members ←
        context "baton-tenable-vm: get group members: " (c.client.get_group_members group.resource)
    grant_found principal.resource group.resource (find_member principal.resource members)

  -- `Revoke` behind its loop
  unfoldable pub revoke_found :
      String → String → Option (User lib.Uuid) → Action W (List Annotation)
  revoke_found user_id group_id none = pure (grant_already_revoked ∷ [])
  revoke_found user_id group_id (some member) = do
    _ ←
        context "baton-tenable-vm: failed to remove user from group: "
          (c.client.delete_user_group_membership group_id user_id)
    pure []

  unfoldable pub revoke_membership : ResourceId → ResourceId → Action W (List Annotation)
  revoke_membership principal group = do
    members ←
        context "baton-tenable-vm: get group members: " (c.client.get_group_members group.resource)
    revoke_found principal.resource group.resource (find_member principal.resource members)
