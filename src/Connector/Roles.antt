-- ===== src/Connector/Roles.antt =====
-- `Grant`, `Revoke` and `basicRoleUUID` of pkg/connector/roles.go.
pub mod Answers
pub mod Granting
pub mod Effect
pub mod Listing
use baton_tenable_vm.Prelude.{
  List, Option, String, [], contains, if◌then◌else◌, none, not, some, string_eq, ℕ_eq, ℤ_eq, ◌&&◌,
  ◌==◌, ◌∷◌,
}
use baton_tenable_vm.Client.Action.{◌>>=◌, Action, context, fail, pure}
use baton_tenable_vm.Connector.Base.{
  Annotation, grant_already_exists, grant_already_revoked, Connector, ResourceId,
  re_enable_user_if_needed,
}
use baton_tenable_vm.Client.Api.{UuidLibrary}
use baton_tenable_vm.Client.Types.{RoleDetails}

-- The end of `basicRoleUUID`
abbrev pub or_not_found : {W : Type 0} → Option String → Action W String
or_not_found none = fail "baton-tenable-vm: built-in Basic role not found"
or_not_found (some uuid) = pure uuid

module _ (lib : UuidLibrary) where
  -- The loop of `basicRoleUUID`
  unfoldable pub find_basic : List (RoleDetails lib.Uuid) → Option String
  find_basic [] = none
  find_basic (role ∷ roles) =
      let rest = find_basic roles in
      if (role.type == "STANDARD") && (role.name == "Basic")
      then some (lib.to_string role.uuid)
      else rest

module _ (lib : UuidLibrary) {W : Type 0} (c : Connector lib.Uuid W) where
  unfoldable pub grant_role : ResourceId → ResourceId → Action W (List Annotation)
  grant_role principal role = do
    user ←
        context "baton-tenable-vm: get user details: "
          (c.client.get_user_details principal.resource)
    user_roles ← context "baton-tenable-vm: get user roles: " (c.client.get_user_roles user.uuid)
    if contains user_roles.roles_uuid role.resource
        then (do _ ← re_enable_user_if_needed c user "role"; pure (grant_already_exists ∷ []))
        else (do
          _ ←
              context "baton-tenable-vm: grant role: "
                (c.client.update_user_roles user.uuid role.resource)
          _ ← re_enable_user_if_needed c user "role"
          pure [])

  unfoldable pub basic_role_uuid : Action W String
  basic_role_uuid = do
    roles ← context "baton-tenable-vm: list roles: " c.client.get_roles
    or_not_found (find_basic lib roles)

  unfoldable pub revoke_role : ResourceId → ResourceId → Action W (List Annotation)
  revoke_role principal role = do
    user ←
        context "baton-tenable-vm: get user details: "
          (c.client.get_user_details principal.resource)
    user_roles ← context "baton-tenable-vm: get user roles: " (c.client.get_user_roles user.uuid)
    if not (contains user_roles.roles_uuid role.resource)
        then pure (grant_already_revoked ∷ [])
        else (do
          basic ← basic_role_uuid
          if role.resource == basic
              then fail
                  "baton-tenable-vm: cannot revoke the Basic role, every user must hold exactly one role"
              else (do
                _ ←
                    context "baton-tenable-vm: revoke role: "
                      (c.client.update_user_roles user.uuid basic)
                pure []))
