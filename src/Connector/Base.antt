-- ===== src/Connector/Base.antt =====
-- What the builders of pkg/connector share: resources, annotations, and `reEnableUserIfNeeded` of
-- connector.go.
use Prim.Native.String
use baton_tenable_vm.Prelude.{Bool, String, if◌then◌else◌, not, string_eq, ℕ_eq, ℤ_eq, ◌&&◌}
use baton_tenable_vm.Client.Action.{◌>>=◌, Action, context, pure}
use baton_tenable_vm.Client.Api.{Api}
use baton_tenable_vm.Client.Types.{User}
use baton_tenable_vm.Connector.Decimal.{itoa}

-- `v2.ResourceId`
pub record ResourceId : Type 0 where
  pub resource_type : String
  pub resource : String

pub data Annotation : Type 0 where
  grant_already_exists grant_already_revoked : Annotation

abbrev pub user_type : String
user_type = "user"

-- `Connector`, with the operations of its client.
pub record Connector (Uuid W : Type 0) : Type 0 where
  pub client : Api Uuid W
  pub enable_on_provision : Bool

unfoldable pub re_enable_user_if_needed :
    {Uuid W : Type 0} → Connector Uuid W → User Uuid → String → Action W Unit
re_enable_user_if_needed c user operation_type =
    if not user.enabled && c.enable_on_provision
    then (do
      _ ←
          context
            (String.◌++◌ "baton-tenable-vm: "
              (String.◌++◌ operation_type " granted but failed to re-enable user: "))
            (c.client.enable_user (itoa user.id))
      pure tt)
    else pure tt
