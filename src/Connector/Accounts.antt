-- ===== src/Connector/Accounts.antt =====
-- Disabling and enabling accounts: `Delete` of pkg/connector/users.go, the action handlers of
-- actions.go and `extractActionUserID` of helper.go. A status error is its text.
pub mod Effect
use Prim.Native.String
use baton_tenable_vm.Prelude.{
  Bool, Option, String, bool_eq, false, if◌then◌else◌, none, some, string_eq, true, ℕ_eq, ℤ, ℤ_eq,
  ◌==◌,
}
use baton_tenable_vm.Client.Action.{◌>>=◌, ok, Action, context, fail, pure}
use baton_tenable_vm.Client.Types.{User}
use baton_tenable_vm.Connector.Base.{Connector, ResourceId}
use baton_tenable_vm.Connector.Decimal.{itoa}

-- `structpb.Value`; a number carries what `int(k.NumberValue)` makes of it.
pub data Value : Type 0 where
  number : ℤ → Value
  text : String → Value
  other : Value

-- `args.Fields[fieldUserID]`: nil arguments and fields, a missing or nil value, or the value
pub data Arguments : Type 0 where
  invalid missing : Arguments
  user_id : Value → Arguments

-- `none` is an error, of which the handlers pass nothing on.
unfoldable pub extract_action_user_id : Value → Option String
extract_action_user_id (number n) = some (itoa n)
extract_action_user_id (text t) = if t == "" then none else some t
extract_action_user_id other = none

module _ {Uuid W : Type 0} (c : Connector Uuid W) where
  abbrev pub set_enabled : Bool → String → Action W (User Uuid)
  set_enabled true id = c.client.enable_user id
  set_enabled false id = c.client.disable_user id

  -- The words of the two handlers
  abbrev pub still : Bool → String → String
  still true id =
      String.◌++◌ "baton-tenable-vm: enable user returned success but user "
        (String.◌++◌ id " is still disabled")
  still false id =
      String.◌++◌ "baton-tenable-vm: disable user returned success but user "
        (String.◌++◌ id " is still enabled")

  abbrev pub failure : Bool → String
  failure true = "baton-tenable-vm: failed to enable user: "
  failure false = "baton-tenable-vm: failed to disable user: "

  abbrev pub missing_id : Bool → String
  missing_id true = "missing user ID"
  missing_id false = "missing user id"

  -- Both handlers behind the checks of the arguments, and `Delete`: the answer has to show the change.
  abbrev pub change_account : {A : Type 0} → Bool → String → A → Action W A
  change_account enabled id result = do
    user ← context (failure enabled) (set_enabled enabled id)
    if bool_eq user.enabled enabled then pure result else fail (still enabled id)

  -- Both handlers behind `extractActionUserID`
  abbrev pub action_for : Bool → Option String → Action W Bool
  action_for enabled none = fail "invalid user ID format"
  action_for enabled (some id) = change_account enabled id true

  -- `enableAccountActionHandler` and `disableAccountActionHandler`: the result is `fieldSuccess`.
  unfoldable pub account_action : Bool → Arguments → Action W Bool
  account_action enabled invalid = fail "invalid arguments"
  account_action enabled missing = fail (missing_id enabled)
  account_action enabled (user_id value) = action_for enabled (extract_action_user_id value)

  -- `Delete` disables the user.
  unfoldable pub delete_account : ResourceId → Action W Unit
  delete_account resource = change_account false resource.resource tt
