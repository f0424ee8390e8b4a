-- ===== src/Connector/Tests/Wire.antt =====
-- The listing of users from a server with one user.
use baton_tenable_vm.Prelude.{
  Bool, List, [], false, none, pos, refl, string_eq, suc, true, ℕ_eq, ℤ_eq, ◌∷◌,
}
use baton_tenable_vm.Server.Types as Server
use baton_tenable_vm.Server.Types.{zero_user}
use baton_tenable_vm.Server.State.Users as ServerUsers
use baton_tenable_vm.Server.State.{State, empty_state}
use baton_tenable_vm.Client.Types.{Role}
use baton_tenable_vm.Client.Action.{ok}
use baton_tenable_vm.Connector.Tests.Listing.{small_sdk, bool_text-IsPlain}
use baton_tenable_vm.Connector.Tests.Reads.{some_client, some_urls}
use baton_tenable_vm.Connector.Users.{list_users}
use baton_tenable_vm.Client.Json.Laws.{client_user}
use baton_tenable_vm.Client.Tests.Uuids.{bool_text, two_uuids}
use baton_tenable_vm.Connector.Users.Laws.{Listed}
use baton_tenable_vm.Connector.Users.Wire.{list_users-wire, wire_connector}
use baton_tenable_vm.Server.Json.{users_json}
use baton_tenable_vm.Strings.{join}

abbrev one_user : Server.User
one_user = record zero_user {
  id = pos 7;
  name = "Ann Lee";
  rbac_roles = record { uuid = bool_text true; name = "Basic" } ∷ [];
}

abbrev one_state : State
one_state = record (empty_state "") { user_at = λ address. one_user; user_list = 0 ∷ [] }

abbrev held : List (Role Bool)
held = record { uuid = true; name = "Basic" } ∷ []

list_users-wire_example :
    Listed two_uuids bool_text-IsPlain small_sdk none
      (ok (client_user two_uuids false one_user held ∷ []), 1)
      (list_users two_uuids small_sdk
        (wire_connector two_uuids false bool_text-IsPlain small_sdk some_urls
          (λ method url opts w. (ok (users_json (ServerUsers.list_users one_state)), suc w))
          some_client
          true)
        none
        0)
unfolding ServerUsers.list_users join
list_users-wire_example =
    list_users-wire two_uuids false bool_text-IsPlain small_sdk some_urls
      (λ method url opts w. (ok (users_json (ServerUsers.list_users one_state)), suc w)) some_client
      true none one_state 0 1 "https://cloud.tenable.com//users" "https://cloud.tenable.com//users"
      ((one_user, held) ∷ []) refl refl refl (refl, tt) refl
