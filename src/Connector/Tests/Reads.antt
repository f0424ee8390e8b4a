-- ===== src/Connector/Tests/Reads.antt =====
-- The listing of pkg/connector over a server that counts the requests that are no GET.
use baton_tenable_vm.Prelude.{
  Bool, String, [], false, none, string_eq, suc, ℕ, ℕ_eq, ℤ_eq, ◌∷◌, ◌≡◌,
}
use baton_tenable_vm.Client.Action.{ok, failed}
use baton_tenable_vm.Client.Http.{
  method_get, method_put, method_post, method_delete, Method, Transport, UrlLibrary,
}
use baton_tenable_vm.Connector.Tests.Listing.{small_sdk, Made}
use baton_tenable_vm.Connector.Users.{list_users}
use baton_tenable_vm.Connector.Groups.Listing.{list_groups, group_grants}
use baton_tenable_vm.Connector.Roles.Listing.{list_roles}
use baton_tenable_vm.Client.Action.Keeps.{Keeps}
use baton_tenable_vm.Client.Requests.{TenableVmClient}
use baton_tenable_vm.Client.Tests.Uuids.{two_uuids}
use baton_tenable_vm.Connector.Base.{Connector}
use baton_tenable_vm.Connector.Permissions.Listing.{list_permission_resources}
use baton_tenable_vm.Connector.ReadOnly.{http_connector, listing-Keeps}
use baton_tenable_vm.Strings.{join}

abbrev pub some_urls : UrlLibrary
some_urls = record {
  Url = String;
  parse = ok;
  join_path = λ base elements. ok (join "/" (base ∷ elements));
  scheme = λ url. "https";
  host = λ url. "cloud.tenable.com";
  set_query = λ key value url. url;
}

abbrev writes : Method → ℕ → ℕ
writes method_get w = w
writes method_put w = suc w
writes method_post w = suc w
writes method_delete w = suc w

abbrev write_counting : Transport Bool String ℕ
write_counting = record {
  Json = Unit;
  send = λ method url opts w. (ok tt, writes method w);
  users_response = λ j. ok [];
  user = λ j. failed "no user";
  role_list = λ j. ok [];
  user_role = λ j. failed "no roles";
  groups_response = λ j. ok [];
  permissions_list = λ j. ok [];
  permission = λ j. failed "no permission";
}

abbrev pub some_client : TenableVmClient
some_client = record { access_key = "a"; secret_key = "s"; base_url = "https://cloud.tenable.com" }

abbrev small_http_connector : Connector Bool ℕ
small_http_connector =
    http_connector two_uuids small_sdk some_urls write_counting some_client false (λ w. w ≡ 0)
      (λ url opts w none_yet. none_yet)

abbrev some_group : Made
some_group = record {
  id = record { resource_type = "group"; resource = "1" };
  display_name = "All";
  options = [];
}

listing_example :
    Keeps (λ w. w ≡ 0) (list_users two_uuids small_sdk small_http_connector none)
    × Keeps (λ w. w ≡ 0) (list_groups two_uuids small_sdk small_http_connector none)
    × Keeps (λ w. w ≡ 0) (list_roles two_uuids small_sdk small_http_connector none)
    × Keeps (λ w. w ≡ 0) (list_permission_resources two_uuids small_sdk small_http_connector none)
    × Keeps (λ w. w ≡ 0) (group_grants two_uuids small_sdk small_http_connector some_group)
listing_example =
    listing-Keeps two_uuids small_sdk some_urls write_counting some_client false (λ w. w ≡ 0)
      (λ url opts w none_yet. none_yet) none some_group
