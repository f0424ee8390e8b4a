-- ===== src/Connector/ReadOnly.antt =====
-- What the listing of resources and grants in pkg/connector does to the API.
use baton_tenable_vm.Prelude.{Bool, List, Option, string_eq, ℕ_eq, ℤ_eq}
use baton_tenable_vm.Connector.Base.{Connector, ResourceId}
use baton_tenable_vm.Client.Http.{method_get, RequestOption, Transport, UrlLibrary}
use baton_tenable_vm.Client.Operations.{tenable_api, get_group_members}
use baton_tenable_vm.Connector.Users.{list_users}
use baton_tenable_vm.Connector.Groups.Listing.{list_groups, group_grants}
use baton_tenable_vm.Connector.Roles.Listing.{list_roles}
use baton_tenable_vm.Client.Action.Keeps.{Keeps, bind-Keeps, call-Keeps}
use baton_tenable_vm.Client.Api.{UuidLibrary}
use baton_tenable_vm.Client.Operations.Reads.{
  get_group_members-Reads, get_groups-Reads, get_roles-Reads, get_users-Reads,
  list_permissions-Reads,
}
use baton_tenable_vm.Client.Requests.{TenableVmClient}
use baton_tenable_vm.Connector.Permissions.Listing.{list_permission_resources}
use baton_tenable_vm.Connector.Sdk.{Sdk}

module _ (lib : UuidLibrary) (sdk : Sdk) (urls : UrlLibrary) {W : Type 0}
    (http : Transport lib.Uuid urls.Url W) (client : TenableVmClient) (enable : Bool)
    (P : W → Type 0)
    (gets : (url : urls.Url) (opts : List (RequestOption lib.Uuid))
      → Keeps P (http.send method_get url opts)) where
  abbrev pub http_connector : Connector lib.Uuid W
  http_connector = record {
    client = tenable_api lib urls http client;
    enable_on_provision = enable;
  }

  -- Listing resources and reading grants only sends GET requests: a property of the world that every
  -- GET request keeps, is kept by List of users, groups, roles and permissions and by Grants of a
  -- group, whatever fails. Grants of the other resources call no API.
  pub listing-Keeps :
      (parent : Option ResourceId) (group : sdk.Resource)
      → Keeps P (list_users lib sdk http_connector parent)
        × Keeps P (list_groups lib sdk http_connector parent)
        × Keeps P (list_roles lib sdk http_connector parent)
        × Keeps P (list_permission_resources lib sdk http_connector parent)
        × Keeps P (group_grants lib sdk http_connector group)
  unfolding list_users list_groups list_roles list_permission_resources group_grants
  listing-Keeps parent group = (
    bind-Keeps P (tenable_api lib urls http client).get_users _
        (get_users-Reads lib urls http client P gets) (λ _ w p. p),
    bind-Keeps P (tenable_api lib urls http client).get_groups _
        (get_groups-Reads lib urls http client P gets) (λ _ w p. p),
    bind-Keeps P (tenable_api lib urls http client).get_roles _
        (get_roles-Reads lib urls http client P gets) (λ _ w p. p),
    call-Keeps P _ (tenable_api lib urls http client).list_permissions _
        (list_permissions-Reads lib urls http client P gets)
        (λ _.
          call-Keeps P _ (tenable_api lib urls http client).get_users _
            (get_users-Reads lib urls http client P gets)
            (λ _.
              call-Keeps P _ (tenable_api lib urls http client).get_groups _
                (get_groups-Reads lib urls http client P gets) (λ _ w p. p))),
    bind-Keeps P (get_group_members lib urls http client (sdk.id group).resource) _
        (get_group_members-Reads lib urls http client P gets (sdk.id group).resource) (λ _ w p. p),
  )
