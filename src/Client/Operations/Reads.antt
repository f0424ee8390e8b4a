-- ===== src/Client/Operations/Reads.antt =====
-- The reading methods of pkg/client/client.go, with which the connector lists resources and grants.
use baton_tenable_vm.Prelude.{List, String, [], none, string_eq, ℕ_eq, ℤ_eq, ◌∷◌}
use baton_tenable_vm.Client.Action.{◌>>=◌, Result, lift}
use baton_tenable_vm.Client.Http.{method_get, RequestOption, Transport, UrlLibrary}
use baton_tenable_vm.Client.Action.Keeps.{Keeps, bind-Keeps}
use baton_tenable_vm.Client.Api.{UuidLibrary}
use baton_tenable_vm.Client.Operations.{
  get_group_members, get_groups, get_roles, get_users, list_group_members_path, list_permissions,
  permissions_path, url_of,
}
use baton_tenable_vm.Client.Requests.{
  TenableVmClient, apply_all, do_request, get_resources_from_api, request_options, with_roles,
}

module _ (lib : UuidLibrary) (urls : UrlLibrary) {W : Type 0} (http : Transport lib.Uuid urls.Url W)
    (c : TenableVmClient) (P : W → Type 0)
    (gets : (url : urls.Url) (opts : List (RequestOption lib.Uuid))
      → Keeps P (http.send method_get url opts)) where
  got-Keeps :
      {A : Type 0} (elements : List String) (res : http.Json → Result A)
      (opts : List (urls.Url → urls.Url))
      → Keeps P (
          url_of lib urls http c elements
          >>= (λ url. get_resources_from_api lib urls http c url res opts))
  unfolding get_resources_from_api do_request
  got-Keeps elements res opts =
      bind-Keeps P (url_of lib urls http c elements) _ (λ w p. p)
        λ url.
          bind-Keeps P (lift (urls.parse url)) _ (λ w p. p)
            λ address.
              bind-Keeps P
                (http.send method_get (apply_all lib urls http c opts address)
                  (request_options lib urls http c none))
                _
                (gets (apply_all lib urls http c opts address)
                  (request_options lib urls http c none))
                λ answer. λ w. λ p. p

  pub get_users-Reads : Keeps P (get_users lib urls http c)
  unfolding get_users
  get_users-Reads = got-Keeps ("/users" ∷ []) http.users_response (with_roles lib urls http c ∷ [])

  pub get_groups-Reads : Keeps P (get_groups lib urls http c)
  unfolding get_groups
  get_groups-Reads = got-Keeps ("/groups" ∷ []) http.groups_response []

  pub get_roles-Reads : Keeps P (get_roles lib urls http c)
  unfolding get_roles
  get_roles-Reads = got-Keeps ("/access-control/v1/roles" ∷ []) http.role_list []

  pub list_permissions-Reads : Keeps P (list_permissions lib urls http c)
  unfolding list_permissions
  list_permissions-Reads =
      got-Keeps (permissions_path lib urls http c ∷ []) http.permissions_list []

  pub get_group_members-Reads :
      (group_id : String) → Keeps P (get_group_members lib urls http c group_id)
  unfolding get_group_members
  get_group_members-Reads group_id =
      got-Keeps (list_group_members_path lib urls http c group_id ∷ []) http.users_response []
