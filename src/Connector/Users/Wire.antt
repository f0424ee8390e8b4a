-- ===== src/Connector/Users/Wire.antt =====
-- The listing of users (pkg/connector/users.go) through pkg/client from the users of cmd/test-server.
use baton_tenable_vm.Prelude.{
  All, Bool, List, Option, String, [], ap, map, none, refl, string_eq, subst, sym, ℕ_eq, ℤ_eq, ◌∙◌,
  ◌∷◌, ◌≡◌,
}
use baton_tenable_vm.Server.Types as Server
use baton_tenable_vm.Server.State.Users as ServerUsers
use baton_tenable_vm.Client.Types.{Role}
use baton_tenable_vm.Client.Action.{ok, Action}
use baton_tenable_vm.Client.Http.{method_get, Method, RequestOption, UrlLibrary}
use baton_tenable_vm.Connector.Base.{Connector, ResourceId}
use baton_tenable_vm.Client.Operations.{get_users, tenable_api}
use baton_tenable_vm.Client.Requests.{
  get_resources_from_api, do_request, TenableVmClient, request_options,
}
use baton_tenable_vm.Json.{Json}
use baton_tenable_vm.Client.Api.{UuidLibrary}
use baton_tenable_vm.Client.Json.Laws.{client_user, kept_role, read_users_response-users_json}
use baton_tenable_vm.Client.Json.Transport.{json_transport}
use baton_tenable_vm.Connector.Sdk.{Sdk}
use baton_tenable_vm.Connector.Users.Laws.{IsPlain, Listed, list_users-Listed}
use baton_tenable_vm.Server.Json.{users_json}
use baton_tenable_vm.Connector.Users.{list_users}
use baton_tenable_vm.Server.State.{State}

module _ (lib : UuidLibrary) (nil_uuid : lib.Uuid)
    (plain : (u : lib.Uuid) → IsPlain (lib.to_string u)) (sdk : Sdk) (urls : UrlLibrary)
    {W : Type 0} (send : Method → urls.Url → List (RequestOption lib.Uuid) → Action W Json)
    (client : TenableVmClient) (enable : Bool) where
  abbrev pub wire_connector : Connector lib.Uuid W
  wire_connector = record {
    client = tenable_api lib urls (json_transport lib nil_uuid send) client;
    enable_on_provision = enable;
  }

  got_users :
      (w w' : W) (text : String) (url : urls.Url)
      (users : List (Server.User × List (Role lib.Uuid)))
      → urls.join_path client.base_url ("/users" ∷ []) ≡ ok text
      → urls.parse text ≡ ok url
      → All (λ p. p.0.rbac_roles ≡ map (kept_role lib nil_uuid) p.1) users
      → send method_get
          (urls.set_query "withRoles" "true" url)
          (request_options lib urls (json_transport lib nil_uuid send) client none)
          w
        ≡ (ok (users_json (map (λ p. p.0) users)), w')
      → get_users lib urls (json_transport lib nil_uuid send) client w
        ≡ (ok (map (λ p. client_user lib nil_uuid p.0 p.1) users), w')
  unfolding get_users get_resources_from_api do_request
  got_users w w' text url users addressed parsed kept sent =
      rw (addressed, parsed, sent, read_users_response-users_json lib nil_uuid users kept) refl

  -- Where the server's answer to `GET /users?withRoles=true` arrives, List of users ends in the world
  -- behind that request and gives resources whose grants are, in order, the roles with which the
  -- server lists its users; or it fails for a user of whom the SDK makes no resource.
  pub list_users-wire :
      (parent : Option ResourceId) (s : State) (w w' : W) (text : String) (url : urls.Url)
      (users : List (Server.User × List (Role lib.Uuid)))
      → urls.join_path client.base_url ("/users" ∷ []) ≡ ok text
      → urls.parse text ≡ ok url
      → map (λ p. p.0) users ≡ ServerUsers.list_users s
      → All (λ p. p.0.rbac_roles ≡ map (kept_role lib nil_uuid) p.1) users
      → send method_get
          (urls.set_query "withRoles" "true" url)
          (request_options lib urls (json_transport lib nil_uuid send) client none)
          w
        ≡ (ok (users_json (ServerUsers.list_users s)), w')
      → Listed lib plain sdk parent
          (ok (map (λ p. client_user lib nil_uuid p.0 p.1) users), w')
          (list_users lib sdk wire_connector parent w)
  list_users-wire parent s w w' text url users addressed parsed listed kept sent =
      subst
        (λ answer. Listed lib plain sdk parent answer (list_users lib sdk wire_connector parent w))
        (got_users w w' text url users addressed parsed kept
          (sent ∙ ap (λ us. (ok (users_json us), w')) (sym listed)))
        (list_users-Listed lib plain sdk wire_connector parent w)
