-- ===== src/Client/Operations/Effect.antt =====
-- The requests that the methods of pkg/client/client.go send.
use baton_tenable_vm.Prelude.{
  Bool, List, Option, String, [], arith, eq_iff, false, string_eq, true, ℕ_eq, ℤ_eq, ◌&&◌, ◌==◌,
  ◌||◌, ◌∷◌, ◌≡◌,
}
use baton_tenable_vm.Client.Types.{Permission, NewUser}
use baton_tenable_vm.Client.Action.{◌>>=◌, Result, lift, context}
use baton_tenable_vm.Client.Http.{
  header, accept_json_header, content_type_json_header, json_body, Body, Method, RequestOption,
  Transport, UrlLibrary,
}
use baton_tenable_vm.Client.Action.Keeps.{Keeps, bind-Keeps, call-Keeps, context-Keeps}
use baton_tenable_vm.Client.Api.{Api, UuidLibrary}
use baton_tenable_vm.Client.Header.{api_key_header}
use baton_tenable_vm.Client.Operations.{
  created_url, get_user_details, get_users, tenable_api, url_of, create_user,
  create_user_group_membership, delete_user, delete_user_group_membership, disable_user,
  enable_user, get_group_members, get_groups, get_permission_details, get_roles, get_user_roles,
  list_permissions, update_permission, update_user_roles,
}
use baton_tenable_vm.Client.Requests.{
  TenableVmClient, apply_all, do_request, get_resources_from_api, request_options,
}

-- A header of that name and value is among the options.
unfoldable pub has_header : {Uuid : Type 0} → String → String → List (RequestOption Uuid) → Bool
has_header name value [] = false
has_header name value (accept_json_header ∷ opts) = has_header name value opts
has_header name value (content_type_json_header ∷ opts) = has_header name value opts
has_header name value (json_body body ∷ opts) = has_header name value opts
has_header name value (header n v ∷ opts) =
    (n == name) && (v == value) || has_header name value opts

-- A property of the world that every operation of an API keeps.
pub record ApiKeeps {Uuid W : Type 0} (P : W → Type 0) (api : Api Uuid W) : Type 0 where
  pub get_users-Keeps : Keeps P api.get_users
  pub get_user_details-Keeps : (id : String) → Keeps P (api.get_user_details id)
  pub enable_user-Keeps : (id : String) → Keeps P (api.enable_user id)
  pub disable_user-Keeps : (id : String) → Keeps P (api.disable_user id)
  pub create_user-Keeps : (user : NewUser) → Keeps P (api.create_user user)
  pub delete_user-Keeps : (id : String) → Keeps P (api.delete_user id)
  pub get_roles-Keeps : Keeps P api.get_roles
  pub get_user_roles-Keeps : (uuid : String) → Keeps P (api.get_user_roles uuid)
  pub update_user_roles-Keeps : (uuid role : String) → Keeps P (api.update_user_roles uuid role)
  pub get_groups-Keeps : Keeps P api.get_groups
  pub get_group_members-Keeps : (id : String) → Keeps P (api.get_group_members id)
  pub create_membership-Keeps :
      (group user : String) → Keeps P (api.create_user_group_membership group user)
  pub delete_membership-Keeps :
      (group user : String) → Keeps P (api.delete_user_group_membership group user)
  pub list_permissions-Keeps : Keeps P api.list_permissions
  pub get_permission_details-Keeps : (uuid : String) → Keeps P (api.get_permission_details uuid)
  pub update_permission-Keeps : (p : Permission Uuid) → Keeps P (api.update_permission p)

module _ (lib : UuidLibrary) (urls : UrlLibrary) {W : Type 0} (http : Transport lib.Uuid urls.Url W)
    (c : TenableVmClient) (P : W → Type 0)
    (sends : (method : Method) (url : urls.Url) (opts : List (RequestOption lib.Uuid))
      → has_header "X-ApiKeys" (api_key_header c.access_key c.secret_key) opts ≡ true
      → Keeps P (http.send method url opts)) where
  options-Header :
      (body : Option (Body lib.Uuid))
      → has_header "X-ApiKeys"
          (api_key_header c.access_key c.secret_key)
          (request_options lib urls http c body)
        ≡ true
  unfolding has_header
  options-Header body = ground (
    arith,
    eq_iff (api_key_header c.access_key c.secret_key) (api_key_header c.access_key c.secret_key),
  )

  lift-Keeps : {A : Type 0} (r : Result A) → Keeps P (lift r)
  lift-Keeps r w p = p

  do_request-Keeps :
      {A : Type 0} (method : Method) (endpoint : String) (res : http.Json → Result A)
      (body : Option (Body lib.Uuid)) (opts : List (urls.Url → urls.Url))
      → Keeps P (do_request lib urls http c method endpoint res body opts)
  unfolding do_request
  do_request-Keeps method endpoint res body opts =
      bind-Keeps P (lift (urls.parse endpoint)) _ (lift-Keeps (urls.parse endpoint)) (λ url.
        bind-Keeps P
          (http.send method (apply_all lib urls http c opts url)
            (request_options lib urls http c body))
          _
          (sends method (apply_all lib urls http c opts url) (request_options lib urls http c body)
            (options-Header body))
          (λ answer. lift-Keeps (res answer)))

  -- A request to an endpoint
  plain-Keeps :
      {A : Type 0} (elements : List String) (method : Method) (res : http.Json → Result A)
      (body : Option (Body lib.Uuid)) (opts : List (urls.Url → urls.Url))
      → Keeps P (
          url_of lib urls http c elements >>= λ url.
          do_request lib urls http c method url res body opts)
  plain-Keeps elements method res body opts =
      bind-Keeps P (url_of lib urls http c elements) _
        (lift-Keeps (urls.join_path c.base_url elements))
        (λ url. do_request-Keeps method url res body opts)

  -- The same with the errors explained
  explained-Keeps :
      {A : Type 0} (elements : List String) (words : String) (method : Method)
      (res : http.Json → Result A) (body : Option (Body lib.Uuid))
      (opts : List (urls.Url → urls.Url))
      → Keeps P (
          created_url lib urls http c elements >>= λ url.
          context words (do_request lib urls http c method url res body opts))
  explained-Keeps elements words method res body opts =
      call-Keeps P "error creating url: " (url_of lib urls http c elements) _
        (lift-Keeps (urls.join_path c.base_url elements))
        (λ url.
          context-Keeps P words (do_request lib urls http c method url res body opts)
            (do_request-Keeps method url res body opts))

  -- Every request that a method of the client sends carries the two keys of the client: a property of
  -- the world that the requests with that header keep, is kept by each of the methods.
  pub tenable_api-ApiKeeps : ApiKeeps P (tenable_api lib urls http c)
  unfolding get_users get_user_details enable_user disable_user create_user delete_user get_roles
      get_user_roles update_user_roles get_groups get_group_members create_user_group_membership
      delete_user_group_membership list_permissions get_permission_details update_permission
      get_resources_from_api
  tenable_api-ApiKeeps = record {
    get_users-Keeps = plain-Keeps _ _ _ _ _;
    get_user_details-Keeps = λ id. explained-Keeps _ _ _ _ _ _;
    enable_user-Keeps = λ id. explained-Keeps _ _ _ _ _ _;
    disable_user-Keeps = λ id. explained-Keeps _ _ _ _ _ _;
    create_user-Keeps = λ user. explained-Keeps _ _ _ _ _ _;
    delete_user-Keeps = λ id. explained-Keeps _ _ _ _ _ _;
    get_roles-Keeps = plain-Keeps _ _ _ _ _;
    get_user_roles-Keeps = λ uuid. explained-Keeps _ _ _ _ _ _;
    update_user_roles-Keeps = λ uuid role. explained-Keeps _ _ _ _ _ _;
    get_groups-Keeps = plain-Keeps _ _ _ _ _;
    get_group_members-Keeps = λ id. plain-Keeps _ _ _ _ _;
    create_membership-Keeps = λ group user. plain-Keeps _ _ _ _ _;
    delete_membership-Keeps = λ group user. plain-Keeps _ _ _ _ _;
    list_permissions-Keeps = plain-Keeps _ _ _ _ _;
    get_permission_details-Keeps = λ uuid. plain-Keeps _ _ _ _ _;
    update_permission-Keeps = λ p. plain-Keeps _ _ _ _ _;
  }
