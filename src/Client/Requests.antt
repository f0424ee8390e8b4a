-- ===== src/Client/Requests.antt =====
-- `doRequest` and `getResourcesFromAPI` of pkg/client/client.go. The answers are without the
-- annotations with the rate limits.
use baton_tenable_vm.Prelude.{List, Option, String, [], none, some, string_eq, ℕ_eq, ℤ_eq, ◌∷◌}
use baton_tenable_vm.Client.Action.{ok, ◌>>=◌, Action, Result}
use baton_tenable_vm.Client.Http.{
  method_get, accept_json_header, content_type_json_header, header, json_body, Body, Method,
  RequestOption, Transport, UrlLibrary,
}
use baton_tenable_vm.Client.Api.{UuidLibrary}
use baton_tenable_vm.Client.Header.{api_key_header}

-- `TenableVMClient` without its `httpClient`
pub record TenableVmClient : Type 0 where
  pub access_key : String
  pub secret_key : String
  pub base_url : String

module _ (lib : UuidLibrary) (urls : UrlLibrary) {W : Type 0} (http : Transport lib.Uuid urls.Url W)
    (c : TenableVmClient) where
  abbrev lift : {A : Type 0} → Result A → Action W A
  lift r w = (r, w)

  -- `withQueryParam` and `withRoles`
  abbrev pub with_query_param : String → String → urls.Url → urls.Url
  with_query_param key value url = urls.set_query key value url

  abbrev pub with_roles : urls.Url → urls.Url
  with_roles = with_query_param "withRoles" "true"

  -- `for _, o := range reqOpt { o(urlAddress) }`
  abbrev pub apply_all : List (urls.Url → urls.Url) → urls.Url → urls.Url
  apply_all [] url = url
  apply_all (o ∷ opts) url = apply_all opts (o url)

  abbrev pub with_body : Option (Body lib.Uuid) → List (RequestOption lib.Uuid)
  with_body none = []
  with_body (some body) = json_body body ∷ []

  abbrev pub request_options : Option (Body lib.Uuid) → List (RequestOption lib.Uuid)
  request_options body =
      accept_json_header
      ∷ content_type_json_header
      ∷ header "X-ApiKeys" (api_key_header c.access_key c.secret_key)
      ∷ with_body body

  -- `doRequest`; the caller says how the answer is read.
  unfoldable pub do_request :
      {A : Type 0}
      → Method
      → String
      → (http.Json → Result A)
      → Option (Body lib.Uuid)
      → List (urls.Url → urls.Url)
      → Action W A
  do_request method endpoint_url res body req_opt = do
    url_address ← lift (urls.parse endpoint_url)
    resp ← http.send method (apply_all req_opt url_address) (request_options body)
    lift (res resp)

  -- A nil `res`
  abbrev pub unread : http.Json → Result Unit
  unread answer = ok tt

  -- `getResourcesFromAPI`
  unfoldable pub get_resources_from_api :
      {A : Type 0} → String → (http.Json → Result A) → List (urls.Url → urls.Url) → Action W A
  get_resources_from_api url_address res req_opt =
      do_request method_get url_address res none req_opt
