-- ===== src/Client/Http.antt =====
-- What pkg/client uses of net/url, of encoding/json and of the SDK's HTTP client, over the world `W`
-- on which the API stands.
use baton_tenable_vm.Prelude.{Bool, List, String, string_eq, ℕ_eq, ℤ_eq}
use baton_tenable_vm.Client.Types.{
  Permission, Group, NewUser, PermissionUpdateBody, RoleDetails, User, UserRole,
}
use baton_tenable_vm.Client.Action.{Action, Result}

-- net/url
pub record UrlLibrary : Type 1 where
  pub Url : Type 0
  pub parse : String → Result Url
  pub join_path : String → List String → Result String
  pub scheme : Url → String
  pub host : Url → String
  -- `q := u.Query(); q.Set(key, value); u.RawQuery = q.Encode()`
  pub set_query : String → String → Url → Url

pub data Method : Type 0 where
  method_get method_put method_post method_delete : Method

-- `any` as the calls of `doRequest` fill it
pub data Body (Uuid : Type 0) : Type 0 where
  user_role_body : List String → Body Uuid
  new_user_body : NewUser → Body Uuid
  user_enabled_body : Bool → Body Uuid
  permission_update_body : PermissionUpdateBody Uuid → Body Uuid

-- `uhttp.RequestOption`
pub data RequestOption (Uuid : Type 0) : Type 0 where
  accept_json_header content_type_json_header : RequestOption Uuid
  header : String → String → RequestOption Uuid
  json_body : Body Uuid → RequestOption Uuid

-- `NewRequest` and `Do` of `uhttp.BaseHttpClient`, without rate-limit data, and encoding/json. `Do`
-- fails for an answer that is no success.
pub record Transport (Uuid Url W : Type 0) : Type 1 where
  pub Json : Type 0
  pub send : Method → Url → List (RequestOption Uuid) → Action W Json
  pub users_response : Json → Result (List (User Uuid))
  pub user : Json → Result (User Uuid)
  pub role_list : Json → Result (List (RoleDetails Uuid))
  pub user_role : Json → Result UserRole
  pub groups_response : Json → Result (List Group)
  pub permissions_list : Json → Result (List (Permission Uuid))
  pub permission : Json → Result (Permission Uuid)
