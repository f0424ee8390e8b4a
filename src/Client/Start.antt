-- ===== src/Client/Start.antt =====
-- `NewClient` of pkg/client/client.go, and `New` of pkg/connector/connector.go with the fields of the
-- configuration that it reads. What the SDK answers to making its HTTP clients is a parameter.
pub mod Laws
use Prim.Native.String
use baton_tenable_vm.Prelude.{Bool, String, if◌then◌else◌, string_eq, ℕ_eq, ℤ_eq, ◌==◌}
use baton_tenable_vm.Client.Action.{ok, failed, Result}
use baton_tenable_vm.Client.Helper.{normalize_base_url}
use baton_tenable_vm.Client.Http.{UrlLibrary}
use baton_tenable_vm.Client.Requests.{TenableVmClient}

abbrev pub base_url_default : String
base_url_default = "https://cloud.tenable.com"

-- The HTTP clients come behind the base URL.
abbrev pub with_http : Result Unit → Result Unit → TenableVmClient → Result TenableVmClient
with_http (failed reason) base c = failed reason
with_http (ok u) (failed reason) c = failed reason
with_http (ok u) (ok v) c = ok c

abbrev pub client_at :
    Result Unit → Result Unit → String → String → Result String → Result TenableVmClient
client_at http base access_key secret_key (failed reason) = failed reason
client_at http base access_key secret_key (ok url) =
    with_http http base
      (record { access_key = access_key; secret_key = secret_key; base_url = url })

unfoldable pub new_client :
    UrlLibrary → Result Unit → Result Unit → String → String → String → Result TenableVmClient
new_client urls http base access_key secret_key base_url =
    client_at http base access_key secret_key (normalize_base_url urls base_url)

-- `cfg.TenableVm`
pub record TenableVm : Type 0 where
  pub access_key : String
  pub secret_key : String
  pub base_url : String
  pub enable_on_provision : Bool

-- `New` puts the client and the setting into the `Connector`.
abbrev pub connector_of : Bool → Result TenableVmClient → Result (TenableVmClient × Bool)
connector_of enable (failed reason) =
    failed (String.◌++◌ "baton-tenable-vm: failed to create client: " reason)
connector_of enable (ok c) = ok (c, enable)

abbrev pub configured_url : TenableVm → String
configured_url config = if config.base_url == "" then base_url_default else config.base_url

unfoldable pub new :
    UrlLibrary → Result Unit → Result Unit → TenableVm → Result (TenableVmClient × Bool)
new urls http base config =
    connector_of config.enable_on_provision
      (new_client urls http base config.access_key config.secret_key (configured_url config))
