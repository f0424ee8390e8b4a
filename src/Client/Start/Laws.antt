-- ===== src/Client/Start/Laws.antt =====
-- What a connector that was made holds.
use baton_tenable_vm.Prelude.{
  Bool, String, arith, if◌then◌else◌, refl, string_eq, subst, ℕ_eq, ℤ_eq, ◌==◌, ◌≡◌,
}
use baton_tenable_vm.Client.Action.{ok, failed, Result}
use baton_tenable_vm.Client.Helper.{absolute, normalize_base_url}
use baton_tenable_vm.Client.Helper.Laws.{IsBaseUrl, normalize_base_url_lem}
use baton_tenable_vm.Client.Http.{UrlLibrary}
use baton_tenable_vm.Client.Requests.{TenableVmClient}
use baton_tenable_vm.Client.Start.{
  TenableVm, client_at, configured_url, connector_of, new, new_client,
}
use baton_tenable_vm.Strings.{trim_right_char, trim_space}

-- The client of a configuration, and its setting
abbrev pub IsConfigured : UrlLibrary → TenableVm → TenableVmClient → Bool → Type 0
IsConfigured urls config c enable =
    (c.access_key ≡ config.access_key)
    × (c.secret_key ≡ config.secret_key)
    × (c.base_url
        ≡ trim_right_char "/" (
            trim_space
              (if config.base_url == "" then "https://cloud.tenable.com" else config.base_url)))
    × IsBaseUrl urls c.base_url
    × (enable ≡ config.enable_on_provision)

client_at-Configured :
    (urls : UrlLibrary) (http base : Result Unit) (config : TenableVm) (c : TenableVmClient)
    (enable : Bool) (url : Result String)
    → normalize_base_url urls (configured_url config) ≡ url
    → connector_of config.enable_on_provision
        (client_at http base config.access_key config.secret_key url)
      ≡ ok (c, enable)
    → IsConfigured urls config c enable
client_at-Configured urls http base config c enable (failed reason) e made = absurd (ground arith)
client_at-Configured urls (failed reason) base config c enable (ok u) e made = absurd (ground arith)
client_at-Configured urls (ok v) (failed reason) config c enable (ok u) e made =
    absurd (ground arith)
client_at-Configured urls (ok v) (ok v') config c enable (ok u) e made =
    let (trimmed, absolute) = normalize_base_url_lem urls (configured_url config) u e in
    let same : record {
      access_key = config.access_key;
      secret_key = config.secret_key;
      base_url = u;
    }
        ≡ c =
      ground (arith, made) in
    let set : config.enable_on_provision ≡ enable = ground (arith, made) in
    subst (λ e. IsConfigured urls config c e) set
      (subst (λ k. IsConfigured urls config k config.enable_on_provision) same
        (refl, refl, trimmed, absolute, refl))

-- A connector that is made has the keys and the setting of its configuration, and a base URL that is
-- absolute, with a host, over http or https: the configured one, or that of the commercial cloud
-- where none is configured, without the spaces around it and the slashes at its end.
pub new_lem :
    (urls : UrlLibrary) (http base : Result Unit) (config : TenableVm) (c : TenableVmClient)
    (enable : Bool)
    → new urls http base config ≡ ok (c, enable)
    → IsConfigured urls config c enable
unfolding new new_client
new_lem urls http base config c enable made =
    client_at-Configured urls http base config c enable
      (normalize_base_url urls (configured_url config)) refl made
