-- ===== src/Client/Tests.antt =====
-- The theorems about pkg/client at small inputs.
pub mod Uuids
mod Wire
use baton_tenable_vm.Prelude.{
  List, String, [], if◌then◌else◌, map, refl, string_eq, suc, true, ℕ, ℕ_eq, ℤ_eq, ◌∷◌, ◌≡◌,
}
use baton_tenable_vm.Client.Types.{TenableObject}
use baton_tenable_vm.Client.Action.{ok, failed}
use baton_tenable_vm.Client.Http.{Method, RequestOption, Transport, UrlLibrary}
use baton_tenable_vm.Client.Action.Keeps.{Keeps}
use baton_tenable_vm.Client.Api.{UuidLibrary}
use baton_tenable_vm.Client.Header.{api_key_header}
use baton_tenable_vm.Client.Helper.{normalize_base_url, parse_tag_names}
use baton_tenable_vm.Client.Helper.Laws.{
  IsBaseUrl, comma_name, normalize_base_url_lem, parse_tag_names_lem,
}
use baton_tenable_vm.Client.Operations.{tenable_api}
use baton_tenable_vm.Client.Operations.Effect.{ApiKeeps, has_header, tenable_api-ApiKeeps}
use baton_tenable_vm.Client.Requests.{TenableVmClient}
use baton_tenable_vm.Strings.{join, trim_left, trim_right, trim_right_char, trim_space}
use baton_tenable_vm.Json.{Json}
use baton_tenable_vm.Client.Start.{TenableVm, new, new_client}
use baton_tenable_vm.Client.Start.Laws.{IsConfigured, new_lem}

-- URLs that are read as texts, of which every one has the scheme https and a host
abbrev text_urls : UrlLibrary
text_urls = record {
  Url = String;
  parse = ok;
  join_path = λ base elements. ok (join "/" (base ∷ elements));
  scheme = λ url. "https";
  host = λ url. "cloud.tenable.com";
  set_query = λ key value url. url;
}

normalize_base_url_example :
    ("https://cloud.tenable.com" ≡ trim_right_char "/" (trim_space " https://cloud.tenable.com/ "))
    × IsBaseUrl text_urls "https://cloud.tenable.com"
unfolding normalize_base_url trim_space trim_left trim_right trim_right_char
normalize_base_url_example =
    normalize_base_url_lem text_urls " https://cloud.tenable.com/ " "https://cloud.tenable.com" refl

abbrev tags : List (TenableObject String)
tags =
    record { type = "Tag"; uuid = "t1"; name = "Location:Rome:North" }
    ∷ record { type = "AllAssets"; uuid = "t2"; name = "All:Assets" }
    ∷ []

parse_tag_names_example : parse_tag_names tags ≡ map comma_name tags
parse_tag_names_example = parse_tag_names_lem tags

abbrev pub text_library : UuidLibrary
text_library = record {
  Uuid = String;
  uuid_eq = string_eq;
  parse = ok;
  to_string = λ u. u;
  parse-to_string = λ u. refl;
}

abbrev test_client : TenableVmClient
test_client = record {
  access_key = "access";
  secret_key = "secret";
  base_url = "https://cloud.tenable.com";
}

-- A server that counts the requests without the keys, and answers none
abbrev counting : Transport String String ℕ
counting = record {
  Json = Unit;
  send = λ method url opts w. (
    failed "no answer",
    if has_header "X-ApiKeys" (api_key_header "access" "secret") opts then w else suc w,
  );
  users_response = λ j. ok [];
  user = λ j. failed "no user";
  role_list = λ j. ok [];
  user_role = λ j. failed "no roles";
  groups_response = λ j. ok [];
  permissions_list = λ j. ok [];
  permission = λ j. failed "no permission";
}

counting-Keeps :
    (method : Method) (url : String) (opts : List (RequestOption String))
    → has_header "X-ApiKeys" (api_key_header "access" "secret") opts ≡ true
    → Keeps (λ w. w ≡ 0) (counting.send method url opts)
counting-Keeps method url opts h w none_yet = rw h none_yet

tenable_api_example :
    ApiKeeps (λ w. w ≡ 0) (tenable_api text_library text_urls counting test_client)
tenable_api_example =
    tenable_api-ApiKeeps text_library text_urls counting test_client (λ w. w ≡ 0) counting-Keeps

abbrev configuration : TenableVm
configuration = record {
  access_key = "access";
  secret_key = "secret";
  base_url = "";
  enable_on_provision = true;
}

new_example : IsConfigured text_urls configuration test_client true
unfolding new new_client normalize_base_url trim_space trim_left trim_right trim_right_char
new_example = new_lem text_urls (ok tt) (ok tt) configuration test_client true refl
