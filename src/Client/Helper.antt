-- ===== src/Client/Helper.antt =====
-- pkg/client/client_helper.go. An error of `normalizeBaseURL` is its fixed words.
pub mod Laws
use Prim.Native.String
use baton_tenable_vm.Prelude.{
  List, String, if◌then◌else◌, map, not, string_eq, ℕ_eq, ℤ_eq, ◌&&◌, ◌==◌,
}
use baton_tenable_vm.Client.Types.{Permission, TenableObject}
use baton_tenable_vm.Client.Action.{ok, failed, ◌>>=◌, Result}
use baton_tenable_vm.Client.Http.{
  method_get, method_put, method_post, method_delete, user_role_body, new_user_body,
  user_enabled_body, permission_update_body, accept_json_header, content_type_json_header, header,
  json_body, UrlLibrary,
}
use baton_tenable_vm.Strings.{replace_first, trim_right_char, trim_space}

-- `normalizeBaseURL`
abbrev pub absolute : (urls : UrlLibrary) → String → urls.Url → Result String
absolute urls trimmed parsed =
    if not (urls.scheme parsed == "http") && not (urls.scheme parsed == "https")
    then failed "must include an http:// or https:// scheme"
    else if urls.host parsed == ""
    then failed "missing host"
    else ok trimmed

abbrev pub after_parse : (urls : UrlLibrary) → String → Result urls.Url → Result String
after_parse urls trimmed (failed reason) = failed reason
after_parse urls trimmed (ok parsed) = absolute urls trimmed parsed

unfoldable pub normalize_base_url : UrlLibrary → String → Result String
normalize_base_url urls base_url =
    let trimmed = trim_right_char "/" (trim_space base_url) in
    if trimmed == ""
    then failed "base URL is empty"
    else after_parse urls trimmed (urls.parse trimmed)

module _ {Uuid : Type 0} where
  -- One round of the loop of `parseTagNames`
  abbrev pub parse_tag_name : TenableObject Uuid → TenableObject Uuid
  parse_tag_name obj =
      if obj.type == "Tag" then record obj { name = replace_first ":" "," obj.name } else obj

  unfoldable pub parse_tag_names : List (TenableObject Uuid) → List (TenableObject Uuid)
  parse_tag_names objs = map parse_tag_name objs
