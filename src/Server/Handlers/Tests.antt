-- ===== src/Server/Handlers/Tests.antt =====
-- The check of the API keys of cmd/test-server at small inputs.
use text.Mathlib.TextLemmas.{cons-ne-nil}
use baton_tenable_vm.Prelude.{none, put, refl, some, string_eq, ℕ_eq, ℤ_eq, ◌≡◌}
use baton_tenable_vm.Server.Handlers.Routes.{get_roles, require_api_keys}
use baton_tenable_vm.Client.Header.{api_key_header}
use baton_tenable_vm.Server.Handlers.{unauthorized}
use baton_tenable_vm.Server.Handlers.Guard.{require_api_keys-api_key_header}
use baton_tenable_vm.Server.Keys.{parse_api_keys, read_parts, test_access_key, test_secret_key}
use baton_tenable_vm.Server.Keys.Laws.{IsKey, parse-header}
use baton_tenable_vm.Server.Seeds.{new_state}
use baton_tenable_vm.Strings.{contains_char, cut, split, trim_left, trim_right, trim_space}

access-IsKey : IsKey test_access_key
unfolding contains_char trim_left trim_right
access-IsKey = record { one_part = refl; nonempty = cons-ne-nil _ _; left = refl; right = refl }

secret-IsKey : IsKey test_secret_key
unfolding contains_char trim_left trim_right
secret-IsKey = record { one_part = refl; nonempty = cons-ne-nil _ _; left = refl; right = refl }

wrong-IsKey : IsKey "wrong key"
unfolding contains_char trim_left trim_right
wrong-IsKey = record { one_part = refl; nonempty = cons-ne-nil _ _; left = refl; right = refl }

parse-header_example :
    parse_api_keys (api_key_header test_access_key test_secret_key)
    ≡ some (test_access_key, test_secret_key)
parse-header_example = parse-header test_access_key test_secret_key access-IsKey secret-IsKey

require_api_keys_example :
    require_api_keys (api_key_header test_access_key "wrong key") get_roles new_state
    ≡ (some unauthorized, new_state)
require_api_keys_example =
    require_api_keys-api_key_header test_access_key "wrong key" get_roles new_state access-IsKey
      wrong-IsKey

-- A space behind a key, a part without a sign, and a key that is missing
malformed :
    (parse_api_keys "accessKey=a ;secretKey=b" ≡ some ("a", "b"))
    × (parse_api_keys "accessKey=a;secretKey" ≡ none)
    × (parse_api_keys "accessKey=a;secretKey=" ≡ none)
    × (parse_api_keys "accessKey=a;;secretKey=b=c;" ≡ some ("a", "b=c"))
unfolding parse_api_keys read_parts split cut trim_space trim_left trim_right put
malformed = (refl, refl, refl, refl)
