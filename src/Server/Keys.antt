-- ===== src/Server/Keys.antt =====
-- `requireAPIKeys` and `parseAPIKeys` of cmd/test-server/handlers.go.
pub mod Laws
use Prim.Native.String
use baton_tenable_vm.Prelude.{
  Bool, List, Option, String, [], false, if◌then◌else◌, none, put, some, string_eq, ℕ_eq, ℤ_eq,
  ◌&&◌, ◌==◌, ◌||◌, ◌∷◌,
}
use baton_tenable_vm.Strings.{cut, split, trim_space}

abbrev pub test_access_key : String
test_access_key = "test-access-key"

abbrev pub test_secret_key : String
test_secret_key = "test-secret-key"

-- The loop of `parseAPIKeys`, with the map so far; a missing key reads as "".
unfoldable pub read_parts : List String → (String → String) → Option (String → String)
read_parts [] kv = some kv
read_parts (part ∷ parts) kv =
    let trimmed = trim_space part in
    let rest = λ (kv' : String → String). read_parts parts kv' in
    if trimmed == "" then rest kv else elim (cut "=" trimmed) [
      | none ↦ none
      | some (key, value) ↦ rest (put kv (trim_space key) (trim_space value))
    ]

-- What `parseAPIKeys` makes of the map; `none` is `("", "", false)`.
abbrev pub both_keys : Option (String → String) → Option (String × String)
both_keys none = none
both_keys (some kv) =
    if (kv "accessKey" == "") || (kv "secretKey" == "")
    then none
    else some (kv "accessKey", kv "secretKey")

unfoldable pub parse_api_keys : String → Option (String × String)
parse_api_keys raw = both_keys (read_parts (split ";" raw) (λ _. ""))

-- The guard of `requireAPIKeys`: whether the handler is called.
unfoldable pub accepted : String → Bool
accepted raw = if raw == "" then false else elim (parse_api_keys raw) [
  | none ↦ false
  | some (access_key, secret_key) ↦
      (access_key == test_access_key) && (secret_key == test_secret_key)
]
