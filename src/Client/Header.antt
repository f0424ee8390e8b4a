-- ===== src/Client/Header.antt =====
-- The X-ApiKeys header that `doRequest` of pkg/client/client.go writes.
use Prim.Native.String.{◌∷◌}
use Prim.Native.String
use baton_tenable_vm.Prelude.{String, string_eq, ℕ_eq, ℤ_eq}

abbrev pub pair : String → String → String
pair name value = String.◌++◌ name ("=" ∷ value)

-- `fmt.Sprintf("accessKey=%s; secretKey=%s", ...)`
abbrev pub api_key_header : String → String → String
api_key_header access_key secret_key =
    String.◌++◌ (pair "accessKey" access_key) (";" ∷ " " ∷ pair "secretKey" secret_key)
