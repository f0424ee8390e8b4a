-- ===== src/Server/Handlers/Guard.antt =====
-- The check of the API keys in front of the handlers of cmd/test-server (handlers.go).
use text.Mathlib.TextLemmas.{append-ne-nil_of_right_ne-nil, cons-ne-nil}
use Prim.Native.String.{◌∷◌ as cons}
use baton_tenable_vm.Prelude.{
  String, if◌then◌else◌, refl, some, string_eq, ℕ_eq, ℤ_eq, ◌&&◌, ◌==◌, ◌≡◌, ◌≢◌,
}
use baton_tenable_vm.Server.Handlers.Routes.{Request, require_api_keys, serve}
use baton_tenable_vm.Client.Header.{api_key_header, pair}
use baton_tenable_vm.Server.Handlers.{unauthorized}
use baton_tenable_vm.Server.Keys.{accepted, test_access_key, test_secret_key}
use baton_tenable_vm.Server.Keys.Laws.{IsKey, eq-empty, parse-header}
use baton_tenable_vm.Server.State.{State}

header-nonempty : (a k : String) → IsKey k → api_key_header a k ≢ ""
header-nonempty a k hk =
    append-ne-nil_of_right_ne-nil (pair "accessKey" a)
      (cons-ne-nil ";" (cons " " (pair "secretKey" k)))

-- A request with the header that the client writes of two keys that can stand in it reaches its
-- handler if they are the server's two keys, and otherwise is answered with 401 and leaves the state
-- as it was.
pub require_api_keys-api_key_header :
    (access_key secret_key : String) (request : Request) (s : State)
    → IsKey access_key
    → IsKey secret_key
    → require_api_keys (api_key_header access_key secret_key) request s ≡ (
        if (access_key == test_access_key) && (secret_key == test_secret_key)
        then serve request s
        else (some unauthorized, s))
unfolding require_api_keys accepted
require_api_keys-api_key_header a k request s ha hk =
    rw (eq-empty (api_key_header a k) (header-nonempty a k hk), parse-header a k ha hk) refl
