-- ===== src/Server/Keys/Laws.antt =====
-- Reading the X-ApiKeys header of cmd/test-server/handlers.go as pkg/client/client.go writes it.
use Prim.Native.String.{◌∷◌ as cons}
use Prim.Native.Char.{Char}
use text.Mathlib.TextLemmas.{append-ne-nil_of_right_ne-nil, cons-ne-nil}
use baton_tenable_vm.Prelude.{
  List, String, [], arith, eq_iff, false, put, refl, some, string_eq, ℕ_eq, ℤ_eq, ◌==◌, ◌∷◌, ◌≡◌,
  ◌≢◌,
}
use baton_tenable_vm.Client.Header.{pair, api_key_header}
use baton_tenable_vm.Server.Keys.{read_parts, parse_api_keys, both_keys}
use baton_tenable_vm.Strings.{contains_char, is_space, trim_left, trim_right, trim_space}
use baton_tenable_vm.Strings.Laws.{
  trim_space-append, cut-append, keep-ne, contains_char-append, split-append, split-lacks,
}

-- A key that can stand in the header.
pub record IsKey (key : String) : Type 0 where
  pub one_part : contains_char key ";" ≡ false
  pub nonempty : key ≢ ""
  pub left : trim_left key ≡ key
  pub right : trim_right key ≡ key

trim_right-value : (value : String) → IsKey value → trim_right (cons "=" value) ≡ cons "=" value
unfolding trim_right
trim_right-value value h = rw h.right (keep-ne "=" value h.nonempty)

trim_space-value : (value : String) → IsKey value → trim_space value ≡ value
unfolding trim_space
trim_space-value value h = rw (h.left, h.right) refl

pub eq-empty : (s : String) → s ≢ "" → (s == "") ≡ false
eq-empty s nonempty = ground (arith, eq_iff s "")

pair-trimmed :
    (c : Char) (name value : String)
    → is_space c ≡ false
    → IsKey value
    → trim_space (pair (cons c name) value) ≡ pair (cons c name) value
pair-trimmed c name value visible h =
    trim_space-append c name (cons "=" value) visible (cons-ne-nil "=" value)
      (trim_right-value value h)

-- A part with a visible first character and no other `=` before its value sets its name.
read_part :
    (c : Char) (name value part : String) (parts : List String) (kv : String → String)
    → is_space c ≡ false
    → contains_char (cons c name) "=" ≡ false
    → trim_space (cons c name) ≡ cons c name
    → IsKey value
    → trim_space part ≡ pair (cons c name) value
    → read_parts (part ∷ parts) kv ≡ read_parts parts (put kv (cons c name) value)
unfolding read_parts trim_space
read_part c name value part parts kv visible no_sign trimmed h same =
    rw
      (
        same,
        cut-append "=" (cons c name) value no_sign,
        trimmed,
        trim_space-value value h,
        eq-empty (pair (cons c name) value)
            (append-ne-nil_of_right_ne-nil (cons c name) (cons-ne-nil "=" value)),
      )
      refl

pair-Part :
    (name value : String)
    → contains_char name ";" ≡ false
    → IsKey value
    → contains_char (pair name value) ";" ≡ false
unfolding contains_char
pair-Part name value h key = rw (contains_char-append, h, key.one_part) refl

read_end :
    (a s : String)
    → IsKey a
    → IsKey s
    → both_keys (read_parts [] (put (put (λ _. "") "accessKey" a) "secretKey" s)) ≡ some (a, s)
unfolding read_parts put
read_end a s ha hs = rw (eq-empty a ha.nonempty, eq-empty s hs.nonempty) refl

-- The server reads back the two keys that the client writes into its header.
pub parse-header :
    (access_key secret_key : String)
    → IsKey access_key
    → IsKey secret_key
    → parse_api_keys (api_key_header access_key secret_key) ≡ some (access_key, secret_key)
unfolding parse_api_keys contains_char trim_left trim_right trim_space
parse-header a s ha hs =
    rw
      (
        split-append ";" (pair "accessKey" a) (cons " " (pair "secretKey" s))
            (pair-Part "accessKey" a refl ha),
        split-lacks ";" (cons " " (pair "secretKey" s)) (pair-Part "secretKey" s refl hs),
        read_part "a" "ccessKey" a (pair "accessKey" a) _ _ refl refl refl ha
            (pair-trimmed "a" "ccessKey" a refl ha),
        read_part "s" "ecretKey" s (cons " " (pair "secretKey" s)) _ _ refl refl refl hs
            (pair-trimmed "s" "ecretKey" s refl hs),
      )
      (read_end a s ha hs)
