-- ===== src/Connector/Credentials.antt =====
-- `isPasswordValid` and `generateCredentials` of pkg/connector/helper.go, over the classes of the
-- package unicode and `crypto.GenerateRandomPassword` of the SDK.
pub mod Effect
pub mod Attempts
mod Tests
use Prim.Native.Char.{Char}
use Prim.Native.String.{[], ◌∷◌}
use baton_tenable_vm.Prelude.{
  Bool, Option, String, false, if◌then◌else◌, leb, length, negsuc, none, not, pos, some, string_eq,
  suc, zero, ℕ, ℕ_eq, ℤ, ℤ_eq, ◌&&◌, ◌==◌, ◌||◌,
}
use baton_tenable_vm.Client.Action.{◌>>=◌, Action, fail, pure}

abbrev pub symbols : String
symbols = "!\"#$%&'()*+,-./:;<=>?@[\\]^_`{|}~"

-- `strings.ContainsRune`
unfoldable pub contains_rune : String → Char → Bool
contains_rune [] c = false
contains_rune (d ∷ ds) c = ((d ∷ []) == (c ∷ [])) || contains_rune ds c

-- `unicode.IsUpper`, `unicode.IsLower` and `unicode.IsDigit`
pub record Unicode : Type 0 where
  pub is_upper : Char → Bool
  pub is_lower : Char → Bool
  pub is_digit : Char → Bool

-- The loop of `isPasswordValid` with its four flags: the first case that fits sets its flag.
unfoldable pub scan : Unicode → String → Bool → Bool → Bool → Bool → Bool
scan t [] upper lower digit special = upper && lower && digit && special
scan t (c ∷ cs) upper lower digit special =
    let is_upper = t.is_upper c in
    let is_lower = not is_upper && t.is_lower c in
    let is_digit = not is_upper && not is_lower && t.is_digit c in
    let is_special = not is_upper && not is_lower && not is_digit && contains_rune symbols c in
    scan t cs (upper || is_upper) (lower || is_lower) (digit || is_digit) (special || is_special)

unfoldable pub is_password_valid : Unicode → String → Bool
is_password_valid t password = scan t password false false false false

-- `min(12, length)`
abbrev pub at_most_12 : ℤ → ℤ
at_most_12 (pos n) = if leb n 12 then pos n else pos 12
at_most_12 (negsuc n) = negsuc n

module _ {W : Type 0} (t : Unicode) (generate_random_password : ℤ → Action W String) where
  -- The loop, with that many attempts left
  unfoldable pub attempts : ℕ → ℤ → Action W String
  attempts zero length = fail "failed to generate a valid password after 20 attempts"
  attempts (suc left) length = do
    password ← generate_random_password length
    if is_password_valid t password then pure password else attempts left length

  -- The options are the length of a random password, or another kind of credential.
  unfoldable pub generate_credentials : Option ℤ → Action W String
  generate_credentials none = fail "unsupported credential option"
  generate_credentials (some length) = attempts 20 (at_most_12 length)
