-- ===== src/Server/Handlers.antt =====
-- cmd/test-server/errors.go and what the handlers of cmd/test-server/handlers.go share: the response,
-- and `strconv.Atoi` of a path value. A body is what encoding/json decodes of it, `none` if it reports
-- an error; a query parameter is its text, "" if it is missing.
pub mod Users
pub mod Groups
pub mod Access
pub mod Routes
pub mod Effect
pub mod Guard
pub mod Numbers
mod Tests
use Prim.Native.String.{[], ◌∷◌}
use Prim.Native.Char.{Char}
use mathlib.Core.Option
use baton_tenable_vm.Prelude.{
  List, Option, String, if◌then◌else◌, leb, negsuc, none, pos, refl, some, string_eq, suc, zero, ℕ,
  ℕ_eq, ℤ, ℤ_eq, ◌*◌, ◌+◌, ◌-◌, ◌==◌, ◌^◌, ◌≡◌,
}
use baton_tenable_vm.Server.State.{State}
use baton_tenable_vm.Server.Types.{Group, Permission, Role, User}

pub data Payload : Type 0 where
  error : ℕ → String → String → Payload
  users : List User → Payload
  user : User → Payload
  groups : List Group → Payload
  roles : List Role → Payload
  -- container, user and roles, by uuid
  user_roles : String → String → List String → Payload
  permissions : List Permission → Payload
  permission : Permission → Payload
  health : String → Payload
  empty : Payload

pub record Response : Type 0 where
  pub status : ℕ
  pub payload : Payload

abbrev pub write_error : ℕ → String → String → Response
write_error status name message = record { status = status; payload = error status name message }

abbrev pub write_json : ℕ → Payload → Response
write_json status payload = record { status = status; payload = payload }

-- `w.WriteHeader(status)` alone
abbrev pub write_header : ℕ → Response
write_header status = record { status = status; payload = empty }

abbrev pub bad_request : String → Response
bad_request message = write_error 400 "Bad Request" message

abbrev pub unauthorized : Response
unauthorized = write_error 401 "Unauthorized" "Invalid credentials."

abbrev pub not_found : String → Response
not_found message = write_error 404 "Not Found" message

pub digit_of : Char → Option ℕ
digit_of c = find 0 "0123456789"
  where
    find : ℕ → String → Option ℕ
    find i [] = none
    find i (d ∷ ds) = let rest = find (suc i) ds in if (d ∷ []) == (c ∷ []) then some i else rest

-- The value of the digits behind `n`, `none` if one of the characters is no digit.
pub digits_of : ℕ → String → Option ℕ
digits_of n [] = some n
digits_of n (c ∷ s) = elim (digit_of c) [ none ↦ none | some d ↦ digits_of (n * 10 + d) s ]

-- A value up to `limit`
abbrev pub bounded : ℕ → Option ℕ → Option ℕ
bounded limit none = none
bounded limit (some n) = if leb n limit then some n else none

-- At least one digit, and a value up to `limit`
pub unsigned : ℕ → String → Option ℕ
unsigned limit [] = none
unsigned limit (c ∷ s) = bounded limit (digits_of 0 (c ∷ s))

pub negative : ℕ → ℤ
negative zero = pos 0
negative (suc n) = negsuc n

-- `strconv.Atoi`, of a 64-bit `int`
pub atoi : String → Option ℤ
atoi [] = none
atoi (c ∷ s) =
    if (c ∷ []) == "-"
    then Option.map negative (unsigned (2 ^ 63) s)
    else if (c ∷ []) == "+"
    then Option.map pos (unsigned (2 ^ 63 - 1) s)
    else Option.map pos (unsigned (2 ^ 63 - 1) (c ∷ s))

-- `if err != nil { writeError(...); return }` after `strconv.Atoi`
abbrev pub with_number : String → String → (ℤ → State → Response × State) → State → Response × State
with_number text message next s = elim (atoi text) [
  | none ↦ (bad_request message, s)
  | some n ↦ next n s
]

-- `if err != nil { writeError(...); return }` after decoding the body
abbrev pub with_body :
    {B : Type 0} → Option B → (B → State → Response × State) → State → Response × State
with_body body next s = elim body [ none ↦ (bad_request "malformed body", s) | some b ↦ next b s ]

atoi_examples :
    (atoi "-9223372036854775808" ≡ some (negsuc (2 ^ 63 - 1)))
    × (atoi "9223372036854775808" ≡ none)
    × (atoi "+007" ≡ some (pos 7))
    × (atoi "-" ≡ none)
    × (atoi "1_0" ≡ none)
unfolding atoi unsigned digits_of digit_of negative
atoi_examples = (refl, refl, refl, refl, refl)
