-- ===== src/Server/Uuid.antt =====
-- newDeterministicUUID, formatUUID and pad12 of cmd/test-server/state.go. `none` is the run-time
-- panic of an index out of range, which a negative `int` causes.
pub mod Laws
use Prim.Native.Char.{Char}
use Prim.Native.String.{[], ◌∷◌}
use Prim.Native.String
use baton_tenable_vm.Prelude.{
  Option, String, negsuc, none, pos, refl, some, string_eq, suc, zero, ℕ, ℕ_eq, ℤ, ℤ_eq, ◌%◌, ◌/◌,
  ◌≡◌,
}

abbrev hexdigits : String
hexdigits = "0123456789abcdef"

-- Go's `/` and `%` round towards zero.
abbrev neg : ℕ → ℤ
neg zero = pos 0
neg (suc n) = negsuc n

abbrev pub quot : ℤ → ℕ → ℤ
quot (pos n) d = pos (n / d)
quot (negsuc n) d = neg (suc n / d)

abbrev pub rem : ℤ → ℕ → ℤ
rem (pos n) d = pos (n % d)
rem (negsuc n) d = neg (suc n % d)

unfoldable pub char_at : String → ℕ → Option Char
char_at [] i = none
char_at (c ∷ s) zero = some c
char_at (c ∷ s) (suc i) = char_at s i

-- `s[i]`, of an ASCII text
abbrev index : String → ℤ → Option Char
index s (pos i) = char_at s i
index s (negsuc i) = none

-- The loop of `pad12`: the digits behind the current place are `out`.
pub pad : ℕ → ℤ → String → Option String
pad zero n out = some out
pad (suc i) n out = elim (index hexdigits (rem n 16)) [
  | none ↦ none
  | some digit ↦ pad i (quot n 16) (digit ∷ out)
]

unfoldable pub pad12 : ℤ → Option String
unfolding pad char_at
pad12 n = pad 12 n ""

abbrev pub uuid_prefix : String
uuid_prefix = "00000000-0000-4000-8000-"

unfoldable pub format_uuid : ℤ → Option String
unfolding pad12
format_uuid n = elim (pad12 n) [ none ↦ none | some digits ↦ some (String.◌++◌ uuid_prefix digits) ]

unfoldable pub new_deterministic_uuid : String → ℤ → Option String
new_deterministic_uuid label id = format_uuid id

pub uuid_1007 :
    new_deterministic_uuid "user" (pos 1007) ≡ some "00000000-0000-4000-8000-0000000003ef"
unfolding new_deterministic_uuid format_uuid
uuid_1007 = refl

uuid_panics : new_deterministic_uuid "user" (negsuc 4) ≡ none
unfolding new_deterministic_uuid format_uuid
uuid_panics = refl
