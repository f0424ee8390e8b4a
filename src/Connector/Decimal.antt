-- ===== src/Connector/Decimal.antt =====
-- `strconv.Itoa` of a 64-bit `int`, which has at most 19 digits.
pub mod Laws
use Prim.Native.Char.{Char}
use Prim.Native.String.{◌∷◌}
use baton_tenable_vm.Prelude.{
  Option, String, if◌then◌else◌, nat_eq, negsuc, none, pos, refl, some, string_eq, suc, zero, ℕ,
  ℕ_eq, ℤ, ℤ_eq, ◌%◌, ◌-◌, ◌/◌, ◌^◌, ◌≡◌,
}
use baton_tenable_vm.Server.Uuid.{char_at}

abbrev pub shown : Option Char → Char
shown none = "0"
shown (some c) = c

unfoldable pub digit : ℕ → Char
digit d = shown (char_at "0123456789" d)

-- The digits of `n` before the text `out`, in at most that many rounds.
unfoldable pub decimal : ℕ → ℕ → String → String
decimal zero n out = out
decimal (suc k) n out =
    let digits = digit (n % 10) ∷ out in
    let rest = decimal k (n / 10) digits in if nat_eq (n / 10) 0 then digits else rest

unfoldable pub itoa : ℤ → String
itoa (pos n) = decimal 20 n ""
itoa (negsuc n) = "-" ∷ decimal 20 (suc n) ""

itoa_min : itoa (negsuc (2 ^ 63 - 1)) ≡ "-9223372036854775808"
unfolding itoa decimal digit char_at
itoa_min = refl

itoa_zero : itoa (pos 0) ≡ "0"
unfolding itoa decimal digit char_at
itoa_zero = refl

pub itoa_seven : itoa (pos 7) ≡ "7"
unfolding itoa decimal digit char_at
itoa_seven = refl
