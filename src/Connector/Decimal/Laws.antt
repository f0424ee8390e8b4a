-- ===== src/Connector/Decimal/Laws.antt =====
-- The texts that `strconv.Itoa` writes.
use Prim.Native.String.{[] as empty, ◌∷◌ as cons}
use Prim.Native.Char.{Char}
use text.Mathlib.TextLemmas.{cons-ne-nil}
use baton_tenable_vm.Prelude.{
  Bool-cases, Option, String, arith, false, inl, inr, nat_eq, negsuc, none, pos, refl, some,
  string_eq, subst, suc, zero, ℕ, ℕ_eq, ℤ, ℤ_eq, ◌%◌, ◌/◌, ◌≡◌, ◌≢◌,
}
use baton_tenable_vm.Connector.Decimal.{itoa, decimal, digit, shown}
use baton_tenable_vm.Server.Uuid.{char_at}
use baton_tenable_vm.Strings.{char_eq, contains_char}

char_at-lacks :
    (s : String) (i : ℕ) (c d : Char)
    → contains_char s d ≡ false
    → char_at s i ≡ some c
    → char_eq c d ≡ false
unfolding char_at contains_char
char_at-lacks empty i c d h e = ground arith
char_at-lacks (cons a s) zero c d h e =
    let same : a ≡ c = ground (arith, e) in subst (λ x. char_eq x d ≡ false) same (ground arith)
char_at-lacks (cons a s) (suc i) c d h e = char_at-lacks s i c d (ground arith) e

shown-lacks :
    (o : Option Char)
    → ((c : Char) → o ≡ some c → char_eq c "," ≡ false)
    → char_eq (shown o) "," ≡ false
shown-lacks none h = refl
shown-lacks (some c) h = h c refl

digit-lacks : (n : ℕ) → char_eq (digit n) "," ≡ false
unfolding digit contains_char
digit-lacks n =
    shown-lacks (char_at "0123456789" n) (λ c e. char_at-lacks "0123456789" n c "," refl e)

decimal-lacks :
    (k n : ℕ) (out : String)
    → contains_char out "," ≡ false
    → contains_char (decimal k n out) "," ≡ false
unfolding decimal contains_char
decimal-lacks zero n out h = h
decimal-lacks (suc k) n out h =
    let more : contains_char (cons (digit (n % 10)) out) "," ≡ false =
      rw (digit-lacks (n % 10)) h in
    elim (Bool-cases (nat_eq (n / 10) 0)) [
      | inl done ↦ rw done more
      | inr going ↦ rw going (decimal-lacks k (n / 10) (cons (digit (n % 10)) out) more)
    ]

decimal-nonempty : (k n : ℕ) (out : String) → out ≢ "" → decimal k n out ≢ ""
unfolding decimal
decimal-nonempty zero n out h = h
decimal-nonempty (suc k) n out h = elim (Bool-cases (nat_eq (n / 10) 0)) [
  | inl done ↦ rw done (cons-ne-nil (digit (n % 10)) out)
  | inr going ↦
      rw going
        (decimal-nonempty k (n / 10) (cons (digit (n % 10)) out) (cons-ne-nil (digit (n % 10)) out))
]

some_digits : (n : ℕ) → decimal 20 n "" ≢ ""
unfolding decimal
some_digits n = elim (Bool-cases (nat_eq (n / 10) 0)) [
  | inl done ↦ rw done (cons-ne-nil (digit (n % 10)) "")
  | inr going ↦
      rw going
        (decimal-nonempty 19 (n / 10) (cons (digit (n % 10)) "") (cons-ne-nil (digit (n % 10)) ""))
]

-- A number in decimal holds no comma and is not empty.
pub itoa-lacks : (n : ℤ) → contains_char (itoa n) "," ≡ false
unfolding itoa contains_char
itoa-lacks (pos n) = decimal-lacks 20 n "" refl
itoa-lacks (negsuc n) = decimal-lacks 20 (suc n) "" refl

pub itoa-nonempty : (n : ℤ) → itoa n ≢ ""
unfolding itoa
itoa-nonempty (pos n) = some_digits n
itoa-nonempty (negsuc n) = cons-ne-nil "-" (decimal 20 (suc n) "")
