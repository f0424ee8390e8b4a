-- ===== src/Server/Handlers/Numbers.antt =====
-- `strconv.Atoi`, with which cmd/test-server/handlers.go reads the numbers of its paths, on what
-- `strconv.Itoa` writes, with which pkg/connector names users and groups.
use Prim.Native.String.{[] as empty, ◌∷◌ as cons}
use native.Mathlib.Numerals.{unary_clauses}
use baton_tenable_vm.Prelude.{
  Bool-cases, String, ap, arith, false, inl, inr, leb, nat_eq, nat_eq_iff, negsuc, pos, refl, some,
  string_eq, suc, sym, true, zero, ℕ, ℕ_eq, ℤ, ℤ_eq, ◌%◌, ◌*◌, ◌+◌, ◌-◌, ◌/◌, ◌<◌, ◌==◌, ◌^◌, ◌∙◌,
  ◌≡◌,
}
use baton_tenable_vm.Connector.Decimal.{digit, decimal, itoa}
use baton_tenable_vm.Server.Handlers.{digit_of, digits_of, atoi, negative, unsigned}
use baton_tenable_vm.Server.Uuid.{char_at}

-- A digit is read as its value, and is no sign.
digit_of-digit :
    (d : ℕ)
    → d < 10
    → (digit_of (digit d) ≡ some d)
      × ((cons (digit d) empty == "-") ≡ false)
      × ((cons (digit d) empty == "+") ≡ false)
unfolding digit_of digit char_at
digit_of-digit zero h = (refl, refl, refl)
digit_of-digit (suc zero) h = (refl, refl, refl)
digit_of-digit (suc (suc zero)) h = (refl, refl, refl)
digit_of-digit (suc (suc (suc zero))) h = (refl, refl, refl)
digit_of-digit (suc (suc (suc (suc zero)))) h = (refl, refl, refl)
digit_of-digit (suc (suc (suc (suc (suc zero))))) h = (refl, refl, refl)
digit_of-digit (suc (suc (suc (suc (suc (suc zero)))))) h = (refl, refl, refl)
digit_of-digit (suc (suc (suc (suc (suc (suc (suc zero))))))) h = (refl, refl, refl)
digit_of-digit (suc (suc (suc (suc (suc (suc (suc (suc zero)))))))) h = (refl, refl, refl)
digit_of-digit (suc (suc (suc (suc (suc (suc (suc (suc (suc zero))))))))) h = (refl, refl, refl)
digit_of-digit (suc (suc (suc (suc (suc (suc (suc (suc (suc (suc d)))))))))) h =
    absurd (omega (arith, h))

step-digits :
    (a n : ℕ) (out : String)
    → digits_of a (cons (digit (n % 10)) out) ≡ digits_of (a * 10 + n % 10) out
unfolding digits_of
step-digits a n out =
    let e : digit_of (digit (n % 10)) ≡ some (n % 10) = (digit_of-digit (n % 10) (omega arith)).0 in
    rw (digits_of, e) refl

quotient_fits : (k n : ℕ) → n < 10 ^ suc k → n / 10 < 10 ^ k
quotient_fits k n h =
    let e : 10 ^ suc k ≡ 10 ^ k * 10 = simp unary_clauses (omega arith) in omega (arith, e, h)

-- Reading the digits of a number that has at most that many
digits_of-decimal :
    (k n : ℕ) (out : String)
    → n < 10 ^ suc k
    → digits_of 0 (decimal (suc k) n out) ≡ digits_of n out
unfolding decimal
digits_of-decimal zero n out h =
    let small : nat_eq (n / 10) 0 ≡ true = ground (arith, nat_eq_iff (n / 10) 0) in
    rw (small, step-digits 0 n out) (ap (λ m. digits_of m out) (omega (arith, h)))
digits_of-decimal (suc k) n out h = elim (Bool-cases (nat_eq (n / 10) 0)) [
  | inl done ↦
      let small : n / 10 ≡ 0 = ground (arith, nat_eq_iff (n / 10) 0) in
      rw (done, step-digits 0 n out) (ap (λ m. digits_of m out) (omega (arith, small)))
  | inr going ↦
      rw
        (
          going,
          digits_of-decimal k (n / 10) (cons (digit (n % 10)) out) (quotient_fits (suc k) n h),
          step-digits (n / 10) n out,
        )
        (ap (λ m. digits_of m out) (omega arith))
]

-- What a number in decimal begins with
abbrev Begins : String → Type 0
Begins s = (d : ℕ) × (rest : String) × (d < 10) × (s ≡ cons (digit d) rest)

decimal-Begins : (k n : ℕ) (out : String) → Begins out → Begins (decimal k n out)
unfolding decimal
decimal-Begins zero n out h = h
decimal-Begins (suc k) n out h =
    let begun : Begins (cons (digit (n % 10)) out) = (n % 10, out, omega arith, refl) in
    elim (Bool-cases (nat_eq (n / 10) 0)) [
      | inl done ↦ rw done begun
      | inr going ↦ rw going (decimal-Begins k (n / 10) (cons (digit (n % 10)) out) begun)
    ]

number-Begins : (n : ℕ) → Begins (decimal 20 n "")
unfolding decimal
number-Begins n =
    let begun : Begins (cons (digit (n % 10)) "") = (n % 10, "", omega arith, refl) in
    elim (Bool-cases (nat_eq (n / 10) 0)) [
      | inl done ↦ rw done begun
      | inr going ↦ rw going (decimal-Begins 19 (n / 10) (cons (digit (n % 10)) "") begun)
    ]

-- The numbers of a 64-bit `int`
abbrev pub IsInt64 : ℤ → Type 0
IsInt64 (pos n) = n < 2 ^ 63
IsInt64 (negsuc n) = n < 2 ^ 63

unsigned-decimal :
    (limit n : ℕ) → leb n limit ≡ true → n < 10 ^ 20 → unsigned limit (decimal 20 n "") ≡ some n
unfolding unsigned digits_of
unsigned-decimal limit n h fits =
    let (d, rest, small, e) = number-Begins n in
    let read : digits_of 0 (cons (digit d) rest) ≡ some n =
      ap (digits_of 0) (sym e) ∙ digits_of-decimal 19 n "" fits in
    rw (e, read, h) refl

-- A 64-bit number that is written in decimal is read back.
pub atoi-itoa : (z : ℤ) → IsInt64 z → atoi (itoa z) ≡ some z
unfolding atoi itoa negative
atoi-itoa (pos n) h =
    let (d, rest, small, e) = number-Begins n in
    let read : unsigned (2 ^ 63 - 1) (cons (digit d) rest) ≡ some n =
      ap (unsigned (2 ^ 63 - 1)) (sym e)
      ∙ unsigned-decimal (2 ^ 63 - 1) n (ground (arith, h)) (omega (arith, h)) in
    rw (e, (digit_of-digit d small).1, (digit_of-digit d small).2, read) refl
atoi-itoa (negsuc n) h =
    rw (unsigned-decimal (2 ^ 63) (suc n) (ground (arith, h)) (omega (arith, h))) refl
