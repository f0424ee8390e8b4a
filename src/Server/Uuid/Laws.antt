-- ===== src/Server/Uuid/Laws.antt =====
-- The texts that formatUUID of cmd/test-server/state.go makes of numbers.
use Prim.Native.Char.{Char, code}
use Prim.Native.String.{[] as empty, ◌∷◌ as cons}
use Prim.Native.String
use text.Mathlib.TextLemmas.{
  cons-append, append_cancel_left, head-eq_of_cons-eq, tail-eq_of_cons-eq,
}
use native.Mathlib.Nat.{pow-suc}
use baton_tenable_vm.Prelude.{
  Bool, Bool-cases, Option, Option-cases, String, ap, arith, false, if◌then◌else◌, inl, inr, ltb,
  nat_eq, nat_eq_iff, ne→beq, none, pos, refl, some, string_eq, subst, suc, sym, true, zero, ℕ,
  ℕ_eq, ℤ_eq, ◌%◌, ◌-◌, ◌/◌, ◌<◌, ◌==◌, ◌^◌, ◌∙◌, ◌≡◌, ◌≢◌,
}
use baton_tenable_vm.Server.Uuid.{hexdigits, char_at, pad, pad12, uuid_prefix, format_uuid}

-- The number that a hexadecimal digit stands for, and 16 for the lack of one.
hex_value : Char → ℕ
hex_value c = if ltb (code c) 97 then code c - 48 else code c - 87

digit_value : Option Char → ℕ
digit_value none = 16
digit_value (some c) = hex_value c

-- Each of the first places of `hexdigits` has the digit of its number.
reads_below : ℕ → Bool
reads_below zero = true
reads_below (suc i) =
    let rest = reads_below i in if nat_eq (digit_value (char_at hexdigits i)) i then rest else false

digit_value-below : (k i : ℕ) → reads_below k ≡ true → i < k → digit_value (char_at hexdigits i) ≡ i
unfolding reads_below
digit_value-below zero i all less = absurd (omega arith)
digit_value-below (suc k) i all less =
    let here = nat_eq_iff (digit_value (char_at hexdigits k)) k in
    elim (Bool-cases (nat_eq i k)) [
      | inl last ↦
          let e = (nat_eq_iff i k).0 last in
          subst (λ j. digit_value (char_at hexdigits j) ≡ j) (sym e) (ground (arith, here))
      | inr before ↦ digit_value-below k i (ground arith) (ground (arith, nat_eq_iff i k))
    ]

hexdigits_read : reads_below 16 ≡ true
unfolding reads_below digit_value hex_value char_at
hexdigits_read = refl

digit_value-char_at : (i : ℕ) → i < 16 → digit_value (char_at hexdigits i) ≡ i
digit_value-char_at i h = digit_value-below 16 i hexdigits_read h

char_at-some : (i : ℕ) → i < 16 → (c : Char) × (char_at hexdigits i ≡ some c) × (hex_value c ≡ i)
char_at-some i h = elim (Option-cases (char_at hexdigits i)) [
  | inl missing ↦
      absurd (unfold digit_value in omega (arith, ap digit_value missing, digit_value-char_at i h))
  | inr (c, found) ↦
      (c, found, unfold digit_value in sym (ap digit_value found) ∙ digit_value-char_at i h)
]

pad_step :
    (i n : ℕ) (out : String) {c : Char}
    → char_at hexdigits (n % 16) ≡ some c
    → pad (suc i) (pos n) out ≡ pad i (pos (n / 16)) (cons c out)
unfolding pad
pad_step i n out e = rw (e, pad)

pad_total : (i n : ℕ) (out : String) → (r : String) × (pad i (pos n) out ≡ some r)
pad_total zero n out = (out, unfold pad in refl)
pad_total (suc i) n out =
    let (c, found, _) = char_at-some (n % 16) (omega arith) in
    let (r, rest) = pad_total i (n / 16) (cons c out) in (r, pad_step i n out found ∙ rest)

pad_injective :
    (i m n : ℕ) (out out' : String) {r : String}
    → m < 16 ^ i
    → n < 16 ^ i
    → pad i (pos m) out ≡ some r
    → pad i (pos n) out' ≡ some r
    → (m ≡ n) × (out ≡ out')
pad_injective zero m n out out' hm hn p q = unfold pad in (omega arith, ground arith)
pad_injective (suc i) m n out out' hm hn p q =
    let (c, found, value) = char_at-some (m % 16) (omega arith) in
    let (c', found', value') = char_at-some (n % 16) (omega arith) in
    let (high, rest) =
      pad_injective i (m / 16) (n / 16) (cons c out) (cons c' out') (omega (arith, pow-suc 16 i))
        (omega (arith, pow-suc 16 i)) (sym (pad_step i m out found) ∙ p)
        (sym (pad_step i n out' found') ∙ q) in
    (omega (arith, ap hex_value (head-eq_of_cons-eq rest)), tail-eq_of_cons-eq rest)

-- The digits behind the prefix, as `pad12` makes them.
pub format_uuid-some :
    (n : ℕ) {uuid : String}
    → format_uuid (pos n) ≡ some uuid
    → (digits : String) × (pad 12 (pos n) "" ≡ some digits)
      × (uuid ≡ String.◌++◌ uuid_prefix digits)
unfolding format_uuid
format_uuid-some n e =
    let (digits, padded) = pad_total 12 n "" in (digits, padded, ground (arith, padded))

-- A uuid that is made begins with the character 0.
pub format_uuid-head :
    (n : ℕ) {uuid : String}
    → format_uuid (pos n) ≡ some uuid
    → (rest : String) × (uuid ≡ cons "0" rest)
format_uuid-head n e =
    let (digits, _, made) = format_uuid-some n e in
    (
      String.◌++◌ "0000000-0000-4000-8000-" digits,
      made ∙ cons-append "0" "0000000-0000-4000-8000-" digits,
    )

-- A text that begins otherwise is not made.
pub format_uuid-ne :
    (n : ℕ) {uuid : String} (c : Char) (s : String)
    → format_uuid (pos n) ≡ some uuid
    → code c ≢ code "0"
    → (cons c s == uuid) ≡ false
format_uuid-ne n c s e other =
    let (rest, made) = format_uuid-head n e in
    ne→beq (cons c s) _ (λ same. other (ap code (head-eq_of_cons-eq (same ∙ made))))

-- Every number has a uuid.
pub format_uuid_total : (n : ℕ) → (uuid : String) × (format_uuid (pos n) ≡ some uuid)
unfolding format_uuid
format_uuid_total n =
    let (r, e) = pad_total 12 n "" in (String.◌++◌ uuid_prefix r, rw (e, pad12, format_uuid))

-- Two numbers below 2^48 with one uuid are equal.
pub format_uuid_injective :
    (m n : ℕ) {uuid : String}
    → m < 2 ^ 48
    → n < 2 ^ 48
    → format_uuid (pos m) ≡ some uuid
    → format_uuid (pos n) ≡ some uuid
    → m ≡ n
format_uuid_injective m n hm hn p q =
    let (digits, padded, e) = format_uuid-some m p in
    let (digits', padded', e') = format_uuid-some n q in
    let same : digits ≡ digits' = append_cancel_left uuid_prefix digits digits' (sym e ∙ e') in
    (pad_injective 12 m n "" "" hm hn padded (rw same padded')).0
