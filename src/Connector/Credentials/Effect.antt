-- ===== src/Connector/Credentials/Effect.antt =====
-- The passwords that `generateCredentials` of pkg/connector/helper.go lets through.
use Prim.Native.Char.{Char}
use Prim.Native.String.{[] as empty, ◌∷◌ as cons}
use baton_tenable_vm.Prelude.{
  Bool, Bool-cases, String, arith, false, if◌then◌else◌, inl, inr, leb, length, negsuc, pos, refl,
  some, string_eq, subst, suc, sym, true, zero, ℕ, ℕ_eq, ℤ, ℤ_eq, ◌<◌, ◌==◌, ◌||◌, ◌∙◌, ◌≡◌, ◌≤◌,
  ◌⊎◌,
}
use baton_tenable_vm.Client.Action.{Result, ok, failed, ◌>>=◌, Action, pure}
use baton_tenable_vm.Connector.Credentials.{
  Unicode, symbols, at_most_12, attempts, contains_rune, scan, generate_credentials,
  is_password_valid,
}
use baton_tenable_vm.Connector.Credentials.Attempts.{later}
use baton_tenable_vm.Connector.Decimal.{digit}

abbrev pub text_length : String → ℕ
text_length empty = 0
text_length (cons c cs) = suc (text_length cs)

-- The text has a character of that kind.
unfoldable pub has : (Char → Bool) → String → Bool
has kind empty = false
has kind (cons c cs) = kind c || has kind cs

unfoldable pub is_symbol : Char → Bool
is_symbol c = has (λ d. cons d empty == cons c empty) "!\"#$%&'()*+,-./:;<=>?@[\\]^_`{|}~"

abbrev pub HasAllClasses : Unicode → String → Type 0
HasAllClasses t p =
    (has t.is_upper p ≡ true)
    × (has t.is_lower p ≡ true)
    × (has t.is_digit p ≡ true)
    × (has is_symbol p ≡ true)

contains_rune_lem :
    (s : String) (c : Char) → contains_rune s c ≡ has (λ d. cons d empty == cons c empty) s
unfolding contains_rune has
contains_rune_lem empty c = refl
contains_rune_lem (cons d ds) c = rw (contains_rune_lem ds c) refl

contains_rune-is_symbol : (c : Char) → contains_rune symbols c ≡ true → is_symbol c ≡ true
unfolding is_symbol
contains_rune-is_symbol c e = sym (contains_rune_lem symbols c) ∙ e

-- A flag that a character sets under a condition, and the characters behind it
widen :
    (flag narrow kind later : Bool)
    → (narrow ≡ true → kind ≡ true)
    → ((flag || narrow) || later) ≡ true
    → (flag || (kind || later)) ≡ true
widen true narrow kind later h e = refl
widen false true kind later h e = rw (h refl) refl
widen false false true later h e = refl
widen false false false later h e = e

-- Each flag at the end is set at the start or by a character of its class.
scan_lem :
    (t : Unicode) (p : String) (upper lower digit special : Bool)
    → scan t p upper lower digit special ≡ true
    → ((upper || has t.is_upper p) ≡ true)
      × ((lower || has t.is_lower p) ≡ true)
      × ((digit || has t.is_digit p) ≡ true)
      × ((special || has is_symbol p) ≡ true)
unfolding scan has
scan_lem t empty upper lower digit special e = ground arith
scan_lem t (cons c cs) upper lower digit special e =
    let (a, b, d, f) = scan_lem t cs _ _ _ _ e in
    (
      widen upper _ (t.is_upper c) _ (λ h. h) a,
      widen lower _ (t.is_lower c) _ (λ h. ground (arith, h)) b,
      widen digit _ (t.is_digit c) _ (λ h. ground (arith, h)) d,
      widen special _ (is_symbol c) _
          (λ h.
            let listed : contains_rune symbols c ≡ true = ground (arith, h) in
            contains_rune-is_symbol c listed)
          f,
    )

is_password_valid-HasAllClasses :
    (t : Unicode) (p : String) → is_password_valid t p ≡ true → HasAllClasses t p
unfolding is_password_valid
is_password_valid-HasAllClasses t p e = scan_lem t p false false false false e

at_most_12-cases :
    (length : ℤ) (p : String)
    → pos (text_length p) ≡ at_most_12 length
    → (wanted : ℕ) × (length ≡ pos wanted)
      × (((wanted ≤ 12) × (text_length p ≡ wanted)) ⊎ ((12 < wanted) × (text_length p ≡ 12)))
at_most_12-cases (pos n) p e = (
  n,
  refl,
  elim (Bool-cases (leb n 12)) [
    | inl small ↦ inl (ground (arith, small), ground (arith, e, small))
    | inr large ↦ inr (ground (arith, large), ground (arith, e, large))
  ],
)
at_most_12-cases (negsuc n) p e = absurd (ground arith)

module _ {W : Type 0} (t : Unicode) (generate : ℤ → Action W String)
    (exact : (n : ℤ) (w : W) (p : String) → (generate n w).0 ≡ ok p → pos (text_length p) ≡ n) where
  attempts_lem :
      (left : ℕ) (n : ℤ) (w : W) (p : String)
      → (attempts t generate left n w).0 ≡ ok p
      → (is_password_valid t p ≡ true) × (pos (text_length p) ≡ n)
  unfolding attempts
  attempts_lem zero n w p e = absurd (ground arith)
  attempts_lem (suc left) n w p e =
      after (generate n w) (exact n w) (λ v. attempts_lem left n v p) e
    where
      after :
          (x : Result String × W)
          → ((q : String) → x.0 ≡ ok q → pos (text_length q) ≡ n)
          → ((v : W)
              → (attempts t generate left n v).0 ≡ ok p
              → (is_password_valid t p ≡ true) × (pos (text_length p) ≡ n))
          → (((λ (_ : W). x) >>= λ password.
                if is_password_valid t password then pure password else attempts t generate left n)
              w).0
            ≡ ok p
          → (is_password_valid t p ≡ true) × (pos (text_length p) ≡ n)
      after (failed reason, v) fits later e' = absurd (ground arith)
      after (ok q, v) fits later e' = elim (Bool-cases (is_password_valid t q)) [
        | inl valid ↦
            let same : q ≡ p = ground (arith, valid) in
            subst (λ (x : String). (is_password_valid t x ≡ true) × (pos (text_length x) ≡ n)) same
              (valid, fits q refl)
        | inr invalid ↦ later v (ground (arith, invalid))
      ]

  -- If the SDK's generator gives passwords of the length asked for, then a password that
  -- `generateCredentials` returns has an upper-case letter, a lower-case letter, a digit and one of the
  -- symbols, and it is as long as wanted, or 12 long if more than 12 is wanted: it is never longer than
  -- 12, and it is shorter if less is wanted.
  pub generate_credentials_lem :
      (length : ℤ) (w : W) (p : String)
      → (generate_credentials t generate (some length) w).0 ≡ ok p
      → HasAllClasses t p
        × ((wanted : ℕ) × (length ≡ pos wanted)
            × (((wanted ≤ 12) × (text_length p ≡ wanted)) ⊎ ((12 < wanted) × (text_length p ≡ 12))))
  unfolding generate_credentials
  generate_credentials_lem length w p e =
      let (valid, fits) = attempts_lem 20 (at_most_12 length) w p e in
      (is_password_valid-HasAllClasses t p valid, at_most_12-cases length p fits)
