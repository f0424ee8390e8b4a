-- ===== src/Connector/Credentials/Tests.antt =====
-- `generateCredentials` with a generator that repeats four characters.
use Prim.Native.Char.{Char}
use Prim.Native.String.{◌∷◌ as cons}
use baton_tenable_vm.Prelude.{
  String, arith, if◌then◌else◌, inr, leb, negsuc, pos, refl, some, string_eq, suc, zero, ℕ, ℕ_eq, ℤ,
  ℤ_eq, ◌<◌, ◌==◌, ◌≡◌, ◌≤◌, ◌⊎◌,
}
use baton_tenable_vm.Client.Action.{ok, failed, Action}
use baton_tenable_vm.Connector.Credentials.{
  Unicode, attempts, contains_rune, generate_credentials, is_password_valid, scan,
}
use baton_tenable_vm.Connector.Credentials.Effect.{
  HasAllClasses, generate_credentials_lem, text_length,
}
use baton_tenable_vm.Connector.Credentials.Attempts.{
  generate_credentials-first, generate_credentials-none, AreInvalid,
}

cycle : ℕ → Char → Char → Char → Char → String
cycle zero a b c d = ""
cycle (suc n) a b c d = cons a (cycle n b c d a)

length-cycle : (n : ℕ) (a b c d : Char) → text_length (cycle n a b c d) ≡ n
unfolding cycle
length-cycle zero a b c d = refl
length-cycle (suc n) a b c d = omega (arith, length-cycle n b c d a)

small_unicode : Unicode
small_unicode = record {
  is_upper = λ c. cons c "" == "A";
  is_lower = λ c. cons c "" == "b";
  is_digit = λ c. cons c "" == "1";
}

generate : ℤ → Action Unit String
generate (pos n) w = (ok (cycle n "A" "b" "1" "#"), w)
generate (negsuc n) w = (failed "length is negative", w)

generate-exact : (n : ℤ) (w : Unit) (p : String) → (generate n w).0 ≡ ok p → pos (text_length p) ≡ n
unfolding generate
generate-exact (pos n) w p e = ground (arith, length-cycle n "A" "b" "1" "#")
generate-exact (negsuc n) w p e = absurd (ground arith)

generated : (generate_credentials small_unicode generate (some (pos 16)) tt).0 ≡ ok "Ab1#Ab1#Ab1#"
unfolding generate_credentials attempts is_password_valid scan contains_rune small_unicode generate
    cycle
generated = refl

generate_credentials_example :
    HasAllClasses small_unicode "Ab1#Ab1#Ab1#"
    × ((wanted : ℕ) × (pos 16 ≡ pos wanted)
        × (((wanted ≤ 12) × (text_length "Ab1#Ab1#Ab1#" ≡ wanted))
            ⊎ ((12 < wanted) × (text_length "Ab1#Ab1#Ab1#" ≡ 12))))
generate_credentials_example =
    generate_credentials_lem small_unicode generate generate-exact (pos 16) tt "Ab1#Ab1#Ab1#"
      generated

-- A generator that refuses lengths below 8, and gives the passwords of that list, and then the last
abbrev refusing : (ℕ → ℕ → String) → ℤ → Action ℕ String
refusing gives (pos n) w =
    if leb 8 n then (ok (gives n w), suc w) else (failed "invalid password length", w)
refusing gives (negsuc n) w = (failed "invalid password length", w)

refusing-answers :
    (gives : ℕ → ℕ → String) (n w : ℕ) → 8 ≤ n → refusing gives (pos n) w ≡ (ok (gives n w), suc w)
refusing-answers gives n w long = ground (arith, long)

-- The third password is the first that is valid.
abbrev words : ℕ → ℕ → String
words n zero = cycle n "a" "a" "a" "a"
words n (suc zero) = cycle n "A" "A" "A" "A"
words n (suc (suc w)) = cycle n "A" "b" "1" "#"

generate_credentials-first_example :
    generate_credentials small_unicode (refusing words) (some (pos 16)) 0 ≡ (ok "Ab1#Ab1#Ab1#", 3)
unfolding is_password_valid scan contains_rune small_unicode cycle
generate_credentials-first_example =
    generate_credentials-first small_unicode (refusing words) words (λ n w. suc w)
      (refusing-answers words) 16 12 2 0 (omega arith) (inr (omega arith, refl)) (omega arith)
      (refl, (refl, tt)) refl

abbrev letters : ℕ → ℕ → String
letters n w = cycle n "a" "a" "a" "a"

never-AreInvalid :
    (k w : ℕ)
    → AreInvalid small_unicode
        (refusing letters)
        letters
        (λ n v. suc v)
        (refusing-answers letters)
        12
        k
        w
unfolding is_password_valid scan contains_rune small_unicode cycle
never-AreInvalid zero w = tt
never-AreInvalid (suc k) w = (refl, never-AreInvalid k (suc w))

generate_credentials-none_example :
    generate_credentials small_unicode (refusing letters) (some (pos 16)) 0
    ≡ (failed "failed to generate a valid password after 20 attempts", 20)
generate_credentials-none_example =
    generate_credentials-none small_unicode (refusing letters) letters (λ n w. suc w)
      (refusing-answers letters) 16 12 0 (omega arith) (inr (omega arith, refl))
      (never-AreInvalid 20 0)
