-- ===== src/Connector/Credentials/Attempts.antt =====
-- How often `generateCredentials` of pkg/connector/helper.go asks the SDK for a password.
use baton_tenable_vm.Prelude.{
  String, arith, false, length, pos, refl, some, string_eq, suc, true, zero, ℕ, ℕ_eq, ℤ, ℤ_eq, ◌<◌,
  ◌≡◌, ◌≤◌, ◌⊎◌,
}
use baton_tenable_vm.Client.Action.{failed, ok, Action}
use baton_tenable_vm.Connector.Credentials.{
  Unicode, at_most_12, attempts, generate_credentials, is_password_valid,
}

-- The generator of the SDK refuses lengths below 8 and gives a password of each other length `n`, from
-- the world it is asked in.
module _ {W : Type 0} (t : Unicode) (generate : ℤ → Action W String) (gives : ℕ → W → String)
    (next : ℕ → W → W)
    (answers : (n : ℕ) (w : W) → 8 ≤ n → generate (pos n) w ≡ (ok (gives n w), next n w)) where
  -- The world after that many passwords of a length
  abbrev pub later : ℕ → ℕ → W → W
  later n zero w = w
  later n (suc k) w = later n k (next n w)

  -- None of the first passwords is valid.
  abbrev pub AreInvalid : ℕ → ℕ → W → Type 0
  AreInvalid n zero w = Unit
  AreInvalid n (suc k) w = (is_password_valid t (gives n w) ≡ false) × AreInvalid n k (next n w)

  module _ (n : ℕ) (long : 8 ≤ n) where
    attempts-first :
        (left k : ℕ) (w : W)
        → k < left
        → AreInvalid n k w
        → is_password_valid t (gives n (later n k w)) ≡ true
        → attempts t generate left (pos n) w ≡ (ok (gives n (later n k w)), later n (suc k) w)
    unfolding attempts
    attempts-first zero k w h invalid valid = absurd (omega (arith, h))
    attempts-first (suc left) zero w h invalid valid = rw (answers n w long, valid) refl
    attempts-first (suc left) (suc k) w h invalid valid =
        rw (answers n w long, invalid.0)
          (attempts-first left k (next n w) (omega (arith, h)) invalid.1 valid)

    attempts-none :
        (left : ℕ) (w : W)
        → AreInvalid n left w
        → attempts t generate left (pos n) w
          ≡ (failed "failed to generate a valid password after 20 attempts", later n left w)
    unfolding attempts
    attempts-none zero w invalid = refl
    attempts-none (suc left) w invalid =
        rw (answers n w long, invalid.0) (attempts-none left (next n w) invalid.1)

  -- Where a password of at least 8 characters is wanted, and the generator gives one for each length of
  -- at least 8: if one of the first 20 passwords of the length wanted, or of length 12 if more is
  -- wanted, is valid, `generateCredentials` returns the first that is valid and asks for none behind it.
  pub generate_credentials-first :
      (length n k : ℕ) (w : W)
      → 8 ≤ length
      → ((length ≤ 12) × (n ≡ length)) ⊎ ((12 < length) × (n ≡ 12))
      → k < 20
      → AreInvalid n k w
      → is_password_valid t (gives n (later n k w)) ≡ true
      → generate_credentials t generate (some (pos length)) w
        ≡ (ok (gives n (later n k w)), later n (suc k) w)
  unfolding generate_credentials
  generate_credentials-first length n k w long asked h invalid valid =
      let shortened : at_most_12 (pos length) ≡ pos n = ground (arith, asked) in
      rw shortened (attempts-first n (ground (arith, asked, long)) 20 k w h invalid valid)

  -- Where a password of at least 8 characters is wanted, and the generator gives one for each length of
  -- at least 8: if none of the first 20 passwords of the length wanted, or of length 12 if more is
  -- wanted, is valid, `generateCredentials` fails after these 20.
  pub generate_credentials-none :
      (length n : ℕ) (w : W)
      → 8 ≤ length
      → ((length ≤ 12) × (n ≡ length)) ⊎ ((12 < length) × (n ≡ 12))
      → AreInvalid n 20 w
      → generate_credentials t generate (some (pos length)) w
        ≡ (failed "failed to generate a valid password after 20 attempts", later n 20 w)
  unfolding generate_credentials
  generate_credentials-none length n w long asked invalid =
      let shortened : at_most_12 (pos length) ≡ pos n = ground (arith, asked) in
      rw shortened (attempts-none n (ground (arith, asked, long)) 20 w invalid)
