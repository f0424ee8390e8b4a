-- ===== src/Client/Action.antt =====
-- Go functions that return a value and an error, and act on the world of the API on their way.
pub mod Keeps
use Prim.Native.String
use baton_tenable_vm.Prelude.{String, string_eq, ℕ_eq, ℤ_eq}

pub data Result (A : Type 0) : Type 0 where
  ok : A → Result A
  failed : String → Result A

-- What a function makes of the world `W`: its result, and the world after it.
abbrev pub Action : Type 0 → Type 0 → Type 0
Action W A = W → Result A × W

module _ {W : Type 0} where
  abbrev pub pure : {A : Type 0} → A → Action W A
  pure a w = (ok a, w)

  -- `return nil, errors.New(message)`
  abbrev pub fail : {A : Type 0} → String → Action W A
  fail message w = (failed message, w)

  abbrev proceed : {A B : Type 0} → Result A × W → (A → Action W B) → Result B × W
  proceed (ok a, w) k = k a w
  proceed (failed message, w) k = (failed message, w)

  -- `if err != nil { return nil, err }`, and the rest
  infixr 20 ◌>>=◌
  abbrev pub ◌>>=◌ : {A B : Type 0} → Action W A → (A → Action W B) → Action W B
  (m >>= k) w = proceed (m w) k

  abbrev explain : {A : Type 0} → String → Result A × W → Result A × W
  explain message (ok a, w) = (ok a, w)
  explain message (failed reason, w) = (failed (String.◌++◌ message reason), w)

  -- A library function that does not touch the API
  abbrev pub lift : {A : Type 0} → Result A → Action W A
  lift r w = (r, w)

  -- `fmt.Errorf("...: %w", err)`
  abbrev pub context : {A : Type 0} → String → Action W A → Action W A
  context message m w = explain message (m w)
