-- ===== src/Connector/Users/Names.antt =====
-- `getFirstNameAndLastName` of pkg/connector/users.go.
use Prim.Native.String.{[] as empty, ◌∷◌ as cons}
use Prim.Native.String
use text.Mathlib.TextLemmas.{nil-append, cons-append}
use baton_tenable_vm.Prelude.{
  All, List, String, [], false, if◌then◌else◌, refl, string_eq, subst, ℕ_eq, ℤ_eq, ◌∷◌, ◌≡◌, ◌≢◌,
}
use baton_tenable_vm.Connector.Users.{get_first_name_and_last_name, first_and_last}
use baton_tenable_vm.Strings.{contains_char, split, join}
use baton_tenable_vm.Strings.Laws.{contains_char-append, join-split, split-All, split-nonempty}

-- What the two names of a full name are: the first holds no space, and the full name is the first
-- alone or the first, a space and the last.
abbrev pub AreNamesOf : String → String × String → Type 0
AreNamesOf name (first, last) =
    (contains_char first " " ≡ false)
    × (if contains_char name " "
        then name ≡ String.◌++◌ first (cons " " last)
        else (name ≡ first) × (last ≡ ""))

parts-AreNames :
    (ps : List String)
    → ps ≢ []
    → All (λ q. contains_char q " " ≡ false) ps
    → AreNamesOf (join " " ps) (first_and_last ps)
unfolding join contains_char
parts-AreNames [] nonempty h = absurd (nonempty refl)
parts-AreNames (p ∷ []) nonempty h = (h.0, rw h.0 (refl, refl))
parts-AreNames (p ∷ q ∷ ps) nonempty h = (
  h.0,
  rw (contains_char-append p _ " ", h.0, cons-append " " "" _, nil-append (join " " (q ∷ ps))) refl,
)

-- The first name holds no space. A name with a space is the first name, a space and the last name put
-- together; a name without is the first name, and the last name is empty.
pub get_first_name_and_last_name_lem :
    (name : String) → AreNamesOf name (get_first_name_and_last_name name)
unfolding get_first_name_and_last_name
get_first_name_and_last_name_lem name =
    subst (λ whole. AreNamesOf whole (first_and_last (split " " name))) (join-split " " name)
      (parts-AreNames (split " " name) (split-nonempty " " name) (split-All " " name))
