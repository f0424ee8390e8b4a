-- ===== src/Strings.antt =====
-- The functions of Go's package strings that the program calls, with the separators that it gives them.
pub mod Laws
use Prim.Native.Char.{Char, code}
use Prim.Native.String.{[], ◌∷◌}
use Prim.Native.String
use mathlib.Core.Option
use baton_tenable_vm.Prelude.{
  Bool, List, Option, String, false, if◌then◌else◌, leb, nat_eq, none, refl, some, string_eq, ℕ_eq,
  ℤ_eq, ◌&&◌, ◌||◌, ◌≡◌,
}

abbrev pub char_eq : Char → Char → Bool
char_eq c d = nat_eq (code c) (code d)

-- `strings.ContainsRune`
unfoldable pub contains_char : String → Char → Bool
contains_char [] d = false
contains_char (c ∷ s) d = char_eq c d || contains_char s d

-- A character in front of the first part
abbrev pub push : Char → List String → List String
push c List.[] = List.◌∷◌ (c ∷ []) List.[]
push c (List.◌∷◌ p ps) = List.◌∷◌ (c ∷ p) ps

-- `strings.Split`, at a separator of one character
unfoldable pub split : Char → String → List String
split sep [] = List.◌∷◌ "" List.[]
split sep (c ∷ s) =
    let rest = split sep s in if char_eq c sep then List.◌∷◌ "" rest else push c rest

-- `strings.Join`
unfoldable pub join : String → List String → String
join sep List.[] = ""
join sep (List.◌∷◌ p List.[]) = p
join sep (List.◌∷◌ p (List.◌∷◌ q ps)) = String.◌++◌ p (String.◌++◌ sep (join sep (List.◌∷◌ q ps)))

-- `strings.Cut`, at a separator of one character; `none` is "not found".
unfoldable pub cut : Char → String → Option (String × String)
cut sep [] = none
cut sep (c ∷ s) =
    let rest = cut sep s in
    if char_eq c sep
    then some ("", s)
    else Option.map (λ (b : String × String). (c ∷ b.0, b.1)) rest

-- `unicode.IsSpace`
abbrev pub is_space : Char → Bool
is_space c =
    let n = code c in
    (leb 9 n && leb n 13)
    || nat_eq n 32
    || nat_eq n 133
    || nat_eq n 160
    || nat_eq n 5760
    || (leb 8192 n && leb n 8202)
    || nat_eq n 8232
    || nat_eq n 8233
    || nat_eq n 8239
    || nat_eq n 8287
    || nat_eq n 12288

unfoldable pub trim_left : String → String
trim_left [] = ""
trim_left (c ∷ s) = let rest = trim_left s in if is_space c then rest else c ∷ s

-- A character in front of what is left of the text behind it
abbrev pub keep : Char → String → String
keep c [] = if is_space c then "" else c ∷ []
keep c (d ∷ s) = c ∷ d ∷ s

unfoldable pub trim_right : String → String
trim_right [] = ""
trim_right (c ∷ s) = keep c (trim_right s)

-- `strings.TrimSpace`
unfoldable pub trim_space : String → String
trim_space s = trim_right (trim_left s)

abbrev pub keep_but : Char → Char → String → String
keep_but sep c [] = if char_eq c sep then "" else c ∷ []
keep_but sep c (d ∷ s) = c ∷ d ∷ s

-- `strings.TrimRight`, of one character
unfoldable pub trim_right_char : Char → String → String
trim_right_char sep [] = ""
trim_right_char sep (c ∷ s) = keep_but sep c (trim_right_char sep s)

-- `strings.Replace` of one character by another, at its first place
unfoldable pub replace_first : Char → Char → String → String
replace_first old new [] = ""
replace_first old new (c ∷ s) =
    let rest = replace_first old new s in if char_eq c old then new ∷ s else c ∷ rest

examples :
    (split ";" "a=1; b=2;" ≡ List.◌∷◌ "a=1" (List.◌∷◌ " b=2" (List.◌∷◌ "" List.[])))
    × (split "," "" ≡ List.◌∷◌ "" List.[])
    × (cut "=" "a=b=c" ≡ some ("a", "b=c"))
    × (trim_space "\t a b  " ≡ "a b")
    × (replace_first ":" "," "a:b:c" ≡ "a,b:c")
unfolding split cut trim_space trim_left trim_right replace_first
examples = (refl, refl, refl, refl, refl)
