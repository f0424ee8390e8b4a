-- ===== src/Strings/Laws.antt =====
-- Laws of splitting, joining, cutting and trimming texts.
use Prim.Native.Char.{Char, code}
use text.Mathlib.TextEquality.{Char-path}
use baton_tenable_vm.Strings.{
  push, contains_char, cut, join, split, trim_right, is_space, keep, trim_left, trim_space, char_eq,
}
use Prim.Native.String.{[] as empty, ◌∷◌ as cons}
use Prim.Native.String
use text.Mathlib.TextLemmas.{nil-append, cons-append, append-ne-nil_of_right_ne-nil}
use baton_tenable_vm.Prelude.{
  All, Bool-cases, List, String, [], ap, arith, false, inl, inr, nat_eq_iff, refl, some, string_eq,
  true, ℕ_eq, ℤ_eq, ◌||◌, ◌∙◌, ◌∷◌, ◌≡◌, ◌≢◌,
}

pub split-lacks : (sep : Char) (p : String) → contains_char p sep ≡ false → split sep p ≡ p ∷ []
unfolding split contains_char
split-lacks sep empty h = refl
split-lacks sep (cons c p) h = ground (arith, split-lacks sep p)

pub split-append :
    (sep : Char) (p s : String)
    → contains_char p sep ≡ false
    → split sep (String.◌++◌ p (cons sep s)) ≡ p ∷ split sep s
unfolding split contains_char
split-append sep empty s h = rw nil-append (ground arith)
split-append sep (cons c p) s h = rw cons-append (ground (arith, split-append sep p s))

-- Splitting a join gives the parts back, if there is a part and none holds the separator.
pub split-join :
    (sep : Char) (p : String) (ps : List String)
    → All (λ q. contains_char q sep ≡ false) (p ∷ ps)
    → split sep (join (cons sep empty) (p ∷ ps)) ≡ p ∷ ps
unfolding join
split-join sep p [] h = split-lacks sep p h.0
split-join sep p (q ∷ ps) h =
    rw (cons-append, nil-append, split-append sep p _ h.0)
      (ap (λ xs. p ∷ xs) (split-join sep q ps h.1))

pub cut-append :
    (sep : Char) (p s : String)
    → contains_char p sep ≡ false
    → cut sep (String.◌++◌ p (cons sep s)) ≡ some (p, s)
unfolding cut contains_char
cut-append sep empty s h = rw nil-append (ground arith)
cut-append sep (cons c p) s h = rw cons-append (ground (arith, cut-append sep p s))

pub contains_char-append :
    (p s : String) (d : Char)
    → contains_char (String.◌++◌ p s) d ≡ (contains_char p d || contains_char s d)
unfolding contains_char
contains_char-append empty s d = rw nil-append refl
contains_char-append (cons c p) s d = rw cons-append (ground (arith, contains_char-append p s d))

pub keep-ne : (c : Char) (s : String) → s ≢ "" → keep c s ≡ cons c s
keep-ne c empty nonempty = absurd (nonempty refl)
keep-ne c (cons d s) nonempty = refl

-- A text in front of one that keeps its last character when trimmed
pub trim_right-append :
    (p s : String) → s ≢ "" → trim_right s ≡ s → trim_right (String.◌++◌ p s) ≡ String.◌++◌ p s
unfolding trim_right
trim_right-append empty s nonempty trimmed = rw nil-append trimmed
trim_right-append (cons c p) s nonempty trimmed =
    rw (cons-append, trim_right-append p s nonempty trimmed)
      (keep-ne c (String.◌++◌ p s) (append-ne-nil_of_right_ne-nil p nonempty))

pub trim_left-append :
    (c : Char) (p s : String)
    → is_space c ≡ false
    → trim_left (String.◌++◌ (cons c p) s) ≡ String.◌++◌ (cons c p) s
unfolding trim_left
trim_left-append c p s visible = rw (cons-append, visible) refl

pub trim_left-space :
    (c : Char) (s : String) → is_space c ≡ true → trim_left (cons c s) ≡ trim_left s
unfolding trim_left
trim_left-space c s blank = rw blank refl

-- A visible character at the head and a last character that stays: nothing is trimmed.
pub trim_space-append :
    (c : Char) (p s : String)
    → is_space c ≡ false
    → s ≢ ""
    → trim_right s ≡ s
    → trim_space (String.◌++◌ (cons c p) s) ≡ String.◌++◌ (cons c p) s
unfolding trim_space
trim_space-append c p s visible nonempty trimmed =
    ap trim_right (trim_left-append c p s visible) ∙ trim_right-append (cons c p) s nonempty trimmed

join-push :
    (sep c : Char) (ps : List String)
    → join (cons sep empty) (push c ps) ≡ cons c (join (cons sep empty) ps)
unfolding join
join-push sep c [] = refl
join-push sep c (p ∷ []) = refl
join-push sep c (p ∷ q ∷ ps) = cons-append c p _

join-empty :
    (sep : Char) (ps : List String)
    → ps ≢ []
    → join (cons sep empty) ("" ∷ ps) ≡ cons sep (join (cons sep empty) ps)
unfolding join
join-empty sep [] nonempty = absurd (nonempty refl)
join-empty sep (p ∷ ps) nonempty = rw (nil-append, cons-append, nil-append) refl

char_eq-same : (c d : Char) → char_eq c d ≡ true → c ≡ d
char_eq-same c d same = Char-path c d (ground (arith, nat_eq_iff (code c) (code d)))

push-nonempty : (c : Char) (ps : List String) → push c ps ≢ []
push-nonempty c [] e = cc
push-nonempty c (p ∷ ps) e = cc

pub split-nonempty : (sep : Char) (s : String) → split sep s ≢ []
unfolding split
split-nonempty sep empty e = cc
split-nonempty sep (cons c s) e = elim (Bool-cases (char_eq c sep)) [
  | inl same ↦ ground arith
  | inr other ↦ push-nonempty c (split sep s) (ground arith)
]

-- Joining the parts of a text gives it back.
pub join-split : (sep : Char) (s : String) → join (cons sep empty) (split sep s) ≡ s
unfolding split join
join-split sep empty = refl
join-split sep (cons c s) = elim (Bool-cases (char_eq c sep)) [
  | inl same ↦
      rw
        (
          same,
          join-empty sep (split sep s) (split-nonempty sep s),
          join-split sep s,
          char_eq-same c sep same,
        )
        refl
  | inr other ↦ rw (other, join-push sep c (split sep s), join-split sep s) refl
]

push-All :
    (sep c : Char) (ps : List String)
    → char_eq c sep ≡ false
    → All (λ q. contains_char q sep ≡ false) ps
    → All (λ q. contains_char q sep ≡ false) (push c ps)
unfolding contains_char
push-All sep c [] other h = (rw other refl, tt)
push-All sep c (p ∷ ps) other h = (rw other h.0, h.1)

-- No part of a text holds the separator.
pub split-All : (sep : Char) (s : String) → All (λ q. contains_char q sep ≡ false) (split sep s)
unfolding split contains_char
split-All sep empty = (refl, tt)
split-All sep (cons c s) = elim (Bool-cases (char_eq c sep)) [
  | inl same ↦ rw same (refl, split-All sep s)
  | inr other ↦ rw other (push-All sep c (split sep s) other (split-All sep s))
]
