-- ===== src/Prelude/Lists.antt =====
-- Slices: membership (`slices.Contains`), deletion (`slices.DeleteFunc`) and lengths over native ℕ.
use Prim.Native.Nat.{ℕ, suc, ◌+◌}
use mathlib.Core.Path.{◌≡◌, refl, subst}
use mathlib.Core.Logic.{◌⊎◌, inl, inr}
use mathlib.Core.Bool.{Bool, false, true, ◌||◌}
use mathlib.Core.List.{List, [], ◌∷◌, ◌++◌}
use native.Mathlib.Omega.{arith}
use baton_tenable_vm.Prelude.Tests.{Eq, ◌==◌, if◌then◌else◌, beq→eq, Bool-cases}

module _ {ℓ} {A : Type ℓ} where
  abbrev pub length : List A → ℕ
  length [] = 0
  length (x ∷ xs) = suc (length xs)

  pub length-append : (xs ys : List A) → length (xs ++ ys) ≡ length xs + length ys
  length-append [] ys = omega arith
  length-append (x ∷ xs) ys = omega (arith, length-append xs ys)

  -- `slices.DeleteFunc(xs, p)`
  abbrev pub delete_func : (A → Bool) → List A → List A
  delete_func p [] = []
  delete_func p (x ∷ xs) = let rest = delete_func p xs in if p x then rest else x ∷ rest

abbrev pub All {ℓ κ} : {A : Type ℓ} → (A → Type κ) → List A → Type κ
All P [] = Unit
All P (x ∷ xs) = P x × All P xs

abbrev pub Any : {A : Type 0} → (A → Type 0) → List A → Type 0
Any P [] = ⊥
Any P (x ∷ xs) = P x ⊎ Any P xs

module _ {A : Type 0} ⦃e : Eq A⦄ where
  -- `slices.Contains(xs, a)`
  unfoldable pub contains : List A → A → Bool
  contains [] a = false
  contains (x ∷ xs) a = (x == a) || contains xs a

  -- the slice without the elements equal to `a`
  abbrev pub delete_eq : List A → A → List A
  delete_eq xs a = delete_func (λ x. x == a) xs

  pub contains-append :
      (xs ys : List A) (a : A) → contains (xs ++ ys) a ≡ (contains xs a || contains ys a)
  unfolding contains
  contains-append [] ys a = refl
  contains-append (x ∷ xs) ys a = ground (arith, contains-append xs ys a)

  pub contains-delete_eq :
      (xs : List A) (b a : A)
      → contains (delete_eq xs b) a ≡ (if b == a then false else contains xs a)
  unfolding contains
  contains-delete_eq [] b a = ground arith
  contains-delete_eq (x ∷ xs) b a =
      ground (arith, contains-delete_eq xs b a, e.beq_iff x b, e.beq_iff x a, e.beq_iff b a)

  pub delete_eq-absent : (xs : List A) (a : A) → contains xs a ≡ false → delete_eq xs a ≡ xs
  unfolding contains
  delete_eq-absent [] a absent = refl
  delete_eq-absent (x ∷ xs) a absent = ground (arith, delete_eq-absent xs a)

  -- No element stands twice.
  abbrev pub IsDistinct : List A → Type 0
  IsDistinct [] = Unit
  IsDistinct (x ∷ xs) = (contains xs x ≡ false) × IsDistinct xs

  pub contains-delete_func :
      (p : A → Bool) (xs : List A) (a : A)
      → contains (delete_func p xs) a ≡ (if p a then false else contains xs a)
  unfolding contains
  contains-delete_func p [] a = ground arith
  contains-delete_func p (x ∷ xs) a = ground (arith, contains-delete_func p xs a, e.beq_iff x a)

  pub IsDistinct-concat :
      (xs : List A) (a : A) → contains xs a ≡ false → IsDistinct xs → IsDistinct (xs ++ a ∷ [])
  unfolding contains
  IsDistinct-concat [] a h d = (refl, tt)
  IsDistinct-concat (x ∷ xs) a h d = (
    ground (arith, contains-append xs (a ∷ []) x, e.beq_iff x a, e.beq_iff a x),
    IsDistinct-concat xs a (ground arith) d.1,
  )

  pub IsDistinct-delete_func :
      (p : A → Bool) (xs : List A) → IsDistinct xs → IsDistinct (delete_func p xs)
  IsDistinct-delete_func p [] d = tt
  IsDistinct-delete_func p (x ∷ xs) d =
      ground (arith, IsDistinct-delete_func p xs, contains-delete_func p xs x)

  pub All-contains {κ} :
      (P : A → Type κ) (xs : List A) → All P xs → (a : A) → contains xs a ≡ true → P a
  unfolding contains
  All-contains P [] h a m = cc
  All-contains P (x ∷ xs) h a m = elim (Bool-cases (x == a)) [
    | inl same ↦ subst P (beq→eq x a same) h.0
    | inr other ↦ All-contains P xs h.1 a (ground (arith, other, m))
  ]
