-- ===== src/Connector/Permissions/Subjects.antt =====
-- The subjects of a permission (pkg/connector/permissions.go): looking for one by its text, deleting
-- one by its uuid.
use baton_tenable_vm.Prelude.{
  List, String, [], ap, arith, delete_func, eq_iff, false, refl, string_eq, sym, ℕ_eq, ℤ_eq, ◌++◌,
  ◌==◌, ◌||◌, ◌∙◌, ◌∷◌, ◌≡◌,
}
use baton_tenable_vm.Client.Api.{UuidLibrary}
use baton_tenable_vm.Client.Types.{TenableObject}
use baton_tenable_vm.Connector.Permissions.{is_subject}
use baton_tenable_vm.Client.Action.{ok}

module _ (lib : UuidLibrary) where
  to_string-injective : (a b : lib.Uuid) → lib.to_string a ≡ lib.to_string b → a ≡ b
  to_string-injective a b same =
      let e : ok a ≡ ok b =
        sym (lib.parse-to_string a) ∙ ap lib.parse same ∙ lib.parse-to_string b in
      ground arith

  pub same_test : (a b : lib.Uuid) → (lib.to_string a == lib.to_string b) ≡ lib.uuid_eq.beq a b
  same_test a b = ground (
    arith,
    eq_iff (lib.to_string a) (lib.to_string b),
    lib.uuid_eq.beq_iff a b,
    to_string-injective a b,
  )

  pub is_subject-append :
      (text : String) (xs ys : List (TenableObject lib.Uuid))
      → is_subject lib text (xs ++ ys) ≡ (is_subject lib text xs || is_subject lib text ys)
  unfolding is_subject
  is_subject-append text [] ys = refl
  is_subject-append text (x ∷ xs) ys = ground (arith, is_subject-append text xs ys)

  pub delete-absent :
      (u : lib.Uuid) (xs : List (TenableObject lib.Uuid))
      → is_subject lib (lib.to_string u) xs ≡ false
      → delete_func (λ x. lib.uuid_eq.beq x.uuid u) xs ≡ xs
  unfolding is_subject
  delete-absent u [] absent = refl
  delete-absent u (x ∷ xs) absent = ground (arith, delete-absent u xs, same_test x.uuid u)

  pub delete-append :
      (u : lib.Uuid) (xs ys : List (TenableObject lib.Uuid))
      → delete_func (λ x. lib.uuid_eq.beq x.uuid u) (xs ++ ys)
        ≡ delete_func (λ x. lib.uuid_eq.beq x.uuid u) xs
          ++ delete_func (λ x. lib.uuid_eq.beq x.uuid u) ys
  delete-append u [] ys = refl
  delete-append u (x ∷ xs) ys = ground (arith, delete-append u xs ys)
