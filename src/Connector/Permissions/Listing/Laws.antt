-- ===== src/Connector/Permissions/Listing/Laws.antt =====
-- The subjects of the permissions that pkg/connector/permissions.go lists.
use Prim.Native.String
use mathlib.Core.Option
use baton_tenable_vm.Prelude.{
  Bool-cases, List, Option, String, [], append-nil, append_assoc, arith, beq_refl, beq→eq, contains,
  false, if◌then◌else◌, inl, inr, map, none, refl, some, string_eq, sym, true, ℕ_eq, ℤ_eq, ◌++◌,
  ◌==◌, ◌∙◌, ◌∷◌, ◌≡◌, ◌⊎◌,
}
use baton_tenable_vm.Client.Types.{User, TenableObject}
use baton_tenable_vm.Client.Action.{ok, failed, Result}
use baton_tenable_vm.Client.Api.{UuidLibrary}
use baton_tenable_vm.Connector.Decimal.{itoa}
use baton_tenable_vm.Connector.Groups.Answers.{ids}
use baton_tenable_vm.Connector.Permissions.Listing.{
  after, found_user, resolve_subjects, found_group, get_group_resource_id, get_user_resource_id,
  resolve_subject,
}

-- The texts of the uuids of the subjects of that type
abbrev pub uuids_of : (lib : UuidLibrary) → String → List (TenableObject lib.Uuid) → List String
uuids_of lib type [] = []
uuids_of lib type (subject ∷ subjects) =
    let rest = uuids_of lib type subjects in
    if subject.type == type then lib.to_string subject.uuid ∷ rest else rest

-- The resource ids of users, by the text of their uuids
abbrev pub user_ids_by_uuid :
    {Uuid : Type 0} → (String → Option (User Uuid)) → String → Option String
user_ids_by_uuid users uuid = Option.map (λ user. itoa user.id) (users uuid)

module _ (lib : UuidLibrary) (users : String → Option (User lib.Uuid))
    (groups : String → Option String) where
  -- The ids that are found in turn, or the first uuid that is unknown
  abbrev pub Resolution :
      List (TenableObject lib.Uuid)
      → List String × List String
      → Result (List String × List String)
      → Type 0
  Resolution subjects (us, gs) (ok (us', gs')) =
      (found : List String) × (found_groups : List String) × (us' ≡ us ++ found)
      × (gs' ≡ gs ++ found_groups)
      × (map (user_ids_by_uuid users) (uuids_of lib "User" subjects) ≡ map some found)
      × (map groups (uuids_of lib "UserGroup" subjects) ≡ map some found_groups)
  Resolution subjects ids (failed message) =
      (uuid : String) × (((contains (uuids_of lib "User" subjects) uuid ≡ true)
          × (users uuid ≡ none)
          × (message ≡ String.◌++◌ "user not found, unknown UUID: " uuid))
        ⊎ ((contains (uuids_of lib "UserGroup" subjects) uuid ≡ true)
            × (groups uuid ≡ none)
            × (message ≡ String.◌++◌ "group not found, unknown UUID: " uuid)))

  unknown-here :
      (type uuid : String) (subject : TenableObject lib.Uuid)
      (subjects : List (TenableObject lib.Uuid))
      → contains (uuids_of lib type subjects) uuid ≡ true
      → contains (uuids_of lib type (subject ∷ subjects)) uuid ≡ true
  unfolding contains
  unknown-here type uuid subject subjects later = elim (Bool-cases (subject.type == type)) [
    | inl same ↦ rw (same, later) (ground arith)
    | inr other ↦ rw other later
  ]

  user-Resolution :
      (subject : TenableObject lib.Uuid) (subjects : List (TenableObject lib.Uuid))
      (us gs : List String) (user : User lib.Uuid) (r : Result (List String × List String))
      → (subject.type == "User") ≡ true
      → users (lib.to_string subject.uuid) ≡ some user
      → Resolution subjects (us ++ itoa user.id ∷ [], gs) r
      → Resolution (subject ∷ subjects) (us, gs) r
  user-Resolution subject subjects us gs user (ok (us', gs')) is_user known
        (found, found_groups, e, f, h, k) =
      let no_group : (subject.type == "UserGroup") ≡ false =
        rw (beq→eq subject.type "User" is_user) refl in
      (
        itoa user.id ∷ found,
        found_groups,
        e ∙ append_assoc us (itoa user.id ∷ []) found,
        f,
        rw (is_user, known, h) refl,
        rw no_group k,
      )
  user-Resolution subject subjects us gs user (failed message) is_user known (uuid, h) = (
    uuid,
    elim h [
      | inl (c, n, e) ↦ inl (unknown-here "User" uuid subject subjects c, n, e)
      | inr (c, n, e) ↦ inr (unknown-here "UserGroup" uuid subject subjects c, n, e)
    ],
  )

  group-Resolution :
      (subject : TenableObject lib.Uuid) (subjects : List (TenableObject lib.Uuid))
      (us gs : List String) (id : String) (r : Result (List String × List String))
      → (subject.type == "UserGroup") ≡ true
      → groups (lib.to_string subject.uuid) ≡ some id
      → Resolution subjects (us, gs ++ id ∷ []) r
      → Resolution (subject ∷ subjects) (us, gs) r
  group-Resolution subject subjects us gs id (ok (us', gs')) is_group known
        (found, found_groups, e, f, h, k) =
      let no_user : (subject.type == "User") ≡ false =
        rw (beq→eq subject.type "UserGroup" is_group) refl in
      (
        found,
        id ∷ found_groups,
        e,
        f ∙ append_assoc gs (id ∷ []) found_groups,
        rw no_user h,
        rw (is_group, known, k) refl,
      )
  group-Resolution subject subjects us gs id (failed message) is_group known (uuid, h) = (
    uuid,
    elim h [
      | inl (c, n, e) ↦ inl (unknown-here "User" uuid subject subjects c, n, e)
      | inr (c, n, e) ↦ inr (unknown-here "UserGroup" uuid subject subjects c, n, e)
    ],
  )

  other-Resolution :
      (subject : TenableObject lib.Uuid) (subjects : List (TenableObject lib.Uuid))
      (ids : List String × List String) (r : Result (List String × List String))
      → (subject.type == "User") ≡ false
      → (subject.type == "UserGroup") ≡ false
      → Resolution subjects ids r
      → Resolution (subject ∷ subjects) ids r
  other-Resolution subject subjects ids (ok (us', gs')) no_user no_group h =
      rw (no_user, no_group) h
  other-Resolution subject subjects ids (failed message) no_user no_group h =
      rw (no_user, no_group) h

  absent-Resolution :
      (subject : TenableObject lib.Uuid) (subjects : List (TenableObject lib.Uuid))
      (ids : List String × List String)
      → (((subject.type == "User") ≡ true) × (users (lib.to_string subject.uuid) ≡ none)
          → Resolution
              (subject ∷ subjects)
              ids
              (failed (String.◌++◌ "user not found, unknown UUID: " (lib.to_string subject.uuid))))
        × (((subject.type == "UserGroup") ≡ true) × (groups (lib.to_string subject.uuid) ≡ none)
            → Resolution (subject ∷ subjects) ids (
                failed
                  (String.◌++◌ "group not found, unknown UUID: " (lib.to_string subject.uuid))))
  unfolding contains
  absent-Resolution subject subjects ids = (
    λ (h : ((subject.type == "User") ≡ true) × (users (lib.to_string subject.uuid) ≡ none)). (
      lib.to_string subject.uuid,
      inl (rw (h.0, beq_refl (lib.to_string subject.uuid)) refl, h.1, refl),
    ),
    λ (h : ((subject.type == "UserGroup") ≡ true) × (groups (lib.to_string subject.uuid) ≡ none)). (
      lib.to_string subject.uuid,
      inr (rw (h.0, beq_refl (lib.to_string subject.uuid)) refl, h.1, refl),
    ),
  )

  by_user :
      (subject : TenableObject lib.Uuid) (subjects : List (TenableObject lib.Uuid))
      (us gs : List String) (o : Option (User lib.Uuid))
      → (subject.type == "User") ≡ true
      → users (lib.to_string subject.uuid) ≡ o
      → ((ids : List String × List String)
          → Resolution subjects ids (resolve_subjects lib users groups subjects ids))
      → Resolution
          (subject ∷ subjects)
          (us, gs)
          (after
            (after (found_user (lib.to_string subject.uuid) o) (λ id. ok (us ++ id ∷ [], gs)))
            (resolve_subjects lib users groups subjects))
  by_user subject subjects us gs none is_user unknown ih =
      (absent-Resolution subject subjects (us, gs)).0 (is_user, unknown)
  by_user subject subjects us gs (some user) is_user known ih =
      user-Resolution subject subjects us gs user _ is_user known (ih (us ++ itoa user.id ∷ [], gs))

  by_group :
      (subject : TenableObject lib.Uuid) (subjects : List (TenableObject lib.Uuid))
      (us gs : List String) (o : Option String)
      → (subject.type == "UserGroup") ≡ true
      → groups (lib.to_string subject.uuid) ≡ o
      → ((ids : List String × List String)
          → Resolution subjects ids (resolve_subjects lib users groups subjects ids))
      → Resolution
          (subject ∷ subjects)
          (us, gs)
          (after
            (after (found_group (lib.to_string subject.uuid) o) (λ id. ok (us, gs ++ id ∷ [])))
            (resolve_subjects lib users groups subjects))
  by_group subject subjects us gs none is_group unknown ih =
      (absent-Resolution subject subjects (us, gs)).1 (is_group, unknown)
  by_group subject subjects us gs (some id) is_group known ih =
      group-Resolution subject subjects us gs id _ is_group known (ih (us, gs ++ id ∷ []))

  pub resolve_subjects-Resolution :
      (subjects : List (TenableObject lib.Uuid)) (ids : List String × List String)
      → Resolution subjects ids (resolve_subjects lib users groups subjects ids)
  unfolding resolve_subjects resolve_subject get_user_resource_id get_group_resource_id
  resolve_subjects-Resolution [] (us, gs) =
      ([], [], sym (append-nil us), sym (append-nil gs), refl, refl)
  resolve_subjects-Resolution (subject ∷ subjects) (us, gs) =
      let ih = resolve_subjects-Resolution subjects in
      elim (Bool-cases (subject.type == "User")) [
        | inl is_user ↦
            rw is_user
              (by_user subject subjects us gs (users (lib.to_string subject.uuid)) is_user refl ih)
        | inr no_user ↦ elim (Bool-cases (subject.type == "UserGroup")) [
          | inl is_group ↦
              rw (no_user, is_group)
                (by_group subject subjects us gs (groups (lib.to_string subject.uuid)) is_group refl
                  ih)
          | inr no_group ↦
              let e : resolve_subject lib users groups subject (us, gs) ≡ ok (us, gs) =
                rw (no_user, no_group) refl in
              rw e (other-Resolution subject subjects (us, gs) _ no_user no_group (ih (us, gs)))
        ]
      ]
