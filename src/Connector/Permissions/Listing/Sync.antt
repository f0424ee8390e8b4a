-- ===== src/Connector/Permissions/Listing/Sync.antt =====
-- `List` of pkg/connector/permissions.go over the answers of the API.
use Prim.Native.String
use baton_tenable_vm.Prelude.{
  Any, Bool-cases, List, Option, String, [], arith, false, inl, inr, none, put, refl, some,
  string_eq, subst, ℕ_eq, ℤ_eq, ◌==◌, ◌∙◌, ◌∷◌, ◌≡◌, ◌⊎◌,
}
use baton_tenable_vm.Client.Types.{User, Permission, Group}
use baton_tenable_vm.Client.Action.{ok, failed, Result}
use baton_tenable_vm.Connector.Permissions.Listing.{
  permission_resource, built_permission, groups_by_uuid, users_by_uuid, after, explained,
  list_permission_resources, parse_into_permission_resource, resolve_subjects,
}
use baton_tenable_vm.Client.Api.{UuidLibrary}
use baton_tenable_vm.Connector.Base.{ResourceId, Connector}
use baton_tenable_vm.Connector.Decimal.{itoa}
use baton_tenable_vm.Connector.Decimal.Laws.{itoa-lacks}
use baton_tenable_vm.Connector.Groups.Answers.{ids}
use baton_tenable_vm.Connector.Permissions.Listing.Grants.{
  SubjectsGranted, parse_into_permission_resource-Granted,
}
use baton_tenable_vm.Connector.Permissions.Listing.Laws.{Resolution, resolve_subjects-Resolution}
use baton_tenable_vm.Connector.Permissions.Listing.Lookup.{
  group_with, user_with, or_else-none, users_by_uuid-last, groups_by_uuid-last,
}
use baton_tenable_vm.Connector.Sdk.{Sdk, collect}
use baton_tenable_vm.Connector.Sdk.Laws.{Pairs, Collected, collect-Collected}
use baton_tenable_vm.Strings.{contains_char}
use baton_tenable_vm.Connector.Credentials.Attempts.{later}

groups_by_uuid-tidy :
    (groups : List Group) (by_uuid : String → Option String)
    → ((uuid id : String) → by_uuid uuid ≡ some id → contains_char id "," ≡ false)
    → (uuid id : String) → groups_by_uuid groups by_uuid uuid ≡ some id
    → contains_char id "," ≡ false
unfolding groups_by_uuid put
groups_by_uuid-tidy [] by_uuid h uuid id e = h uuid id e
groups_by_uuid-tidy (group ∷ groups) by_uuid h uuid id e =
    groups_by_uuid-tidy groups (put by_uuid group.uuid (some (itoa group.id)))
      (λ u i f. elim (Bool-cases (group.uuid == u)) [
        | inl same ↦
            let shown : itoa group.id ≡ i = ground (arith, f, same) in
            subst (λ t. contains_char t "," ≡ false) shown (itoa-lacks group.id)
        | inr other ↦ h u i (ground (arith, f, other))
      ])
      uuid id e

no_group-tidy : (uuid id : String) → none ≡ some id → contains_char id "," ≡ false
no_group-tidy uuid id e = ground arith

abbrev build_words : String → String
build_words uuid =
    String.◌++◌ "baton-tenable-vm: failed to build permission " (String.◌++◌ uuid ": ")

module _ (lib : UuidLibrary) (sdk : Sdk) (parent : Option ResourceId)
    (known_users : String → Option (User lib.Uuid)) (known_groups : String → Option String) where
  -- Why a permission is refused: a subject with an unknown uuid, or the SDK makes no resource of it.
  abbrev pub Reason : Permission lib.Uuid → String → Type 0
  Reason permission reason =
      Resolution lib known_users known_groups permission.subjects ([], []) (failed reason)
      ⊎ ((ids : List String × List String) × (permission_resource lib sdk parent permission ids
            ≡ failed reason))

  abbrev pub Refused : String → Permission lib.Uuid → Type 0
  Refused message permission =
      (reason : String) × (message
        ≡ String.◌++◌ (build_words (lib.to_string permission.uuid)) reason)
      × Reason permission reason

  -- What the list has to be of the permissions
  abbrev pub Synced : List (Permission lib.Uuid) → Result (List sdk.Resource) → Type 0
  Synced permissions (ok resources) =
      Pairs (SubjectsGranted lib sdk known_users known_groups) permissions resources
  Synced permissions (failed message) = Any (Refused message) permissions

  explained-ok :
      (words : String) (x : Result sdk.Resource) (r : sdk.Resource)
      → explained words x ≡ ok r
      → x ≡ ok r
  explained-ok words (failed reason) r e = ground arith
  explained-ok words (ok a) r e = e

  resolved-Reason :
      (permission : Permission lib.Uuid) (reason : String)
      (ids : Result (List String × List String))
      → Resolution lib known_users known_groups permission.subjects ([], []) ids
      → after ids (permission_resource lib sdk parent permission) ≡ failed reason
      → Reason permission reason
  resolved-Reason permission reason (failed why) h e =
      let same : why ≡ reason = ground arith in
      inl (
        subst (λ m. Resolution lib known_users known_groups permission.subjects ([], []) (failed m))
          same h)
  resolved-Reason permission reason (ok ids) h e = inr (ids, e)

  parse-Reason :
      (permission : Permission lib.Uuid) (reason : String)
      → parse_into_permission_resource lib sdk parent known_users known_groups permission
        ≡ failed reason
      → Reason permission reason
  unfolding parse_into_permission_resource
  parse-Reason permission reason e =
      resolved-Reason permission reason
        (resolve_subjects lib known_users known_groups permission.subjects ([], []))
        (resolve_subjects-Resolution lib known_users known_groups permission.subjects ([], [])) e

  explained-Refused :
      (permission : Permission lib.Uuid) (message : String) (x : Result sdk.Resource)
      → ((reason : String) → x ≡ failed reason → Reason permission reason)
      → explained (build_words (lib.to_string permission.uuid)) x ≡ failed message
      → Refused message permission
  explained-Refused permission message (failed reason) h e = (reason, ground arith, h reason refl)
  explained-Refused permission message (ok r) h e = ground arith

module _ (lib : UuidLibrary) (sdk : Sdk) (parent : Option ResourceId) (users : List (User lib.Uuid))
    (groups : List Group) where
  abbrev mapped_users : String → Option (User lib.Uuid)
  mapped_users = users_by_uuid users (λ uuid. none)

  abbrev mapped_groups : String → Option String
  mapped_groups = groups_by_uuid groups (λ uuid. none)

  built-Granted :
      (permission : Permission lib.Uuid) (r : sdk.Resource)
      → built_permission lib sdk parent users groups permission ≡ ok r
      → SubjectsGranted lib sdk mapped_users mapped_groups permission r
  built-Granted permission r e =
      parse_into_permission_resource-Granted lib sdk mapped_users mapped_groups
        (groups_by_uuid-tidy groups (λ uuid. none) no_group-tidy) parent permission r
        (explained-ok lib sdk parent mapped_users mapped_groups
          (build_words (lib.to_string permission.uuid))
          (parse_into_permission_resource lib sdk parent mapped_users mapped_groups permission) r e)

  built-Refused :
      (permission : Permission lib.Uuid) (message : String)
      → built_permission lib sdk parent users groups permission ≡ failed message
      → Refused lib sdk parent mapped_users mapped_groups message permission
  built-Refused permission message e =
      explained-Refused lib sdk parent mapped_users mapped_groups permission message
        (parse_into_permission_resource lib sdk parent mapped_users mapped_groups permission)
        (parse-Reason lib sdk parent mapped_users mapped_groups permission) e

  Refused-Any :
      (message : String) (permissions : List (Permission lib.Uuid))
      → Any (λ p. built_permission lib sdk parent users groups p ≡ failed message) permissions
      → Any (Refused lib sdk parent mapped_users mapped_groups message) permissions
  Refused-Any message [] h = h
  Refused-Any message (p ∷ permissions) h = elim h [
    | inl here ↦ inl (built-Refused p message here)
    | inr later ↦ inr (Refused-Any message permissions later)
  ]

  Collected-Synced :
      (permissions : List (Permission lib.Uuid)) (r : Result (List sdk.Resource))
      → Collected
          (built_permission lib sdk parent users groups)
          (SubjectsGranted lib sdk mapped_users mapped_groups)
          built-Granted
          permissions
          r
      → Synced lib sdk parent mapped_users mapped_groups permissions r
  Collected-Synced permissions (ok rs) h = h
  Collected-Synced permissions (failed message) h = Refused-Any message permissions h

  built-Synced :
      (permissions : List (Permission lib.Uuid))
      → Synced lib sdk parent mapped_users mapped_groups permissions
          (collect (built_permission lib sdk parent users groups) permissions)
  built-Synced permissions =
      Collected-Synced permissions
        (collect (built_permission lib sdk parent users groups) permissions)
        (collect-Collected (built_permission lib sdk parent users groups)
          (SubjectsGranted lib sdk mapped_users mapped_groups) built-Granted permissions)

  -- The maps by uuid find in the lists what stands last.
  mapped_users-user_with : mapped_users ≡ user_with users
  mapped_users-user_with i uuid =
      (users_by_uuid-last users (λ _. none) uuid ∙ or_else-none (user_with users uuid)) i

  mapped_groups-group_with : mapped_groups ≡ group_with groups
  mapped_groups-group_with i uuid =
      (groups_by_uuid-last groups (λ _. none) uuid ∙ or_else-none (group_with groups uuid)) i

  built-Synced-lists :
      (permissions : List (Permission lib.Uuid))
      → Synced lib sdk parent
          (user_with users)
          (group_with groups)
          permissions
          (collect (built_permission lib sdk parent users groups) permissions)
  built-Synced-lists permissions =
      let r = collect (built_permission lib sdk parent users groups) permissions in
      subst (λ us. Synced lib sdk parent us (group_with groups) permissions r)
        mapped_users-user_with
        (subst (λ gs. Synced lib sdk parent mapped_users gs permissions r) mapped_groups-group_with
          (built-Synced permissions))

-- Where the API answers with its permissions, users and groups, the connector either lists one
-- resource for each permission, whose grants are one for each subject that is a user or a group, by
-- the id of the user or group with the subject's uuid in those answers, the last one that has it; or it fails for one of the
-- permissions, because a subject's uuid is in neither answer or the SDK makes no resource of it.
pub list_permission_resources-Synced :
    (lib : UuidLibrary) (sdk : Sdk) {W : Type 0} (c : Connector lib.Uuid W)
    (parent : Option ResourceId) (w w1 w2 w3 : W) (permissions : List (Permission lib.Uuid))
    (users : List (User lib.Uuid)) (groups : List Group)
    → c.client.list_permissions w ≡ (ok permissions, w1)
    → c.client.get_users w1 ≡ (ok users, w2)
    → c.client.get_groups w2 ≡ (ok groups, w3)
    → ((list_permission_resources lib sdk c parent w).1 ≡ w3)
      × Synced lib sdk parent
          (user_with users)
          (group_with groups)
          permissions
          (list_permission_resources lib sdk c parent w).0
unfolding list_permission_resources
list_permission_resources-Synced lib sdk c parent w w1 w2 w3 permissions users groups e f g =
    rw (e, f, g) (refl, built-Synced-lists lib sdk parent users groups permissions)
