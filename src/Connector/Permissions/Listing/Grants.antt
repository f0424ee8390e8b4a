-- ===== src/Connector/Permissions/Listing/Grants.antt =====
-- The grants of the permissions that pkg/connector/permissions.go lists.
use mathlib.Core.Option
use baton_tenable_vm.Prelude.{
  All, List, Option, String, [], arith, false, map, none, put, refl, some, string_eq, subst, ℕ_eq,
  ℤ_eq, ◌++◌, ◌∷◌, ◌≡◌,
}
use baton_tenable_vm.Client.Types.{User, Permission}
use baton_tenable_vm.Client.Action.{ok, failed, Result}
use baton_tenable_vm.Connector.Sdk.{
  with_resource_profile, Profile, NewGrant, Sdk, string_value, profile_of, parent_option,
}
use baton_tenable_vm.Client.Api.{UuidLibrary}
use baton_tenable_vm.Connector.Decimal.{itoa}
use baton_tenable_vm.Connector.Groups.Answers.{ids}
use baton_tenable_vm.Connector.Permissions.Listing.{
  permission_resource, permission_profile, subject_grants, group_subject_grant, permission_grants,
  user_subject_grant, after, parse_into_permission_resource, resolve_subjects,
}
use baton_tenable_vm.Connector.Permissions.Listing.Laws.{
  user_ids_by_uuid, uuids_of, Resolution, resolve_subjects-Resolution,
}
use baton_tenable_vm.Connector.Users.Laws.{list_text}
use baton_tenable_vm.Strings.{contains_char}
use baton_tenable_vm.Strings.Laws.{split-join}
use baton_tenable_vm.Connector.Base.{ResourceId}
use baton_tenable_vm.Connector.Decimal.Laws.{itoa-lacks}

map-some-All :
    {P : String → Type 0} (m : String → Option String)
    → ((uuid id : String) → m uuid ≡ some id → P id)
    → (uuids ids : List String) → map m uuids ≡ map some ids
    → All P ids
map-some-All m h [] [] e = tt
map-some-All m h [] (id ∷ ids) e = ground arith
map-some-All m h (uuid ∷ uuids) [] e = ground arith
map-some-All m h (uuid ∷ uuids) (id ∷ ids) e =
    (h uuid id (ground arith), map-some-All m h uuids ids (ground arith))

found_id-lacks :
    {Uuid : Type 0} (o : Option (User Uuid)) (id : String)
    → Option.map (λ user. itoa user.id) o ≡ some id
    → contains_char id "," ≡ false
found_id-lacks none id e = ground arith
found_id-lacks (some user) id e =
    let same : itoa user.id ≡ id = ground arith in
    subst (λ t. contains_char t "," ≡ false) same (itoa-lacks user.id)

user_ids-lacks :
    {Uuid : Type 0} (users : String → Option (User Uuid)) (uuid id : String)
    → user_ids_by_uuid users uuid ≡ some id
    → contains_char id "," ≡ false
user_ids-lacks users uuid id e = found_id-lacks (users uuid) id e

parent-profile :
    (profile : Profile) (parent : Option ResourceId)
    → profile_of (with_resource_profile profile ∷ parent_option parent) ≡ profile
unfolding profile_of
parent-profile profile none = refl
parent-profile profile (some parent) = refl

subject_grants-list :
    (lib : UuidLibrary) (sdk : Sdk) (grant : String → NewGrant) (ids : List String)
    → All (λ q. contains_char q "," ≡ false) ids
    → subject_grants lib sdk grant (list_text ids) ≡ map grant ids
unfolding list_text
subject_grants-list lib sdk grant [] h = refl
subject_grants-list lib sdk grant (id ∷ ids) h = rw (split-join "," id ids h) refl

module _ (lib : UuidLibrary) where
  profile-users :
      (permission : Permission lib.Uuid) (us gs : List String)
      → string_value (permission_profile lib permission (us, gs) "user_subject_ids") ≡ list_text us
  unfolding put list_text
  profile-users permission [] [] = refl
  profile-users permission [] (g ∷ gs) = refl
  profile-users permission (u ∷ us) [] = refl
  profile-users permission (u ∷ us) (g ∷ gs) = refl

  profile-groups :
      (permission : Permission lib.Uuid) (us gs : List String)
      → string_value (permission_profile lib permission (us, gs) "group_subject_ids") ≡ list_text gs
  unfolding put list_text
  profile-groups permission [] [] = refl
  profile-groups permission [] (g ∷ gs) = refl
  profile-groups permission (u ∷ us) [] = refl
  profile-groups permission (u ∷ us) (g ∷ gs) = refl

module _ (lib : UuidLibrary) (sdk : Sdk) (users : String → Option (User lib.Uuid))
    (groups : String → Option String) where
  abbrev pub permission_id : Permission lib.Uuid → ResourceId
  permission_id permission = record {
    resource_type = "permission";
    resource = lib.to_string permission.uuid;
  }

  -- The grants of a permission's resource are one for each of its subjects that is a user or a group,
  -- the users before the groups and each in order, by the id found for the subject's uuid.
  abbrev pub SubjectsGranted : Permission lib.Uuid → sdk.Resource → Type 0
  SubjectsGranted permission r =
      (user_ids : List String) × (group_ids : List String) × (map (user_ids_by_uuid users)
          (uuids_of lib "User" permission.subjects)
        ≡ map some user_ids)
      × (map groups (uuids_of lib "UserGroup" permission.subjects) ≡ map some group_ids)
      × (permission_grants lib sdk r
          ≡ map (user_subject_grant lib sdk (permission_id permission)) user_ids
            ++ map (group_subject_grant lib sdk (permission_id permission)) group_ids)

  module _ (tidy : (uuid id : String) → groups uuid ≡ some id → contains_char id "," ≡ false) where
    grants-lists :
        (permission : Permission lib.Uuid) (ids : List String × List String)
        → map (user_ids_by_uuid users) (uuids_of lib "User" permission.subjects) ≡ map some ids.0
        → map groups (uuids_of lib "UserGroup" permission.subjects) ≡ map some ids.1
        → subject_grants lib sdk
              (user_subject_grant lib sdk (permission_id permission))
              (string_value (permission_profile lib permission ids "user_subject_ids"))
            ++ subject_grants lib sdk
                (group_subject_grant lib sdk (permission_id permission))
                (string_value (permission_profile lib permission ids "group_subject_ids"))
          ≡ map (user_subject_grant lib sdk (permission_id permission)) ids.0
            ++ map (group_subject_grant lib sdk (permission_id permission)) ids.1
    grants-lists permission (us, gs) found found_groups =
        rw
          (
            profile-users lib permission us gs,
            profile-groups lib permission us gs,
            subject_grants-list lib sdk (user_subject_grant lib sdk (permission_id permission)) us (
                map-some-All (user_ids_by_uuid users) (user_ids-lacks users)
                  (uuids_of lib "User" permission.subjects) us found),
            subject_grants-list lib sdk (group_subject_grant lib sdk (permission_id permission)) gs
                (map-some-All groups tidy (uuids_of lib "UserGroup" permission.subjects) gs
                  found_groups),
          )
          refl

    resource-Granted :
        (parent : Option ResourceId) (permission : Permission lib.Uuid) (r : sdk.Resource)
        (us gs : List String)
        → map (user_ids_by_uuid users) (uuids_of lib "User" permission.subjects) ≡ map some us
        → map groups (uuids_of lib "UserGroup" permission.subjects) ≡ map some gs
        → permission_resource lib sdk parent permission (us, gs) ≡ ok r
        → SubjectsGranted permission r
    unfolding permission_grants
    resource-Granted parent permission r us gs found found_groups made = (
      us,
      gs,
      found,
      found_groups,
      rw
          (
            sdk.role_resource-id _ _ _ _ r made,
            sdk.role_resource-profile _ _ _ _ r made "user_subject_ids",
            sdk.role_resource-profile _ _ _ _ r made "group_subject_ids",
            parent-profile (permission_profile lib permission (us, gs)) parent,
          )
          (grants-lists permission (us, gs) found found_groups),
    )

    resolved-Granted :
        (parent : Option ResourceId) (permission : Permission lib.Uuid) (r : sdk.Resource)
        (ids : Result (List String × List String))
        → Resolution lib users groups permission.subjects ([], []) ids
        → after ids (permission_resource lib sdk parent permission) ≡ ok r
        → SubjectsGranted permission r
    resolved-Granted parent permission r (failed message) h made = ground arith
    resolved-Granted parent permission r (ok (us, gs)) (found, found_groups, e, f, h, k) made =
        resource-Granted parent permission r us gs (rw e h) (rw f k) made

    pub parse_into_permission_resource-Granted :
        (parent : Option ResourceId) (permission : Permission lib.Uuid) (r : sdk.Resource)
        → parse_into_permission_resource lib sdk parent users groups permission ≡ ok r
        → SubjectsGranted permission r
    unfolding parse_into_permission_resource
    parse_into_permission_resource-Granted parent permission r made =
        resolved-Granted parent permission r
          (resolve_subjects lib users groups permission.subjects ([], []))
          (resolve_subjects-Resolution lib users groups permission.subjects ([], [])) made
