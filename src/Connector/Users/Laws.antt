-- ===== src/Connector/Users/Laws.antt =====
-- The grants of the users that pkg/connector/users.go lists.
use text.Mathlib.TextLemmas.{nil-append, cons-append, cons-ne-nil, append-ne-nil_of_right_ne-nil}
use baton_tenable_vm.Prelude.{
  All, Any, Bool-cases, List, Option, String, [], false, inl, inr, map, none, put, refl, some,
  string_eq, ℕ_eq, ℤ_eq, ◌==◌, ◌∷◌, ◌≡◌, ◌≢◌,
}
use baton_tenable_vm.Client.Types.{User, Role}
use baton_tenable_vm.Client.Action.{◌>>=◌, failed, ok, Result, lift}
use baton_tenable_vm.Connector.Base.{ResourceId, Connector}
use baton_tenable_vm.Connector.Sdk.{NewGrant, Profile, Sdk, profile_of, string_value, collect}
use baton_tenable_vm.Client.Api.{UuidLibrary}
use baton_tenable_vm.Connector.Decimal.{itoa}
use baton_tenable_vm.Connector.Users.{
  base_profile, names_of, parse_into_user_resource, role_grant, role_grants, role_uuids, set_list,
  set_nonempty, user_grants, user_profile, list_users,
}
use baton_tenable_vm.Server.Keys.Laws.{eq-empty}
use baton_tenable_vm.Strings.{contains_char, join}
use baton_tenable_vm.Strings.Laws.{split-join}
use baton_tenable_vm.Connector.Sdk.Laws.{Collected, collect-Collected, Pairs-map}

-- A text that can stand in a list of a profile
pub record IsPlain (t : String) : Type 0 where
  pub no_separator : contains_char t "," ≡ false
  pub nonempty : t ≢ ""

pub set_nonempty-other :
    (profile : Profile) (key value other : String)
    → (key == other) ≡ false
    → set_nonempty profile key value other ≡ profile other
unfolding put
set_nonempty-other profile key value other h = elim (Bool-cases (value == "")) [
  | inl blank ↦ rw blank refl
  | inr visible ↦ rw (visible, h) refl
]

pub join-nonempty : (t : String) (ts : List String) → t ≢ "" → join "," (t ∷ ts) ≢ ""
unfolding join
join-nonempty t [] h = h
join-nonempty t (u ∷ us) h =
    append-ne-nil_of_right_ne-nil t
      (rw (cons-append, nil-append) (cons-ne-nil "," (join "," (u ∷ us))))

-- A list that was put into a profile, as its text
unfoldable pub list_text : List String → Option String
list_text [] = none
list_text (t ∷ ts) = some (join "," (t ∷ ts))

module _ (lib : UuidLibrary) (plain : (u : lib.Uuid) → IsPlain (lib.to_string u)) where
  role_uuids-Plain :
      (roles : List (Role lib.Uuid)) → All (λ t. contains_char t "," ≡ false) (role_uuids lib roles)
  role_uuids-Plain [] = tt
  role_uuids-Plain (role ∷ roles) = ((plain role.uuid).no_separator, role_uuids-Plain roles)

  profile-roles :
      (user : User lib.Uuid)
      → string_value (user_profile lib user "role_uuids")
        ≡ list_text (role_uuids lib user.rbac_roles)
  unfolding put list_text
  profile-roles user =
      rw
        (
          set_nonempty-other
              (set_nonempty
                (set_list (base_profile lib user) "role_uuids" (role_uuids lib user.rbac_roles))
                "first_name" (names_of lib user).0)
              "last_name" (names_of lib user).1 "role_uuids" refl,
          set_nonempty-other
              (set_list (base_profile lib user) "role_uuids" (role_uuids lib user.rbac_roles))
              "first_name" (names_of lib user).0 "role_uuids" refl,
        )
        (by_roles (role_uuids lib user.rbac_roles))
    where
      by_roles :
          (ts : List String)
          → string_value (set_list (base_profile lib user) "role_uuids" ts "role_uuids")
            ≡ list_text ts
      by_roles [] = refl
      by_roles (t ∷ ts) = refl

  module _ (sdk : Sdk) where
    grants-text :
        (principal : ResourceId) (roles : List (Role lib.Uuid))
        → role_grants lib sdk principal (list_text (role_uuids lib roles))
          ≡ map (role_grant lib sdk principal) (role_uuids lib roles)
    unfolding list_text
    grants-text principal [] = refl
    grants-text principal (role ∷ roles) =
        rw
          (
            eq-empty (join "," (role_uuids lib (role ∷ roles))) (
                join-nonempty (lib.to_string role.uuid) (role_uuids lib roles)
                  (plain role.uuid).nonempty),
            split-join "," (lib.to_string role.uuid) (role_uuids lib roles)
                (role_uuids-Plain (role ∷ roles)),
          )
          refl

    -- The grants that the API's list of users means: each role of a user, to the user's resource
    abbrev pub roles_held : User lib.Uuid → List NewGrant
    roles_held user =
        map (role_grant lib sdk (record { resource_type = "user"; resource = itoa user.id }))
          (role_uuids lib user.rbac_roles)

    pub user_grants-parse_into_user_resource :
        (parent : Option ResourceId) (user : User lib.Uuid) (r : sdk.Resource)
        → parse_into_user_resource lib sdk parent user ≡ ok r
        → user_grants lib sdk r ≡ roles_held user
    unfolding user_grants parse_into_user_resource profile_of
    user_grants-parse_into_user_resource parent user r listed =
        rw
          (
            sdk.user_resource-id _ _ _ _ _ r listed,
            sdk.user_resource-profile _ _ _ _ _ r listed "role_uuids",
            profile-roles user,
          )
          (grants-text _ user.rbac_roles)

    -- What `List` has to return of the API's users: an API error as it is; otherwise resources whose
    -- grants are the roles held, or the error of a user of whom the SDK makes no resource.
    abbrev pub Listed :
        {W : Type 0}
        → Option ResourceId
        → Result (List (User lib.Uuid)) × W
        → Result (List sdk.Resource) × W
        → Type 0
    Listed parent (failed message, v) (result, w) = (result ≡ failed message) × (w ≡ v)
    Listed parent (ok users, v) (ok resources, w) =
        (map (user_grants lib sdk) resources ≡ map roles_held users) × (w ≡ v)
    Listed parent (ok users, v) (failed message, w) =
        Any (λ user. parse_into_user_resource lib sdk parent user ≡ failed message) users × (w ≡ v)

    Collected-Listed :
        {W : Type 0} (parent : Option ResourceId) (users : List (User lib.Uuid)) (v : W)
        (r : Result (List sdk.Resource))
        → Collected
            (parse_into_user_resource lib sdk parent)
            (λ user resource. user_grants lib sdk resource ≡ roles_held user)
            (user_grants-parse_into_user_resource parent)
            users
            r
        → Listed parent (ok users, v) (r, v)
    Collected-Listed parent users v (ok rs) h =
        (Pairs-map (user_grants lib sdk) roles_held users rs h, refl)
    Collected-Listed parent users v (failed message) h = (h, refl)

    -- The grants that the connector reads back from the users it lists, with no call of the API, are
    -- the roles that the API's answer says the users hold, in order; where the list fails it is with
    -- the error of the API, or of a user of whom the SDK makes no resource.
    pub list_users-Listed :
        {W : Type 0} (c : Connector lib.Uuid W) (parent : Option ResourceId) (w : W)
        → Listed parent (c.client.get_users w) (list_users lib sdk c parent w)
    unfolding list_users
    list_users-Listed {W} c parent w = by_answer (c.client.get_users w)
      where
        by_answer :
            (answer : Result (List (User lib.Uuid)) × W)
            → Listed parent answer (
                ((λ (u : W). answer)
                    >>= (λ users. lift (collect (parse_into_user_resource lib sdk parent) users)))
                  w)
        by_answer (failed message, v) = (refl, refl)
        by_answer (ok users, v) =
            Collected-Listed parent users v
              (collect (parse_into_user_resource lib sdk parent) users)
              (collect-Collected (parse_into_user_resource lib sdk parent)
                (λ user resource. user_grants lib sdk resource ≡ roles_held user)
                (user_grants-parse_into_user_resource parent) users)
