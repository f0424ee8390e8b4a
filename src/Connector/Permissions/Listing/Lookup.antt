-- ===== src/Connector/Permissions/Listing/Lookup.antt =====
-- What the maps by uuid of pkg/connector/permissions.go hold, in terms of the lists they are made from.
use mathlib.Core.Option
use baton_tenable_vm.Prelude.{
  Bool, List, Option, String, [], false, if◌then◌else◌, none, put, refl, some, string_eq, true,
  ℕ_eq, ℤ_eq, ◌==◌, ◌∙◌, ◌∷◌, ◌≡◌,
}
use baton_tenable_vm.Client.Types.{User, Group}
use baton_tenable_vm.Connector.Decimal.{itoa}
use baton_tenable_vm.Connector.Permissions.Listing.{groups_by_uuid, users_by_uuid}

abbrev pub or_else : {A : Type 0} → Option A → Option A → Option A
or_else (some x) other = some x
or_else none other = other

-- The last element that passes the test
unfoldable pub last_match : {A : Type 0} → (A → Bool) → List A → Option A
last_match test [] = none
last_match test (x ∷ xs) = or_else (last_match test xs) (if test x then some x else none)

-- The user of a list that has the uuid, and the number of the group that has it: the last one
abbrev pub user_with : {Uuid : Type 0} → List (User Uuid) → String → Option (User Uuid)
user_with users uuid = last_match (λ u. u.uuid == uuid) users

abbrev pub group_with : List Group → String → Option String
group_with groups uuid = Option.map (λ g. itoa g.id) (last_match (λ g. g.uuid == uuid) groups)

or_else-if :
    {A : Type 0} (o : Option A) (b : Bool) (x : A) (y : Option A)
    → or_else o (if b then some x else y) ≡ or_else (or_else o (if b then some x else none)) y
or_else-if (some z) b x y = refl
or_else-if none true x y = refl
or_else-if none false x y = refl

or_else-if-map :
    {A B : Type 0} (f : A → B) (o : Option A) (b : Bool) (x : A) (y : Option B)
    → or_else (Option.map f o) (if b then some (f x) else y)
      ≡ or_else (Option.map f (or_else o (if b then some x else none))) y
or_else-if-map f (some z) b x y = refl
or_else-if-map f none true x y = refl
or_else-if-map f none false x y = refl

pub or_else-none : {A : Type 0} (o : Option A) → or_else o none ≡ o
or_else-none (some x) = refl
or_else-none none = refl

pub users_by_uuid-last :
    {Uuid : Type 0} (users : List (User Uuid)) (by_uuid : String → Option (User Uuid))
    (uuid : String)
    → users_by_uuid users by_uuid uuid ≡ or_else (user_with users uuid) (by_uuid uuid)
unfolding users_by_uuid last_match put
users_by_uuid-last [] by_uuid uuid = refl
users_by_uuid-last (u ∷ users) by_uuid uuid =
    users_by_uuid-last users (put by_uuid u.uuid (some u)) uuid
    ∙ or_else-if (user_with users uuid) (u.uuid == uuid) u (by_uuid uuid)

pub groups_by_uuid-last :
    (groups : List Group) (by_uuid : String → Option String) (uuid : String)
    → groups_by_uuid groups by_uuid uuid ≡ or_else (group_with groups uuid) (by_uuid uuid)
unfolding groups_by_uuid last_match put
groups_by_uuid-last [] by_uuid uuid = refl
groups_by_uuid-last (g ∷ groups) by_uuid uuid =
    groups_by_uuid-last groups (put by_uuid g.uuid (some (itoa g.id))) uuid
    ∙ or_else-if-map (λ x. itoa x.id) (last_match (λ x. x.uuid == uuid) groups) (g.uuid == uuid) g
        (by_uuid uuid)
