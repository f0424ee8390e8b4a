-- ===== src/Connector/Sdk.antt =====
-- What the builders of pkg/connector use of the SDK to describe resources, entitlements and grants, the
-- resource types of resource_types.go, and the keys of helper.go. A resource type is its `Id`; grants
-- and entitlements are the arguments they are made of, a resource in them its id.
pub mod Laws
use baton_tenable_vm.Prelude.{
  Bool, List, Option, String, [], none, put, some, string_eq, ℕ_eq, ℤ, ℤ_eq, ◌∷◌, ◌≡◌,
}
use baton_tenable_vm.Client.Action.{ok, failed, Result}
use baton_tenable_vm.Connector.Base.{ResourceId}
use baton_tenable_vm.Connector.Decimal.{itoa}

abbrev pub role_type : String
role_type = "role"

abbrev pub group_type : String
group_type = "group"

abbrev pub permission_type : String
permission_type = "permission"

abbrev pub profile_list_separator : String
profile_list_separator = ","

-- A value of a profile, a `map[string]any`
pub data Value : Type 0 where
  text_value : String → Value
  number_value : ℤ → Value

abbrev pub Profile : Type 0
Profile = String → Option Value

abbrev pub no_profile : Profile
no_profile key = none

-- `profile[key] = value`
abbrev pub set : Profile → String → Value → Profile
set profile key value = put profile key (some value)

pub data UserTraitOption : Type 0 where
  with_email : String → Bool → UserTraitOption
  with_user_login : String → UserTraitOption
  with_last_login : ℤ → UserTraitOption

pub data ResourceOption : Type 0 where
  with_resource_profile : Profile → ResourceOption
  -- enabled or disabled, and details
  with_resource_status : Bool → String → ResourceOption
  with_parent_resource_id : Option ResourceId → ResourceOption

-- `if parentResourceID != nil { options = append(...) }`
abbrev pub parent_option : Option ResourceId → List ResourceOption
parent_option none = []
parent_option (some parent) = with_parent_resource_id (some parent) ∷ []

-- The last profile among the options, or this one
abbrev pub last_profile : List ResourceOption → Profile → Profile
last_profile [] profile = profile
last_profile (with_resource_profile p ∷ options) profile = last_profile options p
last_profile (with_resource_status enabled details ∷ options) profile = last_profile options profile
last_profile (with_parent_resource_id parent ∷ options) profile = last_profile options profile

-- The profile that the options set, of which the last stays
unfoldable pub profile_of : List ResourceOption → Profile
profile_of options = last_profile options no_profile

-- `GetProfileStringValue` of a profile; `none` is a missing key or a value that is no text.
abbrev pub string_value : Option Value → Option String
string_value none = none
string_value (some (number_value n)) = none
string_value (some (text_value t)) = some t

pub record Sdk : Type 1 where
  pub Resource : Type 0
  pub id : Resource → ResourceId
  pub display_name : Resource → String
  pub description : Resource → String
  -- `GetProfileStringValue(r.GetProfile(), key)`
  pub get_profile_string_value : Resource → String → Option String
  -- These fail where an option fails, such as a profile with a text that is no UTF-8.
  pub new_user_resource :
      String → String → ℤ → List UserTraitOption → List ResourceOption → Result Resource
  pub new_group_resource : String → String → ℤ → List ResourceOption → Result Resource
  pub new_role_resource : String → String → String → List ResourceOption → Result Resource
  -- A resource has the id it was made with, a number in decimal, and the profile that its options set.
  pub user_resource-id :
      (name type : String) (object : ℤ) (traits : List UserTraitOption)
      (options : List ResourceOption) (r : Resource)
      → new_user_resource name type object traits options ≡ ok r
      → id r ≡ record { resource_type = type; resource = itoa object }
  pub user_resource-profile :
      (name type : String) (object : ℤ) (traits : List UserTraitOption)
      (options : List ResourceOption) (r : Resource)
      → new_user_resource name type object traits options ≡ ok r
      → (key : String) → get_profile_string_value r key ≡ string_value (profile_of options key)
  pub role_resource-id :
      (name type object : String) (options : List ResourceOption) (r : Resource)
      → new_role_resource name type object options ≡ ok r
      → id r ≡ record { resource_type = type; resource = object }
  pub role_resource-profile :
      (name type object : String) (options : List ResourceOption) (r : Resource)
      → new_role_resource name type object options ≡ ok r
      → (key : String) → get_profile_string_value r key ≡ string_value (profile_of options key)
  pub group_resource-id :
      (name type : String) (object : ℤ) (options : List ResourceOption) (r : Resource)
      → new_group_resource name type object options ≡ ok r
      → id r ≡ record { resource_type = type; resource = itoa object }

-- `grant.NewGrant`, with the entitlements of `GrantExpandable` and whether `GrantImmutable` is there
pub record NewGrant : Type 0 where
  pub resource : ResourceId
  pub entitlement : String
  pub principal : ResourceId
  pub expandable : List String
  pub immutable : Bool

-- `entitlement.NewAssignmentEntitlement` and `NewPermissionEntitlement`
pub data Purpose : Type 0 where
  assignment permission_purpose : Purpose

pub record NewEntitlement : Type 0 where
  pub purpose : Purpose
  pub resource : ResourceId
  pub name : String
  pub grantable_to : List String
  pub description : String
  pub display_name : String

-- The next resource in front of the later ones; its error comes first.
abbrev pub joined : {B : Type 0} → Result B → Result (List B) → Result (List B)
joined (failed reason) rest = failed reason
joined (ok y) (failed reason) = failed reason
joined (ok y) (ok ys) = ok (y ∷ ys)

-- The loop of a `List` over what the API has: `none` of the resources where one is refused.
unfoldable pub collect : {A B : Type 0} → (A → Result B) → List A → Result (List B)
collect parse [] = ok []
collect parse (x ∷ xs) = joined (parse x) (collect parse xs)
