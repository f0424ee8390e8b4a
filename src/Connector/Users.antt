-- ===== src/Connector/Users.antt =====
-- The listing of users and the creation of accounts: pkg/connector/users.go.
pub mod Laws
pub mod Names
pub mod Wire
pub mod Accounts
use Prim.Native.String
use baton_tenable_vm.Prelude.{
  Bool, List, Option, String, [], false, if◌then◌else◌, map, negsuc, none, pos, some, string_eq,
  suc, true, zero, ℕ_eq, ℤ, ℤ_eq, ◌==◌, ◌∷◌,
}
use baton_tenable_vm.Client.Types.{User, Role, NewUser}
use baton_tenable_vm.Client.Action.{◌>>=◌, ok, failed, Action, Result, context, fail, lift, pure}
use baton_tenable_vm.Connector.Base.{ResourceId, Connector, user_type}
use baton_tenable_vm.Connector.Sdk.{
  text_value, number_value, with_email, with_user_login, with_last_login, with_resource_profile,
  with_resource_status, with_parent_resource_id, NewGrant, Profile, Sdk, UserTraitOption, collect,
  no_profile, profile_list_separator, role_type, set,
}
use baton_tenable_vm.Client.Api.{UuidLibrary}
use baton_tenable_vm.Connector.Credentials.{generate_credentials}
use baton_tenable_vm.Strings.{join, split}

-- The parts of a name between its spaces: the first, and the others put together again
abbrev pub first_and_last : List String → String × String
first_and_last [] = ("", "")
first_and_last (first ∷ []) = (first, "")
first_and_last (first ∷ second ∷ others) = (first, join " " (second ∷ others))

-- `getFirstNameAndLastName`
unfoldable pub get_first_name_and_last_name : String → String × String
get_first_name_and_last_name name = first_and_last (split " " name)

-- `if len(ids) > 0 { profile[key] = strings.Join(ids, profileListSeparator) }`
abbrev pub set_list : Profile → String → List String → Profile
set_list profile key [] = profile
set_list profile key (x ∷ xs) = set profile key (text_value (join profile_list_separator (x ∷ xs)))

-- `if value != "" { profile[key] = value }`
abbrev pub set_nonempty : Profile → String → String → Profile
set_nonempty profile key value = if value == "" then profile else set profile key (text_value value)

abbrev is_positive : ℤ → Bool
is_positive (pos zero) = false
is_positive (pos (suc n)) = true
is_positive (negsuc n) = false

-- `userToCreate`, of `profile["email"]` and `profile[fieldName]` of the account
abbrev pub new_account : String → String → String → NewUser
new_account email name password = record {
  username = email;
  password = password;
  email = email;
  name = name;
  permissions = pos 16;
}

module _ (lib : UuidLibrary) where
  abbrev pub role_uuids : List (Role lib.Uuid) → List String
  role_uuids roles = map (λ role. lib.to_string role.uuid) roles

  abbrev pub names_of : User lib.Uuid → String × String
  names_of user = if user.name == "" then ("", "") else get_first_name_and_last_name user.name

  abbrev pub user_display_name : User lib.Uuid → String
  user_display_name user = if user.name == "" then user.username else user.name

  abbrev pub base_profile : User lib.Uuid → Profile
  base_profile user =
      set
        (set (set (set no_profile "user_id" (number_value user.id)) "uuid" (text_value user.uuid))
          "username" (text_value user.username))
        "email" (text_value user.email)

  abbrev pub user_profile : User lib.Uuid → Profile
  user_profile user =
      set_nonempty
        (set_nonempty (set_list (base_profile user) "role_uuids" (role_uuids user.rbac_roles))
          "first_name" (names_of user).0)
        "last_name" (names_of user).1

  abbrev pub user_traits : User lib.Uuid → List UserTraitOption
  user_traits user =
      with_email user.email true
      ∷ with_user_login user.username
      ∷ (if is_positive user.last_login then with_last_login user.last_login ∷ [] else [])

  module _ (sdk : Sdk) where
    unfoldable pub parse_into_user_resource :
        Option ResourceId → User lib.Uuid → Result sdk.Resource
    parse_into_user_resource parent user =
        sdk.new_user_resource (user_display_name user) user_type user.id (user_traits user) (
          with_resource_profile (user_profile user)
          ∷ with_resource_status user.enabled ""
          ∷ with_parent_resource_id parent
          ∷ [])

    abbrev pub role_grant : ResourceId → String → NewGrant
    role_grant principal role_uuid = record {
      resource = record { resource_type = role_type; resource = role_uuid };
      entitlement = "assigned";
      principal = principal;
      expandable = [];
      immutable = false;
    }

    -- `roleUUIDs, _ := GetProfileStringValue(...)`, and the rest of `Grants`
    abbrev pub role_grants : ResourceId → Option String → List NewGrant
    role_grants principal none = []
    role_grants principal (some role_uuids) =
        if role_uuids == "" then [] else map (role_grant principal) (split "," role_uuids)

    -- `Grants`
    unfoldable pub user_grants : sdk.Resource → List NewGrant
    user_grants resource =
        role_grants (sdk.id resource) (sdk.get_profile_string_value resource "role_uuids")

    module _ {W : Type 0} (c : Connector lib.Uuid W) where
      -- `List`
      unfoldable pub list_users : Option ResourceId → Action W (List sdk.Resource)
      list_users parent = do
        users ← c.client.get_users
        lift (collect (parse_into_user_resource parent) users)

      -- The end of `CreateAccount`
      abbrev pub account_resource : String → User lib.Uuid → Action W (sdk.Resource × String)
      account_resource password user = do
        resource ← context "failed to build resource: " (lift (parse_into_user_resource none user))
        pure (resource, password)

      -- `CreateAccount` with a password
      abbrev pub account_user : String → String → String → Action W (sdk.Resource × String)
      account_user email name password = do
        user ←
            context "failed to create user: "
              (c.client.create_user (new_account email name password))
        account_resource password user

      -- `CreateAccount`: the resource, and the password
      unfoldable pub create_account :
          Action W String → Option String → Option String → Action W (sdk.Resource × String)
      create_account generate_credentials none name = fail "missing or invalid 'email' in profile"
      create_account generate_credentials (some email) none =
          fail "missing or invalid 'name' in profile"
      create_account generate_credentials (some email) (some name) = do
        password ← generate_credentials
        account_user email name password
