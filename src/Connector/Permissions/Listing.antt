-- ===== src/Connector/Permissions/Listing.antt =====
-- The listing of permissions, with their entitlements and grants: pkg/connector/permissions.go, and
-- `getUserResourceId` and `getGroupResourceId` of helper.go.
pub mod Laws
pub mod Lookup
pub mod Grants
pub mod Sync
use Prim.Native.String
use baton_tenable_vm.Prelude.{
  List, Option, String, [], false, if◌then◌else◌, map, none, put, some, string_eq, true, ℕ_eq, ℤ_eq,
  ◌++◌, ◌==◌, ◌∷◌,
}
use baton_tenable_vm.Client.Types.{User, Permission, TenableObject, Group}
use baton_tenable_vm.Client.Action.{◌>>=◌, ok, failed, Action, Result, context, lift}
use baton_tenable_vm.Connector.Base.{ResourceId, Connector, user_type}
use baton_tenable_vm.Connector.Sdk.{
  text_value, with_resource_profile, with_parent_resource_id, assignment, NewEntitlement, NewGrant,
  Profile, ResourceOption, Sdk, collect, group_type, no_profile, permission_type, set,
  parent_option,
}
use baton_tenable_vm.Client.Api.{UuidLibrary}
use baton_tenable_vm.Connector.Decimal.{itoa}
use baton_tenable_vm.Connector.Groups.Answers.{ids}
use baton_tenable_vm.Connector.Users.{set_list}
use baton_tenable_vm.Strings.{join, split}

-- `usersByUUID[user.UUID] = user`, for each user
unfoldable pub users_by_uuid :
    {Uuid : Type 0} → List (User Uuid) → (String → Option (User Uuid)) → String → Option (User Uuid)
users_by_uuid [] by_uuid = by_uuid
users_by_uuid (user ∷ users) by_uuid = users_by_uuid users (put by_uuid user.uuid (some user))

-- `groupsByUUID[group.UUID] = strconv.Itoa(group.ID)`, for each group
unfoldable pub groups_by_uuid : List Group → (String → Option String) → String → Option String
groups_by_uuid [] by_uuid = by_uuid
groups_by_uuid (group ∷ groups) by_uuid =
    groups_by_uuid groups (put by_uuid group.uuid (some (itoa group.id)))

abbrev pub found_user : {Uuid : Type 0} → String → Option (User Uuid) → Result String
found_user uuid none = failed (String.◌++◌ "user not found, unknown UUID: " uuid)
found_user uuid (some user) = ok (itoa user.id)

unfoldable pub get_user_resource_id :
    {Uuid : Type 0} → String → (String → Option (User Uuid)) → Result String
get_user_resource_id uuid by_uuid = found_user uuid (by_uuid uuid)

abbrev pub found_group : String → Option String → Result String
found_group uuid none = failed (String.◌++◌ "group not found, unknown UUID: " uuid)
found_group uuid (some id) = ok id

unfoldable pub get_group_resource_id : String → (String → Option String) → Result String
get_group_resource_id uuid by_uuid = found_group uuid (by_uuid uuid)

-- `if err != nil { return nil, err }`, and the rest
abbrev pub after : {A B : Type 0} → Result A → (A → Result B) → Result B
after (failed reason) k = failed reason
after (ok a) k = k a

-- `fmt.Errorf("...: %w", err)`
abbrev pub explained : {A : Type 0} → String → Result A → Result A
explained words (failed reason) = failed (String.◌++◌ words reason)
explained words (ok a) = ok a

module _ (lib : UuidLibrary) where
  -- One round of the loop over the subjects, with the ids so far
  unfoldable pub resolve_subject :
      (String → Option (User lib.Uuid))
      → (String → Option String)
      → TenableObject lib.Uuid
      → List String × List String
      → Result (List String × List String)
  resolve_subject users groups subject (user_ids, group_ids) =
      if subject.type == "User"
      then after (get_user_resource_id (lib.to_string subject.uuid) users)
          (λ id. ok (user_ids ++ id ∷ [], group_ids))
      else if subject.type == "UserGroup"
      then after (get_group_resource_id (lib.to_string subject.uuid) groups)
          (λ id. ok (user_ids, group_ids ++ id ∷ []))
      else ok (user_ids, group_ids)

  unfoldable pub resolve_subjects :
      (String → Option (User lib.Uuid))
      → (String → Option String)
      → List (TenableObject lib.Uuid)
      → List String × List String
      → Result (List String × List String)
  resolve_subjects users groups [] ids = ok ids
  resolve_subjects users groups (subject ∷ subjects) ids =
      after (resolve_subject users groups subject ids) (resolve_subjects users groups subjects)

  abbrev pub permission_base_profile : Permission lib.Uuid → Profile
  permission_base_profile permission =
      set
        (set (set no_profile "name" (text_value permission.name)) "uuid"
          (text_value (lib.to_string permission.uuid)))
        "actions" (text_value (join " " permission.actions))

  abbrev pub permission_profile : Permission lib.Uuid → List String × List String → Profile
  permission_profile permission (user_ids, group_ids) =
      set_list (set_list (permission_base_profile permission) "user_subject_ids" user_ids)
        "group_subject_ids" group_ids

  module _ (sdk : Sdk) where
    abbrev pub permission_resource :
        Option ResourceId → Permission lib.Uuid → List String × List String → Result sdk.Resource
    permission_resource parent permission ids =
        sdk.new_role_resource permission.name permission_type (lib.to_string permission.uuid)
          (with_resource_profile (permission_profile permission ids) ∷ parent_option parent)

    unfoldable pub parse_into_permission_resource :
        Option ResourceId
        → (String → Option (User lib.Uuid))
        → (String → Option String)
        → Permission lib.Uuid
        → Result sdk.Resource
    parse_into_permission_resource parent users groups permission =
        after (resolve_subjects users groups permission.subjects ([], []))
          (permission_resource parent permission)

    abbrev pub user_subject_grant : ResourceId → String → NewGrant
    user_subject_grant resource user_id = record {
      resource = resource;
      entitlement = "assigned";
      principal = record { resource_type = user_type; resource = user_id };
      expandable = [];
      immutable = false;
    }

    abbrev pub group_subject_grant : ResourceId → String → NewGrant
    group_subject_grant resource group_id = record {
      resource = resource;
      entitlement = "assigned";
      principal = record { resource_type = group_type; resource = group_id };
      expandable = String.◌++◌ "group:" (String.◌++◌ group_id ":member") ∷ [];
      immutable = true;
    }

    -- `if ids, ok := GetProfileStringValue(...); ok { for ... strings.Split(ids, ",") }`
    abbrev pub subject_grants : (String → NewGrant) → Option String → List NewGrant
    subject_grants grant none = []
    subject_grants grant (some ids) = map grant (split "," ids)

    -- `Grants`
    unfoldable pub permission_grants : sdk.Resource → List NewGrant
    permission_grants resource =
        subject_grants (user_subject_grant (sdk.id resource))
          (sdk.get_profile_string_value resource "user_subject_ids")
        ++ subject_grants (group_subject_grant (sdk.id resource))
            (sdk.get_profile_string_value resource "group_subject_ids")

    -- `Entitlements`
    unfoldable pub permission_entitlements : sdk.Resource → List NewEntitlement
    permission_entitlements resource =
        record {
          purpose = assignment;
          resource = sdk.id resource;
          name = "assigned";
          grantable_to = user_type ∷ group_type ∷ [];
          description =
              String.◌++◌ "Permission "
                (String.◌++◌ (sdk.display_name resource) " assigned to subject");
          display_name = String.◌++◌ (sdk.display_name resource) " permission assigned";
        }
        ∷ []

    -- The loop of `List`
    abbrev pub built_permission :
        Option ResourceId
        → List (User lib.Uuid)
        → List Group
        → Permission lib.Uuid
        → Result sdk.Resource
    built_permission parent users groups permission =
        explained
          (String.◌++◌ "baton-tenable-vm: failed to build permission "
            (String.◌++◌ (lib.to_string permission.uuid) ": "))
          (parse_into_permission_resource parent (users_by_uuid users (λ uuid. none))
            (groups_by_uuid groups (λ uuid. none)) permission)

    -- `List`
    unfoldable pub list_permission_resources :
        {W : Type 0} → Connector lib.Uuid W → Option ResourceId → Action W (List sdk.Resource)
    list_permission_resources c parent = do
      permissions ←
          context "baton-tenable-vm: failed to load permissions: " c.client.list_permissions
      users ← context "baton-tenable-vm: failed to load users: " c.client.get_users
      groups ← context "baton-tenable-vm: failed to load groups: " c.client.get_groups
      lift (collect (built_permission parent users groups) permissions)
