-- ===== src/Connector/Tests/Listing.antt =====
-- What pkg/connector lists, at a small SDK, uuid library and API.
use text.Mathlib.TextLemmas.{cons-ne-nil}
use baton_tenable_vm.Prelude.{
  Bool, List, String, [], ap, false, map, none, pos, put, refl, some, string_eq, sym, true, ℕ_eq,
  ℤ_eq, ◌∷◌, ◌≡◌,
}
use baton_tenable_vm.Client.Types.{User, Permission, Role, Group}
use baton_tenable_vm.Client.Action.{ok, failed, Result}
use baton_tenable_vm.Connector.Base.{ResourceId, Connector}
use baton_tenable_vm.Connector.Sdk.{
  with_resource_status, with_parent_resource_id, with_resource_profile, ResourceOption, Sdk,
  profile_of, string_value, NewGrant,
}
use baton_tenable_vm.Client.Api.{Api}
use baton_tenable_vm.Connector.Decimal.{itoa}
use baton_tenable_vm.Connector.Users.Laws.{IsPlain, Listed, list_users-Listed}
use baton_tenable_vm.Strings.{contains_char, join, split}
use baton_tenable_vm.Connector.Permissions.Listing.{list_permission_resources}
use baton_tenable_vm.Connector.Permissions.Listing.Lookup.{group_with, user_with}
use baton_tenable_vm.Connector.Permissions.Listing.Sync.{Synced, list_permission_resources-Synced}
use baton_tenable_vm.Connector.Users.{
  get_first_name_and_last_name, list_users, user_grants, user_profile, create_account,
  parse_into_user_resource,
}
use baton_tenable_vm.Connector.Users.Names.{AreNamesOf, get_first_name_and_last_name_lem}
use baton_tenable_vm.Connector.Users.Accounts.{Created, create_account_lem}
use baton_tenable_vm.Client.Tests.Uuids.{bool_text, two_uuids}

-- An SDK that keeps what a resource is made of and never refuses
pub record Made : Type 0 where
  pub id : ResourceId
  pub display_name : String
  pub options : List ResourceOption

abbrev pub resource_made : String → String → String → List ResourceOption → Result Made
resource_made name type object options = ok (record {
  id = record { resource_type = type; resource = object };
  display_name = name;
  options = options;
})

made_of : Result Made → Made
made_of (ok r) = r
made_of (failed message) = record {
  id = record { resource_type = ""; resource = "" };
  display_name = "";
  options = [];
}

pub made-id :
    (name type object : String) (options : List ResourceOption) (r : Made)
    → resource_made name type object options ≡ ok r
    → r.id ≡ record { resource_type = type; resource = object }
unfolding made_of
made-id name type object options r e = sym (ap (λ x. (made_of x).id) e)

pub made-profile :
    (name type object : String) (options : List ResourceOption) (r : Made)
    → resource_made name type object options ≡ ok r
    → (key : String)
    → string_value (profile_of r.options key) ≡ string_value (profile_of options key)
unfolding made_of
made-profile name type object options r e key =
    sym (ap (λ x. string_value (profile_of (made_of x).options key)) e)

abbrev pub small_sdk : Sdk
small_sdk = record {
  Resource = Made;
  id = λ r. r.id;
  display_name = λ r. r.display_name;
  description = λ r. "";
  get_profile_string_value = λ r key. string_value (profile_of r.options key);
  new_user_resource =
      λ name type object traits options. resource_made name type (itoa object) options;
  new_group_resource = λ name type object options. resource_made name type (itoa object) options;
  new_role_resource = resource_made;
  user_resource-id =
      λ name type object traits options r e. made-id name type (itoa object) options r e;
  user_resource-profile = λ name type object traits options r e key.
      made-profile name type (itoa object) options r e key;
  role_resource-id = made-id;
  role_resource-profile = made-profile;
  group_resource-id = λ name type object options r e. made-id name type (itoa object) options r e;
}

pub bool_text-IsPlain : (b : Bool) → IsPlain (bool_text b)
unfolding contains_char
bool_text-IsPlain true = record { no_separator = refl; nonempty = cons-ne-nil _ _ }
bool_text-IsPlain false = record { no_separator = refl; nonempty = cons-ne-nil _ _ }

abbrev basic : Role Bool
basic = record { uuid = true; name = "Basic" }

abbrev ann : User Bool
ann = record {
  id = pos 7;
  uuid = "u7";
  username = "ann@example.com";
  email = "ann@example.com";
  name = "Ann Lee";
  last_login = pos 1;
  enabled = true;
  permissions = pos 16;
  container_uuid = "";
  rbac_roles = basic ∷ record basic { uuid = false } ∷ [];
  roles = [];
  group_uuids = [];
}

abbrev pub everyone : Group
everyone = record {
  id = pos 1;
  uuid = "g1";
  name = "All";
  permissions = pos 0;
  users_count = pos 1;
  container_uuid = "";
}

abbrev scan_of : String → Permission Bool
scan_of type = record {
  uuid = false;
  name = "scan";
  actions = "CanScan" ∷ "CanView" ∷ [];
  objects = [];
  subjects = record { type = type; uuid = true; name = "" } ∷ [];
  created_at = pos 0;
  created_by = "";
  updated_at = pos 0;
  updated_by = "";
}

-- An API whose world is the type of the only subject of its only permission; a group has the uuid of
-- that subject.
abbrev listing_api : Api Bool String
listing_api = record {
  get_users = λ w. (ok (ann ∷ []), w);
  create_user = λ user w. (ok ann, w);
  delete_user = λ id w. (ok tt, w);
  get_groups = λ w. (ok (record everyone { uuid = bool_text true } ∷ []), w);
  list_permissions = λ w. (ok (scan_of w ∷ []), w);
  get_user_details = λ id w. (ok ann, w);
  enable_user = λ id w. (ok ann, w);
  disable_user = λ id w. (ok ann, w);
  get_roles = λ w. (ok [], w);
  get_user_roles = λ uuid w. (failed "no roles", w);
  update_user_roles = λ uuid role w. (failed "no roles", w);
  get_group_members = λ group w. (ok (ann ∷ []), w);
  create_user_group_membership = λ group user w. (ok tt, w);
  delete_user_group_membership = λ group user w. (ok tt, w);
  get_permission_details = λ uuid w. (ok (scan_of w), w);
  update_permission = λ p w. (ok tt, w);
}

abbrev listing_connector : Connector Bool String
listing_connector = record { client = listing_api; enable_on_provision = false }

list_users_example :
    Listed two_uuids bool_text-IsPlain small_sdk none
      (ok (ann ∷ []), "User")
      (list_users two_uuids small_sdk listing_connector none "User")
list_users_example =
    list_users-Listed two_uuids bool_text-IsPlain small_sdk listing_connector none "User"

-- The two role grants of the only user, read back from the resource
role_grants_example :
    map
      (λ (r : Made).
        map (λ (g : NewGrant). g.resource.resource) (user_grants two_uuids small_sdk r))
      (record {
        id = record { resource_type = "user"; resource = "7" };
        display_name = "Ann Lee";
        options = with_resource_profile (user_profile two_uuids ann) ∷ [];
      }
        ∷ [])
    ≡ (bool_text true ∷ bool_text false ∷ []) ∷ []
unfolding user_grants profile_of split join put get_first_name_and_last_name
role_grants_example = refl

list_permission_resources_example :
    ((list_permission_resources two_uuids small_sdk listing_connector none "UserGroup").1
      ≡ "UserGroup")
    × Synced two_uuids small_sdk none
        (user_with (ann ∷ []))
        (group_with (record everyone { uuid = bool_text true } ∷ []))
        (scan_of "UserGroup" ∷ [])
        (list_permission_resources two_uuids small_sdk listing_connector none "UserGroup").0
list_permission_resources_example =
    list_permission_resources-Synced two_uuids small_sdk listing_connector none "UserGroup"
      "UserGroup" "UserGroup" "UserGroup" (scan_of "UserGroup" ∷ []) (ann ∷ [])
      (record everyone { uuid = bool_text true } ∷ []) refl refl refl

names_example : AreNamesOf "Ann van Lee" (get_first_name_and_last_name "Ann van Lee")
names_example = get_first_name_and_last_name_lem "Ann van Lee"

abbrev ann_resource : Made
ann_resource = record {
  id = record { resource_type = "user"; resource = itoa (pos 7) };
  display_name = "Ann Lee";
  options =
      with_resource_profile (user_profile two_uuids ann)
      ∷ with_resource_status true ""
      ∷ with_parent_resource_id none
      ∷ [];
}

created_account :
    create_account two_uuids small_sdk listing_connector
      (λ w. (ok "Ab1#", w))
      (some "ann@example.com")
      (some "Ann Lee")
      "User"
    ≡ (ok (ann_resource, "Ab1#"), "User")
unfolding create_account parse_into_user_resource
created_account = refl

create_account_example :
    (e : String) × (n : String) × (some "ann@example.com" ≡ some e)
    × (some "Ann Lee" ≡ some n)
    × Created two_uuids small_sdk listing_connector
        (λ w. (ok "Ab1#", w))
        e
        n
        "User"
        ann_resource
        "Ab1#"
        "User"
create_account_example =
    create_account_lem two_uuids small_sdk listing_connector (λ w. (ok "Ab1#", w))
      (some "ann@example.com") (some "Ann Lee") "User" "User" ann_resource "Ab1#" created_account
