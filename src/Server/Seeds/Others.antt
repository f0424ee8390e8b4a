-- ===== src/Server/Seeds/Others.antt =====
-- The roles, groups and permissions of `seed` in cmd/test-server/seeds.go.
use baton_tenable_vm.Prelude.{
  Bool, List, String, [], false, pos, string_eq, true, ℕ_eq, ℤ, ℤ_eq, ◌∷◌,
}
use baton_tenable_vm.Server.Types.{Role, Group, Permission, PermissionSubject, PermissionObject}
use baton_tenable_vm.Server.State.Users.{all_users_group_uuid}
use baton_tenable_vm.Server.Seeds.Constants.{
  container_uuid, role_admin_uuid, role_scan_mgr_uuid, role_basic_uuid, role_custom_uuid,
  user_alice_uuid, user_bob_uuid, user_eve_uuid, email_alice, email_bob, email_eve, group_eng_uuid,
  group_product_uuid, group_ops_uuid, group_contractors_uuid, perm_assets_uuid, perm_tag_uuid,
  perm_all_users_uuid, perm_all_admins_uuid, subject_type_user, subject_type_user_group,
  subject_type_all_users, subject_type_all_admins, action_can_view, action_can_scan,
  action_can_edit, object_type_all_assets, created_by_system, role_status_enabled,
  role_type_standard, role_type_custom, role_name_basic, perm_vuln_read,
}

abbrev pub seed_roles : List Role
seed_roles =
    record {
      uuid = role_admin_uuid;
      name = "Administrator";
      description = "Full administrative access to all features.";
      role_permission_strings =
          "TIO_BACKEND.ACCESS_CONTROL.MANAGE" ∷ "TIO_BACKEND.SCAN.MANAGE" ∷ [];
      type = role_type_standard;
      status = role_status_enabled;
    }
    ∷ record {
      uuid = role_scan_mgr_uuid;
      name = "Scan Manager";
      description = "Manage scans and view vulnerabilities.";
      role_permission_strings = "TIO_BACKEND.SCAN.MANAGE" ∷ perm_vuln_read ∷ [];
      type = role_type_standard;
      status = role_status_enabled;
    }
    ∷ record {
      uuid = role_basic_uuid;
      name = role_name_basic;
      description = "Read-only basic access.";
      role_permission_strings = perm_vuln_read ∷ [];
      type = role_type_standard;
      status = role_status_enabled;
    }
    ∷ record {
      uuid = role_custom_uuid;
      name = "Security Analyst";
      description = "Custom role for security analysts.";
      role_permission_strings = perm_vuln_read ∷ "TIO_BACKEND.ASSET.READ" ∷ [];
      type = role_type_custom;
      status = role_status_enabled;
    }
    ∷ []

abbrev seed_group_of : String → ℤ → String → Bool → Group
seed_group_of uuid id name fixed = record {
  uuid = uuid;
  id = id;
  name = name;
  user_count = pos 0;
  container_uuid = container_uuid;
  immutable = fixed;
  membership_fixed = fixed;
}

abbrev pub seed_groups : List Group
seed_groups =
    seed_group_of all_users_group_uuid (pos 0) "All Users" true
    ∷ seed_group_of group_eng_uuid (pos 101) "Engineering" false
    ∷ seed_group_of group_product_uuid (pos 102) "Product" false
    ∷ seed_group_of group_ops_uuid (pos 103) "Operations" false
    ∷ seed_group_of group_contractors_uuid (pos 104) "Contractors" false
    ∷ []

abbrev subject : String → String → String → PermissionSubject
subject type uuid name = record { type = type; uuid = uuid; name = name }

abbrev object : String → String → String → PermissionObject
object type uuid name = record { type = type; uuid = uuid; name = name }

abbrev seed_permission_of :
    String
    → String
    → List String
    → List PermissionObject
    → List PermissionSubject
    → ℤ
    → String
    → Permission
seed_permission_of uuid name actions objects subjects created_at created_by = record {
  uuid = uuid;
  name = name;
  actions = actions;
  objects = objects;
  subjects = subjects;
  created_at = created_at;
  created_by = created_by;
  updated_at = pos 0;
  updated_by = "";
}

abbrev all_assets : List PermissionObject
all_assets = object object_type_all_assets "" "" ∷ []

abbrev pub seed_permissions : List Permission
seed_permissions =
    seed_permission_of perm_assets_uuid "All Assets [CanScan, CanView]"
      (action_can_view ∷ action_can_scan ∷ []) all_assets
      (subject subject_type_user user_alice_uuid email_alice
        ∷ subject subject_type_user_group group_eng_uuid "Engineering"
        ∷ [])
      (pos 1648122396493) created_by_system
    ∷ seed_permission_of perm_tag_uuid "Tag 'Location:Headquarters' owner permissions"
        ("CanUse" ∷ "CanEdit" ∷ [])
        (object "Tag" "e5f6a7b8-c9d0-1234-ef56-7890abcdef12" "Location:Headquarters" ∷ [])
        (subject subject_type_user user_eve_uuid email_eve ∷ []) (pos 1706909726620) email_eve
    ∷ seed_permission_of perm_all_users_uuid "All Assets [CanView] for everyone"
        (action_can_view ∷ []) all_assets (subject subject_type_all_users "" "" ∷ [])
        (pos 1706909726620) created_by_system
    ∷ seed_permission_of perm_all_admins_uuid "Administrative baseline"
        (action_can_view ∷ action_can_edit ∷ []) all_assets
        (subject subject_type_all_admins "" ""
          ∷ subject subject_type_user user_bob_uuid email_bob
          ∷ [])
        (pos 1706909726620) created_by_system
    ∷ []
