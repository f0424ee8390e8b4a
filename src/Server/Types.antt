-- ===== src/Server/Types.antt =====
-- The objects of cmd/test-server/state.go. A Go slice is a list; nil and empty are one value.
use baton_tenable_vm.Prelude.{Bool, List, String, [], false, pos, string_eq, ℕ_eq, ℤ, ℤ_eq}

pub record RbacRole : Type 0 where
  pub uuid : String
  pub name : String

pub record User : Type 0 where
  pub uuid : String
  pub id : ℤ
  pub username : String
  pub email : String
  pub name : String
  pub permissions : ℤ
  pub enabled : Bool
  pub last_login : ℤ
  pub container_uuid : String
  pub group_uuids : List String
  pub rbac_roles : List RbacRole

pub record Group : Type 0 where
  pub uuid : String
  pub id : ℤ
  pub name : String
  pub user_count : ℤ
  pub container_uuid : String
  pub immutable : Bool
  pub membership_fixed : Bool

pub record Role : Type 0 where
  pub uuid : String
  pub name : String
  pub description : String
  pub role_permission_strings : List String
  pub type : String
  pub status : String

pub record PermissionSubject : Type 0 where
  pub type : String
  pub uuid : String
  pub name : String

pub record PermissionObject : Type 0 where
  pub type : String
  pub uuid : String
  pub name : String

pub record Permission : Type 0 where
  pub uuid : String
  pub name : String
  pub actions : List String
  pub objects : List PermissionObject
  pub subjects : List PermissionSubject
  pub created_at : ℤ
  pub created_by : String
  pub updated_at : ℤ
  pub updated_by : String

-- The zero values of Go, with which unused memory is filled.
abbrev pub zero_user : User
zero_user = record {
  uuid = "";
  id = pos 0;
  username = "";
  email = "";
  name = "";
  permissions = pos 0;
  enabled = false;
  last_login = pos 0;
  container_uuid = "";
  group_uuids = [];
  rbac_roles = [];
}

abbrev pub zero_group : Group
zero_group = record {
  uuid = "";
  id = pos 0;
  name = "";
  user_count = pos 0;
  container_uuid = "";
  immutable = false;
  membership_fixed = false;
}

abbrev pub zero_role : Role
zero_role = record {
  uuid = "";
  name = "";
  description = "";
  role_permission_strings = [];
  type = "";
  status = "";
}

abbrev pub zero_permission : Permission
zero_permission = record {
  uuid = "";
  name = "";
  actions = [];
  objects = [];
  subjects = [];
  created_at = pos 0;
  created_by = "";
  updated_at = pos 0;
  updated_by = "";
}
